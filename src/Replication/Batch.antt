-- ===== src/Replication/Batch.antt =====
-- `all_gather_batch` of checkpointing/local/replication/group_utils.py: every rank of a group gets
-- the tensors of all, by one broadcast for each tensor. What torch does is a parameter: the gathering
-- of the placeholders, an empty tensor for a placeholder, the broadcast of a tensor, and its move to
-- a device.
use nvidia_resiliency_ext_x.Prelude.{
  ℕ, suc, ◌+◌, Bool, true, false, ◌≡◌, refl, Option, none, some, List, [], ◌∷◌, map, arith, eqb,
  Bool-cases, inl, inr,
}
use nvidia_resiliency_ext_x.Prelude.Method.{Exceptional, ok, err}
use nvidia_resiliency_ext_x.Checkpoint.StateDict.{StateError, index_error}
use nvidia_resiliency_ext_x.Replication.Strategies.{get_elem?}

-- A rank's view of its group. `broadcast` gives what the tensor of this call holds after it, for
-- the rank that sends and the number of its tensor.
pub record Group (Tensor Properties Device : Type 0) : Type 0 where
  pub my_group_rank : ℕ
  pub gather_placeholders : List Properties → List (List Properties)
  pub empty_like : Properties → Tensor
  pub broadcast : ℕ → ℕ → Tensor → Tensor
  pub to : Device → Tensor → Tensor

abbrev pub prepended :
    {A : Type 0} → A → Exceptional StateError (List A) → Exceptional StateError (List A)
prepended a (err x) = err x
prepended a (ok rest) = ok (a ∷ rest)

module _ {Tensor : Type 0} where
  -- `my_tensors[i]` at the rank that broadcasts, an empty tensor at the others.
  abbrev pub chosen : Bool → Option Tensor → Tensor → Exceptional StateError Tensor
  chosen true none empty = err index_error
  chosen true (some ten) empty = ok ten
  chosen false _ empty = ok empty

  abbrev pub appended :
      (Tensor → Tensor)
      → Exceptional StateError Tensor
      → Exceptional StateError (List Tensor)
      → Exceptional StateError (List Tensor)
  appended f (err x) rest = err x
  appended f (ok ten) rest = prepended (f ten) rest

  abbrev pub joined :
      Exceptional StateError (List Tensor)
      → Exceptional StateError (List (List Tensor))
      → Exceptional StateError (List (List Tensor))
  joined (err x) rest = err x
  joined (ok ts) rest = prepended ts rest

module _ {Tensor Properties Device : Type 0} where
  -- The last step of the inner loop.
  abbrev pub moved : Group Tensor Properties Device → Option Device → Tensor → Tensor
  moved g none ten = ten
  moved g (some device) ten = g.to device ten

  -- The inner loop, from tensor `i` of the rank that broadcasts.
  unfoldable pub receive_batch :
      Group Tensor Properties Device
      → Option Device
      → List Tensor
      → ℕ
      → ℕ
      → List Properties
      → Exceptional StateError (List Tensor)
  unfolding get_elem?
  receive_batch g target my_tensors r i [] = ok []
  receive_batch g target my_tensors r i (tp ∷ tps) =
      appended (λ ten. moved g target (g.broadcast r i ten))
        (chosen (eqb r g.my_group_rank) (get_elem? my_tensors i) (g.empty_like tp))
        (receive_batch g target my_tensors r (suc i) tps)

  -- The outer loop, from the rank `r`.
  unfoldable pub receive_all :
      Group Tensor Properties Device
      → Option Device
      → List Tensor
      → ℕ
      → List (List Properties)
      → Exceptional StateError (List (List Tensor))
  unfolding receive_batch
  receive_all g target my_tensors r [] = ok []
  receive_all g target my_tensors r (tps ∷ gathered) =
      joined (receive_batch g target my_tensors r 0 tps)
        (receive_all g target my_tensors (suc r) gathered)

  unfoldable pub all_gather_batch :
      Group Tensor Properties Device
      → (Tensor → Properties)
      → Option Device
      → List Tensor
      → Exceptional StateError (List (List Tensor))
  unfolding receive_all
  all_gather_batch g properties target my_tensors =
      receive_all g target my_tensors 0 (g.gather_placeholders (map properties my_tensors))

  module _ (g : Group Tensor Properties Device) (properties : Tensor → Properties)
      (target : Option Device) where
    -- A broadcast leaves the sender's tensor, and fills the empty one of any other rank with the
    -- same contents, so that on the target device the two are the same.
    abbrev pub IsBroadcast : ℕ → ℕ → List Tensor → Type 0
    IsBroadcast r i [] = Unit
    IsBroadcast r i (t ∷ ts) =
        (eqb r g.my_group_rank ≡ true → g.broadcast r i t ≡ t)
        × (eqb r g.my_group_rank ≡ false
            → moved g target (g.broadcast r i (g.empty_like (properties t))) ≡ moved g target t)
        × IsBroadcast r (suc i) ts

    abbrev pub AreBroadcast : ℕ → List (List Tensor) → Type 0
    AreBroadcast r [] = Unit
    AreBroadcast r (ts ∷ tss) = IsBroadcast r 0 ts × AreBroadcast (suc r) tss

    receive_batch-eq_ok :
        (my_tensors : List Tensor) (r i : ℕ) (ts : List Tensor)
        → (eqb r g.my_group_rank ≡ true → (j : ℕ) → get_elem? my_tensors (j + i) ≡ get_elem? ts j)
        → IsBroadcast r i ts
        → receive_batch g target my_tensors r i (map properties ts) ≡ ok (map (moved g target) ts)
    unfolding receive_batch get_elem?
    receive_batch-eq_ok my_tensors r i [] own b = refl
    receive_batch-eq_ok my_tensors r i (t ∷ ts) own (kept, filled, b) =
        let rest =
          receive_batch-eq_ok my_tensors r (suc i) ts
            (λ e j.
              let at : get_elem? my_tensors (suc j + i) ≡ get_elem? ts j = own e (suc j) in
              ground (arith, at))
            b in
        elim (Bool-cases (eqb r g.my_group_rank)) [
          | inl is_own ↦
              let first : get_elem? my_tensors i ≡ some t = ground (arith, own is_own 0) in
              rw (is_own, first, kept is_own, rest) refl
          | inr other ↦ rw (other, filled other, rest) refl
        ]

    receive_all-eq_ok :
        (my_tensors : List Tensor) (r : ℕ) (tss : List (List Tensor))
        → ((k : ℕ)
            → k + r ≡ g.my_group_rank
            → (ts : List Tensor) → get_elem? tss k ≡ some ts
            → ts ≡ my_tensors)
        → AreBroadcast r tss
        → receive_all g target my_tensors r (map (map properties) tss)
          ≡ ok (map (map (moved g target)) tss)
    unfolding receive_all get_elem?
    receive_all-eq_ok my_tensors r [] own b = refl
    receive_all-eq_ok my_tensors r (ts ∷ tss) own (b, bs) =
        rw
          (
            receive_batch-eq_ok my_tensors r 0 ts
                (λ e j. let same = own 0 (ground arith) ts refl in ground (arith, same)) b,
            receive_all-eq_ok my_tensors (suc r) tss (λ k e. own (suc k) (ground arith)) bs,
          )
          refl

  -- What a rank gets is the tensors of the group, moved.
  pub all_gather_batch-eq_ok :
      (g : Group Tensor Properties Device) (properties : Tensor → Properties)
      (target : Option Device) (my_tensors : List Tensor) (tss : List (List Tensor))
      → g.gather_placeholders (map properties my_tensors) ≡ map (map properties) tss
      → get_elem? tss g.my_group_rank ≡ some my_tensors
      → AreBroadcast g properties target 0 tss
      → all_gather_batch g properties target my_tensors ≡ ok (map (map (moved g target)) tss)
  unfolding all_gather_batch
  all_gather_batch-eq_ok g properties target my_tensors tss gathered mine b =
      let own : (k : ℕ)
          → k + 0 ≡ g.my_group_rank
          → (ts : List Tensor) → get_elem? tss k ≡ some ts
          → ts ≡ my_tensors =
        λ k e ts at. ground (arith, at, mine) in
      rw (gathered, receive_all-eq_ok g properties target my_tensors 0 tss own b) refl
