-- ===== src/Replication/Partition.antt =====
-- That `parse_group_sequence` of checkpointing/local/replication/group_utils.py divides the ranks.
use native.Mathlib.Nat.{mul_assoc, mul_comm}
use native.Mathlib.Omega.{div_any}
use nvidia_resiliency_ext_x.Prelude.{
  ℕ, zero, suc, ◌+◌, ◌*◌, ◌/◌, ◌%◌, ◌≤◌, ◌<◌, ◌≡◌, refl, sym, subst, ap, ◌∙◌, List, [], ◌∷◌, ◌++◌,
  length, All, arith, if◌then◌else◌, ltb, Bool-cases, inl, inr,
}
use nvidia_resiliency_ext_x.Prelude.Eq.{number_keys}
use nvidia_resiliency_ext_x.Prelude.Keys.{count, count-append}
use nvidia_resiliency_ext_x.Prelude.Sorting.{insert, sorted}
use nvidia_resiliency_ext_x.Prelude.Method.{ok}
use nvidia_resiliency_ext_x.Replication.Groups.{
  batched, column, stepped, le_group, columns, sorted_groups, parse_group_sequence,
}
use nvidia_resiliency_ext_x.Replication.Columns.{
  inside, total, total-inside, stepped-eq-column, members, IsSpaced, AreBatches, batches-column,
}

length-column : (s jump m : ℕ) → length (column s jump m) ≡ m
unfolding column
length-column s jump zero = refl
length-column s jump (suc m) = omega (arith, length-column (s + jump) jump m)

batched-column :
    (s jump size c m : ℕ)
    → m ≡ c * suc size
    → (gs : List (List ℕ)) × (batched (suc size) (column s jump m) ≡ ok gs)
      × AreBatches jump (suc size) (column s jump m) gs
unfolding batched
batched-column s jump size c m e =
    let enough = length-column s jump m in
    (
      _,
      ground arith,
      batches-column (length (column s jump m)) s jump size c m e (omega (arith, enough)),
    )

All-append : (P : List ℕ → Type 0) (gs hs : List (List ℕ)) → All P gs → All P hs → All P (gs ++ hs)
All-append P [] hs w v = v
All-append P (g ∷ gs) hs w v = (w.0, All-append P gs hs w.1 v)

count-members-append :
    (r : ℕ) (gs hs : List (List ℕ))
    → count r (members (gs ++ hs)) ≡ count r (members gs) + count r (members hs)
unfolding members count
count-members-append r [] hs = omega arith
count-members-append r (g ∷ gs) hs = omega (
  arith,
  count-members-append r gs hs,
  count-append r g (members (gs ++ hs)),
  count-append r g (members gs),
)

-- What the loop makes of its result: groups like the ones before, with the items of the columns.
abbrev pub AreColumns : ℕ → ℕ → ℕ → ℕ → ℕ → List (List ℕ) → List (List ℕ) → Type 0
AreColumns jump size rows modulus k result out =
    All (IsSpaced jump size) out
    × ((r : ℕ) → count r (members out) ≡ count r (members result) + total r modulus jump rows k)

columns-step :
    (jump size world_size modulus k : ℕ) (result gs : List (List ℕ))
    → batched size (stepped modulus world_size jump) ≡ ok gs
    → columns jump size world_size modulus (suc k) result
      ≡ columns jump size world_size (modulus + 1) k (result ++ gs)
unfolding columns
columns-step jump size world_size modulus k result gs e = rw (columns, e) refl

columns-AreColumns :
    (jump size c rows modulus k : ℕ) (result : List (List ℕ))
    → rows ≡ c * suc size
    → modulus + k ≤ jump
    → All (IsSpaced jump (suc size)) result
    → (out : List (List ℕ)) × (columns jump (suc size) (rows * jump) modulus k result ≡ ok out)
      × AreColumns jump (suc size) rows modulus k result out
unfolding columns total
columns-AreColumns jump size c rows modulus zero result e h w =
    (result, refl, (w, λ r. omega arith))
columns-AreColumns jump size c rows modulus (suc k) result e h w =
    let (gs, b, (spaced, items)) = batched-column modulus jump size c rows e in
    let start = stepped-eq-column modulus jump rows (omega arith) in
    let first = subst (λ xs. batched (suc size) xs ≡ ok gs) (sym start) b in
    let (out, r, (more, counts)) =
      columns-AreColumns jump size c rows (modulus + 1) k (result ++ gs) e (omega arith)
        (All-append (IsSpaced jump (suc size)) result gs w spaced) in
    (
      out,
      columns-step jump (suc size) (rows * jump) modulus k result gs first ∙ r,
      (more, λ x. omega (arith, counts x, items x, count-members-append x result gs)),
    )

insert-keeps :
    (P : List ℕ → Type 0) (g : List ℕ) (gs : List (List ℕ))
    → P g
    → All P gs
    → All P (insert le_group g gs)
      × ((r : ℕ) → count r (members (insert le_group g gs)) ≡ count r g + count r (members gs))
unfolding insert members
insert-keeps P g [] p w = ((p, tt), λ r. count-append r g [])
insert-keeps P g (h ∷ gs) p w = elim (Bool-cases (le_group g h)) [
  | inl e ↦ rw e ((p, w), λ r. count-append r g (h ++ members gs))
  | inr e ↦
      let (v, c) = insert-keeps P g gs p w.1 in
      rw e (
        (w.0, v),
        λ r. omega (
          arith,
          c r,
          count-append r h (members (insert le_group g gs)),
          count-append r h (members gs),
        ),
      )
]

sorted-keeps :
    (P : List ℕ → Type 0) (gs : List (List ℕ))
    → All P gs
    → All P (sorted le_group gs)
      × ((r : ℕ) → count r (members (sorted le_group gs)) ≡ count r (members gs))
unfolding sorted members
sorted-keeps P [] w = (tt, λ r. refl)
sorted-keeps P (g ∷ gs) w =
    let (v, c) = sorted-keeps P gs w.1 in
    let (u, d) = insert-keeps P g (sorted le_group gs) w.0 v in
    (u, λ r. omega (arith, c r, d r, count-append r g (members gs)))

-- The number of ranks, as the table that is cut.
table :
    (jump factor world_size : ℕ)
    → world_size % (jump * factor) ≡ 0
    → ((world_size / (jump * factor)) * factor) * jump ≡ world_size
table jump factor world_size h =
    let c = world_size / (jump * factor) in
    mul_assoc c factor jump
    ∙ ap (λ x. c * x) (mul_comm factor jump)
    ∙ mul_comm c (jump * factor)
    ∙ omega (arith, div_any world_size (jump * factor), h)

inside-zero : (r n : ℕ) → 0 + inside r 0 n ≡ (if ltb r n then 1 else 0)
inside-zero r n = ground arith

parse_group_sequence-eq :
    (jump factor world_size : ℕ)
    → 0 < jump
    → 0 < factor
    → world_size % (jump * factor) ≡ 0
    → parse_group_sequence jump factor world_size
      ≡ sorted_groups (columns jump factor world_size 0 jump [])
unfolding parse_group_sequence
parse_group_sequence-eq jump factor world_size h k m = ground arith

-- If the jump and the factor are positive and their product divides the number of ranks,
-- parse_group_sequence returns groups, each of factor ranks that are jump apart, and every rank of
-- the world stands once in all groups together, and no other number does.
pub parse_group_sequence-IsPartition :
    (jump factor world_size : ℕ)
    → 0 < jump
    → 0 < factor
    → world_size % (jump * factor) ≡ 0
    → (groups : List (List ℕ)) × (parse_group_sequence jump factor world_size ≡ ok groups)
      × All (IsSpaced jump factor) groups
      × ((r : ℕ) → count r (members groups) ≡ (if ltb r world_size then 1 else 0))
unfolding members count
parse_group_sequence-IsPartition jump zero world_size h k m = absurd (omega arith)
parse_group_sequence-IsPartition jump (suc size) world_size h k m =
    let c = world_size / (jump * suc size) in
    let rows = c * suc size in
    let whole = table jump (suc size) world_size m in
    let (out, e, (spaced, items)) =
      columns-AreColumns jump size c rows 0 jump [] refl (omega arith) tt in
    let (v, d) = sorted-keeps (IsSpaced jump (suc size)) out spaced in
    (
      sorted le_group out,
      parse_group_sequence-eq jump (suc size) world_size h k m
          ∙ ap sorted_groups (subst (λ w. columns jump (suc size) w 0 jump [] ≡ ok out) whole e),
      v,
      λ r.
          d r
          ∙ items r
          ∙ ap (λ x. 0 + x) (total-inside r 0 jump rows)
          ∙ inside-zero r (rows * jump)
          ∙ ap (λ w. if ltb r w then 1 else 0) whole,
    )
