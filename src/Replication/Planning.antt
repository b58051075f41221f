-- ===== src/Replication/Planning.antt =====
-- What a retrieval plan of checkpointing/local/replication/strategies.py asks of the ranks, and when
-- there is one.
use nvidia_resiliency_ext_x.Prelude.{
  ℕ, Bool, true, false, ◌&&◌, ◌||◌, ◌≡◌, refl, sym, subst, ◌∙◌, ◌≢◌, Option, none, some, List, [],
  ◌∷◌, All, arith, leb, Bool-cases, if-cases, inl, inr,
}
use nvidia_resiliency_ext_x.Prelude.Eq.{KeyEq, ==_iff, eq_self, number_keys}
use nvidia_resiliency_ext_x.Prelude.Keys.{contains, contains-add}
use nvidia_resiliency_ext_x.Prelude.Sorting.{sorted, contains-sorted}
use nvidia_resiliency_ext_x.Prelude.Method.{ok}
use nvidia_resiliency_ext_x.Replication.Strategies.{
  get_elem?, Random, add_if, available_at, choose_sender,
}

module _ {Ident : Type 0} ⦃keyed : KeyEq Ident⦄ where
  abbrev listed : Ident → Option (List Ident) → Bool
  listed k none = false
  listed k (some ids) = contains k ids

  -- A rank has an id.
  unfoldable pub holds : List (List Ident) → Ident → ℕ → Bool
  unfolding get_elem?
  holds globally k rank = listed k (get_elem? globally rank)

  unfoldable pub is_available : List (List Ident) → Ident → List ℕ → Bool
  unfolding holds
  is_available globally k [] = false
  is_available globally k (r ∷ rs) = holds globally k r || is_available globally k rs

  -- Every rank has a list of ids.
  abbrev pub IsIndexed : List (List Ident) → List ℕ → Type 0
  IsIndexed globally = All (λ r. (ids : List Ident) × (get_elem? globally r ≡ some ids))

  -- The set of the ranks that have the id.
  unfoldable pub holders : Ident → List (List Ident) → List ℕ → List ℕ → List ℕ
  unfolding holds
  holders k globally [] found = found
  holders k globally (r ∷ rs) found = holders k globally rs (add_if (holds globally k r) r found)

  pub available_at-holders :
      (k : Ident) (globally : List (List Ident)) (ranks found : List ℕ)
      → IsIndexed globally ranks
      → available_at k globally ranks found ≡ ok (holders k globally ranks found)
  unfolding available_at holders holds
  available_at-holders k globally [] found indexed = refl
  available_at-holders k globally (r ∷ rs) found ((ids, p), indexed) =
      rw (available_at, p)
        (available_at-holders k globally rs (add_if (contains k ids) r found) indexed)

  contains-holders :
      (k : Ident) (globally : List (List Ident)) (ranks found : List ℕ) (r : ℕ)
      → contains r (holders k globally ranks found)
        ≡ (contains r found || (contains r ranks && holds globally k r))
  unfolding holders contains
  contains-holders k globally [] found r = ground arith
  contains-holders k globally (j ∷ ranks) found r = ground (
    arith,
    contains-holders k globally ranks (add_if (holds globally k j) j found) r,
    contains-add r j found,
    ==_iff j r,
  )

  is_available-of_holds :
      (k : Ident) (globally : List (List Ident)) (ranks : List ℕ) (r : ℕ)
      → contains r ranks ≡ true
      → holds globally k r ≡ true
      → is_available globally k ranks ≡ true
  unfolding is_available contains
  is_available-of_holds k globally [] r c h = ground arith
  is_available-of_holds k globally (j ∷ ranks) r c h =
      ground (arith, is_available-of_holds k globally ranks r, ==_iff j r)

  holds-of_available :
      (k : Ident) (globally : List (List Ident)) (ranks : List ℕ)
      → is_available globally k ranks ≡ true
      → (r : ℕ) × (contains r ranks ≡ true) × (holds globally k r ≡ true)
  unfolding is_available contains
  holds-of_available k globally [] h = ground arith
  holds-of_available k globally (j ∷ ranks) h = elim (Bool-cases (holds globally k j)) [
    | inl p ↦ (j, ground (arith, eq_self j), p)
    | inr p ↦
        let (r, c, q) = holds-of_available k globally ranks (ground arith) in (r, ground arith, q)
  ]

  pub holders-ne_nil :
      (k : Ident) (globally : List (List Ident)) (ranks : List ℕ)
      → is_available globally k ranks ≡ true
      → holders k globally ranks [] ≢ []
  unfolding contains
  holders-ne_nil k globally ranks h e =
      let (r, c, q) = holds-of_available k globally ranks h in
      let there : contains r (holders k globally ranks []) ≡ true =
        ground (arith, contains-holders k globally ranks [] r) in
      ground (arith, subst (λ s. contains r s ≡ true) e there)

  pub holders-eq_nil :
      (k : Ident) (globally : List (List Ident)) (ranks : List ℕ)
      → is_available globally k ranks ≡ false
      → holders k globally ranks [] ≡ []
  unfolding contains
  holders-eq_nil k globally ranks h = go (holders k globally ranks []) refl
    where
      go : (s : List ℕ) → holders k globally ranks [] ≡ s → s ≡ []
      go [] e = refl
      go (r ∷ s) e =
          let there : contains r (holders k globally ranks []) ≡ true =
            subst (λ l. contains r l ≡ true) (sym e) (ground (arith, eq_self r)) in
          ground (
            arith,
            contains-holders k globally ranks [] r,
            is_available-of_holds k globally ranks r,
          )

-- `choice` returns one of the numbers that it chooses from, if there are any.
pub record IsChoosing (R : Random) : Type 0 where
  pub chosen :
      (rng : R.State) (xs : List ℕ) (x : ℕ)
      → contains x xs ≡ true
      → contains (R.choice rng xs).0 xs ≡ true

module _ (R : Random) (law : IsChoosing R) {Ident : Type 0} ⦃keyed : KeyEq Ident⦄ (ranks : List ℕ)
    (globally : List (List Ident)) where
  -- A rank that may send an id to a receiver: one of the group that has it, and the receiver itself
  -- if that has it.
  pub record IsSource (receiver : ℕ) (k : Ident) (sender : ℕ) : Type 0 where
    pub in_group : contains sender ranks ≡ true
    pub has_id : holds globally k sender ≡ true
    pub own_first :
        contains receiver ranks ≡ true → holds globally k receiver ≡ true → sender ≡ receiver

  contains-choose_sender :
      (receiver : ℕ) (k : Ident) (rng : R.State)
      → is_available globally k ranks ≡ true
      → let s = holders k globally ranks [] in contains (choose_sender R receiver s rng).0 s ≡ true
  unfolding choose_sender contains
  contains-choose_sender receiver k rng h =
      let (r, c, q) = holds-of_available k globally ranks h in
      let s = holders k globally ranks [] in
      let there : contains r s ≡ true = ground (arith, contains-holders k globally ranks [] r) in
      let picked : contains (R.choice rng (sorted leb s)).0 s ≡ true =
        sym (contains-sorted leb _ s)
        ∙ law.chosen rng (sorted leb s) r (contains-sorted leb r s ∙ there) in
      if-cases (λ (p : ℕ × R.State). contains p.0 s ≡ true) (contains receiver s) (receiver, rng)
        (R.choice rng (sorted leb s)) (λ own. own) (λ _. picked)

  choose_sender-IsSource :
      (receiver : ℕ) (k : Ident) (rng : R.State)
      → is_available globally k ranks ≡ true
      → IsSource receiver k (choose_sender R receiver (holders k globally ranks []) rng).0
  unfolding contains choose_sender
  choose_sender-IsSource receiver k rng h =
      let s = holders k globally ranks [] in
      let sender = (choose_sender R receiver s rng).0 in
      let there = contains-choose_sender receiver k rng h in
      let both = contains-holders k globally ranks [] sender in
      record {
        in_group = ground (arith, there, both);
        has_id = ground (arith, there, both);
        own_first = λ c q. own s (ground (arith, contains-holders k globally ranks [] receiver));
      }
    where
      own :
          (s : List ℕ) → contains receiver s ≡ true → (choose_sender R receiver s rng).0 ≡ receiver
      own s e = rw e refl

  pub choose_sender-of_cons :
      (receiver : ℕ) (k : Ident) (rng : R.State) (r : ℕ) (rs : List ℕ)
      → is_available globally k ranks ≡ true
      → holders k globally ranks [] ≡ r ∷ rs
      → IsSource receiver k (choose_sender R receiver (r ∷ rs) rng).0
  choose_sender-of_cons receiver k rng r rs h e =
      subst (λ s. IsSource receiver k (choose_sender R receiver s rng).0) e
        (choose_sender-IsSource receiver k rng h)
