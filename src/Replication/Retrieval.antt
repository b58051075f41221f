-- ===== src/Replication/Retrieval.antt =====
-- Retrieval as a whole: the plan of checkpointing/local/replication/strategies.py, executed by
-- group_utils.py.
use mathlib.Core.List.{cons≢nil, head-eq_of_cons-eq, tail-eq_of_cons-eq}
use nvidia_resiliency_ext_x.Prelude.{
  ℕ, true, false, ◌≡◌, refl, sym, subst, ap, ◌∙◌, some, List, [], ◌∷◌, map, All, arith, Bool-cases,
  inl, inr,
}
use nvidia_resiliency_ext_x.Prelude.Eq.{KeyEq, ◌==◌, ==_iff, number_keys}
use nvidia_resiliency_ext_x.Prelude.Dict.{Dict, get, has, put, get-of_has}
use nvidia_resiliency_ext_x.Prelude.Keys.{contains}
use nvidia_resiliency_ext_x.Prelude.Method.{Exceptional, ok, err}
use nvidia_resiliency_ext_x.Replication.Exchange.{ExchangePlanEntry, Wire, execute_plan}
use nvidia_resiliency_ext_x.Replication.Strategies.{PlanError, Random, retrieve_plan}
use nvidia_resiliency_ext_x.Replication.Delivery.{copied, payloads, IsHeld, execute_plan-copied}
use nvidia_resiliency_ext_x.Replication.Planning.{
  holds, is_available, IsIndexed, IsChoosing, IsSource,
}
use nvidia_resiliency_ext_x.Replication.Outcomes.{
  request, requests, asked, IsAnswer, retrieve_plan-IsAnswer,
}

-- Every rank stands once.
abbrev pub IsDistinct : List ℕ → Type 0
IsDistinct [] = Unit
IsDistinct (r ∷ rs) = (contains r rs ≡ false) × IsDistinct rs

module _ {Ident D : Type 0} ⦃keyed : KeyEq Ident⦄ (world : ℕ → Dict Ident D)
    (want : ℕ → Ident) where
  -- Each rank wants one id.
  abbrev pub wanted : List ℕ → List (List Ident)
  wanted [] = []
  wanted (r ∷ rs) = (want r ∷ []) ∷ wanted rs

  copied_none :
      (rank : ℕ) (entries : List (ExchangePlanEntry Ident)) (ranks : List ℕ) (buf : Dict Ident D)
      → map request entries ≡ requests ranks (wanted ranks)
      → contains rank ranks ≡ false
      → copied world rank entries buf ≡ buf
  unfolding copied contains
  copied_none rank [] ranks buf e absent = refl
  copied_none rank (x ∷ xs) [] buf e absent = absurd (cons≢nil e)
  copied_none rank (x ∷ xs) (r ∷ rs) buf e absent =
      let p : ◌≡◌ {A = ℕ × Ident} (x.receiver, x.id) (r, want r) = head-eq_of_cons-eq e in
      let same : x.receiver ≡ r = ap (λ (q : ℕ × Ident). q.0) p in
      let other : (x.receiver == rank) ≡ false = ground arith in
      rw other (copied_none rank xs rs buf (tail-eq_of_cons-eq e) (ground arith))

  -- The id and the value that a rank gets; the value is that of a rank that has the id.
  pub record IsDelivered (globally : List (List Ident)) (rank : ℕ) (got : Dict Ident D)
      : Type 0 where
    pub sender : ℕ
    pub value : D
    pub from_holder : holds globally (want rank) sender ≡ true
    pub stored : get (want rank) (world sender) ≡ some value
    pub only : got ≡ (want rank, value) ∷ []

  module _ (R : Random) (law : IsChoosing R) (group : List ℕ) (globally : List (List Ident))
      (loaded : (r : ℕ) (k : Ident) → holds globally k r ≡ true → has k (world r) ≡ true) where
    copied-IsDelivered :
        (rank : ℕ) (entries : List (ExchangePlanEntry Ident)) (ranks : List ℕ)
        → IsDistinct ranks
        → map request entries ≡ requests ranks (wanted ranks)
        → All (λ x. IsSource R law group globally x.receiver x.id x.sender) entries
        → contains rank ranks ≡ true
        → IsDelivered globally rank (copied world rank entries [])
    unfolding copied contains put
    copied-IsDelivered rank [] [] distinct e sources there = ground arith
    copied-IsDelivered rank [] (r ∷ rs) distinct e sources there = absurd (cons≢nil (sym e))
    copied-IsDelivered rank (x ∷ xs) [] distinct e sources there = ground arith
    copied-IsDelivered rank (x ∷ xs) (r ∷ rs) (once, distinct) e (source, sources) there =
        let p : ◌≡◌ {A = ℕ × Ident} (x.receiver, x.id) (r, want r) = head-eq_of_cons-eq e in
        let same : x.receiver ≡ r = ap (λ (q : ℕ × Ident). q.0) p in
        let same_id : x.id ≡ want r = ap (λ (q : ℕ × Ident). q.1) p in
        let rest = tail-eq_of_cons-eq e in
        elim (Bool-cases (x.receiver == rank)) [
          | inl mine ↦
              let is_rank : r ≡ rank = ground (arith, ==_iff x.receiver rank) in
              let id_wanted : x.id ≡ want rank = same_id ∙ ap want is_rank in
              let (d, found) =
                get-of_has x.id (world x.sender) (loaded x.sender x.id source.has_id) in
              record {
                sender = x.sender;
                value = d;
                from_holder = subst (λ k. holds globally k x.sender ≡ true) id_wanted source.has_id;
                stored = subst (λ k. get k (world x.sender) ≡ some d) id_wanted found;
                only =
                    rw (mine, found)
                      (copied_none rank xs rs _ rest
                          (subst (λ j. contains j rs ≡ false) is_rank once)
                        ∙ ap (λ k. (k, d) ∷ []) id_wanted);
              }
          | inr other ↦
              rw other (copied-IsDelivered rank xs rs distinct rest sources (ground arith))
        ]

    sources-IsHeld :
        (entries : List (ExchangePlanEntry Ident))
        → All (λ x. IsSource R law group globally x.receiver x.id x.sender) entries
        → All (IsHeld world) entries
    sources-IsHeld [] sources = tt
    sources-IsHeld (x ∷ xs) (source, sources) =
        (loaded x.sender x.id source.has_id, sources-IsHeld xs sources)

    available-of_asked :
        (k : Ident) (ranks : List ℕ)
        → All (λ r. is_available globally (want r) group ≡ true) ranks
        → contains k (asked (requests ranks (wanted ranks))) ≡ true
        → is_available globally k group ≡ true
    unfolding contains
    available-of_asked k [] available there = ground arith
    available-of_asked k (r ∷ rs) (p, available) there =
        ground (arith, available-of_asked k rs available, ==_iff (want r) k)

    -- The messages that reach a rank are what the others send to it, in order.
    abbrev pub arriving : ℕ → List (ExchangePlanEntry Ident) → Wire D
    arriving rank entries = record { inbox = λ s. payloads world s rank entries; outbox = [] }

    -- If the ranks of the group are distinct and listed, each wants one id that some rank of the
    -- group has, and each has loaded the ids that it is listed with, then retrieve_plan returns a
    -- plan, and executing it gives every rank the one id that it wants, with the value of a rank
    -- that has it.
    pub execute_plan-retrieve_plan :
        (rank : ℕ)
        → IsDistinct group
        → IsIndexed globally group
        → All (λ r. is_available globally (want r) group ≡ true) group
        → contains rank group ≡ true
        → (entries : List (ExchangePlanEntry Ident)) × (got : Dict Ident D) × (t : Wire D)
          × (retrieve_plan R group globally (wanted group) ≡ ok entries)
          × (execute_plan rank entries (world rank) (arriving rank entries) ≡ (ok got, t))
          × IsDelivered globally rank got
    unfolding IsAnswer
    execute_plan-retrieve_plan rank distinct indexed available there =
        go (retrieve_plan R group globally (wanted group)) refl
          (retrieve_plan-IsAnswer R law group globally (wanted group) indexed)
      where
        go :
            (r : Exceptional (PlanError Ident) (List (ExchangePlanEntry Ident)))
            → retrieve_plan R group globally (wanted group) ≡ r
            → IsAnswer R law group globally (requests group (wanted group)) r
            → (entries : List (ExchangePlanEntry Ident)) × (got : Dict Ident D) × (t : Wire D)
              × (retrieve_plan R group globally (wanted group) ≡ ok entries)
              × (execute_plan rank entries (world rank) (arriving rank entries) ≡ (ok got, t))
              × IsDelivered globally rank got
        go (err x) e (k, _, is_asked, absent) =
            let present = available-of_asked k group available is_asked in ground arith
        go (ok entries) e (m, sources) =
            let held = sources-IsHeld entries sources in
            let (t, run, _, _) =
              execute_plan-copied world rank entries (arriving rank entries) held (λ s. refl)
                refl in
            (
              entries,
              copied world rank entries [],
              t,
              e,
              run,
              copied-IsDelivered rank entries group distinct m sources there,
            )
