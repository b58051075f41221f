-- ===== src/Replication/Outcomes.antt =====
-- The outcome of `retrieve_plan` of checkpointing/local/replication/strategies.py.
use mathlib.Core.List.{append-nil, append_assoc, map-append}
use nvidia_resiliency_ext_x.Prelude.{
  ℕ, true, false, ◌≡◌, refl, sym, subst, ap, ◌∙◌, List, [], ◌∷◌, ◌++◌, map, All, arith, Bool-cases,
  inl, inr,
}
use nvidia_resiliency_ext_x.Prelude.Eq.{KeyEq, eq_self, number_keys}
use nvidia_resiliency_ext_x.Prelude.Keys.{contains, contains-append}
use nvidia_resiliency_ext_x.Prelude.Method.{Exceptional, ok, err, bind_result}
use nvidia_resiliency_ext_x.Replication.Exchange.{ExchangePlanEntry}
use nvidia_resiliency_ext_x.Replication.Strategies.{
  PlanError, no_replicas_available, Random, choose_sender, Planning, plan_from, plan_id,
  plan_wanted, plan_receivers, retrieve_plan,
}
use nvidia_resiliency_ext_x.Replication.Planning.{
  is_available, IsIndexed, holders, available_at-holders, holders-ne_nil, holders-eq_nil,
  IsChoosing, IsSource, choose_sender-of_cons,
}

All-append {ℓ κ} :
    {A : Type ℓ} (P : A → Type κ) (xs ys : List A) → All P xs → All P ys → All P (xs ++ ys)
All-append P [] ys h k = k
All-append P (x ∷ xs) ys (p, h) k = (p, All-append P xs ys h k)

module _ {Ident : Type 0} where
  abbrev pub request : ExchangePlanEntry Ident → ℕ × Ident
  request x = (x.receiver, x.id)

  -- What the ranks ask for, in the order in which it is planned.
  abbrev one_rank : ℕ → List Ident → List (ℕ × Ident)
  one_rank receiver [] = []
  one_rank receiver (k ∷ ks) = (receiver, k) ∷ one_rank receiver ks

  abbrev pub requests : List ℕ → List (List Ident) → List (ℕ × Ident)
  requests [] wanted = []
  requests (r ∷ rs) [] = []
  requests (r ∷ rs) (ks ∷ wanted) = one_rank r ks ++ requests rs wanted

  abbrev pub asked : List (ℕ × Ident) → List Ident
  asked = map (λ q. q.1)

module _ (R : Random) (law : IsChoosing R) {Ident : Type 0} ⦃keyed : KeyEq Ident⦄ (ranks : List ℕ)
    (globally : List (List Ident)) where
  -- After the entries so far, either one entry for each request, whose sender is a source for it, or
  -- the exception for an id that is asked for and that no rank of the group has.
  pub Outcome :
      List (ExchangePlanEntry Ident)
      → List (ℕ × Ident)
      → Exceptional (PlanError Ident) (Planning R Ident)
      → Type 0
  Outcome entries reqs (ok p) =
      (new : List (ExchangePlanEntry Ident)) × (p.1 ≡ entries ++ new)
      × (map request new ≡ reqs)
      × All (λ x. IsSource R law ranks globally x.receiver x.id x.sender) new
  Outcome entries reqs (err x) =
      (k : Ident) × (x ≡ no_replicas_available k)
      × (contains k (asked reqs) ≡ true)
      × (is_available globally k ranks ≡ false)

  Outcome-bind :
      (entries : List (ExchangePlanEntry Ident)) (reqs others : List (ℕ × Ident))
      (m : Exceptional (PlanError Ident) (Planning R Ident))
      (f : Planning R Ident → Exceptional (PlanError Ident) (Planning R Ident))
      → Outcome entries reqs m
      → ((p : Planning R Ident) → Outcome p.1 others (f p))
      → Outcome entries (reqs ++ others) (bind_result m f)
  unfolding Outcome
  Outcome-bind entries reqs others (err x) f (k, e, c, a) g =
      (k, e, rw (map-append, contains-append) (ground arith), a)
  Outcome-bind entries reqs others (ok p) f (new, e, m, s) g = join (f p) (g p)
    where
      join :
          (r : Exceptional (PlanError Ident) (Planning R Ident))
          → Outcome p.1 others r
          → Outcome entries (reqs ++ others) r
      join (err x) (k, e', c, a) = (k, e', rw (map-append, contains-append) (ground arith), a)
      join (ok q) (more, e', m', s') = (
        new ++ more,
        e' ∙ ap (λ l. l ++ more) e ∙ append_assoc entries new more,
        map-append _ new more ∙ ap (λ l. l ++ map request more) m ∙ ap (λ l. reqs ++ l) m',
        All-append _ new more s s',
      )

  plan_id-Outcome :
      (receiver : ℕ) (k : Ident) (p : Planning R Ident)
      → IsIndexed globally ranks
      → Outcome p.1 ((receiver, k) ∷ []) (plan_id R ranks globally receiver k p)
  unfolding plan_id plan_from Outcome contains
  plan_id-Outcome receiver k p indexed =
      rw (available_at-holders k globally ranks [] indexed)
        (elim (Bool-cases (is_available globally k ranks)) [
          | inl there ↦ found (holders k globally ranks []) refl there
          | inr absent ↦
              rw (holders-eq_nil k globally ranks absent)
                (k, refl, ground (arith, eq_self k), absent)
        ])
    where
      found :
          (s : List ℕ)
          → holders k globally ranks [] ≡ s
          → is_available globally k ranks ≡ true
          → Outcome p.1 ((receiver, k) ∷ []) (plan_from R receiver k p s)
      found [] e there = absurd (holders-ne_nil k globally ranks there e)
      found (r ∷ rs) e there = (
        record { sender = (choose_sender R receiver (r ∷ rs) p.0).0; receiver = receiver; id = k }
            ∷ [],
        refl,
        refl,
        (choose_sender-of_cons R law ranks globally receiver k p.0 r rs there e, tt),
      )

  plan_wanted-Outcome :
      (receiver : ℕ) (ks : List Ident) (p : Planning R Ident)
      → IsIndexed globally ranks
      → Outcome p.1 (one_rank receiver ks) (plan_wanted R ranks globally receiver ks p)
  unfolding plan_wanted Outcome
  plan_wanted-Outcome receiver [] p indexed = ([], sym (append-nil p.1), refl, tt)
  plan_wanted-Outcome receiver (k ∷ ks) p indexed =
      Outcome-bind p.1 ((receiver, k) ∷ []) (one_rank receiver ks) _ _
        (plan_id-Outcome receiver k p indexed) (λ q. plan_wanted-Outcome receiver ks q indexed)

  plan_receivers-Outcome :
      (rs : List ℕ) (wanted : List (List Ident)) (p : Planning R Ident)
      → IsIndexed globally ranks
      → Outcome p.1 (requests rs wanted) (plan_receivers R ranks globally rs wanted p)
  unfolding plan_receivers Outcome
  plan_receivers-Outcome [] wanted p indexed = ([], sym (append-nil p.1), refl, tt)
  plan_receivers-Outcome (r ∷ rs) [] p indexed = ([], sym (append-nil p.1), refl, tt)
  plan_receivers-Outcome (r ∷ rs) (ks ∷ wanted) p indexed =
      Outcome-bind p.1 (one_rank r ks) (requests rs wanted) _ _ (plan_wanted-Outcome r ks p indexed)
        (λ q. plan_receivers-Outcome rs wanted q indexed)

  -- A plan with one entry for each request, or the exception for an id that nobody has.
  unfoldable pub IsAnswer :
      List (ℕ × Ident) → Exceptional (PlanError Ident) (List (ExchangePlanEntry Ident)) → Type 0
  IsAnswer reqs (ok entries) =
      (map request entries ≡ reqs)
      × All (λ x. IsSource R law ranks globally x.receiver x.id x.sender) entries
  IsAnswer reqs (err x) =
      (k : Ident) × (x ≡ no_replicas_available k)
      × (contains k (asked reqs) ≡ true)
      × (is_available globally k ranks ≡ false)

  -- If a list of available ids is known for every rank of the group, retrieve_plan either gives a
  -- plan with exactly one entry for each id that a rank wants, in the order of the ranks, each sent
  -- by a rank of the group that has it, and by the receiver itself if that has it; or it raises
  -- NoReplicasAvailableError for an id that is wanted and that no rank of the group has.
  pub retrieve_plan-IsAnswer :
      (wanted : List (List Ident))
      → IsIndexed globally ranks
      → IsAnswer (requests ranks wanted) (retrieve_plan R ranks globally wanted)
  unfolding retrieve_plan Outcome IsAnswer
  retrieve_plan-IsAnswer wanted indexed =
      go (plan_receivers R ranks globally ranks wanted (R.seeded, []))
        (plan_receivers-Outcome ranks wanted (R.seeded, []) indexed)
    where
      go :
          (r : Exceptional (PlanError Ident) (Planning R Ident))
          → Outcome [] (requests ranks wanted) r
          → IsAnswer (requests ranks wanted) (bind_result r (λ p. ok p.1))
      go (err x) o = o
      go (ok p) (new, e, m, s) =
          subst
            (λ l.
              (map request l ≡ requests ranks wanted)
              × All (λ x. IsSource R law ranks globally x.receiver x.id x.sender) l)
            (sym e) (m, s)
