-- ===== src/Replication/Strategies.antt =====
-- `CliqueReplicationStrategy` of checkpointing/local/replication/strategies.py: who sends what to
-- whom when checkpoints are retrieved, and what replication gathers. The random choice is a
-- parameter.
use nvidia_resiliency_ext_x.Prelude.{
  ℕ, zero, suc, Bool, true, false, Option, none, some, List, [], ◌∷◌, if◌then◌else◌, leb,
}
use nvidia_resiliency_ext_x.Prelude.Eq.{KeyEq, number_keys}
use nvidia_resiliency_ext_x.Prelude.Keys.{contains, add}
use nvidia_resiliency_ext_x.Prelude.Sorting.{sorted}
use nvidia_resiliency_ext_x.Prelude.Method.{Exceptional, ok, err, bind_result}
use nvidia_resiliency_ext_x.Replication.Exchange.{ExchangePlanEntry, plan_entry}

-- `NoReplicasAvailableError`, or the error of an index.
pub data PlanError (Ident : Type 0) : Type 0 where
  no_replicas_available : Ident → PlanError Ident
  index_error : PlanError Ident

-- globally_available_ids[rank]
unfoldable pub get_elem? : {A : Type 0} → List A → ℕ → Option A
get_elem? [] i = none
get_elem? (x ∷ xs) zero = some x
get_elem? (x ∷ xs) (suc i) = get_elem? xs i

-- random.Random: its state, the state from seed 0, and `choice`.
pub record Random : Type 1 where
  pub State : Type 0
  pub seeded : State
  pub choice : State → List ℕ → ℕ × State

abbrev pub add_if : Bool → ℕ → List ℕ → List ℕ
add_if true rank s = add rank s
add_if false rank s = s

module _ {Ident : Type 0} ⦃keyed : KeyEq Ident⦄ where
  -- The set of the ranks of the group at which the id is available.
  unfoldable pub available_at :
      Ident → List (List Ident) → List ℕ → List ℕ → Exceptional (PlanError Ident) (List ℕ)
  unfolding get_elem?
  available_at wanted_id globally [] found = ok found
  available_at wanted_id globally (rank ∷ ranks) found = elim (get_elem? globally rank) [
    | none ↦ err index_error
    | some ids ↦ available_at wanted_id globally ranks (add_if (contains wanted_id ids) rank found)
  ]

module _ (R : Random) where
  unfoldable pub choose_sender : ℕ → List ℕ → R.State → ℕ × R.State
  choose_sender receiver available rng =
      if contains receiver available then (receiver, rng) else R.choice rng (sorted leb available)

  -- The generator and the entries so far.
  abbrev pub Planning : Type 0 → Type 0
  Planning Ident = R.State × List (ExchangePlanEntry Ident)

  module _ {Ident : Type 0} ⦃keyed : KeyEq Ident⦄ where
    unfoldable pub plan_from :
        ℕ → Ident → Planning Ident → List ℕ → Exceptional (PlanError Ident) (Planning Ident)
    unfolding choose_sender
    plan_from receiver wanted_id p [] = err (no_replicas_available wanted_id)
    plan_from receiver wanted_id p (r ∷ rs) =
        let (sender, rng) = choose_sender receiver (r ∷ rs) p.0 in
        ok (rng, plan_entry sender receiver wanted_id p.1)

    unfoldable pub plan_id :
        List ℕ
        → List (List Ident)
        → ℕ
        → Ident
        → Planning Ident
        → Exceptional (PlanError Ident) (Planning Ident)
    unfolding available_at plan_from
    plan_id ranks globally receiver wanted_id p =
        bind_result (available_at wanted_id globally ranks []) (plan_from receiver wanted_id p)

    unfoldable pub plan_wanted :
        List ℕ
        → List (List Ident)
        → ℕ
        → List Ident
        → Planning Ident
        → Exceptional (PlanError Ident) (Planning Ident)
    unfolding plan_id
    plan_wanted ranks globally receiver [] p = ok p
    plan_wanted ranks globally receiver (k ∷ ks) p =
        bind_result (plan_id ranks globally receiver k p) (plan_wanted ranks globally receiver ks)

    -- The loop over `zip(ranks, globally_wanted)`.
    unfoldable pub plan_receivers :
        List ℕ
        → List (List Ident)
        → List ℕ
        → List (List Ident)
        → Planning Ident
        → Exceptional (PlanError Ident) (Planning Ident)
    unfolding plan_wanted
    plan_receivers ranks globally [] wanted p = ok p
    plan_receivers ranks globally (r ∷ rs) [] p = ok p
    plan_receivers ranks globally (r ∷ rs) (ks ∷ wanted) p =
        bind_result (plan_wanted ranks globally r ks p) (plan_receivers ranks globally rs wanted)

    -- What the ranks of the group want is gathered from them: `globally_wanted`.
    unfoldable pub retrieve_plan :
        List ℕ
        → List (List Ident)
        → List (List Ident)
        → Exceptional (PlanError Ident) (List (ExchangePlanEntry Ident))
    unfolding plan_receivers
    retrieve_plan ranks globally globally_wanted =
        bind_result (plan_receivers ranks globally ranks globally_wanted (R.seeded, []))
          (λ p. ok p.1)
