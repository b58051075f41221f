-- ===== src/Rendezvous/Safety/Rounds.antt =====
-- One round of the loop keeps every state well formed, and raises only what it is meant to raise.
use nvidia_resiliency_ext_x.Prelude.{
  ℕ, ◌≡◌, subst, ◌⊎◌, inl, inr, Bool, not, ◌&&◌, Option, arith, if-cases,
}
use nvidia_resiliency_ext_x.Rendezvous.Base.{
  NodeDesc, RendezvousSettings, RendezvousState, Action, sync, error_closed, error_timeout, finish,
  Error, rendezvous_closed, rendezvous_timeout, rendezvous_graceful_exit, unhealthy_node, key_error,
  Result, ok, err,
}
use nvidia_resiliency_ext_x.Rendezvous.Ranks.Counting.{IsInjective}
use nvidia_resiliency_ext_x.Rendezvous.Actions.{Executor, perform}
use nvidia_resiliency_ext_x.Rendezvous.Handlers.{Op, handle}
use nvidia_resiliency_ext_x.Rendezvous.Holder.{Backend, IsFencing, Synced}
use nvidia_resiliency_ext_x.Rendezvous.Run.{
  RoundInputs, Outcome, finished, raised, again, same_round, save_round, round_context,
  next_deadline, Local, after_action, dispatch, after_handler, after_sync, run_round,
}
use nvidia_resiliency_ext_x.Rendezvous.Invariant.{AreValid, Permits}
use nvidia_resiliency_ext_x.Rendezvous.Invariant.Completing.{IsExecutor}
use nvidia_resiliency_ext_x.Rendezvous.Invariant.Acting.{IsDone, perform-IsDone}
use nvidia_resiliency_ext_x.Rendezvous.Invariant.Choosing.{IsChosen, handle-IsChosen}
use nvidia_resiliency_ext_x.Rendezvous.Safety.Syncing.{IsStored, IsSynced, sync_state-IsSynced}

-- The errors that a round raises on purpose, and the `KeyError` of `_SetWorkersStateOp` for a node
-- without a worker state.
pub data IsMeant : Error → Type 0 where
  closed : IsMeant rendezvous_closed
  timed_out : IsMeant rendezvous_timeout
  graceful : IsMeant rendezvous_graceful_exit
  unhealthy : IsMeant unhealthy_node
  no_worker_state : IsMeant key_error

abbrev pub OutcomeIsMeant : Outcome → Type 0
OutcomeIsMeant finished = Unit
OutcomeIsMeant (raised e) = IsMeant e
OutcomeIsMeant (again deadline) = Unit

save_round-IsExecutor :
    (settings : RendezvousSettings) (x : Executor)
    → IsExecutor settings x
    → IsExecutor settings (save_round x)
unfolding save_round
save_round-IsExecutor settings x h =
    if-cases (IsExecutor settings) (x.state.complete && not (same_round x.prev_round x.state.round))
      _ _
      (λ e. record {
        well_formed = h.well_formed;
        prev_distinct = h.well_formed.ranks_distinct (ground arith);
      })
      (λ e. h)

module _ (b : Backend) (settings : RendezvousSettings) where
  -- The node and the backend hold well-formed states.
  pub record IsHealthy (l : Local b) : Type 0 where
    pub executor : IsExecutor settings l.node.executor
    pub stored : IsStored b settings l.store

  pub record IsRound (r : Outcome × Local b) : Type 0 where
    pub meant : OutcomeIsMeant r.0
    pub healthy : IsHealthy r.1

  after_action-IsRound :
      (deadline : ℕ) (r : Result (Unit {0}) × Executor) (l : Local b)
      → IsDone settings r
      → IsStored b settings l.store
      → IsRound (after_action b deadline r l)
  unfolding after_action
  after_action-IsRound deadline (ok u, x) l d kept = record {
    meant = tt;
    healthy = record { executor = d.executor; stored = kept };
  }
  after_action-IsRound deadline (err e, x) l d kept = record {
    meant = meant e d.outcome;
    healthy = record { executor = d.executor; stored = kept };
  }
    where
      meant :
          (x : Error)
          → let r : Result (Unit {0}) = err x in (r ≡ ok tt) ⊎ (r ≡ err unhealthy_node) → IsMeant x
      meant x (inl p) = cc
      meant x (inr p) = let q : unhealthy_node ≡ x = cc in subst IsMeant q unhealthy

chosen-IsMeant :
    (x : Error) (name : NodeDesc) (s : RendezvousState)
    → let r : Result Action = err x in
      ((r ≡ err rendezvous_graceful_exit) ⊎ (r ≡ err key_error))
        ⊎ ((a : Action) × (r ≡ ok a) × Permits a name s)
      → IsMeant x
chosen-IsMeant x name s (inl (inl p)) =
    let q : rendezvous_graceful_exit ≡ x = cc in subst IsMeant q graceful
chosen-IsMeant x name s (inl (inr p)) =
    let q : key_error ≡ x = cc in subst IsMeant q no_worker_state
chosen-IsMeant x name s (inr (a, p, h)) = cc

chosen-Permits :
    (x : Action) (name : NodeDesc) (s : RendezvousState)
    → let r : Result Action = ok x in
      ((r ≡ err rendezvous_graceful_exit) ⊎ (r ≡ err key_error))
        ⊎ ((a : Action) × (r ≡ ok a) × Permits a name s)
      → Permits x name s
chosen-Permits x name s (inl (inl p)) = cc
chosen-Permits x name s (inl (inr p)) = cc
chosen-Permits x name s (inr (a, p, h)) = let q : a ≡ x = cc in subst (λ y. Permits y name s) q h

-- The tests on the action, and what stands before them.
module _ (b : Backend) (updates : Bool) (settings : RendezvousSettings) (v : AreValid settings)
    (name : NodeDesc) (inputs : RoundInputs) (deadline : ℕ) where
  act-IsRound :
      (later : ℕ) (a : Action) (l : Local b)
      → Permits a name l.node.executor.state
      → IsHealthy b settings l
      → IsRound b settings
          (after_action b later (perform settings name inputs.action a l.node.executor) l)
  act-IsRound later a l p h =
      after_action-IsRound b settings later _ l
        (perform-IsDone settings v name inputs.action l.node.executor h.executor a p) h.stored

  dispatch-IsRound :
      (a : Action) (l : Local b)
      → Permits a name l.node.executor.state
      → IsHealthy b settings l
      → IsRound b settings (dispatch b updates settings name inputs deadline a l)
  unfolding dispatch
  dispatch-IsRound finish l p h = record { meant = tt; healthy = h }
  dispatch-IsRound error_closed l p h = record { meant = closed; healthy = h }
  dispatch-IsRound error_timeout l p h = record { meant = timed_out; healthy = h }
  dispatch-IsRound sync l p h = record { meant = tt; healthy = h }
  dispatch-IsRound a l p h =
      act-IsRound (next_deadline updates settings inputs.restart_time deadline a) a l p h

  state-save_round : (x : Executor) → (save_round x).state ≡ x.state
  unfolding save_round
  state-save_round x = ground arith

  -- What the handler leaves behind, at a node and a backend that were as they should be.
  handler-IsRound :
      (r : Result Action × RendezvousState) (l : Local b)
      → IsChosen (round_context settings name inputs deadline) r
      → IsHealthy b settings l
      → IsRound b settings (after_handler b updates settings name inputs deadline r l)
  unfolding after_handler
  handler-IsRound (err e, s) l d h = record {
    meant = chosen-IsMeant e name s d.outcome;
    healthy = record {
      executor = record { well_formed = d.well_formed; prev_distinct = h.executor.prev_distinct };
      stored = h.stored;
    };
  }
  handler-IsRound (ok a, s) l d h =
      let x = record l.node.executor { state = s } in
      let k : IsExecutor settings x = record {
        well_formed = d.well_formed;
        prev_distinct = h.executor.prev_distinct;
      } in
      dispatch-IsRound a (record l { node = record l.node { executor = save_round x } })
        (rw state-save_round (chosen-Permits a name s d.outcome))
        (record { executor = save_round-IsExecutor settings x k; stored = h.stored })

  -- What follows `sync`.
  sync-IsRound :
      (op : Op) (r : Result (Option Bool) × Synced b) (l : Local b)
      → IsSynced b settings r
      → IsInjective l.node.executor.prev_participants
      → IsRound b settings (after_sync b updates settings name inputs deadline op r l)
  unfolding after_sync
  sync-IsRound op (r, y) l d inj =
      rw (after_sync, d.returns)
        (handler-IsRound (handle op (round_context settings name inputs deadline) y.state) _
          (handle-IsChosen (round_context settings name inputs deadline) y.state d.well_formed op)
          (record {
            executor = record { well_formed = d.well_formed; prev_distinct = inj };
            stored = d.stored;
          }))

pub run_round-IsRound :
    (b : Backend) (f : IsFencing b) (updates : Bool) (settings : RendezvousSettings)
    (cache_duration : ℕ) (name : NodeDesc) (op : Op) (inputs : RoundInputs) (deadline : ℕ)
    (l : Local b)
    → AreValid settings
    → IsHealthy b settings l
    → IsRound b settings (run_round b updates settings cache_duration name op inputs deadline l)
unfolding run_round
run_round-IsRound b f updates settings cache_duration name op inputs deadline l v h =
    sync-IsRound b updates settings v name inputs deadline op _ l
      (sync_state-IsSynced b settings inputs.sync_clock v f cache_duration _ h.executor.well_formed
        h.stored)
      h.executor.prev_distinct
