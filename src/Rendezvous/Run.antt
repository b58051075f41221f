-- ===== src/Rendezvous/Run.antt =====
-- `_DistributedRendezvousOpExecutor.run` of fault_tolerance/_ft_rendezvous.py, one round of its loop
-- at a time, and the loop over a sequence of rounds. What a round reads of its surroundings is an
-- input, so that rounds of several nodes can be put in any order.
use nvidia_resiliency_ext_x.Prelude.{
  ℕ, ◌+◌, Bool, true, false, not, ◌&&◌, Option, none, some, List, [], ◌∷◌, eqb, if◌then◌else◌,
}
use nvidia_resiliency_ext_x.Rendezvous.Base.{
  NodeDesc, RendezvousSettings, RendezvousState, Action, remove_from_redundancy_list, sync,
  error_closed, error_timeout, finish, Error, rendezvous_closed, rendezvous_timeout, Result, ok,
  err,
}
use nvidia_resiliency_ext_x.Rendezvous.Actions.{Executor, ActionInputs, perform}
use nvidia_resiliency_ext_x.Rendezvous.Handlers.{Clock, Context, Op, handle}
use nvidia_resiliency_ext_x.Rendezvous.Holder.{Backend, SyncClock, Holder, Synced, sync_state}

-- What one round reads of its surroundings.
pub record RoundInputs : Type 0 where
  pub sync_clock : SyncClock
  pub clock : Clock
  pub action : ActionInputs
  pub restart_time : ℕ

-- The loop returns, raises, or goes on with a deadline.
pub data Outcome : Type 0 where
  finished : Outcome
  raised : Error → Outcome
  again : ℕ → Outcome

abbrev pub same_round : Option ℕ → ℕ → Bool
same_round none r = false
same_round (some p) r = eqb p r

-- `_prev_participants` and `_prev_round` are taken from a completed round, once.
unfoldable pub save_round : Executor → Executor
save_round x =
    if x.state.complete && not (same_round x.prev_round x.state.round)
    then record x { prev_participants = x.state.participants; prev_round = some x.state.round }
    else x

-- `deadline = update_deadline(self._settings.timeout.join)`, where the caller gave the function.
unfoldable pub next_deadline : Bool → RendezvousSettings → ℕ → ℕ → Action → ℕ
next_deadline updates settings restart_time deadline remove_from_redundancy_list =
    if updates then restart_time + settings.timeout.join else deadline
next_deadline updates settings restart_time deadline _ = deadline

-- `_RendezvousContext(self._node, self._state, self._settings)`, less the state.
abbrev pub round_context : RendezvousSettings → NodeDesc → RoundInputs → ℕ → Context
round_context settings name inputs deadline = record {
  node = name;
  settings = settings;
  clock = inputs.clock;
  op_deadline = deadline;
}

module _ (b : Backend) where
  -- One node: its executor, and its state holder. The state stands in the executor.
  pub record Node : Type 0 where
    pub executor : Executor
    pub holder : Holder b

  pub record Local : Type 0 where
    pub node : Node
    pub store : b.Store

  abbrev pub mark_dirty : Node → Node
  mark_dirty n = record n { holder = record n.holder { dirty = true } }

  -- What follows an action that may have raised.
  unfoldable pub after_action : ℕ → Result (Unit {0}) × Executor → Local → Outcome × Local
  after_action deadline (ok u, x) l =
      (again deadline, record l { node = mark_dirty (record l.node { executor = x }) })
  after_action deadline (err e, x) l =
      (raised e, record l { node = record l.node { executor = x } })

  module _ (updates : Bool) (settings : RendezvousSettings) (name : NodeDesc) (inputs : RoundInputs)
      (deadline : ℕ) where
    -- The tests on the action.
    unfoldable pub dispatch : Action → Local → Outcome × Local
    unfolding after_action next_deadline
    dispatch finish l = (finished, l)
    dispatch error_closed l = (raised rendezvous_closed, l)
    dispatch error_timeout l = (raised rendezvous_timeout, l)
    dispatch sync l = (again deadline, l)
    dispatch a l =
        after_action (next_deadline updates settings inputs.restart_time deadline a)
          (perform settings name inputs.action a l.node.executor) l

    -- What follows the handler.
    unfoldable pub after_handler : Result Action × RendezvousState → Local → Outcome × Local
    unfolding dispatch save_round
    after_handler (err e, s) l = (
      raised e,
      record l { node = record l.node { executor = record l.node.executor { state = s } } },
    )
    after_handler (ok a, s) l = dispatch a (record l {
      node = record l.node { executor = save_round (record l.node.executor { state = s }) };
    })

    -- What follows `sync`.
    unfoldable pub after_sync : Op → Result (Option Bool) × Synced b → Local → Outcome × Local
    unfolding after_handler
    after_sync op (r, y) l =
        let synced : Local = record {
          node = record {
            executor = record l.node.executor { state = y.state };
            holder = y.holder;
          };
          store = y.store;
        } in
        elim r [
          | err e ↦ (raised e, synced)
          | ok has_set ↦
              after_handler (handle op (round_context settings name inputs deadline) y.state) synced
        ]

  -- One round of the loop of `run`.
  unfoldable pub run_round :
      Bool → RendezvousSettings → ℕ → NodeDesc → Op → RoundInputs → ℕ → Local → Outcome × Local
  unfolding after_sync
  run_round updates settings cache_duration name op inputs deadline l =
      after_sync updates settings name inputs deadline op
        (sync_state b settings cache_duration inputs.sync_clock
          (record { holder = l.node.holder; state = l.node.executor.state; store = l.store }))
        l

  -- The loop, over the inputs of its rounds; `again` at the end means that they ran out.
  unfoldable pub run :
      Bool → RendezvousSettings → ℕ → NodeDesc → Op → List RoundInputs → ℕ → Local → Outcome × Local
  run updates settings cache_duration name op [] deadline l = (again deadline, l)
  run updates settings cache_duration name op (inputs ∷ rest) deadline l =
      elim (run_round updates settings cache_duration name op inputs deadline l).0 [
        | finished ↦ run_round updates settings cache_duration name op inputs deadline l
        | raised e ↦ run_round updates settings cache_duration name op inputs deadline l
        | again later ↦
            run updates settings cache_duration name op rest later
              (run_round updates settings cache_duration name op inputs deadline l).1
      ]
