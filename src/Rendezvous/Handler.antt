-- ===== src/Rendezvous/Handler.antt =====
-- `FtRendezvousHandler` of fault_tolerance/_ft_rendezvous.py: the operations that its methods run, and
-- what they return. The heartbeat timer, the store and the records of events are left out. A method
-- takes the moment at which it starts and the inputs of its rounds.
use nvidia_resiliency_ext_x.Prelude.{
  ℕ, ◌+◌, ◌*◌, Bool, true, false, Option, none, some, List, length, if◌then◌else◌,
}
use nvidia_resiliency_ext_x.Prelude.Dict.{get}
use nvidia_resiliency_ext_x.Rendezvous.Base.{
  NodeDesc, node_eq, WorkerState, RendezvousSettings, RendezvousState, Error, rendezvous_closed,
  rendezvous_timeout, rendezvous_graceful_exit, rendezvous_state, key_error,
}
use nvidia_resiliency_ext_x.Rendezvous.Handlers.{
  join_request, close_request, exit_request, set_workers_request,
}
use nvidia_resiliency_ext_x.Rendezvous.Holder.{Backend}
use nvidia_resiliency_ext_x.Rendezvous.Run.{
  RoundInputs, Outcome, finished, raised, again, Local, run,
}

-- A method returns, raises, or is still in its loop when the inputs end.
pub data Answer (A : Type 0) : Type 0 where
  answered : A → Answer A
  failed_with : Error → Answer A
  unanswered : Answer A

abbrev pub is_rendezvous_error : Error → Bool
is_rendezvous_error rendezvous_closed = true
is_rendezvous_error rendezvous_timeout = true
is_rendezvous_error rendezvous_graceful_exit = true
is_rendezvous_error rendezvous_state = true
is_rendezvous_error _ = false

module _ (b : Backend) (settings : RendezvousSettings) (cache_duration : ℕ) (name : NodeDesc) where
  abbrev pub state_of : Local b → RendezvousState
  state_of l = l.node.executor.state

  abbrev pub answer_to :
      {A : Type 0} → (Local b → Answer A) → Outcome × Local b → Answer A × Local b
  answer_to f (finished, l) = (f l, l)
  answer_to f (raised e, l) = (failed_with e, l)
  answer_to f (again deadline, l) = (unanswered, l)

  -- `_close`, and `set_closed`
  unfoldable pub set_closed : ℕ → List RoundInputs → Local b → Answer (Unit {0}) × Local b
  set_closed now rounds l =
      answer_to (λ l. answered tt)
        (run b false settings cache_duration name close_request rounds
          (now + settings.timeout.close) l)

  unfoldable pub remove_this_node : ℕ → List RoundInputs → Local b → Answer (Unit {0}) × Local b
  remove_this_node now rounds l =
      answer_to (λ l. answered tt)
        (run b false settings cache_duration name (exit_request true) rounds
          (now + 3 * settings.timeout.heartbeat) l)

  -- The operation's `curr_state` is what it read last.
  unfoldable pub try_set_worker_state :
      WorkerState → ℕ → List RoundInputs → Local b → Answer (Option WorkerState) × Local b
  try_set_worker_state target now rounds l =
      answer_to (λ l. answered (get name (state_of l).worker_states))
        (run b false settings cache_duration name (set_workers_request target) rounds
          (now + 3 * settings.timeout.heartbeat) l)

  abbrev pub shutdown_answer : Outcome × Local b → Answer Bool × Local b
  shutdown_answer (finished, l) = (answered true, l)
  shutdown_answer (raised e, l) =
      (if is_rendezvous_error e then answered false else failed_with e, l)
  shutdown_answer (again deadline, l) = (unanswered, l)

  unfoldable pub shutdown : ℕ → List RoundInputs → Local b → Answer Bool × Local b
  shutdown now rounds l = shutdown_answer (
      run b false settings cache_duration name close_request rounds (now + settings.timeout.close)
        l)

  -- `_get_world`
  abbrev pub world_of : Option ℕ → ℕ → Answer (ℕ × ℕ)
  world_of none size = failed_with key_error
  world_of (some rank) size = answered (rank, size)

  unfoldable pub get_world : Local b → Answer (ℕ × ℕ)
  get_world l = let nodes = (state_of l).participants in world_of (get name nodes) (length nodes)

  -- `next_rendezvous` after its exit operation
  abbrev pub join_after : ℕ → List RoundInputs → Outcome × Local b → Answer (ℕ × ℕ) × Local b
  join_after deadline rounds (finished, l) =
      answer_to get_world (run b true settings cache_duration name join_request rounds deadline l)
  join_after deadline rounds (raised e, l) = (failed_with e, l)
  join_after deadline rounds (again later, l) = (unanswered, l)

  unfoldable pub next_rendezvous :
      ℕ → List RoundInputs → List RoundInputs → Local b → Answer (ℕ × ℕ) × Local b
  unfolding get_world
  next_rendezvous now exit_rounds join_rounds l =
      let deadline = now + settings.timeout.join in
      join_after deadline join_rounds
        (run b false settings cache_duration name (exit_request false) exit_rounds deadline l)
