-- ===== src/Rendezvous/Handlers.antt =====
-- The operations of fault_tolerance/_ft_rendezvous.py that choose the next action:
-- `_RendezvousJoinOp`, `_RendezvousExitOp`, `_SetWorkersStateOp`, `_RendezvousCloseOp` and
-- `_RendezvousKeepAliveOp`. Two of them write to the state before they return.
use nvidia_resiliency_ext_x.Prelude.{
  ℕ, ◌+◌, Bool, true, false, not, ◌&&◌, ◌||◌, Option, none, some, leb, ltb, eqb, length,
  if◌then◌else◌,
}
use nvidia_resiliency_ext_x.Prelude.Dict.{get, has, put}
use nvidia_resiliency_ext_x.Prelude.Keys.{contains}
use nvidia_resiliency_ext_x.Rendezvous.Base.{
  NodeDesc, node_eq, WorkerState, unknown, init, healthy, unhealthy, stopped, succeeded, failed,
  RendezvousSettings, RendezvousState, Action, keep_alive, add_to_participants, add_to_wait_list,
  add_to_redundancy_list, remove_from_participants, remove_from_wait_list,
  remove_from_redundancy_list, mark_rendezvous_complete, mark_rendezvous_closed, sync, error_closed,
  error_timeout, finish, rendezvous_graceful_exit, key_error, type_error, Result, ok, err, Method,
}

-- What a handler reads of its surroundings: `time.monotonic()`, the `datetime.utcnow()` that is
-- compared with the deadline of the round, and the one of `_should_keep_alive`.
pub record Clock : Type 0 where
  pub monotonic : ℕ
  pub utcnow_deadline : ℕ
  pub utcnow_alive : ℕ

-- The `_RendezvousContext` less its state, and the deadline of the operation.
pub record Context : Type 0 where
  pub node : NodeDesc
  pub settings : RendezvousSettings
  pub clock : Clock
  pub op_deadline : ℕ

-- `_is_final_workers_state`
unfoldable pub is_final_workers_state : WorkerState → Bool
is_final_workers_state succeeded = true
is_final_workers_state failed = true
is_final_workers_state unknown = true
is_final_workers_state _ = false

-- `last_heartbeat <= utcnow() - keep_alive_interval`, with the interval on the other side.
unfoldable pub should_keep_alive : Context → RendezvousState → Bool
should_keep_alive c s = elim (get c.node s.last_heartbeats) [
  | none ↦ false
  | some last ↦ leb (last + c.settings.keep_alive_interval) c.clock.utcnow_alive
]

abbrev pub out_of_time : Context → Bool
out_of_time c = ltb c.op_deadline c.clock.monotonic

abbrev pub alive_or_sync : Context → RendezvousState → Action
alive_or_sync c s = if should_keep_alive c s then keep_alive else sync

-- `_RendezvousJoinOp.__call__` on a closed rendezvous.
unfoldable pub join_closed : Context → RendezvousState → Result Action
join_closed c s =
    if contains c.node s.redundancy_list then err rendezvous_graceful_exit else ok error_closed

-- The branch of a node in the redundancy list.
unfoldable pub join_redundant : Context → RendezvousState → Action
join_redundant c s =
    if eqb (length s.participants) c.settings.max_nodes
    then alive_or_sync c s
    else if s.complete && not c.settings.upscaling_enabled
    then alive_or_sync c s
    else remove_from_redundancy_list

abbrev pub rollback_period : ℕ
rollback_period = 5

-- The branch `now > deadline`.
unfoldable pub join_late : Context → RendezvousState → Action
join_late c s =
    if leb c.clock.monotonic (c.op_deadline + rollback_period)
    then (if has c.node s.participants
        then remove_from_participants
        else if contains c.node s.wait_list
        then remove_from_wait_list
        else error_timeout)
    else error_timeout

-- The branch `state.complete` of a node that is no participant; the later test of `elif`,
-- `len(participants) >= max_nodes`, is the negation of the first.
unfoldable pub join_completed : Context → RendezvousState → Action
join_completed c s =
    if ltb (length s.participants) c.settings.max_nodes && c.settings.upscaling_enabled
    then (if contains c.node s.wait_list then alive_or_sync c s else add_to_wait_list)
    else if not (contains c.node s.redundancy_list) && not (contains c.node s.wait_list)
    then add_to_redundancy_list
    else alive_or_sync c s

-- `cast(datetime, state.deadline) < datetime.utcnow()`: comparing a missing deadline is a
-- `TypeError`.
unfoldable pub check_deadline : Context → RendezvousState → Option ℕ → Result Action
check_deadline c s none = err type_error
check_deadline c s (some deadline) =
    ok
      (if ltb deadline c.clock.utcnow_deadline then mark_rendezvous_complete else alive_or_sync c s)

-- The branch of a participant of a round that is not complete.
unfoldable pub join_waiting : Context → RendezvousState → Result Action
unfolding check_deadline
join_waiting c s =
    if leb c.settings.min_nodes (length s.participants)
      && leb (length s.participants) c.settings.max_nodes
    then check_deadline c s s.deadline
    else ok (alive_or_sync c s)

-- `_RendezvousJoinOp.__call__`
unfoldable pub join_op : Context → RendezvousState → Result Action
unfolding join_closed join_redundant join_late join_completed join_waiting
join_op c s =
    if s.closed
    then join_closed c s
    else if contains c.node s.redundancy_list
    then ok (join_redundant c s)
    else if s.complete && has c.node s.participants
    then ok finish
    else if out_of_time c
    then ok (join_late c s)
    else if s.complete
    then ok (join_completed c s)
    else if has c.node s.participants
    then join_waiting c s
    else ok add_to_participants

-- `_action_or_timeout`
unfoldable pub action_or_timeout : Context → Action → Action
action_or_timeout c a = if out_of_time c then error_timeout else a

-- `_RendezvousExitOp.__call__` after its first test.
unfoldable pub exit_lists : Bool → Context → RendezvousState → Action
unfolding action_or_timeout
exit_lists remove_from_all c s =
    if has c.node s.participants
    then action_or_timeout c remove_from_participants
    else if remove_from_all && contains c.node s.redundancy_list
    then action_or_timeout c remove_from_redundancy_list
    else if remove_from_all && contains c.node s.wait_list
    then action_or_timeout c remove_from_wait_list
    else finish

abbrev pub set_worker_state : NodeDesc → WorkerState → RendezvousState → RendezvousState
set_worker_state node w s = record s { worker_states = put node w s.worker_states }

-- `_RendezvousExitOp.__call__`
unfoldable pub exit_op : Bool → Context → Method RendezvousState Action
unfolding exit_lists is_final_workers_state
exit_op remove_from_all c s = elim (get c.node s.worker_states) [
  | none ↦ (ok (exit_lists remove_from_all c s), s)
  | some w ↦
      if is_final_workers_state w
      then (ok (exit_lists remove_from_all c s), s)
      else (ok keep_alive, set_worker_state c.node unknown s)
]

unfoldable pub worker_state_eq : WorkerState → WorkerState → Bool
worker_state_eq unknown unknown = true
worker_state_eq init init = true
worker_state_eq healthy healthy = true
worker_state_eq unhealthy unhealthy = true
worker_state_eq stopped stopped = true
worker_state_eq succeeded succeeded = true
worker_state_eq failed failed = true
worker_state_eq _ _ = false

-- `_SetWorkersStateOp.__call__`; `curr_state` is the state that it has read.
unfoldable pub set_workers_state_op : WorkerState → Context → Method RendezvousState Action
unfolding is_final_workers_state worker_state_eq
set_workers_state_op target c s = elim (get c.node s.worker_states) [
  | none ↦ (err key_error, s)
  | some w ↦
      if worker_state_eq w target || is_final_workers_state w
      then (ok finish, s)
      else if out_of_time c
      then (ok error_timeout, s)
      else (ok keep_alive, set_worker_state c.node target s)
]

-- `_RendezvousCloseOp.__call__`
unfoldable pub close_op : Context → RendezvousState → Action
close_op c s =
    if s.closed then finish else if out_of_time c then error_timeout else mark_rendezvous_closed

-- `_RendezvousKeepAliveOp.__call__`
unfoldable pub keep_alive_op : Context → RendezvousState → Action
keep_alive_op c s =
    if should_keep_alive c s then (if out_of_time c then error_timeout else keep_alive) else finish

-- The operations that a handler runs.
pub data Op : Type 0 where
  join_request keep_alive_request close_request : Op
  exit_request : Bool → Op
  set_workers_request : WorkerState → Op

unfoldable pub handle : Op → Context → Method RendezvousState Action
handle join_request c s = (join_op c s, s)
handle keep_alive_request c s = (ok (keep_alive_op c s), s)
handle close_request c s = (ok (close_op c s), s)
handle (exit_request remove_from_all) c s = exit_op remove_from_all c s
handle (set_workers_request target) c s = set_workers_state_op target c s
