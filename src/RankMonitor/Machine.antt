-- ===== src/RankMonitor/Machine.antt =====
-- `RankMonitorStateMachine` of fault_tolerance/rank_monitor_state_machine.py. A method returns the
-- new state or raises; the log for the restarter is the message of the new state, and is left out.
use nvidia_resiliency_ext_x.Prelude.{Bool, true, false, List, [], ◌∷◌, if◌then◌else◌}
use nvidia_resiliency_ext_x.Prelude.Method.{Exceptional, ok, err}

-- `RankMonitorState`
pub data MonitorState : Type 0 where
  uninitialized initialize handling_start handling_processing : MonitorState
  handling_completed finalized aborted : MonitorState

-- `InvalidStateTransitionException` and the `AssertionError` of a call in the wrong state.
pub data MachineError : Type 0 where
  invalid_transition unexpected_call : MachineError

-- The table of `can_transition_to`.
unfoldable pub can_transition_to : MonitorState → MonitorState → Bool
can_transition_to uninitialized initialize = true
can_transition_to uninitialized finalized = true
can_transition_to initialize handling_start = true
can_transition_to initialize finalized = true
can_transition_to handling_start handling_completed = true
can_transition_to handling_start handling_processing = true
can_transition_to handling_start aborted = true
can_transition_to handling_processing handling_completed = true
can_transition_to handling_processing handling_processing = true
can_transition_to handling_processing aborted = true
can_transition_to handling_completed handling_start = true
can_transition_to handling_completed finalized = true
can_transition_to aborted finalized = true
can_transition_to _ _ = false

unfoldable pub transition_to : MonitorState → MonitorState → Exceptional MachineError MonitorState
unfolding can_transition_to
transition_to s t = if can_transition_to s t then ok t else err invalid_transition

unfoldable pub is_restarting : MonitorState → Bool
is_restarting handling_start = true
is_restarting handling_processing = true
is_restarting _ = false

-- `_handle_msg`, of heartbeats and of sections.
unfoldable pub handle_msg : MonitorState → Exceptional MachineError MonitorState
unfolding transition_to
handle_msg uninitialized = transition_to uninitialized initialize
handle_msg handling_start = transition_to handling_start handling_completed
handle_msg handling_processing = transition_to handling_processing handling_completed
handle_msg initialize = ok initialize
handle_msg handling_completed = ok handling_completed
handle_msg finalized = err unexpected_call
handle_msg aborted = err unexpected_call

unfoldable pub periodic_restart_check : MonitorState → Exceptional MachineError MonitorState
unfolding transition_to
periodic_restart_check handling_start = transition_to handling_start handling_processing
periodic_restart_check handling_processing = transition_to handling_processing handling_processing
periodic_restart_check _ = err unexpected_call

unfoldable pub handle_ipc_connection_lost : MonitorState → Exceptional MachineError MonitorState
unfolding transition_to
handle_ipc_connection_lost initialize = transition_to initialize handling_start
handle_ipc_connection_lost handling_completed = transition_to handling_completed handling_start
handle_ipc_connection_lost handling_start = transition_to handling_start aborted
handle_ipc_connection_lost handling_processing = transition_to handling_processing aborted
handle_ipc_connection_lost aborted = ok aborted
handle_ipc_connection_lost uninitialized = ok uninitialized
handle_ipc_connection_lost finalized = err unexpected_call

unfoldable pub handle_signal : MonitorState → Exceptional MachineError MonitorState
unfolding transition_to
handle_signal handling_start = transition_to handling_start aborted
handle_signal handling_processing = transition_to handling_processing aborted
handle_signal uninitialized = ok uninitialized
handle_signal s = transition_to s finalized

-- The calls that the server makes.
pub data Call : Type 0 where
  message restart_check connection_lost signal : Call

unfoldable pub call : Call → MonitorState → Exceptional MachineError MonitorState
unfolding handle_msg periodic_restart_check handle_ipc_connection_lost handle_signal
call message s = handle_msg s
call restart_check s = periodic_restart_check s
call connection_lost s = handle_ipc_connection_lost s
call signal s = handle_signal s

-- A call that raises leaves the state as it is.
abbrev pub state_after : Exceptional MachineError MonitorState → MonitorState → MonitorState
state_after (ok t) s = t
state_after (err x) s = s

unfoldable pub run_calls : List Call → MonitorState → MonitorState
run_calls [] s = s
run_calls (c ∷ cs) s = run_calls cs (state_after (call c s) s)
