-- ===== src/Rendezvous/Actions.antt =====
-- The actions of `_DistributedRendezvousOpExecutor` in fault_tolerance/_ft_rendezvous.py. The
-- executor and its state holder share one state object, which stands in `Executor` once.
use nvidia_resiliency_ext_x.Prelude.{
  ℕ, ◌+◌, Bool, true, false, Option, none, some, List, [], ◌∷◌, eqb, ltb, length, if◌then◌else◌,
}
use nvidia_resiliency_ext_x.Prelude.Dict.{Dict, has, put, without}
use nvidia_resiliency_ext_x.Prelude.Keys.{contains, add, discard, update}
use nvidia_resiliency_ext_x.Rendezvous.Base.{
  NodeDesc, node_eq, WorkerState, healthy, RendezvousSettings, RendezvousState, Action, keep_alive,
  add_to_participants, add_to_wait_list, add_to_redundancy_list, remove_from_participants,
  remove_from_wait_list, remove_from_redundancy_list, mark_rendezvous_complete,
  mark_rendezvous_closed, unhealthy_node, key_error, Result, ok, err, Method, ret, raise, modify,
  ◌>>◌,
}
use nvidia_resiliency_ext_x.Rendezvous.Ranks.{assign_ranks}

-- The fields of the executor, and the state that it shares with the state holder.
pub record Executor : Type 0 where
  pub state : RendezvousState
  pub prev_participants : Dict NodeDesc ℕ
  pub prev_round : Option ℕ

-- What `GPUHealthCheck()()` does: it returns a Boolean, or raises.
pub data GpuStatus : Type 0 where
  gpu_healthy gpu_unhealthy gpu_error : GpuStatus

-- `WorkloadAction`
pub data WorkloadAction : Type 0 where
  proceed exclude_this_node shutdown_workload : WorkloadAction

-- What one action reads of its surroundings: the health check, the requests received from the
-- local ranks, and the two calls of `datetime.utcnow()`.
pub record ActionInputs : Type 0 where
  pub gpu : GpuStatus
  pub requests : List WorkloadAction
  pub heartbeat_time : ℕ
  pub last_call_time : ℕ

abbrev pub Act : Type 0
Act = Method Executor (Unit {0})

abbrev pub on_state : (RendezvousState → RendezvousState) → Executor → Executor
on_state f x = record x { state = f x.state }

abbrev pub is_empty {ℓ} : {A : Type ℓ} → List A → Bool
is_empty [] = true
is_empty (x ∷ d) = false

-- `_remove_participant_epilogue`
unfoldable pub remove_participant_epilogue : RendezvousSettings → RendezvousState → RendezvousState
remove_participant_epilogue settings s =
    if s.complete
    then (if is_empty s.participants then record s { complete = false; round = s.round + 1 } else s)
    else if ltb (length s.participants) settings.min_nodes
    then record s { deadline = none }
    else s

-- `last_heartbeats[node] = datetime.utcnow()`
unfoldable pub beat : NodeDesc → ℕ → RendezvousState → RendezvousState
beat node now s = record s { last_heartbeats = put node now s.last_heartbeats }

-- `_ensure_node_is_healthy`
unfoldable pub ensure_node_is_healthy : GpuStatus → Act
ensure_node_is_healthy gpu_healthy = ret tt
ensure_node_is_healthy gpu_unhealthy = raise unhealthy_node
ensure_node_is_healthy gpu_error = raise unhealthy_node

-- `_mark_rendezvous_closed`
unfoldable pub mark_closed : RendezvousState → RendezvousState
mark_closed s = record s { closed = true }

-- The loop of `_handle_control_requests_from_rank`: (excl_this_node, shutdown_workload).
unfoldable pub scan_requests : List WorkloadAction → Bool × Bool → Bool × Bool
scan_requests [] flags = flags
scan_requests (proceed ∷ rest) flags = scan_requests rest flags
scan_requests (exclude_this_node ∷ rest) flags = scan_requests rest (true, flags.1)
scan_requests (shutdown_workload ∷ rest) flags = scan_requests rest (flags.0, true)

-- `_handle_control_requests_from_rank`
unfoldable pub handle_control_requests : List WorkloadAction → Act
unfolding mark_closed
handle_control_requests requests = do
  let flags = scan_requests requests (false, false)
  if flags.1 then modify (on_state mark_closed) else ret tt
  if flags.0 then raise unhealthy_node else ret tt

-- `state.redundancy_list.update(state.wait_list)` and `state.wait_list.clear()`, under their test.
unfoldable pub move_waiting : RendezvousState → RendezvousState
move_waiting s =
    if is_empty s.wait_list
    then s
    else record s { redundancy_list = update s.redundancy_list s.wait_list; wait_list = [] }

-- `{n: WorkerState.HEALTHY for n in state.participants}`
unfoldable pub all_healthy : Dict NodeDesc ℕ → Dict NodeDesc WorkerState
all_healthy [] = []
all_healthy ((n, r) ∷ d) = (n, healthy) ∷ all_healthy d

-- What `_mark_rendezvous_complete` does with the ranks, or with the error, of `_assign_ranks`.
unfoldable pub install_ranks : Result (Dict NodeDesc ℕ) → Act
install_ranks (ok ranks) =
    modify (on_state (λ s. record s { participants = ranks; worker_states = all_healthy ranks }))
install_ranks (err x) = raise x

-- `_mark_rendezvous_complete`
unfoldable pub mark_complete : Act
unfolding move_waiting install_ranks
mark_complete x =
    let ranks = assign_ranks x.state.participants x.prev_participants in
    let moved = move_waiting (record x.state { complete = true; deadline = none }) in
    install_ranks ranks (record x { state = moved })

-- The part of `_add_to_participants` between the checks and the completion.
unfoldable pub join_round :
    RendezvousSettings → NodeDesc → ActionInputs → RendezvousState → RendezvousState
unfolding beat
join_round settings node inputs s =
    let joined = record s {
      wait_list = discard node s.wait_list;
      participants = put node 0 s.participants;
    } in
    let t = beat node inputs.heartbeat_time joined in
    if eqb (length t.participants) settings.min_nodes
    then record t { deadline = some (inputs.last_call_time + settings.timeout.last_call) }
    else t

unfoldable pub complete_if_full : RendezvousSettings → Act
complete_if_full settings x =
    if eqb (length x.state.participants) settings.max_nodes then mark_complete x else (ok tt, x)

-- The checks that stand before every addition.
unfoldable pub admit : ActionInputs → Act
unfolding ensure_node_is_healthy handle_control_requests
admit inputs = do ensure_node_is_healthy inputs.gpu; handle_control_requests inputs.requests

-- `_add_to_participants`
unfoldable pub act_add_to_participants : RendezvousSettings → NodeDesc → ActionInputs → Act
act_add_to_participants settings node inputs = do
  admit inputs
  modify (on_state (join_round settings node inputs))
  complete_if_full settings

-- `_add_to_wait_list`
unfoldable pub act_add_to_wait_list : NodeDesc → ActionInputs → Act
unfolding beat
act_add_to_wait_list node inputs = do
  admit inputs
  modify (
      on_state λ s. beat node inputs.heartbeat_time (record s {
        redundancy_list = discard node s.redundancy_list;
        wait_list = add node s.wait_list;
      }))

-- `_add_to_redundancy_list`
unfoldable pub act_add_to_redundancy_list : NodeDesc → ActionInputs → Act
unfolding beat
act_add_to_redundancy_list node inputs = do
  admit inputs
  modify (
      on_state λ s.
        beat node inputs.heartbeat_time (record s { redundancy_list = add node s.redundancy_list }))

-- A test that raises `KeyError` for a key that is not there.
unfoldable pub require_key : (RendezvousState → Bool) → Act
require_key there x = if there x.state then (ok tt, x) else (err key_error, x)

-- `del last_heartbeats[node]`
unfoldable pub drop_heartbeat : NodeDesc → Act
unfolding require_key
drop_heartbeat node = do
  require_key (λ s. has node s.last_heartbeats)
  modify (on_state λ s. record s { last_heartbeats = without node s.last_heartbeats })

-- `_remove_from_participants`
unfoldable pub act_remove_from_participants : RendezvousSettings → NodeDesc → Act
unfolding drop_heartbeat require_key remove_participant_epilogue
act_remove_from_participants settings node = do
  require_key (λ s. has node s.participants)
  modify (on_state λ s. record s { participants = without node s.participants })
  drop_heartbeat node
  modify (on_state (remove_participant_epilogue settings))

-- `_remove_from_wait_list`
unfoldable pub act_remove_from_wait_list : NodeDesc → Act
unfolding drop_heartbeat require_key
act_remove_from_wait_list node = do
  require_key (λ s. contains node s.wait_list)
  modify (on_state λ s. record s { wait_list = discard node s.wait_list })
  drop_heartbeat node

-- `_remove_from_redundancy_list`
unfoldable pub act_remove_from_redundancy_list : NodeDesc → Act
unfolding drop_heartbeat require_key
act_remove_from_redundancy_list node = do
  require_key (λ s. contains node s.redundancy_list)
  modify (on_state λ s. record s { redundancy_list = discard node s.redundancy_list })
  drop_heartbeat node

-- The dispatch on the action in `run`; the other actions do nothing to the state.
unfoldable pub perform : RendezvousSettings → NodeDesc → ActionInputs → Action → Act
unfolding beat mark_closed
perform settings node inputs keep_alive = modify (on_state (beat node inputs.heartbeat_time))
perform settings node inputs add_to_participants = act_add_to_participants settings node inputs
perform settings node inputs add_to_wait_list = act_add_to_wait_list node inputs
perform settings node inputs add_to_redundancy_list = act_add_to_redundancy_list node inputs
perform settings node inputs remove_from_participants = act_remove_from_participants settings node
perform settings node inputs remove_from_wait_list = act_remove_from_wait_list node
perform settings node inputs remove_from_redundancy_list = act_remove_from_redundancy_list node
perform settings node inputs mark_rendezvous_complete = mark_complete
perform settings node inputs mark_rendezvous_closed = modify (on_state mark_closed)
perform settings node inputs _ = ret tt
