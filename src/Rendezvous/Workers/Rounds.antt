-- ===== src/Rendezvous/Workers/Rounds.antt =====
-- Final worker states over the part of a round of `_DistributedRendezvousOpExecutor.run` that follows
-- `sync`, in fault_tolerance/_ft_rendezvous.py: the operation and the action that it chooses.
use nvidia_resiliency_ext_x.Prelude.{
  ℕ, ◌≡◌, refl, ◌⊎◌, inl, inr, Bool, true, false, not, ◌&&◌, some, arith, eqb, length, subst, sym,
  if-cases,
}
use nvidia_resiliency_ext_x.Prelude.Dict.{Dict, get}
use nvidia_resiliency_ext_x.Prelude.Method.{sequence-keeps}
use nvidia_resiliency_ext_x.Rendezvous.Base.{
  NodeDesc, node_eq, WorkerState, RendezvousSettings, RendezvousState, Action, keep_alive,
  add_to_participants, add_to_wait_list, add_to_redundancy_list, remove_from_participants,
  remove_from_wait_list, remove_from_redundancy_list, mark_rendezvous_complete,
  mark_rendezvous_closed, sync, error_closed, error_timeout, finish, Result, ok, err, Method,
  after_result, ◌>>=◌,
}
use nvidia_resiliency_ext_x.Rendezvous.Ranks.{assign_ranks}
use nvidia_resiliency_ext_x.Rendezvous.Actions.{
  Executor, ActionInputs, GpuStatus, gpu_healthy, gpu_unhealthy, gpu_error, ensure_node_is_healthy,
  handle_control_requests, mark_closed, admit, move_waiting, all_healthy, install_ranks,
  mark_complete, join_round, complete_if_full, act_add_to_participants, act_add_to_wait_list,
  act_add_to_redundancy_list, require_key, drop_heartbeat, remove_participant_epilogue,
  act_remove_from_participants, act_remove_from_wait_list, act_remove_from_redundancy_list, beat,
  perform, on_state,
}
use nvidia_resiliency_ext_x.Rendezvous.Handlers.{is_final_workers_state, Op, handle}
use nvidia_resiliency_ext_x.Rendezvous.Holder.{Backend}
use nvidia_resiliency_ext_x.Rendezvous.Run.{
  RoundInputs, round_context, save_round, same_round, next_deadline, Local, after_action, dispatch,
  after_handler,
}
use nvidia_resiliency_ext_x.Rendezvous.Workers.{handle-keeps_final}
use nvidia_resiliency_ext_x.Rendezvous.Workers.Early.{IsEarly, AllEarly, handle-AllEarly}

-- From a state with one property, both parts of a sequence give the other.
sequence-reaches :
    {S A B : Type 0} (P Q : S → Type 0) (m : Method S A) (k : A → Method S B)
    → ((s : S) → P s → P (m s).1)
    → ((a : A) (s : S) → P s → Q (k a s).1)
    → ((s : S) → P s → Q s)
    → (s : S) → P s
    → Q ((m >>= k) s).1
sequence-reaches {S} {A} {B} P Q m k g h weaker s p = go (m s) (g s p)
  where
    go : (r : Result A × S) → P r.1 → Q (after_result r.0 k r.1).1
    go (ok a, t) q = h a t q
    go (err x, t) q = weaker t q

module _ (m : NodeDesc) (w : WorkerState) where
  abbrev Holds : Executor → Type 0
  Holds x = get m x.state.worker_states ≡ some w

  -- The rendezvous is complete, and every participant has the state HEALTHY.
  abbrev pub IsCompleted : RendezvousState → Type 0
  IsCompleted s = (s.complete ≡ true) × (s.worker_states ≡ all_healthy s.participants)

  abbrev IsKept : Executor → Type 0
  IsKept x = Holds x ⊎ IsCompleted x.state

  admit-Holds : (inputs : ActionInputs) (x : Executor) → Holds x → Holds (admit inputs x).1
  unfolding admit ensure_node_is_healthy handle_control_requests mark_closed
  admit-Holds inputs =
      sequence-keeps Holds (ensure_node_is_healthy inputs.gpu)
        (λ _. handle_control_requests inputs.requests) (go inputs.gpu) (λ _ x h. ground arith)
    where
      go : (g : GpuStatus) (x : Executor) → Holds x → Holds (ensure_node_is_healthy g x).1
      go gpu_healthy x h = h
      go gpu_unhealthy x h = h
      go gpu_error x h = h

  install-IsKept :
      (r : Result (Dict NodeDesc ℕ)) (x : Executor)
      → x.state.complete ≡ true
      → Holds x
      → IsKept (install_ranks r x).1
  unfolding install_ranks
  install-IsKept (ok ranks) x done h = inr (done, refl)
  install-IsKept (err e) x done h = inl h

  mark_complete-IsKept : (x : Executor) → Holds x → IsKept (mark_complete x).1
  unfolding mark_complete move_waiting
  mark_complete-IsKept x h =
      install-IsKept (assign_ranks x.state.participants x.prev_participants) _ (ground arith)
        (ground arith)

  complete_if_full-IsKept :
      (settings : RendezvousSettings) (x : Executor)
      → Holds x
      → IsKept (complete_if_full settings x).1
  unfolding complete_if_full
  complete_if_full-IsKept settings x h =
      if-cases {A = Result (Unit {0}) × Executor} (λ r. IsKept r.1)
        (eqb (length x.state.participants) settings.max_nodes) _ _ (λ e. mark_complete-IsKept x h)
        (λ e. inl h)

  join_round-Holds :
      (settings : RendezvousSettings) (node : NodeDesc) (inputs : ActionInputs) (x : Executor)
      → Holds x
      → Holds (on_state (join_round settings node inputs) x)
  unfolding join_round beat
  join_round-Holds settings node inputs x h = ground arith

  add-IsKept :
      (settings : RendezvousSettings) (node : NodeDesc) (inputs : ActionInputs) (x : Executor)
      → Holds x
      → IsKept (act_add_to_participants settings node inputs x).1
  unfolding act_add_to_participants
  add-IsKept settings node inputs =
      sequence-reaches Holds IsKept (admit inputs) _ (admit-Holds inputs)
        (λ _ x h. complete_if_full-IsKept settings _ (join_round-Holds settings node inputs x h))
        (λ x h. inl h)

  -- Kept, or replaced where a rendezvous that was not complete is completed.
  abbrev pub IsKeptFrom : RendezvousState → Executor → Type 0
  IsKeptFrom s x =
      (get m x.state.worker_states ≡ some w) ⊎ ((s.complete ≡ false) × IsCompleted x.state)

  IsKeptFrom-of_early :
      (s : RendezvousState) (x : Executor) → s.complete ≡ false → IsKept x → IsKeptFrom s x
  IsKeptFrom-of_early s x early (inl h) = inl h
  IsKeptFrom-of_early s x early (inr done) = inr (early, done)

  module _ (settings : RendezvousSettings) (node : NodeDesc) (inputs : ActionInputs)
      (s : RendezvousState) where
    perform-IsKeptFrom :
        (a : Action) (x : Executor)
        → IsEarly s a
        → Holds x
        → IsKeptFrom s (perform settings node inputs a x).1
    unfolding perform act_add_to_wait_list act_add_to_redundancy_list act_remove_from_participants
        act_remove_from_wait_list act_remove_from_redundancy_list drop_heartbeat require_key
        remove_participant_epilogue beat mark_closed
    perform-IsKeptFrom keep_alive x early h = inl h
    perform-IsKeptFrom add_to_participants x early h =
        IsKeptFrom-of_early s (act_add_to_participants settings node inputs x).1 early
          (add-IsKept settings node inputs x h)
    perform-IsKeptFrom add_to_wait_list x early h =
        inl (sequence-keeps Holds (admit inputs) _ (admit-Holds inputs) (λ _ y k. k) x h)
    perform-IsKeptFrom add_to_redundancy_list x early h =
        inl (sequence-keeps Holds (admit inputs) _ (admit-Holds inputs) (λ _ y k. k) x h)
    perform-IsKeptFrom remove_from_participants x early h = inl (ground arith)
    perform-IsKeptFrom remove_from_wait_list x early h = inl (ground arith)
    perform-IsKeptFrom remove_from_redundancy_list x early h = inl (ground arith)
    perform-IsKeptFrom mark_rendezvous_complete x early h =
        IsKeptFrom-of_early s (mark_complete x).1 early (mark_complete-IsKept x h)
    perform-IsKeptFrom mark_rendezvous_closed x early h = inl h
    perform-IsKeptFrom sync x early h = inl h
    perform-IsKeptFrom error_closed x early h = inl h
    perform-IsKeptFrom error_timeout x early h = inl h
    perform-IsKeptFrom finish x early h = inl h

  save_round-Holds : (x : Executor) → Holds x → Holds (save_round x)
  unfolding save_round
  save_round-Holds x h =
      if-cases Holds (x.state.complete && not (same_round x.prev_round x.state.round)) _ _ (λ e. h)
        (λ e. h)

  module _ (b : Backend) (updates : Bool) (settings : RendezvousSettings) (name : NodeDesc)
      (inputs : RoundInputs) (deadline : ℕ) where
    after_action-executor :
        (later : ℕ) (p : Result (Unit {0}) × Executor) (l : Local b)
        → (after_action b later p l).1.node.executor ≡ p.1
    unfolding after_action
    after_action-executor later (ok u, x) l = refl
    after_action-executor later (err e, x) l = refl

    acted-IsKeptFrom :
        (s : RendezvousState) (a : Action) (l : Local b)
        → IsEarly s a
        → Holds l.node.executor
        → IsKeptFrom s
            (after_action b
              (next_deadline updates settings inputs.restart_time deadline a)
              (perform settings name inputs.action a l.node.executor)
              l).1.node.executor
    acted-IsKeptFrom s a l early h =
        subst (IsKeptFrom s)
          (sym (
            after_action-executor (next_deadline updates settings inputs.restart_time deadline a)
              (perform settings name inputs.action a l.node.executor) l))
          (perform-IsKeptFrom settings name inputs.action s a l.node.executor early h)

    dispatch-IsKeptFrom :
        (s : RendezvousState) (a : Action) (l : Local b)
        → IsEarly s a
        → Holds l.node.executor
        → IsKeptFrom s (dispatch b updates settings name inputs deadline a l).1.node.executor
    unfolding dispatch
    dispatch-IsKeptFrom s finish l early h = inl h
    dispatch-IsKeptFrom s error_closed l early h = inl h
    dispatch-IsKeptFrom s error_timeout l early h = inl h
    dispatch-IsKeptFrom s sync l early h = inl h
    dispatch-IsKeptFrom s keep_alive l early h = acted-IsKeptFrom s keep_alive l early h
    dispatch-IsKeptFrom s add_to_participants l early h =
        acted-IsKeptFrom s add_to_participants l early h
    dispatch-IsKeptFrom s add_to_wait_list l early h = acted-IsKeptFrom s add_to_wait_list l early h
    dispatch-IsKeptFrom s add_to_redundancy_list l early h =
        acted-IsKeptFrom s add_to_redundancy_list l early h
    dispatch-IsKeptFrom s remove_from_participants l early h =
        acted-IsKeptFrom s remove_from_participants l early h
    dispatch-IsKeptFrom s remove_from_wait_list l early h =
        acted-IsKeptFrom s remove_from_wait_list l early h
    dispatch-IsKeptFrom s remove_from_redundancy_list l early h =
        acted-IsKeptFrom s remove_from_redundancy_list l early h
    dispatch-IsKeptFrom s mark_rendezvous_complete l early h =
        acted-IsKeptFrom s mark_rendezvous_complete l early h
    dispatch-IsKeptFrom s mark_rendezvous_closed l early h =
        acted-IsKeptFrom s mark_rendezvous_closed l early h

    after_handler-IsKeptFrom :
        (s : RendezvousState) (r : Result Action × RendezvousState) (l : Local b)
        → AllEarly s r.0
        → get m r.1.worker_states ≡ some w
        → IsKeptFrom s (after_handler b updates settings name inputs deadline r l).1.node.executor
    unfolding after_handler
    after_handler-IsKeptFrom s (err e, t) l early h = inl h
    after_handler-IsKeptFrom s (ok a, t) l early h =
        dispatch-IsKeptFrom s a _ early (save_round-Holds (record l.node.executor { state = t }) h)

    -- In a round of any operation of any node, after its sync, a node that has a final worker state
    -- keeps it, raised or not, except where the round completes a rendezvous that was not complete:
    -- then every participant has the state HEALTHY, and no other node has a worker state.
    pub after_handler-keeps_final :
        (op : Op) (l : Local b)
        → is_final_workers_state w ≡ true
        → get m l.node.executor.state.worker_states ≡ some w
        → let c = round_context settings name inputs deadline in
          let run = handle op c l.node.executor.state in
          IsKeptFrom l.node.executor.state
            (after_handler b updates settings name inputs deadline run l).1.node.executor
    after_handler-keeps_final op l final h =
        let c = round_context settings name inputs deadline in
        after_handler-IsKeptFrom l.node.executor.state (handle op c l.node.executor.state) l
          (handle-AllEarly c l.node.executor.state op)
          (handle-keeps_final m w final op c l.node.executor.state h)
