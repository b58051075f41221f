-- ===== src/Rendezvous/Invariant/Acting.antt =====
-- A permitted action keeps the state well formed, and raises at most that the node is unhealthy.
use nvidia_resiliency_ext_x.Prelude.{
  ◌≡◌, refl, ◌⊎◌, inl, inr, Bool, true, false, List, if◌then◌else◌,
}
use nvidia_resiliency_ext_x.Prelude.Dict.{has}
use nvidia_resiliency_ext_x.Prelude.Keys.{contains}
use nvidia_resiliency_ext_x.Rendezvous.Base.{
  NodeDesc, node_eq, RendezvousSettings, RendezvousState, Action, keep_alive, add_to_participants,
  add_to_wait_list, add_to_redundancy_list, remove_from_participants, remove_from_wait_list,
  remove_from_redundancy_list, mark_rendezvous_complete, mark_rendezvous_closed, Result, ok, err,
  unhealthy_node, ◌>>◌,
}
use nvidia_resiliency_ext_x.Rendezvous.Actions.{
  Executor, ensure_node_is_healthy, GpuStatus, gpu_healthy, gpu_unhealthy, gpu_error, ActionInputs,
  WorkloadAction, Act, on_state, mark_closed, scan_requests, handle_control_requests, admit,
  join_round, complete_if_full, act_add_to_participants, act_add_to_wait_list,
  act_add_to_redundancy_list, act_remove_from_participants, act_remove_from_wait_list,
  act_remove_from_redundancy_list, perform,
}
use nvidia_resiliency_ext_x.Rendezvous.Invariant.{AreValid, IsWellFormed, Permits}
use nvidia_resiliency_ext_x.Rendezvous.Invariant.Updates.{
  beat-IsWellFormed, wait-IsWellFormed, redundant-IsWellFormed, mark_closed-IsWellFormed,
  leave_wait-IsWellFormed, leave_redundant-IsWellFormed,
}
use nvidia_resiliency_ext_x.Rendezvous.Invariant.Removal.{
  leave_participants-IsWellFormed, epilogue-IsWellFormed,
}
use nvidia_resiliency_ext_x.Rendezvous.Invariant.Completing.{
  IsExecutor, mark_complete-IsExecutor, join-IsExecutor,
}

-- The executor is as it should be, and a raise is for an unhealthy or excluded node.
pub record IsDone (settings : RendezvousSettings) (r : Result (Unit {0}) × Executor) : Type 0 where
  pub outcome : (r.0 ≡ ok tt) ⊎ (r.0 ≡ err unhealthy_node)
  pub executor : IsExecutor settings r.1

module _ (settings : RendezvousSettings) where
  abbrev done_ok :
      {r : Result (Unit {0}) × Executor}
      → (r.0 ≡ ok tt) × IsExecutor settings r.1
      → IsDone settings r
  done_ok h = record { outcome = inl h.0; executor = h.1 }

  -- An update of the state that keeps it well formed.
  modify-IsDone :
      (x : Executor) {t : RendezvousState}
      → IsExecutor settings x
      → IsWellFormed settings t
      → IsDone settings (ok tt, record x { state = t })
  modify-IsDone x h w = record {
    outcome = inl refl;
    executor = record { well_formed = w; prev_distinct = h.prev_distinct };
  }

  closed-IsExecutor :
      (x : Executor) → IsExecutor settings x → IsExecutor settings (on_state mark_closed x)
  closed-IsExecutor x h = record {
    well_formed = mark_closed-IsWellFormed settings x.state h.well_formed;
    prev_distinct = h.prev_distinct;
  }

  -- What follows the requests runs on the state that they leave, or does not run.
  requests-IsDone :
      (requests : List WorkloadAction) (rest : Act) (x : Executor)
      → IsExecutor settings x
      → IsDone settings (rest x)
      → IsDone settings (rest (on_state mark_closed x))
      → IsDone settings ((handle_control_requests requests >> rest) x)
  unfolding handle_control_requests
  requests-IsDone requests rest x h plain closing = go (scan_requests requests (false, false))
    where
      go :
          (flags : Bool × Bool)
          → IsDone settings (
              ((if flags.1 then (λ s. (ok tt, on_state mark_closed s)) else (λ s. (ok tt, s)))
                  >> (if flags.0 then (λ s. (err unhealthy_node, s)) else (λ s. (ok tt, s)))
                  >> rest)
                x)
      go (false, false) = plain
      go (false, true) = closing
      go (true, false) = record { outcome = inr refl; executor = h }
      go (true, true) = record { outcome = inr refl; executor = closed-IsExecutor x h }

  admit-IsDone :
      (inputs : ActionInputs) (rest : Act) (x : Executor)
      → IsExecutor settings x
      → IsDone settings (rest x)
      → IsDone settings (rest (on_state mark_closed x))
      → IsDone settings ((admit inputs >> rest) x)
  unfolding admit
  admit-IsDone inputs rest x h plain closing = go inputs.gpu
    where
      go :
          (gpu : GpuStatus)
          → IsDone settings
              ((ensure_node_is_healthy gpu >> handle_control_requests inputs.requests >> rest) x)
      go gpu_healthy = requests-IsDone inputs.requests rest x h plain closing
      go gpu_unhealthy = record { outcome = inr refl; executor = h }
      go gpu_error = record { outcome = inr refl; executor = h }

  module _ (v : AreValid settings) (n : NodeDesc) (inputs : ActionInputs) (x : Executor)
      (h : IsExecutor settings x) where
    add_to_participants-IsDone :
        Permits add_to_participants n x.state
        → IsDone settings (act_add_to_participants settings n inputs x)
    unfolding act_add_to_participants mark_closed
    add_to_participants-IsDone (going, out, spare) =
        admit-IsDone inputs _ x h (joined x h going out spare)
          (joined (on_state mark_closed x) (closed-IsExecutor x h) going out spare)
      where
        joined :
            (y : Executor)
            → IsExecutor settings y
            → y.state.complete ≡ false
            → has n y.state.participants ≡ false
            → contains n y.state.redundancy_list ≡ false
            → IsDone settings
                (complete_if_full settings (on_state (join_round settings n inputs) y))
        joined y k c o r = done_ok (
            join-IsExecutor settings n inputs y.state k.well_formed c o r
              (on_state (join_round settings n inputs) y) refl k.prev_distinct)

    add_to_wait_list-IsDone :
        Permits add_to_wait_list n x.state → IsDone settings (act_add_to_wait_list n inputs x)
    unfolding act_add_to_wait_list
    add_to_wait_list-IsDone out =
        admit-IsDone inputs _ x h
          (modify-IsDone x h
            (wait-IsWellFormed settings n inputs.heartbeat_time x.state out h.well_formed))
          (let k = closed-IsExecutor x h in
            modify-IsDone (on_state mark_closed x) k (
              wait-IsWellFormed settings n inputs.heartbeat_time (mark_closed x.state)
                (unfold mark_closed in out) k.well_formed))

    add_to_redundancy_list-IsDone :
        Permits add_to_redundancy_list n x.state
        → IsDone settings (act_add_to_redundancy_list n inputs x)
    unfolding act_add_to_redundancy_list
    add_to_redundancy_list-IsDone (out, idle) =
        admit-IsDone inputs _ x h
          (modify-IsDone x h (
            redundant-IsWellFormed settings n inputs.heartbeat_time x.state out idle h.well_formed))
          (let k = closed-IsExecutor x h in
            modify-IsDone (on_state mark_closed x) k (
              redundant-IsWellFormed settings n inputs.heartbeat_time (mark_closed x.state)
                (unfold mark_closed in out) (unfold mark_closed in idle) k.well_formed))

    remove_from_participants-IsDone :
        Permits remove_from_participants n x.state
        → IsDone settings (act_remove_from_participants settings n x)
    unfolding act_remove_from_participants
    remove_from_participants-IsDone here =
        rw (here, (h.well_formed.placed n).participant_alive here)
          (modify-IsDone x h (
            epilogue-IsWellFormed settings _ v
              (leave_participants-IsWellFormed settings n x.state here h.well_formed)))

    remove_from_wait_list-IsDone :
        Permits remove_from_wait_list n x.state → IsDone settings (act_remove_from_wait_list n x)
    unfolding act_remove_from_wait_list
    remove_from_wait_list-IsDone here =
        rw (here, (h.well_formed.placed n).waiting_alive here)
          (modify-IsDone x h (leave_wait-IsWellFormed settings n x.state here h.well_formed))

    remove_from_redundancy_list-IsDone :
        Permits remove_from_redundancy_list n x.state
        → IsDone settings (act_remove_from_redundancy_list n x)
    unfolding act_remove_from_redundancy_list
    remove_from_redundancy_list-IsDone here =
        rw (here, (h.well_formed.placed n).redundant_alive here)
          (modify-IsDone x h (leave_redundant-IsWellFormed settings n x.state here h.well_formed))

    -- A permitted action keeps the executor as it should be: no `KeyError`, no failed assertion.
    pub perform-IsDone :
        (a : Action) → Permits a n x.state → IsDone settings (perform settings n inputs a x)
    unfolding perform
    perform-IsDone keep_alive p =
        modify-IsDone x h (beat-IsWellFormed settings n inputs.heartbeat_time x.state h.well_formed)
    perform-IsDone add_to_participants p = add_to_participants-IsDone p
    perform-IsDone add_to_wait_list p = add_to_wait_list-IsDone p
    perform-IsDone add_to_redundancy_list p = add_to_redundancy_list-IsDone p
    perform-IsDone remove_from_participants p = remove_from_participants-IsDone p
    perform-IsDone remove_from_wait_list p = remove_from_wait_list-IsDone p
    perform-IsDone remove_from_redundancy_list p = remove_from_redundancy_list-IsDone p
    perform-IsDone mark_rendezvous_complete p =
        done_ok (mark_complete-IsExecutor settings x h.well_formed.sound h.prev_distinct)
    perform-IsDone mark_rendezvous_closed p =
        modify-IsDone x h (mark_closed-IsWellFormed settings x.state h.well_formed)
    perform-IsDone _ p = record { outcome = inl refl; executor = h }
