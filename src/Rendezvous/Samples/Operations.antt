-- ===== src/Rendezvous/Samples/Operations.antt =====
-- The theorems on single operations of the rendezvous (fault_tolerance/_ft_rendezvous.py) at a state.
use nvidia_resiliency_ext_x.Prelude.{refl, true, none, [], ◌∷◌, arith}
use nvidia_resiliency_ext_x.Prelude.Dict.{has}
use nvidia_resiliency_ext_x.Prelude.Keys.{contains}
use nvidia_resiliency_ext_x.Rendezvous.Base.{node_eq, failed, RendezvousState, initial_state}
use nvidia_resiliency_ext_x.Rendezvous.Actions.{Executor}
use nvidia_resiliency_ext_x.Rendezvous.Handlers.{Context, exit_op}
use nvidia_resiliency_ext_x.Rendezvous.Holder.{sanitize}
use nvidia_resiliency_ext_x.Rendezvous.Invariant.{IsPlaced}
use nvidia_resiliency_ext_x.Rendezvous.DeadNodes.{IsSwept, sanitize-IsSwept}
use nvidia_resiliency_ext_x.Rendezvous.Exiting.{Progress, exit_op-Progress}
use nvidia_resiliency_ext_x.Rendezvous.Samples.{node_a, pair_settings, round_at}

-- A state of a complete round whose one worker has failed.
abbrev failed_state : RendezvousState
failed_state = record initial_state {
  complete = true;
  participants = (node_a, 0) ∷ [];
  last_heartbeats = (node_a, 100) ∷ [];
  worker_states = (node_a, failed) ∷ [];
}

abbrev context_a : Context
context_a = record {
  node = node_a;
  settings = pair_settings;
  clock = record { monotonic = 101; utcnow_deadline = 101; utcnow_alive = 101 };
  op_deadline = 200;
}

sanitize-IsSwept_example :
    IsSwept pair_settings 900 failed_state (sanitize pair_settings 900 failed_state)
unfolding has node_eq
sanitize-IsSwept_example = sanitize-IsSwept pair_settings 900 failed_state (refl, tt)

failed_state-IsPlaced : IsPlaced node_a failed_state
unfolding has contains node_eq
failed_state-IsPlaced = ground arith

abbrev failed_executor : Executor
failed_executor = record { state = failed_state; prev_participants = []; prev_round = none }

exit_op-Progress_example :
    Progress pair_settings
      (round_at 101).action
      failed_executor
      node_a
      (exit_op true context_a failed_state)
exit_op-Progress_example =
    exit_op-Progress pair_settings (round_at 101).action context_a failed_executor
      failed_state-IsPlaced refl
