-- ===== src/Rendezvous/Samples.antt =====
-- Nodes and settings for the tests of the rendezvous (fault_tolerance/_ft_rendezvous.py), and the
-- ranks that its nodes get.
mod Rounds
mod Operations
use nvidia_resiliency_ext_x.Prelude.{
  ℕ, ◌+◌, ◌≡◌, refl, ◌⊎◌, inl, inr, Bool, true, false, Option, none, some, List, [], ◌∷◌, arith,
  eqb, if◌then◌else◌, if-cases, range_from,
}
use nvidia_resiliency_ext_x.Prelude.Eq.{==_iff}
use nvidia_resiliency_ext_x.Prelude.Dict.{Dict, get, has, put, without, IsUnique}
use nvidia_resiliency_ext_x.Prelude.Keys.{contains, discard, erase}
use nvidia_resiliency_ext_x.Prelude.Sorting.{sorted, insert}
use nvidia_resiliency_ext_x.Rendezvous.Base.{
  NodeDesc, node_eq, node_le, WorkerState, healthy, failed, RendezvousSettings, RendezvousState,
  initial_state, finish, keep_alive, ok,
}
use nvidia_resiliency_ext_x.Rendezvous.Ranks.{
  kept_rank, take_rank, reserve, fill, none_left, assign_ranks,
}
use nvidia_resiliency_ext_x.Rendezvous.Ranks.Counting.{IsInjective}
use nvidia_resiliency_ext_x.Rendezvous.Ranks.Assignment.{IsRanking, assign_ranks-IsRanking}
use nvidia_resiliency_ext_x.Rendezvous.Actions.{
  Executor, gpu_healthy, admit, scan_requests, join_round, complete_if_full, mark_complete,
  all_healthy, act_add_to_participants, perform,
}
use nvidia_resiliency_ext_x.Rendezvous.Handlers.{
  Context, join_request, set_workers_request, is_final_workers_state, handle, set_workers_state_op,
  exit_op, exit_lists, action_or_timeout, join_op, should_keep_alive,
}
use nvidia_resiliency_ext_x.Rendezvous.Holder.{
  Backend, IsFencing, sanitize, sync_state, serves_cached, loaded, dead_nodes, lose_worker,
  remove_dead, remove_all_dead,
}
use nvidia_resiliency_ext_x.Rendezvous.Run.{RoundInputs, finished, Local, run_round, run}
use nvidia_resiliency_ext_x.Rendezvous.Invariant.{AreValid, IsPlaced, initial_state-IsWellFormed}
use nvidia_resiliency_ext_x.Rendezvous.Invariant.Choosing.{IsGraceful, IsFit, join_op_lem}
use nvidia_resiliency_ext_x.Rendezvous.Safety.Rounds.{IsHealthy, IsRound, run_round-IsRound}
use nvidia_resiliency_ext_x.Rendezvous.Safety.World.{
  new_executor, new_holder, World, Reach, here, next, round, install, IsSafe, Reach-IsSafe,
}
use nvidia_resiliency_ext_x.Rendezvous.Workers.{
  handle-keeps_final, sanitize-keeps_final, set_workers-finish,
}
use nvidia_resiliency_ext_x.Rendezvous.DeadNodes.{IsSwept, sanitize-IsSwept}
use nvidia_resiliency_ext_x.Rendezvous.Handler.{answered, next_rendezvous, get_world}
use nvidia_resiliency_ext_x.Rendezvous.Joining.{IsWorld}
use nvidia_resiliency_ext_x.Rendezvous.Exiting.{Progress, exit_op-Progress}

abbrev pub node_a : NodeDesc
node_a = record { addr = "a"; pid = 1; local_id = 0 }

abbrev pub node_b : NodeDesc
node_b = record { addr = "b"; pid = 7; local_id = 0 }

abbrev pub pair_settings : RendezvousSettings
pair_settings = record {
  min_nodes = 1;
  max_nodes = 2;
  timeout = record { join = 600; last_call = 3; close = 30; heartbeat = 5 };
  keep_alive_interval = 5;
  keep_alive_max_attempt = 3;
  upscaling_enabled = true;
}

pub pair_settings-AreValid : AreValid pair_settings
pair_settings-AreValid = omega arith

-- A node that joins alone: it adds itself, waits until the last call is over, completes the round.
abbrev pub round_at : ℕ → RoundInputs
round_at now = record {
  sync_clock = record { monotonic = now; synced_at = now; utcnow = now };
  clock = record { monotonic = now; utcnow_deadline = now; utcnow_alive = now };
  action = record { gpu = gpu_healthy; requests = []; heartbeat_time = now; last_call_time = now };
  restart_time = now;
}

-- Ranks: the previous rank of `node_b` is kept, and `node_a` takes the free one.
abbrev two_nodes : Dict NodeDesc ℕ
two_nodes = (node_b, 0) ∷ (node_a, 0) ∷ []

abbrev b_was_first : Dict NodeDesc ℕ
b_was_first = (node_b, 0) ∷ []

two_nodes_ranked : assign_ranks two_nodes b_was_first ≡ ok ((node_a, 1) ∷ (node_b, 0) ∷ [])
unfolding assign_ranks reserve fill none_left kept_rank take_rank sorted insert node_le get contains
    erase range_from node_eq
two_nodes_ranked = refl

two_nodes-IsUnique : IsUnique two_nodes
unfolding has node_eq
two_nodes-IsUnique = (refl, (refl, tt))

b_was_first-IsInjective : IsInjective b_was_first
unfolding get
b_was_first-IsInjective p q r h k = ground (arith, ==_iff node_b p, ==_iff node_b q)

assign_ranks-IsRanking_example :
    (out : Dict NodeDesc ℕ) × (assign_ranks two_nodes b_was_first ≡ ok out)
    × IsRanking two_nodes b_was_first out
assign_ranks-IsRanking_example =
    assign_ranks-IsRanking two_nodes b_was_first two_nodes-IsUnique b_was_first-IsInjective
