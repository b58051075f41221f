-- ===== src/Rendezvous/Samples/Rounds.antt =====
-- Tests of whole rounds of the rendezvous (fault_tolerance/_ft_rendezvous.py) on a backend, and the
-- theorems at them.
use nvidia_resiliency_ext_x.Prelude.{
  ℕ, ◌+◌, ◌≡◌, refl, ◌⊎◌, inl, inr, Bool, true, false, Option, none, some, List, [], ◌∷◌, arith,
  eqb, if◌then◌else◌, if-cases, range_from,
}
use nvidia_resiliency_ext_x.Prelude.Dict.{get, has, put, without}
use nvidia_resiliency_ext_x.Prelude.Keys.{contains, discard, erase}
use nvidia_resiliency_ext_x.Prelude.Sorting.{sorted, insert}
use nvidia_resiliency_ext_x.Rendezvous.Base.{
  node_eq, node_le, healthy, failed, RendezvousState, initial_state,
}
use nvidia_resiliency_ext_x.Rendezvous.Ranks.{
  kept_rank, take_rank, reserve, fill, none_left, assign_ranks,
}
use nvidia_resiliency_ext_x.Rendezvous.Actions.{
  admit, scan_requests, join_round, complete_if_full, mark_complete, all_healthy,
  act_add_to_participants, act_remove_from_participants, perform,
}
use nvidia_resiliency_ext_x.Rendezvous.Handlers.{
  join_request, is_final_workers_state, handle, exit_op, exit_lists, action_or_timeout, join_op,
  should_keep_alive,
}
use nvidia_resiliency_ext_x.Rendezvous.Holder.{
  Backend, IsFencing, sync_state, serves_cached, loaded, dead_nodes, lose_worker, remove_dead,
  remove_all_dead,
}
use nvidia_resiliency_ext_x.Rendezvous.Run.{
  RoundInputs, finished, Local, round_context, after_handler, run_round, run,
}
use nvidia_resiliency_ext_x.Rendezvous.Invariant.{initial_state-IsWellFormed}
use nvidia_resiliency_ext_x.Rendezvous.Safety.World.{
  new_executor, new_holder, World, Reach, here, next, round, install, IsSafe, Reach-IsSafe,
}
use nvidia_resiliency_ext_x.Rendezvous.Handler.{
  answered, next_rendezvous, get_world, remove_this_node,
}
use nvidia_resiliency_ext_x.Rendezvous.Leaving.{IsGone, remove_this_node-IsGone}
use nvidia_resiliency_ext_x.Rendezvous.Workers.Rounds.{IsKeptFrom, after_handler-keeps_final}
use nvidia_resiliency_ext_x.Rendezvous.Samples.{
  node_a, pair_settings, pair_settings-AreValid, round_at,
}

-- A backend that keeps one state under a version number.
record Shelf : Type 0 where
  bytes : Option RendezvousState
  version : ℕ

matches : Option ℕ → Shelf → Bool
matches none t = elim t.bytes [ none ↦ true | some s ↦ false ]
matches (some k) t = elim t.bytes [ none ↦ false | some s ↦ eqb k t.version ]

abbrev shelf_get : Shelf → Option (RendezvousState × ℕ)
shelf_get t = elim t.bytes [ none ↦ none | some s ↦ some (s, t.version) ]

abbrev refused : Shelf → Option (RendezvousState × ℕ × Bool) × Shelf
refused t = (elim t.bytes [ none ↦ none | some s ↦ some (s, t.version, false) ], t)

shelf_set : RendezvousState → Option ℕ → Shelf → Option (RendezvousState × ℕ × Bool) × Shelf
shelf_set s k t =
    if matches k t
    then (some (s, t.version + 1, true), record { bytes = some s; version = t.version + 1 })
    else refused t

abbrev shelf_backend : Backend
shelf_backend = record {
  Bytes = RendezvousState;
  Token = ℕ;
  Store = Shelf;
  dumps = λ s. s;
  loads = λ s. some s;
  held = λ t. t.bytes;
  get_state = shelf_get;
  set_state = shelf_set;
}

shelf_read :
    (t : Shelf) (v : RendezvousState) (k : ℕ) → shelf_get t ≡ some (v, k) → t.bytes ≡ some v
shelf_read t v k h = ground arith

shelf_written :
    (v : RendezvousState) (k : Option ℕ) (t : Shelf)
    → ((shelf_set v k t).1.bytes ≡ some v) ⊎ ((shelf_set v k t).1.bytes ≡ t.bytes)
unfolding shelf_set
shelf_written v k t =
    if-cases {A = Option (RendezvousState × ℕ × Bool) × Shelf}
      (λ r. (r.1.bytes ≡ some v) ⊎ (r.1.bytes ≡ t.bytes)) (matches k t) _ _ (λ e. inl refl)
      (λ e. inr refl)

shelf_returned :
    (v : RendezvousState) (k : Option ℕ) (t : Shelf) (r : RendezvousState × ℕ × Bool)
    → (shelf_set v k t).0 ≡ some r
    → (shelf_set v k t).1.bytes ≡ some r.0
unfolding shelf_set
shelf_returned v k t r h = ground arith

shelf-IsFencing : IsFencing shelf_backend
shelf-IsFencing = record {
  loads-dumps = λ s. refl;
  read = shelf_read;
  written = shelf_written;
  returned = shelf_returned;
}

abbrev empty_world : World shelf_backend
empty_world = record {
  node = λ n. record { executor = new_executor; holder = new_holder shelf_backend };
  store = record { bytes = none; version = 0 };
}

abbrev alone : Local shelf_backend
alone = record { node = empty_world.node node_a; store = empty_world.store }

joins_alone :
    let (outcome, l) =
      run shelf_backend true pair_settings 1 node_a join_request
        (round_at 100 ∷ round_at 104 ∷ round_at 105 ∷ [])
        700
        alone in
    (outcome ≡ finished)
    × (l.node.executor.state.participants ≡ (node_a, 0) ∷ [])
    × (l.node.executor.state.complete ≡ true)
    × (l.store.version ≡ 2)
unfolding run run_round sync_state serves_cached loaded dead_nodes lose_worker remove_dead
    remove_all_dead handle join_op should_keep_alive perform act_add_to_participants admit
    scan_requests join_round complete_if_full mark_complete all_healthy assign_ranks reserve fill
    none_left kept_rank take_rank sorted insert node_le get put has without contains discard erase
    range_from shelf_set matches node_eq
joins_alone = (refl, refl, refl, refl)

empty_world-IsSafe : IsSafe shelf_backend pair_settings empty_world
unfolding get
empty_world-IsSafe = record {
  executors = λ n. record {
    well_formed = initial_state-IsWellFormed pair_settings pair_settings-AreValid;
    prev_distinct = λ p q r h k. cc;
  };
  stored = λ v e. cc;
}

abbrev joined_world : World shelf_backend
joined_world =
    install shelf_backend empty_world node_a
      (run_round shelf_backend true pair_settings 1 node_a join_request (round_at 100) 700 alone).1

joined_world-Reach : Reach shelf_backend pair_settings empty_world joined_world
joined_world-Reach = next here (round true 1 node_a join_request (round_at 100) 700)

Reach-IsSafe_example : IsSafe shelf_backend pair_settings joined_world
Reach-IsSafe_example =
    Reach-IsSafe shelf_backend shelf-IsFencing pair_settings pair_settings-AreValid
      joined_world-Reach empty_world-IsSafe

abbrev long_run : List RoundInputs
long_run = round_at 100 ∷ round_at 104 ∷ round_at 105 ∷ []

-- A node that is alone, in a world for one or two, becomes rank 0 of one.
next_alone :
    (next_rendezvous shelf_backend pair_settings 1 node_a 99 (round_at 99 ∷ []) long_run alone).0
    ≡ answered (0, 1)
unfolding next_rendezvous get_world exit_op exit_lists run run_round sync_state serves_cached loaded
    dead_nodes lose_worker remove_dead remove_all_dead handle join_op should_keep_alive perform
    act_add_to_participants admit scan_requests join_round complete_if_full mark_complete
    all_healthy assign_ranks reserve fill none_left kept_rank take_rank sorted insert node_le get
    put has without contains discard erase range_from shelf_set matches node_eq
    is_final_workers_state action_or_timeout
next_alone = refl

-- A node that has joined leaves again.
abbrev joined_node : Local shelf_backend
joined_node =
    (run_round shelf_backend true pair_settings 1 node_a join_request (round_at 100) 700 alone).1

leaves_alone :
    (remove_this_node shelf_backend pair_settings 1 node_a 99 long_run joined_node).0 ≡ answered tt
unfolding remove_this_node exit_op exit_lists action_or_timeout is_final_workers_state run run_round
    sync_state serves_cached loaded dead_nodes lose_worker remove_dead remove_all_dead handle
    join_op perform act_add_to_participants act_remove_from_participants admit scan_requests
    join_round complete_if_full mark_complete all_healthy assign_ranks reserve fill none_left
    kept_rank take_rank sorted insert node_le get put has without contains discard erase range_from
    shelf_set matches node_eq
leaves_alone = refl

remove_this_node-IsGone_example :
    IsGone node_a
      (remove_this_node shelf_backend pair_settings 1 node_a 99 long_run
        joined_node).1.node.executor.state
remove_this_node-IsGone_example =
    remove_this_node-IsGone shelf_backend pair_settings 1 node_a 99 long_run joined_node
      leaves_alone

-- The one worker of the node has failed, and then a node joins again, so that a new round opens.
abbrev failed_local : Local shelf_backend
failed_local = record alone {
  node = record alone.node {
    executor = record new_executor {
      state = record initial_state {
        participants = (node_a, 0) ∷ [];
        deadline = some 100;
        last_heartbeats = (node_a, 100) ∷ [];
        worker_states = (node_a, failed) ∷ [];
      };
    };
  };
}

failed_again : get node_a failed_local.node.executor.state.worker_states ≡ some failed
unfolding get node_eq
failed_again = refl

after_handler-keeps_final_example :
    let c = round_context pair_settings node_a (round_at 102) 700 in
    let run = handle join_request c failed_local.node.executor.state in
    let r = after_handler shelf_backend true pair_settings node_a (round_at 102) 700 run in
    IsKeptFrom node_a failed failed_local.node.executor.state (r failed_local).1.node.executor
unfolding is_final_workers_state
after_handler-keeps_final_example =
    after_handler-keeps_final node_a failed shelf_backend true pair_settings node_a (round_at 102)
      700 join_request failed_local refl failed_again

-- The round completes the rendezvous, and the final state is gone.
overwrites_failed :
    let c = round_context pair_settings node_a (round_at 102) 700 in
    let run = handle join_request c failed_local.node.executor.state in
    let r = after_handler shelf_backend true pair_settings node_a (round_at 102) 700 run in
    (r failed_local).1.node.executor.state.worker_states ≡ (node_a, healthy) ∷ []
unfolding after_handler handle join_op should_keep_alive perform mark_complete all_healthy
    assign_ranks reserve fill none_left kept_rank take_rank sorted insert node_le get put has
    without contains discard erase range_from node_eq
overwrites_failed = refl
