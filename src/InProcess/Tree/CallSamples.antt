-- ===== src/InProcess/Tree/CallSamples.antt =====
-- Tests of `Tree.__call__` of inprocess/rank_assignment.py on two hosts, and the theorems at them.
use nvidia_resiliency_ext_x.Prelude.{◌≡◌, ◌-◌, All, refl, none, some, [], ◌∷◌, map, arith}
use nvidia_resiliency_ext_x.Prelude.Eq.{number_keys}
use nvidia_resiliency_ext_x.Prelude.Keys.{count, add, discard, update, contains}
use nvidia_resiliency_ext_x.Prelude.Sorting.{insert, sorted}
use nvidia_resiliency_ext_x.Prelude.Method.{Exceptional}
use nvidia_resiliency_ext_x.InProcess.RankAssignment.{
  State, RankAssignmentCtx, AssignmentError, active, below,
}
use nvidia_resiliency_ext_x.InProcess.Tree.Topology.{
  TreeNode, iter_leaves, has_room, activate, deactivate, visit_leaf, bounded_activate,
  count_not_terminated, ranks_not_terminated, terminate_short, propagate_terminations,
}
use nvidia_resiliency_ext_x.InProcess.Tree.Leaves.{
  at_leaf, at_every_leaf, terminate, take_over_from, deactivate_leaf, with_rank, with_initial_rank,
  rank_map, init_rank_map, above, reserved, backfill_domain,
}
use nvidia_resiliency_ext_x.InProcess.Tree.Reassignment.{
  active_among, terminate_all, replace_one, replace_each, replace_with_inactive, minus, same_domain,
  append_at, by_domain, active_in, largest, largest_reversed, pair_up, backfill_domains,
  replace_with_backfill, shift_tree,
}
use nvidia_resiliency_ext_x.InProcess.Tree.Call.{
  first_activation, shift_unhandled, deactivate_past, shrink, filter_active_world_size,
  forget_active_ranks, update_tree, with_termination, index_of, recompute_rank, get_state_from_tree,
  tree_call,
}
use nvidia_resiliency_ext_x.InProcess.Tree.Samples.{two_hosts}
use nvidia_resiliency_ext_x.InProcess.Tree.LeafLists.{AreApart}
use nvidia_resiliency_ext_x.InProcess.Tree.Ending.{IsFound}
use nvidia_resiliency_ext_x.InProcess.Tree.Numbering.{IsAssigned}
use nvidia_resiliency_ext_x.InProcess.Tree.Activation.{IsNew}
use nvidia_resiliency_ext_x.InProcess.Tree.Noting.{IsUnmarked}
use nvidia_resiliency_ext_x.InProcess.Tree.First.{IsBuilt, first_activation-IsAssigned}
use nvidia_resiliency_ext_x.InProcess.Tree.Calling.{tree_call-IsNext}
use nvidia_resiliency_ext_x.InProcess.Tree.Rearranging.{IsNext}

two_hosts-IsBuilt : IsBuilt two_hosts
unfolding IsNew IsUnmarked iter_leaves count contains
two_hosts-IsBuilt = record {
  new = (refl, ((refl, (tt, (tt, (tt, tt)))), ((refl, (tt, (tt, tt))), tt)));
  unmarked = (refl, ((refl, (tt, (tt, (tt, tt)))), ((refl, (tt, (tt, tt))), tt)));
  apart = (refl, (refl, (refl, (refl, (refl, tt)))));
  numbered = λ v. ground arith;
}

first_activation-IsAssigned_example :
    IsAssigned (bounded_activate two_hosts 0 []).1 (first_activation two_hosts)
first_activation-IsAssigned_example = first_activation-IsAssigned two_hosts two_hosts-IsBuilt

-- The caller of rank 1 meets the termination of rank 3.
abbrev caller : RankAssignmentCtx
caller = record {
  state = record {
    rank = 1;
    world_size = 5;
    active_rank = some 1;
    active_world_size = some 3;
    initial_rank = 1;
    initial_world_size = 5;
    iteration = 1;
    mode = active;
  };
  terminated_ranks = 3 ∷ [];
}

abbrev own_leaf : State
own_leaf = record {
  rank = 1;
  world_size = 5;
  active_rank = some 1;
  active_world_size = some 3;
  initial_rank = 1;
  initial_world_size = 5;
  iteration = 0;
  mode = active;
}

own_leaf-found : with_initial_rank 1 (iter_leaves (first_activation two_hosts)) ≡ some own_leaf
unfolding first_activation at_every_leaf with_initial_rank iter_leaves has_room activate deactivate
    visit_leaf bounded_activate
own_leaf-found = refl

three-IsFound : All (IsFound (first_activation two_hosts)) (3 ∷ [])
unfolding first_activation at_every_leaf iter_leaves has_room activate deactivate visit_leaf
    bounded_activate contains
three-IsFound = (refl, tt)

three-AreApart : AreApart (3 ∷ [])
unfolding contains
three-AreApart = (refl, tt)

-- The spare leaf of the first host takes over the active rank 2 of the leaf of rank 3.
spare_takes_over :
    map (λ s. s.active_rank) (iter_leaves (tree_call none caller (first_activation two_hosts)).1)
    ≡ some 0 ∷ some 1 ∷ some 2 ∷ none ∷ none ∷ []
unfolding tree_call first_activation shift_unhandled filter_active_world_size shrink deactivate_past
    forget_active_ranks update_tree with_termination index_of recompute_rank get_state_from_tree
    active_among terminate_all replace_one replace_each replace_with_inactive minus same_domain
    append_at by_domain active_in largest largest_reversed pair_up backfill_domains
    replace_with_backfill shift_tree at_leaf at_every_leaf terminate take_over_from deactivate_leaf
    with_rank with_initial_rank rank_map init_rank_map above reserved backfill_domain iter_leaves
    has_room activate deactivate visit_leaf bounded_activate count_not_terminated
    ranks_not_terminated terminate_short propagate_terminations insert sorted below count add
    discard update contains
spare_takes_over = refl

-- With a filter to two ranks it is deactivated again.
filtered_to_two :
    map
      (λ s. s.active_rank)
      (iter_leaves (tree_call (some (λ n. n - 1)) caller (first_activation two_hosts)).1)
    ≡ some 0 ∷ some 1 ∷ none ∷ none ∷ none ∷ []
unfolding tree_call first_activation shift_unhandled filter_active_world_size shrink deactivate_past
    forget_active_ranks update_tree with_termination index_of recompute_rank get_state_from_tree
    active_among terminate_all replace_one replace_each replace_with_inactive minus same_domain
    append_at by_domain active_in largest largest_reversed pair_up backfill_domains
    replace_with_backfill shift_tree at_leaf at_every_leaf terminate take_over_from deactivate_leaf
    with_rank with_initial_rank rank_map init_rank_map above reserved backfill_domain iter_leaves
    has_room activate deactivate visit_leaf bounded_activate count_not_terminated
    ranks_not_terminated terminate_short propagate_terminations insert sorted below count add
    discard update contains
filtered_to_two = refl

tree_call-IsNext_example :
    (a : Exceptional AssignmentError RankAssignmentCtx) × (u : TreeNode) × (tree_call none caller
        (first_activation two_hosts)
      ≡ (a, u))
    × IsNext none caller
        (bounded_activate two_hosts 0 []).1
        (first_activation two_hosts)
        own_leaf
        a
        u
tree_call-IsNext_example =
    tree_call-IsNext none caller (bounded_activate two_hosts 0 []).1 (first_activation two_hosts)
      own_leaf tt (first_activation-IsAssigned two_hosts two_hosts-IsBuilt) three-AreApart
      three-IsFound own_leaf-found
