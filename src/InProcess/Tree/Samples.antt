-- ===== src/InProcess/Tree/Samples.antt =====
-- Tests of the topology tree on two hosts of three and two ranks, and the theorems at it.
use nvidia_resiliency_ext_x.Prelude.{true, ℕ, ◌≡◌, refl, Option, none, some, [], ◌∷◌, arith}
use nvidia_resiliency_ext_x.Prelude.Eq.{number_keys}
use nvidia_resiliency_ext_x.Prelude.Keys.{count, add, update, contains}
use nvidia_resiliency_ext_x.InProcess.RankAssignment.{initialized}
use nvidia_resiliency_ext_x.InProcess.Tree.Topology.{
  TreeNode, leaf, inner, TreeNodes, no_nodes, with_node, iter_leaves, has_room, activate,
  deactivate, visit_leaf, bounded_activate, count_not_terminated, ranks_not_terminated,
  terminate_short, propagate_terminations,
}
use nvidia_resiliency_ext_x.InProcess.Tree.Activating.{active_ranks}
use nvidia_resiliency_ext_x.InProcess.Tree.Activation.{
  IsNew, IsActivated, bounded_activate-IsActivated,
}
use nvidia_resiliency_ext_x.InProcess.Tree.Supply.{
  AreDistinct, IsLeast, propagate_terminations-IsLeast,
}

abbrev pub fresh_leaf : ℕ → TreeNode
fresh_leaf rank = leaf (record {
  rank = rank;
  world_size = 5;
  active_rank = none;
  active_world_size = none;
  initial_rank = rank;
  initial_world_size = 5;
  iteration = 0;
  mode = initialized;
})

abbrev pub fresh_inner : ℕ → Option ℕ → TreeNodes → TreeNode
fresh_inner min_ranks max_ranks ns =
    inner
      (record {
        layer = record {
          min_ranks = min_ranks;
          max_ranks = max_ranks;
          reserve = true;
          backfill = true;
        };
        active_count = 0;
        inactive_nodes = [];
      })
      ns

-- Each host has two ranks at least and at most; all hosts have three at most.
abbrev pub two_hosts : TreeNode
two_hosts = fresh_inner 2 (some 3) (
    with_node
      (fresh_inner 2 (some 2)
        (with_node (fresh_leaf 0) (with_node (fresh_leaf 1) (with_node (fresh_leaf 2) no_nodes))))
      (with_node
        (fresh_inner 2 (some 2) (with_node (fresh_leaf 3) (with_node (fresh_leaf 4) no_nodes)))
        no_nodes))

three_active :
    active_ranks (iter_leaves (bounded_activate two_hosts 0 []).0) ≡ some 0 ∷ some 1 ∷ some 2 ∷ []
unfolding bounded_activate visit_leaf activate deactivate has_room iter_leaves active_ranks
three_active = refl

-- The second host is left with one rank, which is terminated with the other.
second_host_short : propagate_terminations two_hosts (3 ∷ []) ≡ 3 ∷ 4 ∷ []
unfolding propagate_terminations terminate_short iter_leaves count_not_terminated
    ranks_not_terminated update add contains
second_host_short = refl

two_hosts-IsNew : IsNew two_hosts
unfolding IsNew
two_hosts-IsNew = (refl, ((refl, (tt, (tt, (tt, tt)))), ((refl, (tt, (tt, tt))), tt)))

bounded_activate-IsActivated_example :
    IsActivated two_hosts (bounded_activate two_hosts 0 []).0 (bounded_activate two_hosts 0 []).1
bounded_activate-IsActivated_example = bounded_activate-IsActivated two_hosts two_hosts-IsNew

two_hosts-AreDistinct : AreDistinct (ranks_not_terminated (iter_leaves two_hosts))
unfolding ranks_not_terminated iter_leaves count
two_hosts-AreDistinct r = ground arith

propagate_terminations-IsLeast_example :
    IsLeast two_hosts (3 ∷ []) (propagate_terminations two_hosts (3 ∷ []))
propagate_terminations-IsLeast_example =
    propagate_terminations-IsLeast two_hosts (3 ∷ []) two_hosts-AreDistinct
