-- ===== src/InProcess/Tree/Rearranging.antt =====
-- A call of `Tree` of inprocess/rank_assignment.py but for the new ranks and the answer.
use nvidia_resiliency_ext_x.Prelude.{
  ℕ, ◌-◌, ◌≤◌, ◌≡◌, ap, ◌∙◌, ◌||◌, Option, some, List, [], length, if◌then◌else◌, arith, All,
}
use nvidia_resiliency_ext_x.Prelude.Eq.{number_keys}
use nvidia_resiliency_ext_x.Prelude.Keys.{contains}
use nvidia_resiliency_ext_x.Prelude.Method.{Exceptional, ok, err}
use nvidia_resiliency_ext_x.InProcess.RankAssignment.{
  State, RankAssignmentCtx, AssignmentError, rank_discarded,
}
use nvidia_resiliency_ext_x.InProcess.Tree.Topology.{
  TreeNode, iter_leaves, initial_ranks, is_terminated, propagate_terminations,
}
use nvidia_resiliency_ext_x.InProcess.Tree.Leaves.{with_initial_rank}
use nvidia_resiliency_ext_x.InProcess.Tree.Reassignment.{minus}
use nvidia_resiliency_ext_x.InProcess.Tree.Call.{
  shift_unhandled, filter_active_world_size, update_tree,
}
use nvidia_resiliency_ext_x.InProcess.Tree.LeafLists.{AreApart}
use nvidia_resiliency_ext_x.InProcess.Tree.Keeping.{ranks, IsSound}
use nvidia_resiliency_ext_x.InProcess.Tree.Ending.{IsFound}
use nvidia_resiliency_ext_x.InProcess.Tree.RankSets.{length-minus_le}
use nvidia_resiliency_ext_x.InProcess.Tree.Uniform.{Stays, Stays-trans, IsSized}
use nvidia_resiliency_ext_x.InProcess.Tree.Closing.{shift_unhandled-IsSized}
use nvidia_resiliency_ext_x.InProcess.Tree.Narrowing.{
  IsNarrowing, narrowed, filter_active_world_size-IsSized,
}
use nvidia_resiliency_ext_x.InProcess.Tree.Reranking.{All-IsOver, update_tree-IsSized}
use nvidia_resiliency_ext_x.InProcess.Tree.Numbering.{IsAssigned}
use nvidia_resiliency_ext_x.InProcess.Tree.Assigning.{IsFreed, free-IsFreed}

-- The tree after a part of a call, in which `rs` were terminated and `lost` active ranks were lost.
pub record IsRearranged (o : Option (ℕ → ℕ)) (n size lost : ℕ) (rs : List ℕ) (t u : TreeNode)
    : Type 0 where
  pub freed : TreeNode
  pub frees : IsFreed rs size t freed
  pub shifted : TreeNode
  pub shifts : shift_unhandled (minus frees.chosen frees.more) freed ≡ (ok tt, shifted)
  pub filtered : TreeNode
  pub filters : filter_active_world_size o shifted ≡ (ok tt, filtered)
  pub updates : update_tree n rs filtered ≡ (ok tt, u)
  pub fewer : lost ≤ length rs
  pub stays : Stays frees.middle u
  pub sized : IsSized (narrowed o (size - lost)) u

pub rearrange :
    (o : Option (ℕ → ℕ)) (n size : ℕ) (rs : List ℕ) (t : TreeNode)
    → IsNarrowing o
    → IsSound t
    → IsSized size t
    → AreApart rs
    → All (IsFound t) rs
    → IsFound t 0
    → (u : TreeNode) × (lost : ℕ) × IsRearranged o n size lost rs t u
rearrange o n size rs t narrow w h a f zero_found =
    let (t2, x) = free-IsFreed rs size t w h a f in
    let unhandled = minus x.chosen x.more in
    let (t3, run_shift, stays3, sized3) =
      shift_unhandled-IsSized x.value unhandled size t2 x.stays.sound x.left x.counts x.sizes in
    let same_ranks : ranks (iter_leaves t3) ≡ ranks (iter_leaves t) =
      stays3.same_ranks ∙ x.stays.same_ranks ∙ x.ended_ranks.keeps.follows.same_ranks in
    let (t4, run_filter, stays4, sized4) =
      filter_active_world_size-IsSized o (size - length unhandled) t3 narrow stays3.sound sized3
        (ap (contains 0) same_ranks ∙ zero_found) in
    let (t5, run_update, stays5, sized5) =
      update_tree-IsSized n (narrowed o (size - length unhandled)) rs t4 stays4.sound sized4
        (All-IsOver rs t2 t4 (λ r e. stays4.over r (stays3.over r e)) x.over) in
    (
      t5,
      length unhandled,
      record {
        freed = t2;
        frees = x;
        shifted = t3;
        shifts = run_shift;
        filtered = t4;
        filters = run_filter;
        updates = run_update;
        fewer = omega (arith, length-minus_le x.chosen x.more, x.few);
        stays = Stays-trans x.stays (Stays-trans stays3 (Stays-trans stays4 stays5));
        sized = sized5;
      },
    )

-- What a call makes of the tree and answers, where `x` was the caller's leaf.
pub record IsNext (o : Option (ℕ → ℕ)) (ctx : RankAssignmentCtx) (size : ℕ) (t : TreeNode)
    (x : State) (a : Exceptional AssignmentError RankAssignmentCtx) (u : TreeNode) : Type 0 where
  pub lost : ℕ
  pub few : lost ≤ length (propagate_terminations t ctx.terminated_ranks)
  pub assigned : IsAssigned (narrowed o (size - lost)) u
  pub same_leaves : initial_ranks (iter_leaves u) ≡ initial_ranks (iter_leaves t)
  pub own : State
  pub found : with_initial_rank ctx.state.initial_rank (iter_leaves u) ≡ some own
  pub answered : a ≡ (
      if is_terminated x.mode || contains x.rank (propagate_terminations t ctx.terminated_ranks)
      then err rank_discarded
      else ok (record { state = own; terminated_ranks = [] }))
