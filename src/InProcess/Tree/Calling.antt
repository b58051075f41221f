-- ===== src/InProcess/Tree/Calling.antt =====
-- A call of `Tree` of inprocess/rank_assignment.py on a tree of an earlier call.
use nvidia_resiliency_ext_x.Prelude.{
  ℕ, ◌-◌, ◌≤◌, ◌≡◌, refl, sym, ap, ◌∙◌, subst, ◌||◌, true, Option, some, List, [], ◌∷◌, length,
  if◌then◌else◌, arith, All,
}
use nvidia_resiliency_ext_x.Prelude.Eq.{number_keys}
use nvidia_resiliency_ext_x.Prelude.Keys.{contains, count, contains-eq-true}
use nvidia_resiliency_ext_x.Prelude.Method.{Exceptional, ok, err}
use nvidia_resiliency_ext_x.InProcess.RankAssignment.{
  State, RankAssignmentCtx, AssignmentError, rank_discarded,
}
use nvidia_resiliency_ext_x.InProcess.Tree.Topology.{
  TreeNode, iter_leaves, initial_ranks, is_terminated, propagate_terminations,
}
use nvidia_resiliency_ext_x.InProcess.Tree.Leaves.{at_every_leaf, with_initial_rank}
use nvidia_resiliency_ext_x.InProcess.Tree.Call.{recompute_rank, tree_call}
use nvidia_resiliency_ext_x.InProcess.Tree.LeafLists.{AreApart, iter_leaves-at_every_leaf}
use nvidia_resiliency_ext_x.InProcess.Tree.Reserving.{contains-with_initial_rank}
use nvidia_resiliency_ext_x.InProcess.Tree.Keeping.{ranks, ended, IsSound}
use nvidia_resiliency_ext_x.InProcess.Tree.Ending.{IsFound}
use nvidia_resiliency_ext_x.InProcess.Tree.RankSets.{AreApart-of_count}
use nvidia_resiliency_ext_x.InProcess.Tree.Gaps.{once_below}
use nvidia_resiliency_ext_x.InProcess.Tree.Uniform.{
  IsSized, at_every_leaf-Stays, at_every_leaf-count, at_every_leaf-sizes, with_initial_rank-map,
}
use nvidia_resiliency_ext_x.InProcess.Tree.Narrowing.{IsNarrowing, narrowed}
use nvidia_resiliency_ext_x.InProcess.Tree.Numbering.{IsAssigned, recompute_rank-IsAssigned}
use nvidia_resiliency_ext_x.InProcess.Tree.Spreading.{
  propagate_terminations-AreApart, propagate_terminations-IsFound,
  propagate_terminations-at_every_leaf,
}
use nvidia_resiliency_ext_x.InProcess.Tree.Discarding.{terminate_all-ended, ended-with_initial_rank}
use nvidia_resiliency_ext_x.InProcess.Tree.Assigning.{
  in_iteration, in_iteration-IsEven, tree_call-answer, answer-IsAnswered,
}
use nvidia_resiliency_ext_x.InProcess.Tree.Rearranging.{IsRearranged, rearrange, IsNext}

some_leaf :
    (k : ℕ) (leaves : List State) (x : State)
    → with_initial_rank k leaves ≡ some x
    → 1 ≤ length leaves
unfolding with_initial_rank
some_leaf k [] x h = absurd (ground arith)
some_leaf k (s ∷ leaves) x h = omega arith

numbered-AreApart :
    (leaves : List State)
    → ((v : ℕ) → count v (ranks leaves) ≡ once_below (length leaves) v)
    → AreApart (ranks leaves)
numbered-AreApart leaves h = AreApart-of_count (ranks leaves) (λ k. ground (arith, h k))

-- Whether the leaf of this initial rank is terminated after the call.
rearranged-ended :
    (o : Option (ℕ → ℕ)) (n size lost k : ℕ) (rs : List ℕ) (t u : TreeNode) (x own : State)
    → IsSound t
    → AreApart (ranks (iter_leaves t))
    → All (IsFound t) rs
    → (y : IsRearranged o n size lost rs t u) → with_initial_rank k (iter_leaves t) ≡ some x
    → (v : TreeNode) → initial_ranks (iter_leaves v) ≡ initial_ranks (iter_leaves u)
    → ended (iter_leaves v) ≡ ended (iter_leaves u)
    → with_initial_rank k (iter_leaves v) ≡ some own
    → is_terminated own.mode ≡ (is_terminated x.mode || contains x.rank rs)
rearranged-ended o n size lost k rs t u x own w a f y own_t v keys ends own_v =
    let (z, own_z, e) = terminate_all-ended k rs t y.frees.middle x w a f y.frees.ends own_t in
    ended-with_initial_rank k (iter_leaves v) (iter_leaves y.frees.middle) own z
      (keys ∙ y.stays.same_initial_ranks) (ends ∙ y.stays.ends) own_v own_z
    ∙ e

-- Take a tree as a call or the first activation leaves it: the active ranks of active leaves are the
-- numbers below an active world size that every leaf has, each once, the ranks of all leaves those
-- of a world, each once, and every node records its inactive leaves and no others. On distinct ranks
-- of leaves as terminated ranks, with a world size filter that returns no more than it is given if
-- there is one, Tree.__call__ leaves such a tree of the same leaves. Before the filter the active
-- world size falls by no more than the number of ranks that propagate_terminations returns. The
-- caller gets the state of its leaf with no terminated ranks, or RankDiscarded exactly if its leaf
-- was terminated before or has one of the ranks that propagate_terminations returns.
pub tree_call-IsNext :
    (o : Option (ℕ → ℕ)) (ctx : RankAssignmentCtx) (size : ℕ) (t : TreeNode) (x : State)
    → IsNarrowing o
    → IsAssigned size t
    → AreApart ctx.terminated_ranks
    → All (IsFound t) ctx.terminated_ranks
    → with_initial_rank ctx.state.initial_rank (iter_leaves t) ≡ some x
    → (a : Exceptional AssignmentError RankAssignmentCtx) × (u : TreeNode) × (tree_call o ctx t
        ≡ (a, u))
      × IsNext o ctx size t x a u
tree_call-IsNext o ctx size t x narrow w apart known own_t =
    let f = in_iteration ctx.state.iteration in
    let k = ctx.state.initial_rank in
    let t0 = at_every_leaf f t in
    let rs = propagate_terminations t ctx.terminated_ranks in
    let even =
      at_every_leaf-Stays f t (in_iteration-IsEven ctx.state.iteration) (λ s. refl) w.sound in
    let sized : IsSized size t0 = record {
      counts = λ v. at_every_leaf-count f v t (λ s. refl) (λ s. refl) ∙ w.sized.counts v;
      sizes = at_every_leaf-sizes f size size t (λ s e. e) w.sized.sizes;
    } in
    let found : All (IsFound t0) rs =
      subst (λ l. All (λ q. contains q l ≡ true) rs) (sym even.same_ranks)
        (propagate_terminations-IsFound t ctx.terminated_ranks known) in
    let zero_found : IsFound t0 0 =
      ap (contains 0) even.same_ranks
      ∙ contains-eq-true 0 (ranks (iter_leaves t))
          (ground (arith, w.numbered 0, some_leaf k (iter_leaves t) x own_t)) in
    let (t5, lost, y) =
      rearrange o ctx.state.world_size size rs t0 narrow even.sound sized
        (propagate_terminations-AreApart t ctx.terminated_ranks apart) found zero_found in
    let (assigned, keys, ends) =
      recompute_rank-IsAssigned (narrowed o (size - lost)) t5 y.stays.sound y.sized in
    let u = recompute_rank t5 in
    let same : initial_ranks (iter_leaves u) ≡ initial_ranks (iter_leaves t) =
      keys ∙ y.stays.same_initial_ranks ∙ y.frees.ended_ranks.keeps.follows.same_initial_ranks
      ∙ even.same_initial_ranks in
    let (a, answers, z) =
      answer-IsAnswered ctx u
        (ap (contains k) same ∙ (contains-with_initial_rank k (iter_leaves t) x own_t).0) in
    let own_t0 : with_initial_rank k (iter_leaves t0) ≡ some (f x) =
      rw (iter_leaves-at_every_leaf f t)
        (with_initial_rank-map f k (iter_leaves t) x (λ s. refl) own_t) in
    let discards : is_terminated z.own.mode ≡ (is_terminated x.mode || contains x.rank rs) =
      rearranged-ended o ctx.state.world_size size lost k rs t0 t5 (f x) z.own even.sound
        (subst AreApart (sym even.same_ranks) (numbered-AreApart (iter_leaves t) w.numbered)) found
        y own_t0 u keys ends z.found in
    (
      a,
      u,
      tree_call-answer o ctx t t0 y.frees.middle y.freed y.shifted y.filtered t5 rs y.frees.chosen
            y.frees.more refl
            (propagate_terminations-at_every_leaf f t ctx.terminated_ranks (λ s. refl) (λ s. refl))
            y.frees.actives y.frees.ends y.frees.replaces y.shifts y.filters y.updates
          ∙ answers,
      record {
        lost = lost;
        few = y.fewer;
        assigned = assigned;
        same_leaves = same;
        own = z.own;
        found = z.found;
        answered =
            z.answered
            ∙ ap
                (λ b.
                  if b
                  then err rank_discarded
                  else ok (record { state = z.own; terminated_ranks = [] }))
                discards;
      },
    )
