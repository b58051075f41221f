-- ===== src/InProcess/Tree/Assigning.antt =====
-- `Tree.__call__` of inprocess/rank_assignment.py as a whole: what holds between two calls.
use nvidia_resiliency_ext_x.Prelude.{
  ℕ, ◌+◌, ◌≤◌, ◌≡◌, refl, true, Option, some, List, [], ◌∷◌, length, if◌then◌else◌, arith, All,
  Bool-cases, inl, inr,
}
use nvidia_resiliency_ext_x.Prelude.Eq.{◌==◌, number_keys}
use nvidia_resiliency_ext_x.Prelude.Keys.{contains, All-at_contained}
use nvidia_resiliency_ext_x.Prelude.Method.{Exceptional, ok, err, ret, ◌>>=◌}
use nvidia_resiliency_ext_x.InProcess.RankAssignment.{
  State, RankAssignmentCtx, AssignmentError, rank_discarded,
}
use nvidia_resiliency_ext_x.InProcess.Tree.Topology.{
  TreeNode, iter_leaves, initial_ranks, is_terminated, propagate_terminations,
}
use nvidia_resiliency_ext_x.InProcess.Tree.Leaves.{
  OnTree, at_every_leaf, with_initial_rank, init_rank_map,
}
use nvidia_resiliency_ext_x.InProcess.Tree.Reassignment.{
  active_among, terminate_all, replace_with_inactive, minus,
}
use nvidia_resiliency_ext_x.InProcess.Tree.Call.{
  shift_unhandled, filter_active_world_size, update_tree, recompute_rank, get_state_from_tree,
  tree_call,
}
use nvidia_resiliency_ext_x.InProcess.Tree.LeafLists.{count_active, AreApart}
use nvidia_resiliency_ext_x.InProcess.Tree.Keeping.{IsSound, IsTerminatedAt, IsOver}
use nvidia_resiliency_ext_x.InProcess.Tree.Ending.{IsFound, IsActiveAt}
use nvidia_resiliency_ext_x.InProcess.Tree.Ended.{IsEnded, terminate_all-IsEnded}
use nvidia_resiliency_ext_x.InProcess.Tree.Choosing.{value_at, active_among-IsChosen}
use nvidia_resiliency_ext_x.InProcess.Tree.Replacing.{held_by, AreTerminated}
use nvidia_resiliency_ext_x.InProcess.Tree.Unhandled.{replace_with_inactive-IsHandled}
use nvidia_resiliency_ext_x.InProcess.Tree.Gaps.{once_below, All-of_contains}
use nvidia_resiliency_ext_x.InProcess.Tree.Uniform.{Stays, Follows-Stays, IsSized, IsEven}

abbrev pub in_iteration : ℕ → State → State
in_iteration n s = record s { iteration = n }

pub in_iteration-IsEven : (n : ℕ) → IsEven (in_iteration n)
in_iteration-IsEven n = record {
  keeps_initial_rank = λ s. refl;
  keeps_mode = λ s. refl;
  ranked = λ s e. e;
}

-- The last step of a call.
abbrev pub answer : RankAssignmentCtx → OnTree RankAssignmentCtx
answer ctx t =
    (get_state_from_tree ctx.state >>= λ s. ret (record { state = s; terminated_ranks = [] })) t

pub tree_call-answer :
    (o : Option (ℕ → ℕ)) (ctx : RankAssignmentCtx) (t t0 t1 t2 t3 t4 t5 : TreeNode)
    (rs ta more : List ℕ)
    → at_every_leaf (in_iteration ctx.state.iteration) t ≡ t0
    → propagate_terminations t0 ctx.terminated_ranks ≡ rs
    → active_among rs t0 ≡ (ok ta, t0)
    → terminate_all rs t0 ≡ (ok tt, t1)
    → replace_with_inactive ta t1 ≡ (ok more, t2)
    → shift_unhandled (minus ta more) t2 ≡ (ok tt, t3)
    → filter_active_world_size o t3 ≡ (ok tt, t4)
    → update_tree ctx.state.world_size rs t4 ≡ (ok tt, t5)
    → tree_call o ctx t ≡ answer ctx (recompute_rank t5)
unfolding tree_call
tree_call-answer o ctx t t0 t1 t2 t3 t4 t5 rs ta more a b c d e f g h =
    rw (a, b, c, d, e, f, g, h) refl

-- How the active ranks leave the terminated leaves.
pub record IsFreed (rs : List ℕ) (size : ℕ) (t u : TreeNode) : Type 0 where
  pub value : ℕ → ℕ
  pub chosen : List ℕ
  pub more : List ℕ
  pub middle : TreeNode
  pub actives : active_among rs t ≡ (ok chosen, t)
  pub ends : terminate_all rs t ≡ (ok tt, middle)
  pub replaces : replace_with_inactive chosen middle ≡ (ok more, u)
  pub ended_ranks : IsEnded rs t middle
  pub stays : Stays middle u
  pub few : length chosen ≤ length rs
  pub left : AreTerminated value u (minus chosen more)
  pub counts :
      (v : ℕ)
      → count_active v (iter_leaves u) + held_by value (minus chosen more) v ≡ once_below size v
  pub sizes : All (λ s. s.active_world_size ≡ some size) (iter_leaves u)
  pub over : All (IsOver u) rs

pub free-IsFreed :
    (rs : List ℕ) (size : ℕ) (t : TreeNode)
    → IsSound t
    → IsSized size t
    → AreApart rs
    → All (IsFound t) rs
    → (u : TreeNode) × IsFreed rs size t u
free-IsFreed rs size t w h a f =
    let value = value_at (iter_leaves t) in
    let (ta, run_active, x) = active_among-IsChosen rs t w a f in
    let (t1, run_end, y) = terminate_all-IsEnded rs t w a f in
    let over : AreTerminated value t1 ta =
      All-of_contains (λ r. IsTerminatedAt t1 r (value r)) ta
        (λ r c.
          y.ended r (value r) (x.within r c)
            (All-at_contained (λ q. IsActiveAt t q (value q)) r ta x.actives c)) in
    let (more, u, run_replace, z) =
      replace_with_inactive-IsHandled value ta t1 y.keeps.follows.sound x.chosen_apart over in
    (
      u,
      record {
        value = value;
        chosen = ta;
        more = more;
        middle = t1;
        actives = run_active;
        ends = run_end;
        replaces = run_replace;
        ended_ranks = y;
        stays = Follows-Stays z.keeps.follows z.ends;
        few = x.no_more;
        left = z.still;
        counts = λ v. omega (arith, z.counts v, y.counts v, x.values v, h.counts v);
        sizes = z.keeps.follows.sizes size (y.keeps.follows.sizes size h.sizes);
        over = All-of_contains (IsOver u) rs (λ r c. z.keeps.follows.over r (y.over r c));
      },
    )

pub with_initial_rank-found :
    (k : ℕ) (leaves : List State)
    → contains k (initial_ranks leaves) ≡ true
    → (s : State) × (with_initial_rank k leaves ≡ some s)
unfolding with_initial_rank contains
with_initial_rank-found k [] h = absurd (ground arith)
with_initial_rank-found k (s ∷ leaves) h = elim (Bool-cases (s.initial_rank == k)) [
  | inl e ↦ (s, rw e refl)
  | inr e ↦ let (u, f) = with_initial_rank-found k leaves (ground arith) in (u, rw e f)
]

-- What a call answers for the leaf of this initial rank.
pub record IsAnswered (ctx : RankAssignmentCtx) (u : TreeNode)
    (a : Exceptional AssignmentError RankAssignmentCtx) : Type 0 where
  pub own : State
  pub found : with_initial_rank ctx.state.initial_rank (iter_leaves u) ≡ some own
  pub answered : a ≡ (
      if is_terminated own.mode
      then err rank_discarded
      else ok (record { state = own; terminated_ranks = [] }))

pub answer-IsAnswered :
    (ctx : RankAssignmentCtx) (u : TreeNode)
    → contains ctx.state.initial_rank (initial_ranks (iter_leaves u)) ≡ true
    → (a : Exceptional AssignmentError RankAssignmentCtx) × (answer ctx u ≡ (a, u))
      × IsAnswered ctx u a
unfolding get_state_from_tree init_rank_map
answer-IsAnswered ctx u c =
    let (s, found) = with_initial_rank-found ctx.state.initial_rank (iter_leaves u) c in
    elim (Bool-cases (is_terminated s.mode)) [
      | inl e ↦ (
        err rank_discarded,
        rw (found, e) refl,
        record { own = s; found = found; answered = rw e refl },
      )
      | inr e ↦ (
        ok (record { state = s; terminated_ranks = [] }),
        rw (found, e) refl,
        record { own = s; found = found; answered = rw e refl },
      )
    ]
