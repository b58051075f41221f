-- ===== src/InProcess/Tree/Call.antt =====
-- `Tree.__call__` of inprocess/rank_assignment.py on a tree that is built and activated.
-- `update_tree` writes None to the rank of a terminated leaf, and `recompute_rank` at once gives every
-- leaf a rank; here only the second is written.
use nvidia_resiliency_ext_x.Prelude.{
  ℕ, suc, ◌-◌, ◌&&◌, Bool, true, false, Option, none, some, List, [], ◌∷◌, ◌++◌, length,
  if◌then◌else◌, leb,
}
use nvidia_resiliency_ext_x.Prelude.Eq.{◌==◌, number_keys}
use nvidia_resiliency_ext_x.Prelude.Method.{ok, err, ret, raise, modify, ◌>>=◌, ◌>>◌}
use nvidia_resiliency_ext_x.InProcess.RankAssignment.{
  State, RankAssignmentCtx, rank_discarded, type_error, assertion_error,
}
use nvidia_resiliency_ext_x.InProcess.Tree.Topology.{
  TreeNode, iter_leaves, is_active, is_terminated, propagate_terminations, bounded_activate,
}
use nvidia_resiliency_ext_x.InProcess.Tree.Leaves.{
  OnTree, at_leaf, at_every_leaf, deactivate_leaf, rank_map, init_rank_map,
}
use nvidia_resiliency_ext_x.InProcess.Tree.Reassignment.{
  active_among, terminate_all, replace_with_inactive, minus, replace_with_backfill, shift_tree,
}

-- In `__call__`, where the tree has just been built.
unfoldable pub first_activation : TreeNode → TreeNode
unfolding bounded_activate at_every_leaf
first_activation t =
    let (activated, active_world_size, path) = bounded_activate t 0 [] in
    at_every_leaf (λ s. record s { active_world_size = some active_world_size }) activated

unfoldable pub shift_unhandled : List ℕ → OnTree (Unit {0})
unfolding replace_with_backfill shift_tree
shift_unhandled [] = ret tt
shift_unhandled (r ∷ rs) = do
  replaced_active ← replace_with_backfill (r ∷ rs)
  modify (shift_tree replaced_active (r ∷ rs))

abbrev pub is_at_least : ℕ → Option ℕ → Bool
is_at_least size none = false
is_at_least size (some r) = leb size r

-- The leaf holds an active rank where it is active.
abbrev pub is_past : ℕ → State → Bool
is_past size s = is_active s.mode && is_at_least size s.active_rank

unfoldable pub deactivate_past : ℕ → List State → TreeNode → TreeNode
unfolding deactivate_leaf
deactivate_past size [] t = t
deactivate_past size (s ∷ leaves) t =
    deactivate_past size leaves (if is_past size s then deactivate_leaf s.initial_rank t else t)

unfoldable pub shrink : ℕ → Option ℕ → OnTree (Unit {0})
unfolding at_every_leaf deactivate_past iter_leaves
shrink new none t = (err type_error, t)
shrink new (some size) t =
    if leb new size
    then (
      ok tt,
      deactivate_past new (iter_leaves t)
          (at_every_leaf (λ s. record s { active_world_size = some new }) t),
    )
    else (err assertion_error, t)

abbrev pub filtered_size : (ℕ → ℕ) → Option ℕ → ℕ
filtered_size world_size_filter none = 0
filtered_size world_size_filter (some size) = world_size_filter size

-- The leaf of rank 0 stands first in rank_map.
unfoldable pub filter_active_world_size : Option (ℕ → ℕ) → OnTree (Unit {0})
unfolding rank_map shrink
filter_active_world_size none = ret tt
filter_active_world_size (some world_size_filter) = do
  s ← rank_map 0
  shrink (filtered_size world_size_filter s.active_world_size) s.active_world_size

unfoldable pub forget_active_ranks : List ℕ → OnTree (Unit {0})
unfolding rank_map at_leaf
forget_active_ranks [] = ret tt
forget_active_ranks (rank ∷ ranks) = do
  s ← rank_map rank
  modify (at_leaf s.initial_rank (λ s. record s { active_rank = none }) (λ i. i))
  forget_active_ranks ranks

unfoldable pub update_tree : ℕ → List ℕ → OnTree (Unit {0})
unfolding at_every_leaf forget_active_ranks
update_tree world_size terminated_ranks = do
  modify (at_every_leaf (λ s. record s { world_size = world_size - length terminated_ranks }))
  forget_active_ranks terminated_ranks

-- The leaves that are terminated, or those that are not, in their order.
unfoldable pub with_termination : Bool → List State → List ℕ
with_termination b [] = []
with_termination true (s ∷ leaves) =
    let rest = with_termination true leaves in
    if is_terminated s.mode then s.initial_rank ∷ rest else rest
with_termination false (s ∷ leaves) =
    let rest = with_termination false leaves in
    if is_terminated s.mode then rest else s.initial_rank ∷ rest

unfoldable pub index_of : ℕ → List ℕ → ℕ
index_of k [] = 0
index_of k (j ∷ ks) = let i = index_of k ks in if j == k then 0 else suc i

-- leaves.sort(key=terminated) is stable.
unfoldable pub recompute_rank : TreeNode → TreeNode
unfolding at_every_leaf with_termination index_of iter_leaves
recompute_rank t =
    let order = with_termination false (iter_leaves t) ++ with_termination true (iter_leaves t) in
    at_every_leaf (λ s. record s { rank = index_of s.initial_rank order }) t

unfoldable pub get_state_from_tree : State → OnTree State
unfolding init_rank_map
get_state_from_tree state = do
  s ← init_rank_map state.initial_rank
  if is_terminated s.mode then raise rank_discarded else ret s

unfoldable pub tree_call : Option (ℕ → ℕ) → RankAssignmentCtx → OnTree RankAssignmentCtx
unfolding at_every_leaf propagate_terminations active_among terminate_all replace_with_inactive
    minus filter_active_world_size update_tree recompute_rank get_state_from_tree shift_unhandled
tree_call world_size_filter ctx = do
  modify (at_every_leaf (λ s. record s { iteration = ctx.state.iteration }))
  terminated_ranks ← λ t. (ok (propagate_terminations t ctx.terminated_ranks), t)
  terminated_active_ranks ← active_among terminated_ranks
  terminate_all terminated_ranks
  replaced ← replace_with_inactive terminated_active_ranks
  shift_unhandled (minus terminated_active_ranks replaced)
  filter_active_world_size world_size_filter
  update_tree ctx.state.world_size terminated_ranks
  modify recompute_rank
  s ← get_state_from_tree ctx.state
  ret (record { state = s; terminated_ranks = [] })
