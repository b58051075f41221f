-- ===== src/InProcess/Tree/Leaves.antt =====
-- The leaves of the topology tree of `Tree` in inprocess/rank_assignment.py, changed one at a time.
-- The code holds references to them; here a leaf is found again by its initial rank, which no two
-- share and nothing writes to.
use nvidia_resiliency_ext_x.Prelude.{ℕ, Option, none, some, List, [], ◌∷◌, ◌++◌, if◌then◌else◌}
use nvidia_resiliency_ext_x.Prelude.Eq.{◌==◌, number_keys}
use nvidia_resiliency_ext_x.Prelude.Keys.{contains}
use nvidia_resiliency_ext_x.Prelude.Method.{Exceptional, ok, err}
use nvidia_resiliency_ext_x.InProcess.RankAssignment.{
  active, terminated, State, AssignmentError, key_error,
}
use nvidia_resiliency_ext_x.InProcess.Tree.Topology.{
  Inner, TreeNode, leaf, inner, TreeNodes, no_nodes, with_node, iter_leaves, iter_leaves_of,
  initial_ranks, join_inactive, leave_inactive, deactivate,
}

-- What reads and writes the tree.
abbrev pub OnTree : Type 0 → Type 0
OnTree A = TreeNode → Exceptional AssignmentError A × TreeNode

abbrev pub changed_at : ℕ → (State → State) → State → State
changed_at k f s = if s.initial_rank == k then f s else s

-- A leaf changes, and so does what the nodes above it record.
unfoldable mutual
  unfolding iter_leaves contains

  pub at_leaf : ℕ → (State → State) → (Inner → Inner) → TreeNode → TreeNode
  at_leaf k f g (leaf s) = leaf (changed_at k f s)
  at_leaf k f g (inner i ns) =
      inner (if contains k (initial_ranks (iter_leaves_of ns)) then g i else i) (at_leaves k f g ns)

  pub at_leaves : ℕ → (State → State) → (Inner → Inner) → TreeNodes → TreeNodes
  at_leaves k f g no_nodes = no_nodes
  at_leaves k f g (with_node n ns) = with_node (at_leaf k f g n) (at_leaves k f g ns)

unfoldable mutual
  pub at_every_leaf : (State → State) → TreeNode → TreeNode
  at_every_leaf f (leaf s) = leaf (f s)
  at_every_leaf f (inner i ns) = inner i (at_every_leaf_of f ns)

  pub at_every_leaf_of : (State → State) → TreeNodes → TreeNodes
  at_every_leaf_of f no_nodes = no_nodes
  at_every_leaf_of f (with_node n ns) = with_node (at_every_leaf f n) (at_every_leaf_of f ns)

-- `Node.terminate`
unfoldable pub terminate : ℕ → TreeNode → TreeNode
unfolding at_leaf
terminate k = at_leaf k (λ s. record s { mode = terminated }) (leave_inactive k)

-- `Node.activate`, with the active rank of another leaf
unfoldable pub take_over_from : Option ℕ → ℕ → TreeNode → TreeNode
unfolding at_leaf
take_over_from active_rank k =
    at_leaf k (λ s. record s { active_rank = active_rank; mode = active }) (leave_inactive k)

-- `Node.deactivate`
unfoldable pub deactivate_leaf : ℕ → TreeNode → TreeNode
unfolding at_leaf deactivate
deactivate_leaf k = at_leaf k (λ s. (deactivate s []).0) (join_inactive k)

unfoldable pub with_rank : ℕ → List State → Option State
with_rank r [] = none
with_rank r (s ∷ leaves) = if s.rank == r then some s else with_rank r leaves

unfoldable pub with_initial_rank : ℕ → List State → Option State
with_initial_rank k [] = none
with_initial_rank k (s ∷ leaves) =
    if s.initial_rank == k then some s else with_initial_rank k leaves

abbrev pub or_key_error : Option State → OnTree State
or_key_error none t = (err key_error, t)
or_key_error (some s) t = (ok s, t)

-- self.rank_map[rank].state
unfoldable pub rank_map : ℕ → OnTree State
unfolding with_rank iter_leaves
rank_map rank t = or_key_error (with_rank rank (iter_leaves t)) t

-- self.init_rank_map[initial_rank].state, and what any reference to the leaf reads
unfoldable pub init_rank_map : ℕ → OnTree State
unfolding with_initial_rank iter_leaves
init_rank_map k t = or_key_error (with_initial_rank k (iter_leaves t)) t

-- The nodes above a leaf, its parent first, each with the initial ranks of its leaves.
abbrev pub Above : Type 0
Above = List (Inner × List ℕ)

unfoldable mutual
  unfolding iter_leaves contains

  pub above : ℕ → TreeNode → Above
  above k (leaf s) = []
  above k (inner i ns) =
      let path = above_in k ns in
      if contains k (initial_ranks (iter_leaves_of ns))
      then path ++ (i, initial_ranks (iter_leaves_of ns)) ∷ []
      else []

  pub above_in : ℕ → TreeNodes → Above
  above_in k no_nodes = []
  above_in k (with_node n ns) =
      let first = above k n in
      let rest = above_in k ns in if contains k (initial_ranks (iter_leaves n)) then first else rest

abbrev pub last : List ℕ → Option ℕ
last [] = none
last (x ∷ []) = some x
last (x ∷ y ∷ xs) = last (y ∷ xs)

-- The walk up to the nearest inactive leaf, while the parent may be searched.
unfoldable pub reserved : Above → Option ℕ
reserved [] = none
reserved ((i, keys) ∷ path) =
    let further = reserved path in
    if i.layer.reserve
    then elim (last i.inactive_nodes) [ none ↦ further | some k ↦ some k ]
    else none

abbrev pub or_else : Option (List ℕ) → List ℕ → Option (List ℕ)
or_else none keys = some keys
or_else (some ks) keys = some ks

-- `assign_backfill_domain`: the highest node to which all layers from the parent on allow backfill. It
-- is named by its leaves: only the nodes of one chain have the same, and of these a leaf's domain is
-- one.
unfoldable pub backfill_domain : Above → Option (List ℕ)
backfill_domain [] = none
backfill_domain ((i, keys) ∷ path) =
    let higher = backfill_domain path in if i.layer.backfill then or_else higher keys else none
