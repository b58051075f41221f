-- ===== src/InProcess/Tree/Topology.antt =====
-- The topology tree of `Tree` in inprocess/rank_assignment.py: the first activation of its leaves and
-- the propagation of terminations. A parent is known from the path on which the code visits a node.
-- A child's name is used only while a tree is built, and a layer's key only there, so neither is
-- kept. The inactive nodes of a node, a dict by initial rank, are its keys: the item of a key is the
-- leaf with that initial rank.
use nvidia_resiliency_ext_x.Prelude.{
  ℕ, suc, ◌&&◌, not, Bool, true, false, Option, none, some, List, [], ◌∷◌, ◌++◌, map, if◌then◌else◌,
  ltb,
}
use nvidia_resiliency_ext_x.Prelude.Eq.{number_keys}
use nvidia_resiliency_ext_x.Prelude.Keys.{contains, add, discard, update}
use nvidia_resiliency_ext_x.InProcess.RankAssignment.{Mode, active, inactive, terminated, State}

pub record Layer : Type 0 where
  pub min_ranks : ℕ
  pub max_ranks : Option ℕ
  -- Whether the flag holds RESERVE and whether it holds BACKFILL.
  pub reserve : Bool
  pub backfill : Bool

-- A node with children, without them.
pub record Inner : Type 0 where
  pub layer : Layer
  pub active_count : ℕ
  pub inactive_nodes : List ℕ

mutual
  pub data TreeNode : Type 0 where
    leaf : State → TreeNode
    inner : Inner → TreeNodes → TreeNode

  pub data TreeNodes : Type 0 where
    no_nodes : TreeNodes
    with_node : TreeNode → TreeNodes → TreeNodes

unfoldable mutual
  pub iter_leaves : TreeNode → List State
  iter_leaves (leaf s) = s ∷ []
  iter_leaves (inner i ns) = iter_leaves_of ns

  pub iter_leaves_of : TreeNodes → List State
  iter_leaves_of no_nodes = []
  iter_leaves_of (with_node n ns) = iter_leaves n ++ iter_leaves_of ns

abbrev pub initial_ranks : List State → List ℕ
initial_ranks leaves = map (λ s. s.initial_rank) leaves

abbrev pub join_inactive : ℕ → Inner → Inner
join_inactive initial_rank i = record i { inactive_nodes = add initial_rank i.inactive_nodes }

abbrev pub leave_inactive : ℕ → Inner → Inner
leave_inactive initial_rank i = record i { inactive_nodes = discard initial_rank i.inactive_nodes }

-- The leaf and its ascendants, the parent first.
unfoldable pub deactivate : State → List Inner → State × List Inner
deactivate s path =
    (record s { mode = inactive; active_rank = none }, map (join_inactive s.initial_rank) path)

unfoldable pub activate : ℕ → State → List Inner → State × List Inner
activate active_rank s path = (
  record s { mode = active; active_rank = some active_rank },
  map (leave_inactive s.initial_rank) path,
)

abbrev pub below_limit : Option ℕ → ℕ → Bool
below_limit none active_count = true
below_limit (some max_ranks) active_count = ltb active_count max_ranks

unfoldable pub has_room : List Inner → Bool
has_room [] = true
has_room (i ∷ path) = below_limit i.layer.max_ranks i.active_count && has_room path

abbrev pub one_more : Inner → Inner
one_more i = record i { active_count = suc i.active_count }

-- A node, the counter and the path, after a visit.
abbrev pub Visited : Type 0 → Type 0
Visited N = N × ℕ × List Inner

unfoldable pub visit_leaf : State → ℕ → List Inner → Visited TreeNode
unfolding activate deactivate has_room
visit_leaf s counter path =
    if has_room path
    then (leaf (activate counter s path).0, suc counter, map one_more (activate counter s path).1)
    else (leaf (deactivate s path).0, counter, (deactivate s path).1)

-- path.pop(); the node that was last on the path has what was written to it.
abbrev pub popped : Inner → Visited TreeNodes → Visited TreeNode
popped i (ns, counter, []) = (inner i ns, counter, [])
popped i (ns, counter, j ∷ path) = (inner j ns, counter, path)

unfoldable mutual
  unfolding visit_leaf

  pub bounded_activate : TreeNode → ℕ → List Inner → Visited TreeNode
  bounded_activate (leaf s) counter path = visit_leaf s counter path
  bounded_activate (inner i ns) counter path = popped i (bounded_activate_all ns counter (i ∷ path))

  pub bounded_activate_all : TreeNodes → ℕ → List Inner → Visited TreeNodes
  bounded_activate_all no_nodes counter path = (no_nodes, counter, path)
  bounded_activate_all (with_node n ns) counter path =
      let (m, c, p) = bounded_activate n counter path in
      let (ms, d, q) = bounded_activate_all ns c p in (with_node m ms, d, q)

abbrev pub is_active : Mode → Bool
is_active active = true
is_active _ = false

abbrev pub is_terminated : Mode → Bool
is_terminated terminated = true
is_terminated _ = false

unfoldable pub count_not_terminated : List State → List ℕ → ℕ
count_not_terminated [] terminated_ranks = 0
count_not_terminated (s ∷ leaves) terminated_ranks =
    let n = count_not_terminated leaves terminated_ranks in
    if not (is_terminated s.mode) && not (contains s.rank terminated_ranks) then suc n else n

unfoldable pub ranks_not_terminated : List State → List ℕ
ranks_not_terminated [] = []
ranks_not_terminated (s ∷ leaves) =
    let ranks = ranks_not_terminated leaves in
    if is_terminated s.mode then ranks else s.rank ∷ ranks

-- A node that has fewer ranks than its layer needs loses those that it has.
unfoldable pub terminate_short : Layer → List State → List ℕ → List ℕ
unfolding count_not_terminated ranks_not_terminated
terminate_short layer leaves terminated_ranks =
    if ltb (count_not_terminated leaves terminated_ranks) layer.min_ranks
    then update terminated_ranks (ranks_not_terminated leaves)
    else terminated_ranks

unfoldable mutual
  unfolding terminate_short iter_leaves

  pub propagate_terminations : TreeNode → List ℕ → List ℕ
  propagate_terminations (leaf s) terminated_ranks = terminated_ranks
  propagate_terminations (inner i ns) terminated_ranks =
      terminate_short i.layer (iter_leaves_of ns) (propagate_all ns terminated_ranks)

  pub propagate_all : TreeNodes → List ℕ → List ℕ
  propagate_all no_nodes terminated_ranks = terminated_ranks
  propagate_all (with_node n ns) terminated_ranks =
      propagate_all ns (propagate_terminations n terminated_ranks)
