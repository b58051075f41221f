-- ===== src/InProcess/Tree/Visits.antt =====
-- What the visits of `bounded_activate` of inprocess/rank_assignment.py leave, one after the other.
use nvidia_resiliency_ext_x.Prelude.{
  if-cases, ℕ, suc, ◌≡◌, refl, sym, ◌&&◌, Bool, true, false, none, ◌⊎◌, inl, inr, List, [], ◌∷◌,
  map, length, range_from, arith,
}
use mathlib.Core.Path.{subst}
use nvidia_resiliency_ext_x.InProcess.RankAssignment.{active, inactive, State}
use nvidia_resiliency_ext_x.InProcess.Tree.Topology.{
  TreeNode, leaf, inner, TreeNodes, no_nodes, with_node, iter_leaves, iter_leaves_of, Visited,
  popped, activate, deactivate, visit_leaf, Inner, join_inactive, one_more, below_limit, has_room,
}
use nvidia_resiliency_ext_x.InProcess.Tree.Activating.{
  active_ranks, AreNumbered, AreNumbered-append, length-active_ranks_append, IsWithinLimit,
  IsWithinLimit-zero, AreRaised, AreRaised-trans, has_room-raised, AreRaised-deactivated,
  AreRaised-activated,
}

-- Every node counts its active leaves and has no more of them than its layer permits.
unfoldable mutual
  unfolding iter_leaves

  pub IsBounded : TreeNode → Type 0
  IsBounded (leaf s) = Unit
  IsBounded (inner i ns) =
      (i.active_count ≡ length (active_ranks (iter_leaves_of ns)))
      × IsWithinLimit i.layer.max_ranks i.active_count
      × AreBounded ns

  pub AreBounded : TreeNodes → Type 0
  AreBounded no_nodes = Unit
  AreBounded (with_node n ns) = IsBounded n × AreBounded ns

-- A leaf is active, or it is inactive and some node above it is full.
unfoldable mutual
  pub IsPacked : Bool → TreeNode → Type 0
  IsPacked room (leaf s) =
      (s.mode ≡ active) ⊎ ((s.mode ≡ inactive) × (s.active_rank ≡ none) × (room ≡ false))
  IsPacked room (inner i ns) = ArePacked (below_limit i.layer.max_ranks i.active_count && room) ns

  pub ArePacked : Bool → TreeNodes → Type 0
  ArePacked room no_nodes = Unit
  ArePacked room (with_node n ns) = IsPacked room n × ArePacked room ns

mutual
  unfolding IsPacked

  IsPacked-fewer :
      (room less : Bool) (n : TreeNode)
      → (less ≡ true → room ≡ true)
      → IsPacked room n
      → IsPacked less n
  IsPacked-fewer room less (leaf s) h (inl e) = inl e
  IsPacked-fewer room less (leaf s) h (inr (m, r, e)) = inr (m, r, ground arith)
  IsPacked-fewer room less (inner i ns) h w =
      ArePacked-fewer (below_limit i.layer.max_ranks i.active_count && room)
        (below_limit i.layer.max_ranks i.active_count && less) ns (λ e. ground arith) w

  ArePacked-fewer :
      (room less : Bool) (ns : TreeNodes)
      → (less ≡ true → room ≡ true)
      → ArePacked room ns
      → ArePacked less ns
  ArePacked-fewer room less no_nodes h w = tt
  ArePacked-fewer room less (with_node n ns) h (first, rest) =
      (IsPacked-fewer room less n h first, ArePacked-fewer room less ns h rest)

-- What a visit at a counter and a path leaves.
pub record IsVisited (counter : ℕ) (path : List Inner) (leaves : List State) (m : ℕ)
    (after : List Inner) : Type 0 where
  pub numbered : AreNumbered counter leaves m
  pub raised : AreRaised (length (active_ranks leaves)) path after

unfoldable pub NodeVisited : ℕ → List Inner → Visited TreeNode → Type 0
NodeVisited counter path (n, m, after) =
    IsVisited counter path (iter_leaves n) m after × IsBounded n × IsPacked (has_room after) n

unfoldable pub NodesVisited : ℕ → List Inner → Visited TreeNodes → Type 0
NodesVisited counter path (ns, m, after) =
    IsVisited counter path (iter_leaves_of ns) m after
    × AreBounded ns
    × ArePacked (has_room after) ns

pub popped-visited :
    (i : Inner) (counter : ℕ) (path : List Inner) (v : Visited TreeNodes)
    → (i.active_count ≡ 0)
    → NodesVisited counter (i ∷ path) v
    → NodeVisited counter path (popped i v)
unfolding NodesVisited NodeVisited IsPacked IsBounded iter_leaves has_room
popped-visited i counter path (ns, m, []) e (v, b, p) = absurd v.raised
popped-visited i counter path (ns, m, j ∷ after) e (v, b, p) =
    let (r, rs) = v.raised in
    (
      record { numbered = v.numbered; raised = rs },
      (
        omega (arith, r.counted, e),
        r.limited (IsWithinLimit-zero i.layer.max_ranks i.active_count e),
        b,
      ),
      p,
    )

activated-visited :
    (s : State) (counter : ℕ) (path : List Inner)
    → has_room path ≡ true
    → NodeVisited counter path
        (leaf (activate counter s path).0, suc counter, map one_more (activate counter s path).1)
unfolding NodeVisited activate iter_leaves active_ranks range_from IsPacked IsBounded
activated-visited s counter path h = (
  record {
    numbered = record { counter = omega arith; numbers = refl };
    raised = AreRaised-activated s.initial_rank path h;
  },
  tt,
  inl refl,
)

deactivated-visited :
    (s : State) (counter : ℕ) (path : List Inner)
    → has_room path ≡ false
    → NodeVisited counter path (leaf (deactivate s path).0, counter, (deactivate s path).1)
unfolding NodeVisited deactivate iter_leaves active_ranks range_from IsPacked IsBounded
deactivated-visited s counter path h =
    let after = map (join_inactive s.initial_rank) path in
    let raised = AreRaised-deactivated s.initial_rank path in
    (
      record { numbered = record { counter = omega arith; numbers = refl }; raised = raised },
      tt,
      inr (refl, refl, ground (arith, has_room-raised 0 path after raised)),
    )

pub visit_leaf-visited :
    (s : State) (counter : ℕ) (path : List Inner)
    → NodeVisited counter path (visit_leaf s counter path)
unfolding visit_leaf
visit_leaf-visited s counter path =
    if-cases (NodeVisited counter path) (has_room path)
      (leaf (activate counter s path).0, suc counter, map one_more (activate counter s path).1)
      (leaf (deactivate s path).0, counter, (deactivate s path).1)
      (activated-visited s counter path) (deactivated-visited s counter path)

-- Two visits, one after the other.
pub with_node-visited :
    (counter : ℕ) (path : List Inner) (v : Visited TreeNode) (w : Visited TreeNodes)
    → NodeVisited counter path v
    → NodesVisited v.1 v.2 w
    → NodesVisited counter path (with_node v.0 w.0, w.1, w.2)
unfolding NodeVisited NodesVisited iter_leaves IsBounded IsPacked
with_node-visited counter path (n, m, mid) (ns, o, after) (v, b, p) (w, bs, ps) = (
  record {
    numbered = AreNumbered-append (iter_leaves n) (iter_leaves_of ns) v.numbered w.numbered;
    raised =
        subst (λ k. AreRaised k path after)
          (sym (length-active_ranks_append (iter_leaves n) (iter_leaves_of ns)))
          (AreRaised-trans (length (active_ranks (iter_leaves n)))
            (length (active_ranks (iter_leaves_of ns))) path mid after v.raised w.raised);
  },
  (b, bs),
  (
    IsPacked-fewer (has_room mid) (has_room after) n
        (has_room-raised (length (active_ranks (iter_leaves_of ns))) mid after w.raised) p,
    ps,
  ),
)

AreRaised-refl : (path : List Inner) → AreRaised 0 path path
AreRaised-refl [] = tt
AreRaised-refl (i ∷ path) =
    (record { same_layer = refl; counted = omega arith; limited = λ h. h }, AreRaised-refl path)

pub no_nodes-visited :
    (counter : ℕ) (path : List Inner) → NodesVisited counter path (no_nodes, counter, path)
unfolding NodesVisited iter_leaves active_ranks range_from IsBounded IsPacked
no_nodes-visited counter path = (
  record {
    numbered = record { counter = omega arith; numbers = refl };
    raised = AreRaised-refl path;
  },
  tt,
  tt,
)
