-- ===== src/InProcess/Tree/Activation.antt =====
-- `bounded_activate` of inprocess/rank_assignment.py on a tree that is just built.
use nvidia_resiliency_ext_x.Prelude.{
  ℕ, suc, ◌≡◌, refl, sym, ◌∙◌, ap, true, Option, none, some, if-cases, List, [], ◌∷◌, ◌++◌, map,
  length, range_from, arith,
}
use mathlib.Core.List.{map-append}
use mathlib.Core.Path.{subst}
use nvidia_resiliency_ext_x.InProcess.RankAssignment.{Mode, active, inactive, State}
use nvidia_resiliency_ext_x.InProcess.Tree.Topology.{
  initial_ranks, TreeNode, leaf, inner, TreeNodes, no_nodes, with_node, iter_leaves, iter_leaves_of,
  Visited, popped, activate, deactivate, visit_leaf, bounded_activate, bounded_activate_all, Inner,
  has_room, one_more,
}
use nvidia_resiliency_ext_x.InProcess.Tree.Activating.{active_ranks, AreRaised}
use nvidia_resiliency_ext_x.InProcess.Tree.Visits.{
  IsBounded, IsPacked, NodeVisited, NodesVisited, popped-visited, visit_leaf-visited,
  with_node-visited, no_nodes-visited,
}

-- A tree that is just built has no active ranks.
unfoldable mutual
  pub IsNew : TreeNode → Type 0
  IsNew (leaf s) = Unit
  IsNew (inner i ns) = (i.active_count ≡ 0) × AreNew ns

  pub AreNew : TreeNodes → Type 0
  AreNew no_nodes = Unit
  AreNew (with_node n ns) = IsNew n × AreNew ns

mutual
  unfolding bounded_activate IsNew

  bounded_activate-visited :
      (n : TreeNode) (counter : ℕ) (path : List Inner)
      → IsNew n
      → NodeVisited counter path (bounded_activate n counter path)
  bounded_activate-visited (leaf s) counter path new = visit_leaf-visited s counter path
  bounded_activate-visited (inner i ns) counter path (e, new) =
      popped-visited i counter path (bounded_activate_all ns counter (i ∷ path)) e
        (bounded_activate_all-visited ns counter (i ∷ path) new)

  bounded_activate_all-visited :
      (ns : TreeNodes) (counter : ℕ) (path : List Inner)
      → AreNew ns
      → NodesVisited counter path (bounded_activate_all ns counter path)
  bounded_activate_all-visited no_nodes counter path new = no_nodes-visited counter path
  bounded_activate_all-visited (with_node n ns) counter path (new, news) =
      let v = bounded_activate n counter path in
      with_node-visited counter path v (bounded_activate_all ns v.1 v.2)
        (bounded_activate-visited n counter path new) (bounded_activate_all-visited ns v.1 v.2 news)

iter_leaves-popped :
    (i : Inner) (v : Visited TreeNodes) → iter_leaves (popped i v).0 ≡ iter_leaves_of v.0
unfolding iter_leaves
iter_leaves-popped i (ns, m, []) = refl
iter_leaves-popped i (ns, m, j ∷ path) = refl

-- What does not depend on the mode and the active rank.
abbrev pub IsFixed : (State → ℕ) → Type 0
IsFixed g = (s : State) (m : Mode) (o : Option ℕ) → g (record s { mode = m; active_rank = o }) ≡ g s

fields-visit_leaf :
    (g : State → ℕ) (s : State) (counter : ℕ) (path : List Inner)
    → IsFixed g
    → map g (iter_leaves (visit_leaf s counter path).0) ≡ g s ∷ []
unfolding visit_leaf activate deactivate iter_leaves
fields-visit_leaf g s counter path h =
    if-cases (λ (v : Visited TreeNode). map g (iter_leaves v.0) ≡ g s ∷ []) (has_room path)
      (leaf (activate counter s path).0, suc counter, map one_more (activate counter s path).1)
      (leaf (deactivate s path).0, counter, (deactivate s path).1)
      (λ e. ap (λ x. x ∷ []) (h s active (some counter)))
      (λ e. ap (λ x. x ∷ []) (h s inactive none))

-- No leaf comes, goes or moves.
mutual
  unfolding bounded_activate iter_leaves

  pub fields-bounded_activate :
      (g : State → ℕ) (n : TreeNode) (counter : ℕ) (path : List Inner)
      → IsFixed g
      → map g (iter_leaves (bounded_activate n counter path).0) ≡ map g (iter_leaves n)
  fields-bounded_activate g (leaf s) counter path h = fields-visit_leaf g s counter path h
  fields-bounded_activate g (inner i ns) counter path h =
      ap (map g) (iter_leaves-popped i (bounded_activate_all ns counter (i ∷ path)))
      ∙ fields-bounded_activate_all g ns counter (i ∷ path) h

  pub fields-bounded_activate_all :
      (g : State → ℕ) (ns : TreeNodes) (counter : ℕ) (path : List Inner)
      → IsFixed g
      → map g (iter_leaves_of (bounded_activate_all ns counter path).0) ≡ map g (iter_leaves_of ns)
  fields-bounded_activate_all g no_nodes counter path h = refl
  fields-bounded_activate_all g (with_node n ns) counter path h =
      let v = bounded_activate n counter path in
      let w = bounded_activate_all ns v.1 v.2 in
      map-append g (iter_leaves v.0) (iter_leaves_of w.0)
      ∙ ap (λ l. l ++ map g (iter_leaves_of w.0)) (fields-bounded_activate g n counter path h)
      ∙ ap (λ l. map g (iter_leaves n) ++ l) (fields-bounded_activate_all g ns v.1 v.2 h)
      ∙ sym (map-append g (iter_leaves n) (iter_leaves_of ns))

has_room-empty : (k : ℕ) (js : List Inner) → AreRaised k [] js → has_room js ≡ true
unfolding has_room
has_room-empty k [] r = refl
has_room-empty k (_ ∷ _) r = absurd r

pub record IsActivated (before n : TreeNode) (active_world_size : ℕ) : Type 0 where
  pub leaves : initial_ranks (iter_leaves n) ≡ initial_ranks (iter_leaves before)
  pub counted : active_world_size ≡ length (active_ranks (iter_leaves n))
  pub numbers : active_ranks (iter_leaves n) ≡ map some (range_from 0 active_world_size)
  bounded : IsBounded n
  packed : IsPacked true n

-- On a tree that is just built, bounded_activate keeps the leaves in their places and returns the
-- number of those that it activates, whose active ranks are, in the order of the leaves, the
-- numbers from 0 up. Every node counts its active leaves and has no more of them than max_ranks of
-- its layer permits; and every other leaf is inactive, has no active rank and stands below a node
-- with max_ranks active leaves.
pub bounded_activate-IsActivated :
    (n : TreeNode) → IsNew n → IsActivated n (bounded_activate n 0 []).0 (bounded_activate n 0 []).1
unfolding NodeVisited
bounded_activate-IsActivated n new =
    let (v, b, p) = bounded_activate-visited n 0 [] new in
    record {
      counted = omega (arith, v.numbered.counter);
      numbers =
          v.numbered.numbers
          ∙ ap (λ k. map some (range_from 0 k)) (omega (arith, v.numbered.counter));
      leaves = fields-bounded_activate (λ s. s.initial_rank) n 0 [] (λ s m o. refl);
      bounded = b;
      packed =
          subst (λ room. IsPacked room (bounded_activate n 0 []).0)
            (has_room-empty (length (active_ranks (iter_leaves (bounded_activate n 0 []).0)))
              (bounded_activate n 0 []).2 v.raised)
            p;
    }
