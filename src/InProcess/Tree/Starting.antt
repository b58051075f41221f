-- ===== src/InProcess/Tree/Starting.antt =====
-- The first call of `Tree` in inprocess/rank_assignment.py: what the nodes record after
-- `bounded_activate`.
use nvidia_resiliency_ext_x.Prelude.{
  ℕ, ◌≡◌, refl, sym, ◌∙◌, ap, subst, true, false, List, [], ◌∷◌, ◌++◌, arith,
}
use mathlib.Core.List.{map-append}
use nvidia_resiliency_ext_x.Prelude.Eq.{==_iff, number_keys}
use nvidia_resiliency_ext_x.Prelude.Keys.{contains, contains-append}
use nvidia_resiliency_ext_x.InProcess.RankAssignment.{State}
use nvidia_resiliency_ext_x.InProcess.Tree.Topology.{
  TreeNode, leaf, inner, TreeNodes, no_nodes, with_node, iter_leaves, iter_leaves_of, initial_ranks,
  bounded_activate, bounded_activate_all, Inner,
}
use nvidia_resiliency_ext_x.InProcess.Tree.LeafLists.{AreApart}
use nvidia_resiliency_ext_x.InProcess.Tree.Recording.{IsRecorded}
use nvidia_resiliency_ext_x.InProcess.Tree.Activation.{
  fields-bounded_activate, fields-bounded_activate_all,
}
use nvidia_resiliency_ext_x.InProcess.Tree.Noting.{
  NodeMarked, NodesMarked, IsUnmarked, AreUnmarked, visit_leaf-marked, AreNoted-append, All-append,
  AreNoted-nil, popped-marked,
}

AreApart-append :
    (xs ys : List ℕ)
    → AreApart (xs ++ ys)
    → AreApart xs × AreApart ys × ((k : ℕ) → contains k xs ≡ true → contains k ys ≡ false)
unfolding contains
AreApart-append [] ys a = (tt, a, λ k c. absurd (ground arith))
AreApart-append (x ∷ xs) ys (c, a) =
    let (b, d, e) = AreApart-append xs ys a in
    (
      (ground (arith, contains-append x xs ys), b),
      d,
      λ k h. ground (arith, e k, contains-append x xs ys, ==_iff x k, ap (λ j. contains j ys)),
    )

mutual
  unfolding bounded_activate iter_leaves IsUnmarked IsRecorded

  pub bounded_activate-marked :
      (n : TreeNode) (counter : ℕ) (path : List Inner)
      → IsUnmarked n
      → AreApart (initial_ranks (iter_leaves n))
      → NodeMarked path (bounded_activate n counter path)
  bounded_activate-marked (leaf s) counter path new a = visit_leaf-marked s counter path
  bounded_activate-marked (inner i ns) counter path (e, new) a =
      popped-marked i path (bounded_activate_all ns counter (i ∷ path)) e
        (bounded_activate_all-marked ns counter (i ∷ path) new a)

  bounded_activate_all-marked :
      (ns : TreeNodes) (counter : ℕ) (path : List Inner)
      → AreUnmarked ns
      → AreApart (initial_ranks (iter_leaves_of ns))
      → NodesMarked path (bounded_activate_all ns counter path)
  bounded_activate_all-marked no_nodes counter path new a =
      (record { noted = AreNoted-nil path; ranked = tt }, tt)
  bounded_activate_all-marked (with_node n ns) counter path (new, news) a =
      let v = bounded_activate n counter path in
      let w = bounded_activate_all ns v.1 v.2 in
      let (b, d, apart) =
        AreApart-append (initial_ranks (iter_leaves n)) (initial_ranks (iter_leaves_of ns)) (
          subst AreApart
            (map-append (λ (s : State). s.initial_rank) (iter_leaves n) (iter_leaves_of ns)) a) in
      let (x, r) = bounded_activate-marked n counter path new b in
      let (y, rs) = bounded_activate_all-marked ns v.1 v.2 news d in
      let first = fields-bounded_activate (λ s. s.initial_rank) n counter path (λ s m o. refl) in
      let rest = fields-bounded_activate_all (λ s. s.initial_rank) ns v.1 v.2 (λ s m o. refl) in
      (
        record {
          noted =
              AreNoted-append (iter_leaves v.0) (iter_leaves_of w.0) path v.2 w.2
                (λ k c. ap (contains k) rest ∙ apart k (ap (contains k) (sym first) ∙ c)) x.noted
                y.noted;
          ranked = All-append (iter_leaves v.0) (iter_leaves_of w.0) x.ranked y.ranked;
        },
        (r, rs),
      )
