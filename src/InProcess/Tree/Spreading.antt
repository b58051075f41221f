-- ===== src/InProcess/Tree/Spreading.antt =====
-- The ranks that `propagate_terminations` of inprocess/rank_assignment.py gives to `Tree.__call__`: a set
-- of ranks of leaves.
use nvidia_resiliency_ext_x.Prelude.{
  ℕ, ◌≡◌, refl, ap, ltb, true, List, [], ◌∷◌, map, arith, Bool-cases, if-cases, inl, inr, All,
}
use nvidia_resiliency_ext_x.Prelude.Eq.{==_iff, number_keys}
use nvidia_resiliency_ext_x.Prelude.Keys.{
  contains, add, update, count, count-append, contains-eq-true, All-at_contained,
}
use nvidia_resiliency_ext_x.InProcess.RankAssignment.{State}
use nvidia_resiliency_ext_x.InProcess.Tree.Topology.{
  TreeNode, leaf, inner, TreeNodes, no_nodes, with_node, iter_leaves, iter_leaves_of,
  count_not_terminated, ranks_not_terminated, terminate_short, propagate_terminations,
  propagate_all,
}
use nvidia_resiliency_ext_x.InProcess.Tree.Leaves.{at_every_leaf, at_every_leaf_of}
use nvidia_resiliency_ext_x.InProcess.Tree.LeafLists.{
  AreApart, KeepsRank, iter_leaves-at_every_leaf_of,
}
use nvidia_resiliency_ext_x.InProcess.Tree.Propagating.{propagate_terminations-changes}
use nvidia_resiliency_ext_x.InProcess.Tree.Keeping.{ranks}
use nvidia_resiliency_ext_x.InProcess.Tree.Ending.{IsFound}
use nvidia_resiliency_ext_x.InProcess.Tree.RankSets.{count-AreApart, AreApart-of_count}
use nvidia_resiliency_ext_x.InProcess.Tree.Gaps.{All-of_contains}

AreApart-add : (r : ℕ) (rs : List ℕ) → AreApart rs → AreApart (add r rs)
unfolding add count contains
AreApart-add r rs a = AreApart-of_count (add r rs) (λ k. ground (
  arith,
  count-append k rs (r ∷ []),
  count-AreApart k rs a,
  contains-eq-true r rs,
  ==_iff r k,
  ap (λ j. count j rs),
))

AreApart-update : (rs more : List ℕ) → AreApart rs → AreApart (update rs more)
unfolding update
AreApart-update rs [] a = a
AreApart-update rs (r ∷ more) a = AreApart-update (add r rs) more (AreApart-add r rs a)

mutual
  unfolding propagate_terminations terminate_short

  pub propagate_terminations-AreApart :
      (n : TreeNode) (rs : List ℕ) → AreApart rs → AreApart (propagate_terminations n rs)
  propagate_terminations-AreApart (leaf s) rs a = a
  propagate_terminations-AreApart (inner i ns) rs a =
      let before = propagate_all-AreApart ns rs a in
      if-cases AreApart
        (ltb (count_not_terminated (iter_leaves_of ns) (propagate_all ns rs)) i.layer.min_ranks)
        (update (propagate_all ns rs) (ranks_not_terminated (iter_leaves_of ns)))
        (propagate_all ns rs)
        (λ e.
          AreApart-update (propagate_all ns rs) (ranks_not_terminated (iter_leaves_of ns)) before)
        (λ e. before)

  propagate_all-AreApart :
      (ns : TreeNodes) (rs : List ℕ) → AreApart rs → AreApart (propagate_all ns rs)
  propagate_all-AreApart no_nodes rs a = a
  propagate_all-AreApart (with_node n ns) rs a =
      propagate_all-AreApart ns (propagate_terminations n rs)
        (propagate_terminations-AreApart n rs a)

contains-ranks_not_terminated :
    (r : ℕ) (leaves : List State)
    → contains r (ranks_not_terminated leaves) ≡ true
    → contains r (ranks leaves) ≡ true
unfolding contains ranks_not_terminated
contains-ranks_not_terminated r [] h = h
contains-ranks_not_terminated r (s ∷ leaves) h =
    ground (arith, contains-ranks_not_terminated r leaves)

pub propagate_terminations-IsFound :
    (t : TreeNode) (rs : List ℕ)
    → All (IsFound t) rs
    → All (IsFound t) (propagate_terminations t rs)
propagate_terminations-IsFound t rs h =
    All-of_contains (IsFound t) (propagate_terminations t rs) (λ r c.
      elim (Bool-cases (contains r (ranks_not_terminated (iter_leaves t)))) [
        | inl e ↦ contains-ranks_not_terminated r (iter_leaves t) e
        | inr e ↦
            All-at_contained (IsFound t) r rs h
              (ground (arith, (propagate_terminations-changes r t rs).1 e))
      ])

count_not_terminated-map :
    (f : State → State) (leaves : List State) (rs : List ℕ)
    → KeepsRank f
    → ((s : State) → (f s).mode ≡ s.mode)
    → count_not_terminated (map f leaves) rs ≡ count_not_terminated leaves rs
unfolding count_not_terminated
count_not_terminated-map f [] rs r m = refl
count_not_terminated-map f (s ∷ leaves) rs r m =
    rw (r s, m s, count_not_terminated-map f leaves rs r m) refl

ranks_not_terminated-map :
    (f : State → State) (leaves : List State)
    → KeepsRank f
    → ((s : State) → (f s).mode ≡ s.mode)
    → ranks_not_terminated (map f leaves) ≡ ranks_not_terminated leaves
unfolding ranks_not_terminated
ranks_not_terminated-map f [] r m = refl
ranks_not_terminated-map f (s ∷ leaves) r m =
    rw (r s, m s, ranks_not_terminated-map f leaves r m) refl

-- Only the ranks and the modes of the leaves matter.
mutual
  unfolding propagate_terminations terminate_short at_every_leaf

  pub propagate_terminations-at_every_leaf :
      (f : State → State) (n : TreeNode) (rs : List ℕ)
      → KeepsRank f
      → ((s : State) → (f s).mode ≡ s.mode)
      → propagate_terminations (at_every_leaf f n) rs ≡ propagate_terminations n rs
  propagate_terminations-at_every_leaf f (leaf s) rs r m = refl
  propagate_terminations-at_every_leaf f (inner i ns) rs r m =
      rw
        (
          propagate_all-at_every_leaf_of f ns rs r m,
          iter_leaves-at_every_leaf_of f ns,
          count_not_terminated-map f (iter_leaves_of ns) (propagate_all ns rs) r m,
          ranks_not_terminated-map f (iter_leaves_of ns) r m,
        )
        refl

  propagate_all-at_every_leaf_of :
      (f : State → State) (ns : TreeNodes) (rs : List ℕ)
      → KeepsRank f
      → ((s : State) → (f s).mode ≡ s.mode)
      → propagate_all (at_every_leaf_of f ns) rs ≡ propagate_all ns rs
  propagate_all-at_every_leaf_of f no_nodes rs r m = refl
  propagate_all-at_every_leaf_of f (with_node n ns) rs r m =
      rw (propagate_terminations-at_every_leaf f n rs r m)
        (propagate_all-at_every_leaf_of f ns (propagate_terminations n rs) r m)
