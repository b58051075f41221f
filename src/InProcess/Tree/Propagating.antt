-- ===== src/InProcess/Tree/Propagating.antt =====
-- `propagate_terminations` of inprocess/rank_assignment.py, against the least set of ranks that leaves
-- every node either without healthy ranks or with as many as its layer needs.
use nvidia_resiliency_ext_x.Prelude.{
  ℕ, ◌≡◌, refl, ◌∙◌, ◌≤◌, ◌⊎◌, inl, true, false, List, arith, subst,
}
use nvidia_resiliency_ext_x.Prelude.Eq.{number_keys}
use nvidia_resiliency_ext_x.Prelude.Keys.{contains, contains-update}
use nvidia_resiliency_ext_x.InProcess.RankAssignment.{State}
use nvidia_resiliency_ext_x.InProcess.Tree.Topology.{
  Layer, TreeNode, leaf, inner, TreeNodes, no_nodes, with_node, iter_leaves, iter_leaves_of,
  count_not_terminated, ranks_not_terminated, terminate_short, propagate_terminations,
  propagate_all,
}
use nvidia_resiliency_ext_x.InProcess.Tree.Terminating.{
  IsWithin, AreAlike, contains-ranks_append, count_not_terminated-alike, count_not_terminated-none,
}

-- No healthy ranks, or enough of them.
abbrev pub IsEnough : Layer → ℕ → Type 0
IsEnough layer healthy = (healthy ≡ 0) ⊎ (layer.min_ranks ≤ healthy)

unfoldable mutual
  unfolding iter_leaves

  pub IsSupplied : List ℕ → TreeNode → Type 0
  IsSupplied terminated_ranks (leaf s) = Unit
  IsSupplied terminated_ranks (inner i ns) =
      IsEnough i.layer (count_not_terminated (iter_leaves_of ns) terminated_ranks)
      × AreSupplied terminated_ranks ns

  pub AreSupplied : List ℕ → TreeNodes → Type 0
  AreSupplied terminated_ranks no_nodes = Unit
  AreSupplied terminated_ranks (with_node n ns) =
      IsSupplied terminated_ranks n × AreSupplied terminated_ranks ns

-- Only these ranks matter.
mutual
  unfolding IsSupplied iter_leaves

  pub IsSupplied-alike :
      (n : TreeNode) (s t : List ℕ)
      → AreAlike s t (ranks_not_terminated (iter_leaves n))
      → IsSupplied s n
      → IsSupplied t n
  IsSupplied-alike (leaf x) s t h w = tt
  IsSupplied-alike (inner i ns) s t h (enough, rest) = (
    subst (IsEnough i.layer) (count_not_terminated-alike (iter_leaves_of ns) s t h) enough,
    AreSupplied-alike ns s t h rest,
  )

  AreSupplied-alike :
      (ns : TreeNodes) (s t : List ℕ)
      → AreAlike s t (ranks_not_terminated (iter_leaves_of ns))
      → AreSupplied s ns
      → AreSupplied t ns
  AreSupplied-alike no_nodes s t h w = tt
  AreSupplied-alike (with_node n ns) s t h (first, rest) = (
    IsSupplied-alike n s t
        (λ r c. h r (ground (arith, contains-ranks_append r (iter_leaves n) (iter_leaves_of ns))))
        first,
    AreSupplied-alike ns s t
        (λ r c. h r (ground (arith, contains-ranks_append r (iter_leaves n) (iter_leaves_of ns))))
        rest,
  )

mutual
  unfolding IsSupplied iter_leaves

  pub IsSupplied-none :
      (n : TreeNode) (t : List ℕ)
      → IsWithin (ranks_not_terminated (iter_leaves n)) t
      → IsSupplied t n
  IsSupplied-none (leaf x) t h = tt
  IsSupplied-none (inner i ns) t h =
      (inl (count_not_terminated-none (iter_leaves_of ns) t h), AreSupplied-none ns t h)

  pub AreSupplied-none :
      (ns : TreeNodes) (t : List ℕ)
      → IsWithin (ranks_not_terminated (iter_leaves_of ns)) t
      → AreSupplied t ns
  AreSupplied-none no_nodes t h = tt
  AreSupplied-none (with_node n ns) t h = (
    IsSupplied-none n t
        (λ r c. h r (ground (arith, contains-ranks_append r (iter_leaves n) (iter_leaves_of ns)))),
    AreSupplied-none ns t
        (λ r c. h r (ground (arith, contains-ranks_append r (iter_leaves n) (iter_leaves_of ns)))),
  )

-- What terminates are healthy ranks of the node.
pub contains-terminate_short :
    (r : ℕ) (layer : Layer) (leaves : List State) (t : List ℕ)
    → (contains r t ≡ true → contains r (terminate_short layer leaves t) ≡ true)
      × (contains r (ranks_not_terminated leaves) ≡ false
          → contains r (terminate_short layer leaves t) ≡ contains r t)
unfolding terminate_short
contains-terminate_short r layer leaves t = (
  λ h. ground (arith, contains-update r t (ranks_not_terminated leaves)),
  λ h. ground (arith, contains-update r t (ranks_not_terminated leaves)),
)

mutual
  unfolding propagate_terminations iter_leaves

  pub propagate_terminations-changes :
      (r : ℕ) (n : TreeNode) (t : List ℕ)
      → (contains r t ≡ true → contains r (propagate_terminations n t) ≡ true)
        × (contains r (ranks_not_terminated (iter_leaves n)) ≡ false
            → contains r (propagate_terminations n t) ≡ contains r t)
  propagate_terminations-changes r (leaf x) t = (λ h. h, λ h. refl)
  propagate_terminations-changes r (inner i ns) t =
      let (grows, keeps) = propagate_all-changes r ns t in
      let (g, k) = contains-terminate_short r i.layer (iter_leaves_of ns) (propagate_all ns t) in
      (λ h. g (grows h), λ h. k h ∙ keeps h)

  pub propagate_all-changes :
      (r : ℕ) (ns : TreeNodes) (t : List ℕ)
      → (contains r t ≡ true → contains r (propagate_all ns t) ≡ true)
        × (contains r (ranks_not_terminated (iter_leaves_of ns)) ≡ false
            → contains r (propagate_all ns t) ≡ contains r t)
  propagate_all-changes r no_nodes t = (λ h. h, λ h. refl)
  propagate_all-changes r (with_node n ns) t =
      let (grows, keeps) = propagate_terminations-changes r n t in
      let (g, k) = propagate_all-changes r ns (propagate_terminations n t) in
      (
        λ h. g (grows h),
        λ h.
            k (ground (arith, contains-ranks_append r (iter_leaves n) (iter_leaves_of ns)))
            ∙ keeps (ground (arith, contains-ranks_append r (iter_leaves n) (iter_leaves_of ns))),
      )
