-- ===== src/InProcess/Tree/Supply.antt =====
-- `propagate_terminations` of inprocess/rank_assignment.py ends the least set of ranks with which no
-- node is short of healthy ranks.
use nvidia_resiliency_ext_x.Prelude.{
  ℕ, ◌+◌, ◌≡◌, sym, ◌∙◌, ◌≤◌, ◌⊎◌, inl, inr, true, false, List, ◌++◌, ltb, arith, Bool-cases, ap,
  subst,
}
use nvidia_resiliency_ext_x.Prelude.Eq.{number_keys}
use nvidia_resiliency_ext_x.Prelude.Keys.{
  contains, count, contains-update, count-append, contains-of_count, contains-eq-false,
}
use nvidia_resiliency_ext_x.InProcess.RankAssignment.{State}
use nvidia_resiliency_ext_x.InProcess.Tree.Topology.{
  Layer, Inner, TreeNode, leaf, inner, TreeNodes, no_nodes, with_node, iter_leaves, iter_leaves_of,
  count_not_terminated, ranks_not_terminated, terminate_short, propagate_terminations,
  propagate_all,
}
use nvidia_resiliency_ext_x.InProcess.Tree.Terminating.{
  IsWithin, ranks-append, count_not_terminated-within, none-count_not_terminated,
}
use nvidia_resiliency_ext_x.InProcess.Tree.Propagating.{
  IsEnough, IsSupplied, AreSupplied, IsSupplied-alike, IsSupplied-none,
  propagate_terminations-changes, propagate_all-changes,
}

-- No two healthy leaves have the same rank.
abbrev pub AreDistinct : List ℕ → Type 0
AreDistinct ranks = (r : ℕ) → count r ranks ≤ 1

count-ranks_append :
    (r : ℕ) (xs ys : List State)
    → count r (ranks_not_terminated (xs ++ ys))
      ≡ count r (ranks_not_terminated xs) + count r (ranks_not_terminated ys)
count-ranks_append r xs ys =
    ap (count r) (ranks-append xs ys)
    ∙ count-append r (ranks_not_terminated xs) (ranks_not_terminated ys)

AreDistinct-split :
    (xs ys : List State)
    → AreDistinct (ranks_not_terminated (xs ++ ys))
    → AreDistinct (ranks_not_terminated xs)
      × AreDistinct (ranks_not_terminated ys)
      × ((r : ℕ)
          → contains r (ranks_not_terminated xs) ≡ true
          → contains r (ranks_not_terminated ys) ≡ false)
AreDistinct-split xs ys h = (
  λ r. omega (arith, count-ranks_append r xs ys, h r),
  λ r. omega (arith, count-ranks_append r xs ys, h r),
  λ r c. contains-eq-false r (ranks_not_terminated ys) (
      omega
        (arith, count-ranks_append r xs ys, h r, contains-of_count r (ranks_not_terminated xs) c)),
)

terminate_short-cases :
    (layer : Layer) (leaves : List State) (t : List ℕ)
    → (terminate_short layer leaves t ≡ t) × (layer.min_ranks ≤ count_not_terminated leaves t)
      ⊎ IsWithin (ranks_not_terminated leaves) (terminate_short layer leaves t)
unfolding terminate_short
terminate_short-cases layer leaves t =
    elim (Bool-cases (ltb (count_not_terminated leaves t) layer.min_ranks)) [
      | inl e ↦ inr (λ r c. ground (arith, contains-update r t (ranks_not_terminated leaves)))
      | inr e ↦ inl (ground arith, ground arith)
    ]

terminate_short-IsSupplied :
    (i : Inner) (ns : TreeNodes) (t : List ℕ)
    → AreSupplied t ns
    → IsSupplied (terminate_short i.layer (iter_leaves_of ns) t) (inner i ns)
unfolding iter_leaves IsSupplied
terminate_short-IsSupplied i ns t w = elim (terminate_short-cases i.layer (iter_leaves_of ns) t) [
  | inl (e, enough) ↦ subst (λ u. IsSupplied u (inner i ns)) (sym e) (inr enough, w)
  | inr gone ↦ IsSupplied-none (inner i ns) (terminate_short i.layer (iter_leaves_of ns) t) gone
]

mutual
  unfolding propagate_terminations iter_leaves IsSupplied

  propagate_terminations-IsSupplied :
      (n : TreeNode) (t : List ℕ)
      → AreDistinct (ranks_not_terminated (iter_leaves n))
      → IsSupplied (propagate_terminations n t) n
  propagate_terminations-IsSupplied (leaf x) t d = tt
  propagate_terminations-IsSupplied (inner i ns) t d =
      terminate_short-IsSupplied i ns (propagate_all ns t) (propagate_all-AreSupplied ns t d)

  propagate_all-AreSupplied :
      (ns : TreeNodes) (t : List ℕ)
      → AreDistinct (ranks_not_terminated (iter_leaves_of ns))
      → AreSupplied (propagate_all ns t) ns
  propagate_all-AreSupplied no_nodes t d = tt
  propagate_all-AreSupplied (with_node n ns) t d =
      let (first, rest, apart) = AreDistinct-split (iter_leaves n) (iter_leaves_of ns) d in
      (
        IsSupplied-alike n (propagate_terminations n t)
            (propagate_all ns (propagate_terminations n t))
            (λ r c. sym ((propagate_all-changes r ns (propagate_terminations n t)).1 (apart r c)))
            (propagate_terminations-IsSupplied n t first),
        propagate_all-AreSupplied ns (propagate_terminations n t) rest,
      )

terminate_short-within :
    (layer : Layer) (leaves : List State) (t u : List ℕ)
    → IsWithin t u
    → IsEnough layer (count_not_terminated leaves u)
    → IsWithin (terminate_short layer leaves t) u
unfolding terminate_short
terminate_short-within layer leaves t u h enough r c = ground (
  arith,
  contains-update r t (ranks_not_terminated leaves),
  count_not_terminated-within leaves t u h,
  gone,
  h r,
  enough,
)
  where
    gone :
        count_not_terminated leaves u ≡ 0
        → contains r (ranks_not_terminated leaves) ≡ true
        → contains r u ≡ true
    gone e = none-count_not_terminated leaves u e r

mutual
  unfolding propagate_terminations iter_leaves IsSupplied

  propagate_terminations-within :
      (n : TreeNode) (t u : List ℕ)
      → IsWithin t u
      → IsSupplied u n
      → IsWithin (propagate_terminations n t) u
  propagate_terminations-within (leaf x) t u h w = h
  propagate_terminations-within (inner i ns) t u h (enough, rest) =
      terminate_short-within i.layer (iter_leaves_of ns) (propagate_all ns t) u
        (propagate_all-within ns t u h rest) enough

  propagate_all-within :
      (ns : TreeNodes) (t u : List ℕ)
      → IsWithin t u
      → AreSupplied u ns
      → IsWithin (propagate_all ns t) u
  propagate_all-within no_nodes t u h w = h
  propagate_all-within (with_node n ns) t u h (first, rest) =
      propagate_all-within ns (propagate_terminations n t) u
        (propagate_terminations-within n t u h first) rest

pub record IsLeast (n : TreeNode) (t result : List ℕ) : Type 0 where
  kept : IsWithin t result
  supplied : IsSupplied result n
  least : (u : List ℕ) → IsWithin t u → IsSupplied u n → IsWithin result u

-- If no two leaves that are not terminated have the same rank, propagate_terminations returns the
-- least set that holds the given ranks and with which every node of the tree, at every layer,
-- either has no healthy ranks left or at least min_ranks of its layer.
pub propagate_terminations-IsLeast :
    (n : TreeNode) (t : List ℕ)
    → AreDistinct (ranks_not_terminated (iter_leaves n))
    → IsLeast n t (propagate_terminations n t)
propagate_terminations-IsLeast n t d = record {
  kept = λ r. (propagate_terminations-changes r n t).0;
  supplied = propagate_terminations-IsSupplied n t d;
  least = λ u. propagate_terminations-within n t u;
}
