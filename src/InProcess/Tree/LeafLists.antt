-- ===== src/InProcess/Tree/LeafLists.antt =====
-- The leaves of the topology tree of `Tree` in inprocess/rank_assignment.py as a list, of which one is
-- changed.
use nvidia_resiliency_ext_x.Prelude.{
  ℕ, suc, ◌+◌, ◌≡◌, refl, sym, ap, ◌&&◌, Bool, false, Option, none, some, some-injective, subst,
  List, [], ◌∷◌, map, if◌then◌else◌, arith, Bool-cases, inl, inr,
}
use mathlib.Core.List.{map-append}
use nvidia_resiliency_ext_x.Prelude.Eq.{◌==◌, ==_iff, number_keys}
use nvidia_resiliency_ext_x.Prelude.Keys.{contains}
use nvidia_resiliency_ext_x.InProcess.RankAssignment.{State}
use nvidia_resiliency_ext_x.InProcess.Tree.Topology.{
  TreeNode, leaf, inner, TreeNodes, no_nodes, with_node, iter_leaves, iter_leaves_of, Inner,
  initial_ranks, is_active,
}
use nvidia_resiliency_ext_x.InProcess.Tree.Leaves.{
  changed_at, at_leaf, at_leaves, at_every_leaf, at_every_leaf_of, with_rank, with_initial_rank,
}

abbrev pub is_rank : ℕ → Option ℕ → Bool
is_rank v none = false
is_rank v (some r) = r == v

-- How often `v` is the active rank of an active leaf.
unfoldable pub count_active : ℕ → List State → ℕ
count_active v [] = 0
count_active v (s ∷ leaves) =
    let n = count_active v leaves in
    if is_active s.mode && is_rank v s.active_rank then suc n else n

-- No item stands twice.
abbrev pub AreApart : List ℕ → Type 0
AreApart [] = Unit
AreApart (k ∷ ks) = (contains k ks ≡ false) × AreApart ks

abbrev pub KeepsInitialRank : (State → State) → Type 0
KeepsInitialRank f = (s : State) → (f s).initial_rank ≡ s.initial_rank

abbrev pub KeepsRank : (State → State) → Type 0
KeepsRank f = (s : State) → (f s).rank ≡ s.rank

module _ (k : ℕ) (f : State → State) where
  abbrev pub changed : List State → List State
  changed leaves = map (changed_at k f) leaves

  changed_at-initial_rank :
      (s : State) → KeepsInitialRank f → (changed_at k f s).initial_rank ≡ s.initial_rank
  changed_at-initial_rank s keeps = ground (arith, keeps s)

  changed_at-rank : (s : State) → KeepsRank f → (changed_at k f s).rank ≡ s.rank
  changed_at-rank s keeps = ground (arith, keeps s)

  pub initial_ranks-changed :
      (leaves : List State)
      → KeepsInitialRank f
      → initial_ranks (changed leaves) ≡ initial_ranks leaves
  initial_ranks-changed [] keeps = refl
  initial_ranks-changed (s ∷ leaves) keeps =
      ground (arith, initial_ranks-changed leaves keeps, keeps s)

  pub changed-absent :
      (leaves : List State) → contains k (initial_ranks leaves) ≡ false → changed leaves ≡ leaves
  unfolding contains
  changed-absent [] h = refl
  changed-absent (s ∷ leaves) h = ground (arith, changed-absent leaves)

  pub count_active-changed :
      (v : ℕ) (leaves : List State) (s : State)
      → with_initial_rank k leaves ≡ some s
      → AreApart (initial_ranks leaves)
      → count_active v (changed leaves) + count_active v (s ∷ [])
        ≡ count_active v leaves + count_active v (f s ∷ [])
  unfolding with_initial_rank count_active
  count_active-changed v [] s h a = absurd (ground arith)
  count_active-changed v (t ∷ leaves) s h a = elim (Bool-cases (t.initial_rank == k)) [
    | inl e ↦
        let same : t ≡ s = some-injective t s (ground arith) in
        let absent : contains k (initial_ranks leaves) ≡ false =
          subst (λ j. contains j (initial_ranks leaves) ≡ false) ((==_iff t.initial_rank k).0 e)
            a.0 in
        ground (
          arith,
          ap (count_active v) (changed-absent leaves absent),
          ap (λ (x : State). count_active v (f x ∷ [])) same,
          ap (λ (x : State). count_active v (x ∷ [])) same,
        )
    | inr e ↦ ground (arith, count_active-changed v leaves s)
  ]

  pub with_initial_rank-changed :
      (j : ℕ) (leaves : List State) (s : State)
      → KeepsInitialRank f
      → with_initial_rank j leaves ≡ some s
      → with_initial_rank j (changed leaves) ≡ some (changed_at k f s)
  unfolding with_initial_rank
  with_initial_rank-changed j [] s keeps h = absurd (ground arith)
  with_initial_rank-changed j (t ∷ leaves) s keeps h = elim (Bool-cases (t.initial_rank == j)) [
    | inl e ↦
        let same : t ≡ s = some-injective t s (ground arith) in
        ground (arith, changed_at-initial_rank t keeps, ap (changed_at k f) same)
    | inr e ↦ ground (arith, with_initial_rank-changed j leaves s keeps, keeps t)
  ]

  pub with_rank-changed :
      (r : ℕ) (leaves : List State) (s : State)
      → KeepsRank f
      → with_rank r leaves ≡ some s
      → with_rank r (changed leaves) ≡ some (changed_at k f s)
  unfolding with_rank
  with_rank-changed r [] s keeps h = absurd (ground arith)
  with_rank-changed r (t ∷ leaves) s keeps h = elim (Bool-cases (t.rank == r)) [
    | inl e ↦
        let same : t ≡ s = some-injective t s (ground arith) in
        ground (arith, changed_at-rank t keeps, ap (changed_at k f) same)
    | inr e ↦ ground (arith, with_rank-changed r leaves s keeps, keeps t)
  ]

mutual
  unfolding at_leaf iter_leaves

  pub iter_leaves-at_leaf :
      (k : ℕ) (f : State → State) (g : Inner → Inner) (n : TreeNode)
      → iter_leaves (at_leaf k f g n) ≡ map (changed_at k f) (iter_leaves n)
  iter_leaves-at_leaf k f g (leaf s) = refl
  iter_leaves-at_leaf k f g (inner i ns) = iter_leaves-at_leaves k f g ns

  pub iter_leaves-at_leaves :
      (k : ℕ) (f : State → State) (g : Inner → Inner) (ns : TreeNodes)
      → iter_leaves_of (at_leaves k f g ns) ≡ map (changed_at k f) (iter_leaves_of ns)
  iter_leaves-at_leaves k f g no_nodes = refl
  iter_leaves-at_leaves k f g (with_node n ns) =
      rw (iter_leaves-at_leaf k f g n, iter_leaves-at_leaves k f g ns)
        (sym (map-append (changed_at k f) (iter_leaves n) (iter_leaves_of ns)))

mutual
  unfolding at_every_leaf iter_leaves

  pub iter_leaves-at_every_leaf :
      (f : State → State) (n : TreeNode) → iter_leaves (at_every_leaf f n) ≡ map f (iter_leaves n)
  iter_leaves-at_every_leaf f (leaf s) = refl
  iter_leaves-at_every_leaf f (inner i ns) = iter_leaves-at_every_leaf_of f ns

  pub iter_leaves-at_every_leaf_of :
      (f : State → State) (ns : TreeNodes)
      → iter_leaves_of (at_every_leaf_of f ns) ≡ map f (iter_leaves_of ns)
  iter_leaves-at_every_leaf_of f no_nodes = refl
  iter_leaves-at_every_leaf_of f (with_node n ns) =
      rw (iter_leaves-at_every_leaf f n, iter_leaves-at_every_leaf_of f ns)
        (sym (map-append f (iter_leaves n) (iter_leaves_of ns)))
