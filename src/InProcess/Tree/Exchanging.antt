-- ===== src/InProcess/Tree/Exchanging.antt =====
-- An active leaf that takes over an active rank in `Tree.replace_with_backfill` of
-- inprocess/rank_assignment.py.
use nvidia_resiliency_ext_x.Prelude.{
  ℕ, ◌+◌, ◌≡◌, refl, ap, subst, true, Option, some, some-injective, List, [], ◌∷◌, arith,
  Bool-cases, if-cases, inl, inr, All,
}
use nvidia_resiliency_ext_x.Prelude.Eq.{◌==◌, number_keys}
use nvidia_resiliency_ext_x.Prelude.Keys.{count}
use nvidia_resiliency_ext_x.InProcess.RankAssignment.{State}
use nvidia_resiliency_ext_x.InProcess.Tree.Topology.{TreeNode, iter_leaves, is_active}
use nvidia_resiliency_ext_x.InProcess.Tree.Leaves.{at_leaf, changed_at, with_initial_rank}
use nvidia_resiliency_ext_x.InProcess.Tree.LeafLists.{
  count_active, is_rank, with_initial_rank-changed, iter_leaves-at_leaf,
}
use nvidia_resiliency_ext_x.InProcess.Tree.Recording.{same_mode-Fits}
use nvidia_resiliency_ext_x.InProcess.Tree.Keeping.{ended, IsSound, Keeps}
use nvidia_resiliency_ext_x.InProcess.Tree.Changes.{
  at_leaf-ended, IsMild, at_leaf-count, at_leaf-Keeps,
}

-- The leaf of this initial rank is active.
abbrev pub IsActiveLeaf : TreeNode → ℕ → Type 0
IsActiveLeaf t k =
    (s : State) × (with_initial_rank k (iter_leaves t) ≡ some s) × (is_active s.mode ≡ true)

abbrev pub exchanged : Option ℕ → State → State
exchanged o s = record s { active_rank = o }

pub All-with_initial_rank :
    (P : State → Type 0) (k : ℕ) (leaves : List State) (s : State)
    → All P leaves
    → with_initial_rank k leaves ≡ some s
    → P s
unfolding with_initial_rank
All-with_initial_rank P k [] s w h = absurd (ground arith)
All-with_initial_rank P k (t ∷ leaves) s (p, w) h = elim (Bool-cases (t.initial_rank == k)) [
  | inl e ↦ subst P (some-injective t s (ground arith)) p
  | inr e ↦ All-with_initial_rank P k leaves s w (ground arith)
]

module _ (t : TreeNode) (w : IsSound t) (k : ℕ) (s : State) (v : ℕ)
    (found : with_initial_rank k (iter_leaves t) ≡ some s) (works : is_active s.mode ≡ true) where
  exchanged-IsMild : IsMild k (exchanged (some v)) (λ i. i) s
  exchanged-IsMild = record {
    slight = record {
      keeps_initial_rank = λ u. refl;
      keeps_rank = λ u. refl;
      keeps_size = λ u. refl;
      ranked = λ h e. refl;
      fits = same_mode-Fits k (exchanged (some v)) (λ u. refl) (λ u. refl);
      ends = λ e. absurd (ground (arith, ap is_active e));
    };
    frees = λ e. absurd (ground (arith, ap is_active e));
  }

  pub exchanged-Keeps : Keeps t (at_leaf k (exchanged (some v)) (λ i. i) t)
  exchanged-Keeps = at_leaf-Keeps k (exchanged (some v)) (λ i. i) s t found w exchanged-IsMild

  pub exchanged-ended :
      ended (iter_leaves (at_leaf k (exchanged (some v)) (λ i. i) t)) ≡ ended (iter_leaves t)
  exchanged-ended = at_leaf-ended k (exchanged (some v)) (λ i. i) s t found w refl

  pub exchanged-count :
      (r j : ℕ)
      → s.active_rank ≡ some r
      → count_active j (iter_leaves (at_leaf k (exchanged (some v)) (λ i. i) t)) + count j (r ∷ [])
        ≡ count_active j (iter_leaves t) + count j (v ∷ [])
  unfolding count_active count
  exchanged-count r j h =
      ground (arith, at_leaf-count k (exchanged (some v)) (λ i. i) s t found w j, ap (is_rank j) h)

  pub still_active :
      (j : ℕ) → IsActiveLeaf t j → IsActiveLeaf (at_leaf k (exchanged (some v)) (λ i. i) t) j
  still_active j (x, at_j, e) = (
    changed_at k (exchanged (some v)) x,
    rw (iter_leaves-at_leaf k (exchanged (some v)) (λ i. i) t)
        (with_initial_rank-changed k (exchanged (some v)) j (iter_leaves t) x (λ u. refl) at_j),
    if-cases (λ y. is_active y.mode ≡ true) (x.initial_rank == k) (exchanged (some v) x) x (λ i. e)
        (λ i. e),
  )
