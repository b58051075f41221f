-- ===== src/InProcess/Tree/Ending.antt =====
-- The termination of leaves of the topology tree in `Tree.__call__` of inprocess/rank_assignment.py.
use nvidia_resiliency_ext_x.Prelude.{
  ℕ, ◌+◌, ◌≡◌, refl, sym, ap, ◌∙◌, true, false, Option, none, some, some-injective, List, [], ◌∷◌,
  arith, Bool-cases, inl, inr,
}
use nvidia_resiliency_ext_x.Prelude.Eq.{◌==◌, ==_iff, eq_self, number_keys}
use nvidia_resiliency_ext_x.Prelude.Keys.{contains}
use nvidia_resiliency_ext_x.Prelude.Method.{ok}
use nvidia_resiliency_ext_x.InProcess.RankAssignment.{terminated, State}
use nvidia_resiliency_ext_x.InProcess.Tree.Topology.{
  TreeNode, iter_leaves, is_active, leave_inactive,
}
use nvidia_resiliency_ext_x.InProcess.Tree.Leaves.{
  with_rank, with_initial_rank, rank_map, terminate,
}
use nvidia_resiliency_ext_x.InProcess.Tree.LeafLists.{
  count_active, KeepsRank, changed, with_rank-changed, iter_leaves-at_leaf,
}
use nvidia_resiliency_ext_x.InProcess.Tree.Recording.{leave_inactive-Fits}
use nvidia_resiliency_ext_x.InProcess.Tree.Reserving.{with_rank-with_initial_rank}
use nvidia_resiliency_ext_x.InProcess.Tree.Keeping.{ranks, IsSound, IsTerminatedAt, IsOver, Keeps}
use nvidia_resiliency_ext_x.InProcess.Tree.Changes.{IsMild, at_leaf-count, at_leaf-Keeps}

-- The tree has a leaf of this rank.
abbrev pub IsFound : TreeNode → ℕ → Type 0
IsFound t r = contains r (ranks (iter_leaves t)) ≡ true

pub with_rank-found :
    (r : ℕ) (leaves : List State)
    → contains r (ranks leaves) ≡ true
    → (s : State) × (with_rank r leaves ≡ some s) × (s.rank ≡ r)
unfolding with_rank contains
with_rank-found r [] h = absurd (ground arith)
with_rank-found r (s ∷ leaves) h = elim (Bool-cases (s.rank == r)) [
  | inl e ↦ (s, rw e refl, (==_iff s.rank r).0 e)
  | inr e ↦ let (u, f, m) = with_rank-found r leaves (ground arith) in (u, rw e f, m)
]

pub with_rank-rank :
    (r : ℕ) (leaves : List State) (s : State) → with_rank r leaves ≡ some s → s.rank ≡ r
unfolding with_rank
with_rank-rank r [] s h = absurd (ground arith)
with_rank-rank r (t ∷ leaves) s h = elim (Bool-cases (t.rank == r)) [
  | inl e ↦
      let same : t ≡ s = some-injective t s (ground arith) in
      ap (λ (x : State). x.rank) (sym same) ∙ (==_iff t.rank r).0 e
  | inr e ↦ with_rank-rank r leaves s (ground arith)
]

pub rank_map-found :
    (r : ℕ) (t : TreeNode) (s : State)
    → with_rank r (iter_leaves t) ≡ some s
    → rank_map r t ≡ (ok s, t)
unfolding rank_map
rank_map-found r t s h = rw h refl

-- An active leaf of rank `r` has the active rank `v`.
abbrev pub IsActiveAt : TreeNode → ℕ → ℕ → Type 0
IsActiveAt t r v =
    (s : State) × (with_rank r (iter_leaves t) ≡ some s)
    × (is_active s.mode ≡ true)
    × (s.active_rank ≡ some v)

unfoldable pub weight : ℕ → Option State → ℕ
weight v none = 0
weight v (some s) = count_active v (s ∷ [])

-- How often `v` is the active rank of an active leaf among these.
unfoldable pub pending : ℕ → List ℕ → List State → ℕ
unfolding weight
pending v [] leaves = 0
pending v (r ∷ rs) leaves = weight v (with_rank r leaves) + pending v rs leaves

with_rank-unchanged :
    (k : ℕ) (f : State → State) (q : ℕ) (leaves : List State)
    → KeepsRank f
    → ((u : State) → with_rank q leaves ≡ some u → (u.initial_rank == k) ≡ false)
    → with_rank q (changed k f leaves) ≡ with_rank q leaves
unfolding with_rank
with_rank-unchanged k f q [] keeps h = refl
with_rank-unchanged k f q (t ∷ leaves) keeps h = elim (Bool-cases (t.rank == q)) [
  | inl e ↦ rw (h t (rw e refl)) (rw e refl)
  | inr e ↦ ground (arith, with_rank-unchanged k f q leaves keeps (λ u c. h u (rw e c)), keeps t)
]

module _ (r : ℕ) (s : State) (t : TreeNode) (found : with_rank r (iter_leaves t) ≡ some s)
    (w : IsSound t) where
  terminate-IsMild :
      IsMild s.initial_rank (λ u. record u { mode = terminated }) (leave_inactive s.initial_rank) s
  terminate-IsMild = record {
    slight = record {
      keeps_initial_rank = λ u. refl;
      keeps_rank = λ u. refl;
      keeps_size = λ u. refl;
      ranked = λ h e. absurd (ground arith);
      fits =
          leave_inactive-Fits s.initial_rank (λ u. record u { mode = terminated }) (λ u. refl)
            (λ u. refl);
      ends = λ e. refl;
    };
    frees = λ e. refl;
  }

  pub terminate-Keeps : Keeps t (terminate s.initial_rank t)
  unfolding terminate
  terminate-Keeps =
      at_leaf-Keeps s.initial_rank (λ u. record u { mode = terminated })
        (leave_inactive s.initial_rank) s t
        (with_rank-with_initial_rank r (iter_leaves t) s w.apart found) w terminate-IsMild

  pub terminate-count :
      (v : ℕ)
      → count_active v (iter_leaves (terminate s.initial_rank t)) + count_active v (s ∷ [])
        ≡ count_active v (iter_leaves t)
  unfolding terminate count_active
  terminate-count v = omega (
    arith,
    at_leaf-count s.initial_rank (λ u. record u { mode = terminated })
        (leave_inactive s.initial_rank) s t
        (with_rank-with_initial_rank r (iter_leaves t) s w.apart found) w v,
  )

  apart_leaves :
      (q : ℕ) (u : State)
      → (r == q) ≡ false
      → with_rank q (iter_leaves t) ≡ some u
      → (u.initial_rank == s.initial_rank) ≡ false
  apart_leaves q u ne e = elim (Bool-cases (u.initial_rank == s.initial_rank)) [
    | inr c ↦ c
    | inl c ↦
        let same : u ≡ s = some-injective u s (
          sym (with_rank-with_initial_rank q (iter_leaves t) u w.apart e)
          ∙ ap (λ j. with_initial_rank j (iter_leaves t))
              ((==_iff u.initial_rank s.initial_rank).0 c)
          ∙ with_rank-with_initial_rank r (iter_leaves t) s w.apart found) in
        let both : r ≡ q =
          sym (with_rank-rank r (iter_leaves t) s found)
          ∙ ap (λ (x : State). x.rank) (sym same)
          ∙ with_rank-rank q (iter_leaves t) u e in
        absurd (ground (arith, ==_iff r q, both))
  ]

  pub with_rank-terminate_other :
      (q : ℕ)
      → (r == q) ≡ false
      → with_rank q (iter_leaves (terminate s.initial_rank t)) ≡ with_rank q (iter_leaves t)
  unfolding terminate
  with_rank-terminate_other q ne =
      rw
        (iter_leaves-at_leaf s.initial_rank (λ u. record u { mode = terminated })
          (leave_inactive s.initial_rank) t)
        (with_rank-unchanged s.initial_rank (λ u. record u { mode = terminated }) q (iter_leaves t)
          (λ u. refl) (λ u e. apart_leaves q u ne e))

  with_rank-terminate :
      with_rank r (iter_leaves (terminate s.initial_rank t)) ≡ some (record s { mode = terminated })
  unfolding terminate
  with_rank-terminate =
      rw
        (iter_leaves-at_leaf s.initial_rank (λ u. record u { mode = terminated })
          (leave_inactive s.initial_rank) t)
        (with_rank-changed s.initial_rank (λ u. record u { mode = terminated }) r (iter_leaves t) s
            (λ u. refl) found
          ∙ ap some (rw (eq_self s.initial_rank) refl))

  pub terminated-at :
      (v : ℕ) → s.active_rank ≡ some v → IsTerminatedAt (terminate s.initial_rank t) r v
  terminated-at v a = (record s { mode = terminated }, with_rank-terminate, refl, a)

  pub terminate-IsOver : IsOver (terminate s.initial_rank t) r
  terminate-IsOver = (record s { mode = terminated }, with_rank-terminate, refl)
