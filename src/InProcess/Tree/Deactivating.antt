-- ===== src/InProcess/Tree/Deactivating.antt =====
-- The leaves that `Tree.filter_active_world_size` of inprocess/rank_assignment.py deactivates.
use nvidia_resiliency_ext_x.Prelude.{
  ℕ, suc, ◌+◌, ◌≡◌, refl, ap, ◌∙◌, ◌&&◌, true, false, Option, none, some, List, [], ◌∷◌,
  if◌then◌else◌, arith, Bool-cases, inl, inr, All, leb,
}
use nvidia_resiliency_ext_x.Prelude.Eq.{◌==◌, ==_iff, number_keys}
use nvidia_resiliency_ext_x.Prelude.Keys.{contains}
use nvidia_resiliency_ext_x.InProcess.RankAssignment.{Mode, inactive, State}
use nvidia_resiliency_ext_x.InProcess.Tree.Topology.{
  TreeNode, iter_leaves, initial_ranks, is_active, is_terminated, deactivate, join_inactive,
}
use nvidia_resiliency_ext_x.InProcess.Tree.Leaves.{deactivate_leaf, with_initial_rank}
use nvidia_resiliency_ext_x.InProcess.Tree.Call.{is_at_least, is_past, deactivate_past}
use nvidia_resiliency_ext_x.InProcess.Tree.LeafLists.{
  count_active, is_rank, AreApart, with_initial_rank-changed, iter_leaves-at_leaf,
}
use nvidia_resiliency_ext_x.InProcess.Tree.Recording.{join_inactive-Fits}
use nvidia_resiliency_ext_x.InProcess.Tree.Reserving.{contains-with_initial_rank}
use nvidia_resiliency_ext_x.InProcess.Tree.Keeping.{
  ended, IsSound, Follows, Follows-refl, Follows-trans,
}
use nvidia_resiliency_ext_x.InProcess.Tree.Changes.{at_leaf-ended, at_leaf-count, at_leaf-Follows}

-- The leaf of the tree that `s` was, with the same mode and active rank.
abbrev pub IsAsAt : TreeNode → State → Type 0
IsAsAt t s =
    (x : State) × (with_initial_rank s.initial_rank (iter_leaves t) ≡ some x)
    × (x.mode ≡ s.mode)
    × (x.active_rank ≡ s.active_rank)

abbrev idle : State → State
idle s = record s { mode = inactive; active_rank = none }

unfoldable pub past_count : ℕ → ℕ → List State → ℕ
past_count size v [] = 0
past_count size v (s ∷ leaves) =
    let n = past_count size v leaves in
    if is_past size s && is_rank v s.active_rank then suc n else n

at_least-is_rank :
    (size v : ℕ) (o : Option ℕ) → is_rank v o ≡ true → is_at_least size o ≡ leb size v
at_least-is_rank size v none h = absurd (ground arith)
at_least-is_rank size v (some r) h = ap (leb size) ((==_iff r v).0 h)

pub past_count-count_active :
    (size v : ℕ) (leaves : List State)
    → past_count size v leaves ≡ (if leb size v then count_active v leaves else 0)
unfolding past_count count_active
past_count-count_active size v [] = ground arith
past_count-count_active size v (s ∷ leaves) =
    ground (arith, past_count-count_active size v leaves, at_least-is_rank size v s.active_rank)

active-not_terminated : (m : Mode) → is_active m ≡ true → false ≡ is_terminated m
active-not_terminated m h = ground arith

module _ (t : TreeNode) (w : IsSound t) (s x : State)
    (found : with_initial_rank s.initial_rank (iter_leaves t) ≡ some x)
    (works : is_active x.mode ≡ true) where
  deactivate_leaf-Follows : Follows t (deactivate_leaf s.initial_rank t)
  unfolding deactivate_leaf deactivate
  deactivate_leaf-Follows =
      at_leaf-Follows s.initial_rank idle (join_inactive s.initial_rank) x t found w (record {
        keeps_initial_rank = λ u. refl;
        keeps_rank = λ u. refl;
        keeps_size = λ u. refl;
        ranked = λ h e. absurd (ground arith);
        fits = join_inactive-Fits s.initial_rank idle (λ u. refl) (λ u. refl);
        ends = λ e. absurd (ground (arith, ap is_active e));
      })

  deactivate_leaf-ended :
      ended (iter_leaves (deactivate_leaf s.initial_rank t)) ≡ ended (iter_leaves t)
  unfolding deactivate_leaf deactivate
  deactivate_leaf-ended =
      at_leaf-ended s.initial_rank idle (join_inactive s.initial_rank) x t found w
        (active-not_terminated x.mode works)

  deactivate_leaf-count :
      (v : ℕ)
      → count_active v (iter_leaves (deactivate_leaf s.initial_rank t)) + count_active v (x ∷ [])
        ≡ count_active v (iter_leaves t)
  unfolding deactivate_leaf deactivate count_active
  deactivate_leaf-count v =
      omega (arith, at_leaf-count s.initial_rank idle (join_inactive s.initial_rank) x t found w v)

  other_leaves :
      (u : State)
      → (u.initial_rank == s.initial_rank) ≡ false
      → IsAsAt t u
      → IsAsAt (deactivate_leaf s.initial_rank t) u
  unfolding deactivate_leaf deactivate
  other_leaves u ne (y, at_u, mode, rank) =
      let key : y.initial_rank ≡ u.initial_rank =
        (contains-with_initial_rank u.initial_rank (iter_leaves t) y at_u).1 in
      (
        y,
        rw (iter_leaves-at_leaf s.initial_rank idle (join_inactive s.initial_rank) t) (
            with_initial_rank-changed s.initial_rank idle u.initial_rank (iter_leaves t) y
              (λ z. refl) at_u
            ∙ ap some (rw key (rw ne refl))),
        mode,
        rank,
      )

other_keys :
    (k : ℕ) (leaves : List State)
    → contains k (initial_ranks leaves) ≡ false
    → All (λ u. (u.initial_rank == k) ≡ false) leaves
unfolding contains
other_keys k [] c = tt
other_keys k (u ∷ leaves) c = (ground arith, other_keys k leaves (ground arith))

All-both :
    (P Q R : State → Type 0) (leaves : List State)
    → ((s : State) → P s → Q s → R s)
    → All P leaves
    → All Q leaves
    → All R leaves
All-both P Q R [] f h k = tt
All-both P Q R (s ∷ leaves) f (p, h) (q, k) = (f s p q, All-both P Q R leaves f h k)

pub deactivate_past-Follows :
    (size : ℕ) (leaves : List State) (t : TreeNode)
    → IsSound t
    → AreApart (initial_ranks leaves)
    → All (IsAsAt t) leaves
    → Follows t (deactivate_past size leaves t)
      × (ended (iter_leaves (deactivate_past size leaves t)) ≡ ended (iter_leaves t))
      × ((v : ℕ)
          → count_active v (iter_leaves (deactivate_past size leaves t)) + past_count size v leaves
            ≡ count_active v (iter_leaves t))
unfolding deactivate_past past_count count_active
deactivate_past-Follows size [] t w a h = (Follows-refl t w, refl, λ v. omega arith)
deactivate_past-Follows size (s ∷ leaves) t w (c, a) ((x, found, mode, rank), h) =
    elim (Bool-cases (is_past size s)) [
      | inl e ↦
          let works : is_active x.mode ≡ true = ground (arith, ap is_active mode) in
          let first = deactivate_leaf-Follows t w s x found works in
          let (rest, ends, counts) =
            deactivate_past-Follows size leaves (deactivate_leaf s.initial_rank t) first.sound a (
              All-both (λ u. (u.initial_rank == s.initial_rank) ≡ false) (IsAsAt t)
                (IsAsAt (deactivate_leaf s.initial_rank t)) leaves
                (other_leaves t w s x found works) (other_keys s.initial_rank leaves c) h) in
          rw e (
            Follows-trans first rest,
            ends ∙ deactivate_leaf-ended t w s x found works,
            λ v.
                ground (
                  arith,
                  counts v,
                  deactivate_leaf-count t w s x found works v,
                  ap (is_rank v) rank,
                ),
          )
      | inr e ↦
          let (rest, ends, counts) = deactivate_past-Follows size leaves t w a h in
          rw e (rest, ends, λ v. ground (arith, counts v))
    ]
