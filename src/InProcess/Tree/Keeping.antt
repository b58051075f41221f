-- ===== src/InProcess/Tree/Keeping.antt =====
-- What every step of `Tree.__call__` in inprocess/rank_assignment.py keeps of the topology tree.
use nvidia_resiliency_ext_x.Prelude.{
  ℕ, ◌≡◌, refl, ◌∙◌, Bool, true, false, Option, none, some, List, map, All,
}
use nvidia_resiliency_ext_x.Prelude.Eq.{number_keys}
use nvidia_resiliency_ext_x.InProcess.RankAssignment.{terminated, State}
use nvidia_resiliency_ext_x.InProcess.Tree.Topology.{
  TreeNode, iter_leaves, initial_ranks, is_active, is_terminated,
}
use nvidia_resiliency_ext_x.InProcess.Tree.Leaves.{with_rank}
use nvidia_resiliency_ext_x.InProcess.Tree.LeafLists.{AreApart}
use nvidia_resiliency_ext_x.InProcess.Tree.Recording.{IsRecorded}

abbrev pub ranks : List State → List ℕ
ranks leaves = map (λ s. s.rank) leaves

abbrev pub has_rank : Option ℕ → Bool
has_rank none = false
has_rank (some r) = true

-- An active leaf has an active rank.
abbrev pub IsRanked : State → Type 0
IsRanked s = is_active s.mode ≡ true → has_rank s.active_rank ≡ true

-- Which leaves are terminated.
abbrev pub ended : List State → List Bool
ended leaves = map (λ s. is_terminated s.mode) leaves

abbrev pub HasSize : ℕ → State → Type 0
HasSize size s = s.active_world_size ≡ some size

-- The initial ranks tell the leaves apart, every node records its inactive leaves, and every active
-- leaf has an active rank.
pub record IsSound (t : TreeNode) : Type 0 where
  pub apart : AreApart (initial_ranks (iter_leaves t))
  pub recorded : IsRecorded t
  pub ranked : All IsRanked (iter_leaves t)

-- The leaf of rank `r` is terminated, and its active rank was `v`.
abbrev pub IsTerminatedAt : TreeNode → ℕ → ℕ → Type 0
IsTerminatedAt t r v =
    (s : State) × (with_rank r (iter_leaves t) ≡ some s)
    × (s.mode ≡ terminated)
    × (s.active_rank ≡ some v)

-- The leaf of rank `r` is terminated.
abbrev pub IsOver : TreeNode → ℕ → Type 0
IsOver t r = (s : State) × (with_rank r (iter_leaves t) ≡ some s) × (s.mode ≡ terminated)

pub record Follows (t u : TreeNode) : Type 0 where
  pub sound : IsSound u
  pub same_ranks : ranks (iter_leaves u) ≡ ranks (iter_leaves t)
  pub same_initial_ranks : initial_ranks (iter_leaves u) ≡ initial_ranks (iter_leaves t)
  pub sizes : (size : ℕ) → All (HasSize size) (iter_leaves t) → All (HasSize size) (iter_leaves u)
  pub over : (r : ℕ) → IsOver t r → IsOver u r

pub record Keeps (t u : TreeNode) : Type 0 where
  pub follows : Follows t u
  pub still_terminated : (r v : ℕ) → IsTerminatedAt t r v → IsTerminatedAt u r v

pub Follows-refl : (t : TreeNode) → IsSound t → Follows t t
Follows-refl t w = record {
  sound = w;
  same_ranks = refl;
  same_initial_ranks = refl;
  sizes = λ size h. h;
  over = λ r h. h;
}

pub Follows-trans : {t u v : TreeNode} → Follows t u → Follows u v → Follows t v
Follows-trans x y = record {
  sound = y.sound;
  same_ranks = y.same_ranks ∙ x.same_ranks;
  same_initial_ranks = y.same_initial_ranks ∙ x.same_initial_ranks;
  sizes = λ size h. y.sizes size (x.sizes size h);
  over = λ r h. y.over r (x.over r h);
}

pub Keeps-refl : (t : TreeNode) → IsSound t → Keeps t t
Keeps-refl t w = record { follows = Follows-refl t w; still_terminated = λ r v h. h }

pub Keeps-trans : {t u v : TreeNode} → Keeps t u → Keeps u v → Keeps t v
Keeps-trans x y = record {
  follows = Follows-trans x.follows y.follows;
  still_terminated = λ r v h. y.still_terminated r v (x.still_terminated r v h);
}
