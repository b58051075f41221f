-- ===== src/InProcess/Tree/Uniform.antt =====
-- Changes of every leaf in `Tree.__call__` of inprocess/rank_assignment.py, and what all its steps leave
-- as it is.
use nvidia_resiliency_ext_x.Prelude.{
  ℕ, ◌≡◌, refl, sym, ap, ◌∙◌, subst, some, some-injective, List, [], ◌∷◌, map, arith, Bool-cases,
  inl, inr, All,
}
use nvidia_resiliency_ext_x.Prelude.Eq.{◌==◌, number_keys}
use nvidia_resiliency_ext_x.InProcess.RankAssignment.{State}
use nvidia_resiliency_ext_x.InProcess.Tree.Topology.{
  TreeNode, iter_leaves, initial_ranks, is_terminated,
}
use nvidia_resiliency_ext_x.InProcess.Tree.Leaves.{at_every_leaf, with_rank, with_initial_rank}
use nvidia_resiliency_ext_x.InProcess.Tree.LeafLists.{
  count_active, AreApart, KeepsInitialRank, KeepsRank, iter_leaves-at_every_leaf,
}
use nvidia_resiliency_ext_x.InProcess.Tree.Recording.{at_every_leaf-IsRecorded}
use nvidia_resiliency_ext_x.InProcess.Tree.Keeping.{
  ended, ranks, IsRanked, HasSize, IsSound, IsOver, Follows,
}
use nvidia_resiliency_ext_x.InProcess.Tree.Changes.{All-map_of}
use nvidia_resiliency_ext_x.InProcess.Tree.Gaps.{once_below}

pub record Stays (t u : TreeNode) : Type 0 where
  pub sound : IsSound u
  pub same_ranks : ranks (iter_leaves u) ≡ ranks (iter_leaves t)
  pub same_initial_ranks : initial_ranks (iter_leaves u) ≡ initial_ranks (iter_leaves t)
  pub ends : ended (iter_leaves u) ≡ ended (iter_leaves t)
  pub over : (r : ℕ) → IsOver t r → IsOver u r

pub Stays-refl : (t : TreeNode) → IsSound t → Stays t t
Stays-refl t w = record {
  sound = w;
  same_ranks = refl;
  same_initial_ranks = refl;
  ends = refl;
  over = λ r h. h;
}

pub Stays-trans : {t u v : TreeNode} → Stays t u → Stays u v → Stays t v
Stays-trans x y = record {
  sound = y.sound;
  same_ranks = y.same_ranks ∙ x.same_ranks;
  same_initial_ranks = y.same_initial_ranks ∙ x.same_initial_ranks;
  ends = y.ends ∙ x.ends;
  over = λ r h. y.over r (x.over r h);
}

pub Follows-Stays :
    {t u : TreeNode} → Follows t u → ended (iter_leaves u) ≡ ended (iter_leaves t) → Stays t u
Follows-Stays x e = record {
  sound = x.sound;
  same_ranks = x.same_ranks;
  same_initial_ranks = x.same_initial_ranks;
  ends = e;
  over = x.over;
}

-- The active ranks of the tree are those of a world of this size, each once, and every leaf has it.
pub record IsSized (size : ℕ) (t : TreeNode) : Type 0 where
  pub counts : (v : ℕ) → count_active v (iter_leaves t) ≡ once_below size v
  pub sizes : All (HasSize size) (iter_leaves t)

-- What a change of every leaf keeps.
pub record IsEven (f : State → State) : Type 0 where
  pub keeps_initial_rank : KeepsInitialRank f
  pub keeps_mode : (s : State) → (f s).mode ≡ s.mode
  pub ranked : (s : State) → IsRanked s → IsRanked (f s)

pub All-map_to :
    (P Q : State → Type 0) (f : State → State) (leaves : List State)
    → ((s : State) → P s → Q (f s))
    → All P leaves
    → All Q (map f leaves)
All-map_to P Q f [] h w = tt
All-map_to P Q f (s ∷ leaves) h (p, w) = (h s p, All-map_to P Q f leaves h w)

with_rank-map :
    (f : State → State) (r : ℕ) (leaves : List State) (s : State)
    → KeepsRank f
    → with_rank r leaves ≡ some s
    → with_rank r (map f leaves) ≡ some (f s)
unfolding with_rank
with_rank-map f r [] s keeps h = absurd (ground arith)
with_rank-map f r (t ∷ leaves) s keeps h = elim (Bool-cases (t.rank == r)) [
  | inl e ↦
      let same : t ≡ s = some-injective t s (ground arith) in ground (arith, keeps t, ap f same)
  | inr e ↦ ground (arith, with_rank-map f r leaves s keeps, keeps t)
]

fields-map :
    (g : State → ℕ) (f : State → State) (leaves : List State)
    → ((s : State) → g (f s) ≡ g s)
    → map g (map f leaves) ≡ map g leaves
fields-map g f [] h = refl
fields-map g f (s ∷ leaves) h = rw (h s) (ap (λ l. g s ∷ l) (fields-map g f leaves h))

pub ended-map :
    (f : State → State) (leaves : List State)
    → ((s : State) → (f s).mode ≡ s.mode)
    → ended (map f leaves) ≡ ended leaves
ended-map f [] h = refl
ended-map f (s ∷ leaves) h = rw (h s) (ap (λ l. is_terminated s.mode ∷ l) (ended-map f leaves h))

pub at_every_leaf-initial_ranks :
    (f : State → State) (t : TreeNode)
    → KeepsInitialRank f
    → initial_ranks (iter_leaves (at_every_leaf f t)) ≡ initial_ranks (iter_leaves t)
at_every_leaf-initial_ranks f t keeps =
    ap initial_ranks (iter_leaves-at_every_leaf f t)
    ∙ fields-map (λ s. s.initial_rank) f (iter_leaves t) keeps

pub at_every_leaf-IsSound :
    (f : State → State) (t : TreeNode) → IsEven f → IsSound t → IsSound (at_every_leaf f t)
at_every_leaf-IsSound f t e w = record {
  apart = subst AreApart (sym (at_every_leaf-initial_ranks f t e.keeps_initial_rank)) w.apart;
  recorded = at_every_leaf-IsRecorded f t e.keeps_initial_rank e.keeps_mode w.recorded;
  ranked =
      subst (All IsRanked) (sym (iter_leaves-at_every_leaf f t))
        (All-map_of f (iter_leaves t) e.ranked w.ranked);
}

pub at_every_leaf-Stays :
    (f : State → State) (t : TreeNode)
    → IsEven f
    → KeepsRank f
    → IsSound t
    → Stays t (at_every_leaf f t)
at_every_leaf-Stays f t e keeps w = record {
  sound = at_every_leaf-IsSound f t e w;
  same_ranks =
      ap ranks (iter_leaves-at_every_leaf f t) ∙ fields-map (λ s. s.rank) f (iter_leaves t) keeps;
  same_initial_ranks = at_every_leaf-initial_ranks f t e.keeps_initial_rank;
  ends = ap ended (iter_leaves-at_every_leaf f t) ∙ ended-map f (iter_leaves t) e.keeps_mode;
  over = λ r (s, found, m). (
    f s,
    rw (iter_leaves-at_every_leaf f t) (with_rank-map f r (iter_leaves t) s keeps found),
    e.keeps_mode s ∙ m,
  );
}

count_active-map :
    (f : State → State) (v : ℕ) (leaves : List State)
    → ((s : State) → (f s).mode ≡ s.mode)
    → ((s : State) → (f s).active_rank ≡ s.active_rank)
    → count_active v (map f leaves) ≡ count_active v leaves
unfolding count_active
count_active-map f v [] m a = refl
count_active-map f v (s ∷ leaves) m a = rw (m s, a s, count_active-map f v leaves m a) refl

-- A change that leaves the active ranks as they are.
pub at_every_leaf-count :
    (f : State → State) (v : ℕ) (t : TreeNode)
    → ((s : State) → (f s).mode ≡ s.mode)
    → ((s : State) → (f s).active_rank ≡ s.active_rank)
    → count_active v (iter_leaves (at_every_leaf f t)) ≡ count_active v (iter_leaves t)
at_every_leaf-count f v t m a =
    rw (iter_leaves-at_every_leaf f t) (count_active-map f v (iter_leaves t) m a)

pub at_every_leaf-sizes :
    (f : State → State) (a b : ℕ) (t : TreeNode)
    → ((s : State) → HasSize a s → HasSize b (f s))
    → All (HasSize a) (iter_leaves t)
    → All (HasSize b) (iter_leaves (at_every_leaf f t))
at_every_leaf-sizes f a b t h w =
    subst (All (HasSize b)) (sym (iter_leaves-at_every_leaf f t))
      (All-map_to (HasSize a) (HasSize b) f (iter_leaves t) h w)

pub with_initial_rank-map :
    (f : State → State) (k : ℕ) (leaves : List State) (s : State)
    → KeepsInitialRank f
    → with_initial_rank k leaves ≡ some s
    → with_initial_rank k (map f leaves) ≡ some (f s)
unfolding with_initial_rank
with_initial_rank-map f k [] s keeps h = absurd (ground arith)
with_initial_rank-map f k (t ∷ leaves) s keeps h = elim (Bool-cases (t.initial_rank == k)) [
  | inl e ↦
      let same : t ≡ s = some-injective t s (ground arith) in ground (arith, keeps t, ap f same)
  | inr e ↦ ground (arith, with_initial_rank-map f k leaves s keeps, keeps t)
]
