-- ===== src/InProcess/Tree/Reserving.antt =====
-- Which leaf of the topology tree of `Tree` in inprocess/rank_assignment.py a walk through the reserve
-- finds.
use nvidia_resiliency_ext_x.Prelude.{
  ℕ, ◌≡◌, refl, sym, ap, ◌∙◌, subst, true, false, some, some-injective, List, [], ◌∷◌, ◌++◌, arith,
  Bool-cases, Option-cases, if-cases, inl, inr, All, All-mono,
}
use nvidia_resiliency_ext_x.Prelude.Eq.{◌==◌, ==_iff, eq_self, number_keys}
use nvidia_resiliency_ext_x.Prelude.Keys.{contains}
use nvidia_resiliency_ext_x.InProcess.RankAssignment.{
  Mode, initialized, active, inactive, terminated, State,
}
use nvidia_resiliency_ext_x.InProcess.Tree.Topology.{
  TreeNode, leaf, inner, TreeNodes, no_nodes, with_node, iter_leaves, iter_leaves_of, initial_ranks,
}
use nvidia_resiliency_ext_x.InProcess.Tree.Leaves.{
  Above, above, above_in, last, reserved, with_rank, with_initial_rank,
}
use nvidia_resiliency_ext_x.InProcess.Tree.LeafLists.{AreApart}
use nvidia_resiliency_ext_x.InProcess.Tree.Recording.{
  is_inactive, inactive_at, inactive_at-append, IsRecorded, AreRecorded,
}

last-contains : (l : List ℕ) (j : ℕ) → last l ≡ some j → contains j l ≡ true
unfolding contains
last-contains [] j h = absurd (ground arith)
last-contains (x ∷ []) j h = ground (arith, ==_iff x j)
last-contains (x ∷ y ∷ l) j h = ground (arith, last-contains (y ∷ l) j h)

-- What the nodes of a path record are inactive leaves among these.
abbrev AreRecordedIn : List State → Above → Type 0
AreRecordedIn leaves =
    All (λ p. (j : ℕ) → contains j p.0.inactive_nodes ≡ true → inactive_at j leaves ≡ true)

AreRecordedIn-append :
    (leaves : List State) (xs ys : Above)
    → AreRecordedIn leaves xs
    → AreRecordedIn leaves ys
    → AreRecordedIn leaves (xs ++ ys)
AreRecordedIn-append leaves [] ys h k = k
AreRecordedIn-append leaves (x ∷ xs) ys (h, hs) k = (h, AreRecordedIn-append leaves xs ys hs k)

mutual
  unfolding above IsRecorded

  above-AreRecordedIn :
      (k : ℕ) (n : TreeNode) (leaves : List State)
      → ((j : ℕ) → inactive_at j (iter_leaves n) ≡ true → inactive_at j leaves ≡ true)
      → IsRecorded n
      → AreRecordedIn leaves (above k n)
  above-AreRecordedIn k (leaf s) leaves h w = tt
  above-AreRecordedIn k (inner i ns) leaves h (here, rest) =
      if-cases (AreRecordedIn leaves) (contains k (initial_ranks (iter_leaves_of ns)))
        (above_in k ns ++ (i, initial_ranks (iter_leaves_of ns)) ∷ []) []
        (λ e.
          AreRecordedIn-append leaves (above_in k ns) ((i, initial_ranks (iter_leaves_of ns)) ∷ [])
            (above_in-AreRecordedIn k ns leaves h rest) (λ j c. h j (sym (here j) ∙ c), tt))
        (λ e. tt)

  above_in-AreRecordedIn :
      (k : ℕ) (ns : TreeNodes) (leaves : List State)
      → ((j : ℕ) → inactive_at j (iter_leaves_of ns) ≡ true → inactive_at j leaves ≡ true)
      → AreRecorded ns
      → AreRecordedIn leaves (above_in k ns)
  above_in-AreRecordedIn k no_nodes leaves h w = tt
  above_in-AreRecordedIn k (with_node n ns) leaves h (first, rest) =
      if-cases (AreRecordedIn leaves) (contains k (initial_ranks (iter_leaves n))) (above k n)
        (above_in k ns)
        (λ e.
          above-AreRecordedIn k n leaves
            (λ j c. h j (ground (arith, inactive_at-append j (iter_leaves n) (iter_leaves_of ns))))
            first)
        (λ e.
          above_in-AreRecordedIn k ns leaves
            (λ j c. h j (ground (arith, inactive_at-append j (iter_leaves n) (iter_leaves_of ns))))
            rest)

reserved-inactive_at :
    (leaves : List State) (path : Above) (j : ℕ)
    → AreRecordedIn leaves path
    → reserved path ≡ some j
    → inactive_at j leaves ≡ true
unfolding reserved
reserved-inactive_at leaves [] j w h = absurd (ground arith)
reserved-inactive_at leaves ((i, keys) ∷ path) j (here, rest) h =
    elim (Option-cases (last i.inactive_nodes)) [
      | inl e ↦ ground (arith, reserved-inactive_at leaves path j rest)
      | inr (l, e) ↦ here j (
          ground (
            arith,
            last-contains i.inactive_nodes l e,
            ap (λ m. contains m i.inactive_nodes) (same l e),
          ))
    ]
  where
    same : (l : ℕ) → last i.inactive_nodes ≡ some l → l ≡ j
    same l e = ground arith

inactive_at-absent :
    (k : ℕ) (leaves : List State)
    → contains k (initial_ranks leaves) ≡ false
    → inactive_at k leaves ≡ false
unfolding inactive_at contains
inactive_at-absent k [] h = refl
inactive_at-absent k (s ∷ leaves) h = ground (arith, inactive_at-absent k leaves)

is_inactive-eq : (m : Mode) → is_inactive m ≡ true → m ≡ inactive
is_inactive-eq initialized h = absurd (ground arith)
is_inactive-eq active h = absurd (ground arith)
is_inactive-eq inactive h = refl
is_inactive-eq terminated h = absurd (ground arith)

pub inactive_at-found :
    (k : ℕ) (leaves : List State)
    → AreApart (initial_ranks leaves)
    → inactive_at k leaves ≡ true
    → (s : State) × (with_initial_rank k leaves ≡ some s) × (s.mode ≡ inactive)
unfolding inactive_at with_initial_rank contains
inactive_at-found k [] a h = absurd (ground arith)
inactive_at-found k (s ∷ leaves) a h = elim (Bool-cases (s.initial_rank == k)) [
  | inl e ↦
      let absent : contains k (initial_ranks leaves) ≡ false =
        subst (λ j. contains j (initial_ranks leaves) ≡ false) ((==_iff s.initial_rank k).0 e)
          a.0 in
      (s, rw e refl, is_inactive-eq s.mode (ground (arith, inactive_at-absent k leaves absent)))
  | inr e ↦ let (t, f, m) = inactive_at-found k leaves a.1 (ground arith) in (t, rw e f, m)
]

-- The walk finds an inactive leaf.
pub reserved-found :
    (k j : ℕ) (n : TreeNode)
    → IsRecorded n
    → AreApart (initial_ranks (iter_leaves n))
    → reserved (above k n) ≡ some j
    → (s : State) × (with_initial_rank j (iter_leaves n) ≡ some s) × (s.mode ≡ inactive)
reserved-found k j n w a h = inactive_at-found j (iter_leaves n) a (
    reserved-inactive_at (iter_leaves n) (above k n) j
      (above-AreRecordedIn k n (iter_leaves n) (λ i c. c) w) h)

pub contains-with_initial_rank :
    (k : ℕ) (leaves : List State) (s : State)
    → with_initial_rank k leaves ≡ some s
    → (contains k (initial_ranks leaves) ≡ true) × (s.initial_rank ≡ k)
unfolding with_initial_rank contains
contains-with_initial_rank k [] s h = absurd (ground arith)
contains-with_initial_rank k (t ∷ leaves) s h = elim (Bool-cases (t.initial_rank == k)) [
  | inl e ↦
      let same : t ≡ s = some-injective t s (ground arith) in
      (ground arith, ap (λ (x : State). x.initial_rank) (sym same) ∙ (==_iff t.initial_rank k).0 e)
  | inr e ↦ let (c, i) = contains-with_initial_rank k leaves s (ground arith) in (ground arith, i)
]

-- A leaf that is found by its rank is found by its initial rank.
pub with_rank-with_initial_rank :
    (r : ℕ) (leaves : List State) (s : State)
    → AreApart (initial_ranks leaves)
    → with_rank r leaves ≡ some s
    → with_initial_rank s.initial_rank leaves ≡ some s
unfolding with_rank with_initial_rank contains
with_rank-with_initial_rank r [] s a h = absurd (ground arith)
with_rank-with_initial_rank r (t ∷ leaves) s a h = elim (Bool-cases (t.rank == r)) [
  | inl e ↦
      let same : t ≡ s = some-injective t s (ground arith) in
      subst (λ (x : State). with_initial_rank x.initial_rank (t ∷ leaves) ≡ some x) same
        (rw (eq_self t.initial_rank) refl)
  | inr e ↦
      let found = with_rank-with_initial_rank r leaves s a.1 (ground arith) in
      let later = (contains-with_initial_rank s.initial_rank leaves s found).0 in
      ground (arith, found, ==_iff t.initial_rank s.initial_rank, apart s later)
]
  where
    apart :
        (u : State)
        → contains u.initial_rank (initial_ranks leaves) ≡ true
        → t.initial_rank ≡ u.initial_rank
        → ⊥
    apart u c e =
        let d : contains u.initial_rank (initial_ranks leaves) ≡ false =
          subst (λ j. contains j (initial_ranks leaves) ≡ false) e a.0 in
        ground arith

-- Every leaf is found by its initial rank.
pub All-found :
    (leaves : List State)
    → AreApart (initial_ranks leaves)
    → All (λ s. with_initial_rank s.initial_rank leaves ≡ some s) leaves
unfolding with_initial_rank
All-found [] a = tt
All-found (t ∷ leaves) (c, a) =
    (rw (eq_self t.initial_rank) refl, All-mono leaves later (All-found leaves a))
  where
    later :
        (s : State)
        → with_initial_rank s.initial_rank leaves ≡ some s
        → with_initial_rank s.initial_rank (t ∷ leaves) ≡ some s
    later s h = elim (Bool-cases (t.initial_rank == s.initial_rank)) [
      | inl e ↦ absurd (
          ground (
            arith,
            (contains-with_initial_rank s.initial_rank leaves s h).0,
            subst (λ j. contains j (initial_ranks leaves) ≡ false)
                ((==_iff t.initial_rank s.initial_rank).0 e) c,
          ))
      | inr e ↦ rw e h
    ]
