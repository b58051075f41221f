-- ===== src/InProcess/Tree/Recording.antt =====
-- What the nodes of the topology tree of `Tree` in inprocess/rank_assignment.py record of the inactive
-- leaves below them.
use nvidia_resiliency_ext_x.Prelude.{
  ℕ, ◌≡◌, refl, sym, ap, ◌∙◌, ◌&&◌, ◌||◌, Bool, true, false, List, [], ◌∷◌, ◌++◌, map,
  if◌then◌else◌, arith, if-cases,
}
use nvidia_resiliency_ext_x.Prelude.Eq.{◌==◌, ==_iff, number_keys}
use nvidia_resiliency_ext_x.Prelude.Keys.{contains, contains-add, contains-discard}
use nvidia_resiliency_ext_x.InProcess.RankAssignment.{Mode, inactive, State}
use nvidia_resiliency_ext_x.InProcess.Tree.Topology.{
  Inner, TreeNode, leaf, inner, TreeNodes, no_nodes, with_node, iter_leaves, iter_leaves_of,
  initial_ranks, join_inactive, leave_inactive,
}
use nvidia_resiliency_ext_x.InProcess.Tree.Leaves.{
  changed_at, at_leaf, at_leaves, at_every_leaf, at_every_leaf_of,
}
use nvidia_resiliency_ext_x.InProcess.Tree.LeafLists.{
  KeepsInitialRank, changed-absent, iter_leaves-at_leaves, iter_leaves-at_every_leaf_of,
}

abbrev pub is_inactive : Mode → Bool
is_inactive inactive = true
is_inactive _ = false

-- Some inactive leaf has this initial rank.
unfoldable pub inactive_at : ℕ → List State → Bool
inactive_at k [] = false
inactive_at k (s ∷ leaves) = (s.initial_rank == k && is_inactive s.mode) || inactive_at k leaves

pub inactive_at-append :
    (k : ℕ) (xs ys : List State) → inactive_at k (xs ++ ys) ≡ (inactive_at k xs || inactive_at k ys)
unfolding inactive_at
inactive_at-append k [] ys = refl
inactive_at-append k (x ∷ xs) ys = ground (arith, inactive_at-append k xs ys)

-- Every node records the inactive leaves below it, and no others.
unfoldable mutual
  unfolding iter_leaves inactive_at

  pub IsRecorded : TreeNode → Type 0
  IsRecorded (leaf s) = Unit
  IsRecorded (inner i ns) =
      ((k : ℕ) → contains k i.inactive_nodes ≡ inactive_at k (iter_leaves_of ns)) × AreRecorded ns

  pub AreRecorded : TreeNodes → Type 0
  AreRecorded no_nodes = Unit
  AreRecorded (with_node n ns) = IsRecorded n × AreRecorded ns

-- How a change of one leaf and of what is recorded must fit together.
pub record Fits (k : ℕ) (f : State → State) (g : Inner → Inner) : Type 0 where
  pub fits :
      (j : ℕ) (i : Inner) (leaves : List State)
      → contains k (initial_ranks leaves) ≡ true
      → contains j i.inactive_nodes ≡ inactive_at j leaves
      → contains j (g i).inactive_nodes ≡ inactive_at j (map (changed_at k f) leaves)

at_leaf-here :
    (k : ℕ) (f : State → State) (g : Inner → Inner) (i : Inner) (leaves : List State) (j : ℕ)
    → Fits k f g
    → contains j i.inactive_nodes ≡ inactive_at j leaves
    → contains j (if contains k (initial_ranks leaves) then g i else i).inactive_nodes
      ≡ inactive_at j (map (changed_at k f) leaves)
at_leaf-here k f g i leaves j x h =
    if-cases
      (λ (a : Inner). contains j a.inactive_nodes ≡ inactive_at j (map (changed_at k f) leaves))
      (contains k (initial_ranks leaves)) (g i) i (λ e. x.fits j i leaves e h)
      (λ e. h ∙ ap (inactive_at j) (sym (changed-absent k f leaves e)))

mutual
  unfolding at_leaf IsRecorded

  pub at_leaf-IsRecorded :
      (k : ℕ) (f : State → State) (g : Inner → Inner) (n : TreeNode)
      → Fits k f g
      → IsRecorded n
      → IsRecorded (at_leaf k f g n)
  at_leaf-IsRecorded k f g (leaf s) x w = tt
  at_leaf-IsRecorded k f g (inner i ns) x (here, rest) = (
    λ j.
        at_leaf-here k f g i (iter_leaves_of ns) j x (here j)
        ∙ ap (inactive_at j) (sym (iter_leaves-at_leaves k f g ns)),
    at_leaves-AreRecorded k f g ns x rest,
  )

  pub at_leaves-AreRecorded :
      (k : ℕ) (f : State → State) (g : Inner → Inner) (ns : TreeNodes)
      → Fits k f g
      → AreRecorded ns
      → AreRecorded (at_leaves k f g ns)
  at_leaves-AreRecorded k f g no_nodes x w = tt
  at_leaves-AreRecorded k f g (with_node n ns) x (first, rest) =
      (at_leaf-IsRecorded k f g n x first, at_leaves-AreRecorded k f g ns x rest)

-- The changes that the code makes: a leaf leaves the inactive ones, joins them, or stays what it is.
inactive_at-changed :
    (k : ℕ) (f : State → State) (b : Bool) (j : ℕ) (leaves : List State)
    → KeepsInitialRank f
    → ((s : State) → is_inactive (f s).mode ≡ b)
    → inactive_at j (map (changed_at k f) leaves)
      ≡ (if k == j then b && contains k (initial_ranks leaves) else inactive_at j leaves)
unfolding inactive_at contains
inactive_at-changed k f b j [] keeps h = ground arith
inactive_at-changed k f b j (s ∷ leaves) keeps h = ground (
  arith,
  inactive_at-changed k f b j leaves keeps h,
  keeps s,
  h s,
  ==_iff s.initial_rank k,
  ==_iff s.initial_rank j,
  ==_iff k j,
)

pub leave_inactive-Fits :
    (k : ℕ) (f : State → State)
    → KeepsInitialRank f
    → ((s : State) → is_inactive (f s).mode ≡ false)
    → Fits k f (leave_inactive k)
leave_inactive-Fits k f keeps h = record {
  fits = λ j i leaves e r. ground (
    arith,
    contains-discard j k i.inactive_nodes,
    inactive_at-changed k f false j leaves keeps h,
  );
}

pub join_inactive-Fits :
    (k : ℕ) (f : State → State)
    → KeepsInitialRank f
    → ((s : State) → is_inactive (f s).mode ≡ true)
    → Fits k f (join_inactive k)
join_inactive-Fits k f keeps h = record {
  fits = λ j i leaves e r.
      ground
        (arith, contains-add j k i.inactive_nodes, inactive_at-changed k f true j leaves keeps h);
}

inactive_at-map :
    (f : State → State) (j : ℕ) (leaves : List State)
    → KeepsInitialRank f
    → ((s : State) → (f s).mode ≡ s.mode)
    → inactive_at j (map f leaves) ≡ inactive_at j leaves
unfolding inactive_at
inactive_at-map f j [] keeps h = refl
inactive_at-map f j (s ∷ leaves) keeps h =
    ground (arith, inactive_at-map f j leaves keeps h, keeps s, ap is_inactive (h s))

pub same_mode-Fits :
    (k : ℕ) (f : State → State)
    → KeepsInitialRank f
    → ((s : State) → (f s).mode ≡ s.mode)
    → Fits k f (λ i. i)
same_mode-Fits k f keeps h = record {
  fits = λ j i leaves e r.
      r
      ∙ sym (
          inactive_at-map (changed_at k f) j leaves (λ s. ground (arith, keeps s))
            (λ s. ground (arith, h s)));
}

mutual
  unfolding at_every_leaf IsRecorded

  pub at_every_leaf-IsRecorded :
      (f : State → State) (n : TreeNode)
      → KeepsInitialRank f
      → ((s : State) → (f s).mode ≡ s.mode)
      → IsRecorded n
      → IsRecorded (at_every_leaf f n)
  at_every_leaf-IsRecorded f (leaf s) keeps h w = tt
  at_every_leaf-IsRecorded f (inner i ns) keeps h (here, rest) = (
    λ j.
        here j
        ∙ sym (inactive_at-map f j (iter_leaves_of ns) keeps h)
        ∙ ap (inactive_at j) (sym (iter_leaves-at_every_leaf_of f ns)),
    at_every_leaf_of-AreRecorded f ns keeps h rest,
  )

  pub at_every_leaf_of-AreRecorded :
      (f : State → State) (ns : TreeNodes)
      → KeepsInitialRank f
      → ((s : State) → (f s).mode ≡ s.mode)
      → AreRecorded ns
      → AreRecorded (at_every_leaf_of f ns)
  at_every_leaf_of-AreRecorded f no_nodes keeps h w = tt
  at_every_leaf_of-AreRecorded f (with_node n ns) keeps h (first, rest) =
      (at_every_leaf-IsRecorded f n keeps h first, at_every_leaf_of-AreRecorded f ns keeps h rest)
