-- ===== src/InProcess/Tree/Noting.antt =====
-- What a visit of `bounded_activate` of inprocess/rank_assignment.py writes to the nodes above.
use nvidia_resiliency_ext_x.Prelude.{
  ℕ, suc, ◌≡◌, refl, ◌∙◌, ap, ◌||◌, true, false, if-cases, List, [], ◌∷◌, ◌++◌, map, arith, All,
}
use mathlib.Core.List.{map-append}
use nvidia_resiliency_ext_x.Prelude.Eq.{==_iff, number_keys}
use nvidia_resiliency_ext_x.Prelude.Keys.{contains, contains-append, contains-add, contains-discard}
use nvidia_resiliency_ext_x.InProcess.RankAssignment.{State}
use nvidia_resiliency_ext_x.InProcess.Tree.Topology.{
  TreeNode, leaf, inner, TreeNodes, no_nodes, with_node, iter_leaves, iter_leaves_of, initial_ranks,
  Visited, popped, activate, deactivate, visit_leaf, Inner, has_room, one_more,
}
use nvidia_resiliency_ext_x.InProcess.Tree.Recording.{
  inactive_at, inactive_at-append, IsRecorded, AreRecorded,
}
use nvidia_resiliency_ext_x.InProcess.Tree.Keeping.{IsRanked}

-- A node on the path after these leaves were visited. They were not visited before.
abbrev pub IsNoted : List State → Inner → Inner → Type 0
IsNoted leaves i j =
    ((k : ℕ) → contains k (initial_ranks leaves) ≡ true → contains k i.inactive_nodes ≡ false)
    → (k : ℕ) → contains k j.inactive_nodes ≡ (contains k i.inactive_nodes || inactive_at k leaves)

abbrev pub AreNoted : List State → List Inner → List Inner → Type 0
AreNoted leaves [] [] = Unit
AreNoted leaves (i ∷ is) (j ∷ js) = IsNoted leaves i j × AreNoted leaves is js
AreNoted leaves _ _ = ⊥

pub record IsMarked (leaves : List State) (path after : List Inner) : Type 0 where
  pub noted : AreNoted leaves path after
  pub ranked : All IsRanked leaves

abbrev pub NodeMarked : List Inner → Visited TreeNode → Type 0
NodeMarked path v = IsMarked (iter_leaves v.0) path v.2 × IsRecorded v.0

abbrev pub NodesMarked : List Inner → Visited TreeNodes → Type 0
NodesMarked path v = IsMarked (iter_leaves_of v.0) path v.2 × AreRecorded v.0

-- A tree that is just built records nothing.
unfoldable mutual
  pub IsUnmarked : TreeNode → Type 0
  IsUnmarked (leaf s) = Unit
  IsUnmarked (inner i ns) = (i.inactive_nodes ≡ []) × AreUnmarked ns

  pub AreUnmarked : TreeNodes → Type 0
  AreUnmarked no_nodes = Unit
  AreUnmarked (with_node n ns) = IsUnmarked n × AreUnmarked ns

activated-noted :
    (s : State) (counter : ℕ) (path : List Inner)
    → AreNoted ((activate counter s path).0 ∷ []) path (map one_more (activate counter s path).1)
unfolding activate inactive_at contains
activated-noted s counter [] = tt
activated-noted s counter (i ∷ path) = (
  λ h k. ground (
    arith,
    h s.initial_rank,
    contains-discard k s.initial_rank i.inactive_nodes,
    ==_iff s.initial_rank k,
    ap (λ j. contains j i.inactive_nodes),
  ),
  activated-noted s counter path,
)

deactivated-noted :
    (s : State) (path : List Inner)
    → AreNoted ((deactivate s path).0 ∷ []) path (deactivate s path).1
unfolding deactivate inactive_at contains
deactivated-noted s [] = tt
deactivated-noted s (i ∷ path) = (
  λ h k. ground (arith, contains-add k s.initial_rank i.inactive_nodes),
  deactivated-noted s path,
)

pub visit_leaf-marked :
    (s : State) (counter : ℕ) (path : List Inner) → NodeMarked path (visit_leaf s counter path)
unfolding visit_leaf activate deactivate iter_leaves IsRecorded
visit_leaf-marked s counter path =
    if-cases (NodeMarked path) (has_room path)
      (leaf (activate counter s path).0, suc counter, map one_more (activate counter s path).1)
      (leaf (deactivate s path).0, counter, (deactivate s path).1)
      (λ e. (record { noted = activated-noted s counter path; ranked = (λ x. refl, tt) }, tt))
      (λ e. (
        record { noted = deactivated-noted s path; ranked = (λ x. absurd (ground arith), tt) },
        tt,
      ))

-- The leaves of two visits, one after the other.
abbrev AreDisjoint : List State → List State → Type 0
AreDisjoint xs ys =
    (k : ℕ) → contains k (initial_ranks xs) ≡ true → contains k (initial_ranks ys) ≡ false

inactive_at-contains :
    (k : ℕ) (xs : List State) → inactive_at k xs ≡ true → contains k (initial_ranks xs) ≡ true
unfolding inactive_at contains
inactive_at-contains k [] h = h
inactive_at-contains k (x ∷ xs) h = ground (arith, inactive_at-contains k xs)

contains-initial_ranks_append :
    (k : ℕ) (xs ys : List State)
    → contains k (initial_ranks (xs ++ ys))
      ≡ (contains k (initial_ranks xs) || contains k (initial_ranks ys))
contains-initial_ranks_append k xs ys =
    ap (contains k) (map-append (λ (s : State). s.initial_rank) xs ys)
    ∙ contains-append k (initial_ranks xs) (initial_ranks ys)

pub AreNoted-append :
    (xs ys : List State) (is js ks : List Inner)
    → AreDisjoint xs ys
    → AreNoted xs is js
    → AreNoted ys js ks
    → AreNoted (xs ++ ys) is ks
AreNoted-append xs ys [] [] [] d p q = tt
AreNoted-append xs ys [] [] (_ ∷ _) d p q = absurd q
AreNoted-append xs ys [] (_ ∷ _) ks d p q = absurd p
AreNoted-append xs ys (_ ∷ _) [] ks d p q = absurd p
AreNoted-append xs ys (_ ∷ _) (_ ∷ _) [] d p q = absurd q
AreNoted-append xs ys (i ∷ is) (j ∷ js) (k ∷ ks) d (p, ps) (q, qs) = (
  λ h r.
      let before : (v : ℕ)
          → contains v (initial_ranks xs) ≡ true
          → contains v i.inactive_nodes ≡ false =
        λ v c. h v (ground (arith, contains-initial_ranks_append v xs ys)) in
      let between : (v : ℕ)
          → contains v (initial_ranks ys) ≡ true
          → contains v j.inactive_nodes ≡ false =
        λ v c. ground (
          arith,
          p before v,
          h v,
          contains-initial_ranks_append v xs ys,
          d v,
          inactive_at-contains v xs,
        ) in
      ground (arith, p before r, q between r, inactive_at-append r xs ys),
  AreNoted-append xs ys is js ks d ps qs,
)

pub All-append : (xs ys : List State) → All IsRanked xs → All IsRanked ys → All IsRanked (xs ++ ys)
All-append [] ys h k = k
All-append (x ∷ xs) ys (p, h) k = (p, All-append xs ys h k)

pub AreNoted-nil : (path : List Inner) → AreNoted [] path path
unfolding inactive_at
AreNoted-nil [] = tt
AreNoted-nil (i ∷ path) = (λ h k. ground arith, AreNoted-nil path)

pub popped-marked :
    (i : Inner) (path : List Inner) (v : Visited TreeNodes)
    → i.inactive_nodes ≡ []
    → NodesMarked (i ∷ path) v
    → NodeMarked path (popped i v)
unfolding iter_leaves IsRecorded contains
popped-marked i path (ns, m, []) e (v, r) = absurd v.noted
popped-marked i path (ns, m, j ∷ after) e (v, r) = (
  record { noted = v.noted.1; ranked = v.ranked },
  (
    λ k.
        v.noted.0 (λ q c. ap (contains q) e) k
        ∙ ap (λ l. contains k l || inactive_at k (iter_leaves_of ns)) e,
    r,
  ),
)
