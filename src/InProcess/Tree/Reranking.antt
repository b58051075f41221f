-- ===== src/InProcess/Tree/Reranking.antt =====
-- The end of `Tree.__call__` of inprocess/rank_assignment.py: terminated leaves lose their active ranks,
-- and every leaf gets a new rank.
use nvidia_resiliency_ext_x.Prelude.{
  ℕ, zero, suc, ◌+◌, ◌-◌, ◌≡◌, refl, ap, ◌∙◌, true, false, none, some, List, [], ◌∷◌, ◌++◌, map,
  length, arith, All,
}
use nvidia_resiliency_ext_x.Prelude.Eq.{==_iff, eq_self, number_keys}
use nvidia_resiliency_ext_x.Prelude.Keys.{contains, count}
use nvidia_resiliency_ext_x.Prelude.Method.{ok}
use nvidia_resiliency_ext_x.InProcess.RankAssignment.{terminated, State}
use nvidia_resiliency_ext_x.InProcess.Tree.Topology.{
  TreeNode, iter_leaves, initial_ranks, is_active,
}
use nvidia_resiliency_ext_x.InProcess.Tree.Leaves.{at_leaf, at_every_leaf, with_initial_rank}
use nvidia_resiliency_ext_x.InProcess.Tree.Call.{
  forget_active_ranks, update_tree, with_termination, index_of,
}
use nvidia_resiliency_ext_x.InProcess.Tree.LeafLists.{count_active, AreApart}
use nvidia_resiliency_ext_x.InProcess.Tree.Recording.{same_mode-Fits}
use nvidia_resiliency_ext_x.InProcess.Tree.Reserving.{with_rank-with_initial_rank}
use nvidia_resiliency_ext_x.InProcess.Tree.Keeping.{
  ended, IsSound, IsOver, Follows, Follows-refl, Follows-trans,
}
use nvidia_resiliency_ext_x.InProcess.Tree.Changes.{at_leaf-ended, at_leaf-count, at_leaf-Follows}
use nvidia_resiliency_ext_x.InProcess.Tree.Ending.{rank_map-found}
use nvidia_resiliency_ext_x.InProcess.Tree.Gaps.{once_below}
use nvidia_resiliency_ext_x.InProcess.Tree.Uniform.{
  Stays, Stays-trans, Follows-Stays, IsSized, IsEven, at_every_leaf-Stays, at_every_leaf-count,
  at_every_leaf-sizes,
}

abbrev without_active_rank : State → State
without_active_rank s = record s { active_rank = none }

module _ (r : ℕ) (s : State) (t : TreeNode) (w : IsSound t)
    (found : with_initial_rank s.initial_rank (iter_leaves t) ≡ some s)
    (over : s.mode ≡ terminated) where
  forget-Follows : Follows t (at_leaf s.initial_rank without_active_rank (λ i. i) t)
  forget-Follows =
      at_leaf-Follows s.initial_rank without_active_rank (λ i. i) s t found w
        (record {
          keeps_initial_rank = λ u. refl;
          keeps_rank = λ u. refl;
          keeps_size = λ u. refl;
          ranked = λ h e. absurd (ground (arith, ap is_active over));
          fits = same_mode-Fits s.initial_rank without_active_rank (λ u. refl) (λ u. refl);
          ends = λ e. e;
        })

  forget-ended :
      ended (iter_leaves (at_leaf s.initial_rank without_active_rank (λ i. i) t))
      ≡ ended (iter_leaves t)
  forget-ended = at_leaf-ended s.initial_rank without_active_rank (λ i. i) s t found w refl

  forget-count :
      (v : ℕ)
      → count_active v (iter_leaves (at_leaf s.initial_rank without_active_rank (λ i. i) t))
        ≡ count_active v (iter_leaves t)
  unfolding count_active
  forget-count v = ground (
    arith,
    at_leaf-count s.initial_rank without_active_rank (λ i. i) s t found w v,
    ap is_active over,
  )

pub All-IsOver :
    (rs : List ℕ) (t u : TreeNode)
    → ((r : ℕ) → IsOver t r → IsOver u r)
    → All (IsOver t) rs
    → All (IsOver u) rs
All-IsOver [] t u h o = tt
All-IsOver (r ∷ rs) t u h (p, o) = (h r p, All-IsOver rs t u h o)

pub forget_active_ranks-Follows :
    (rs : List ℕ) (t : TreeNode)
    → IsSound t
    → All (IsOver t) rs
    → (u : TreeNode) × (forget_active_ranks rs t ≡ (ok tt, u))
      × Follows t u
      × (ended (iter_leaves u) ≡ ended (iter_leaves t))
      × ((v : ℕ) → count_active v (iter_leaves u) ≡ count_active v (iter_leaves t))
unfolding forget_active_ranks
forget_active_ranks-Follows [] t w o = (t, refl, Follows-refl t w, refl, λ v. refl)
forget_active_ranks-Follows (r ∷ rs) t w ((s, found, m), o) =
    let at_key = with_rank-with_initial_rank r (iter_leaves t) s w.apart found in
    let first = forget-Follows r s t w at_key m in
    let (u, run, follows, ends, counts) =
      forget_active_ranks-Follows rs (at_leaf s.initial_rank without_active_rank (λ i. i) t)
        first.sound
        (All-IsOver rs t (at_leaf s.initial_rank without_active_rank (λ i. i) t) first.over o) in
    (
      u,
      rw (rank_map-found r t s found) run,
      Follows-trans first follows,
      ends ∙ forget-ended r s t w at_key m,
      λ v. counts v ∙ forget-count r s t w at_key m v,
    )

abbrev in_world : ℕ → State → State
in_world n s = record s { world_size = n }

pub update_tree-IsSized :
    (n size : ℕ) (rs : List ℕ) (t : TreeNode)
    → IsSound t
    → IsSized size t
    → All (IsOver t) rs
    → (u : TreeNode) × (update_tree n rs t ≡ (ok tt, u)) × Stays t u × IsSized size u
unfolding update_tree
update_tree-IsSized n size rs t w h o =
    let f = in_world (n - length rs) in
    let even : IsEven f = record {
      keeps_initial_rank = λ s. refl;
      keeps_mode = λ s. refl;
      ranked = λ s e. e;
    } in
    let stays = at_every_leaf-Stays f t even (λ s. refl) w in
    let (u, run, follows, ends, counts) =
      forget_active_ranks-Follows rs (at_every_leaf f t) stays.sound
        (All-IsOver rs t (at_every_leaf f t) stays.over o) in
    (
      u,
      run,
      Stays-trans stays (Follows-Stays follows ends),
      record {
        counts = λ v. counts v ∙ at_every_leaf-count f v t (λ s. refl) (λ s. refl) ∙ h.counts v;
        sizes = follows.sizes size (at_every_leaf-sizes f size size t (λ s e. e) h.sizes);
      },
    )

abbrev pub order_of : List State → List ℕ
order_of leaves = with_termination false leaves ++ with_termination true leaves

pub count-order :
    (k : ℕ) (leaves : List State)
    → count k (with_termination false leaves) + count k (with_termination true leaves)
      ≡ count k (initial_ranks leaves)
unfolding with_termination count
count-order k [] = refl
count-order k (s ∷ leaves) = ground (arith, count-order k leaves)

-- Every place of a list without repetitions is the index of one item.
map-index_of_cons :
    (j : ℕ) (ks xs : List ℕ)
    → contains j xs ≡ false
    → map (λ k. index_of k (j ∷ ks)) xs ≡ map (λ k. suc (index_of k ks)) xs
unfolding index_of contains
map-index_of_cons j ks [] c = refl
map-index_of_cons j ks (x ∷ xs) c =
    ground (arith, map-index_of_cons j ks xs, ==_iff j x, ==_iff x j)

count-map-suc :
    (f : ℕ → ℕ) (v : ℕ) (xs : List ℕ)
    → (count 0 (map (λ k. suc (f k)) xs) ≡ 0)
      × (count (suc v) (map (λ k. suc (f k)) xs) ≡ count v (map f xs))
unfolding count
count-map-suc f v [] = (refl, refl)
count-map-suc f v (x ∷ xs) =
    let (a, b) = count-map-suc f v xs in
    (
      ground (arith, a, ==_iff (suc (f x)) 0),
      ground (arith, b, ==_iff (suc (f x)) (suc v), ==_iff (f x) v),
    )

pub count-map-index_of :
    (v : ℕ) (xs : List ℕ)
    → AreApart xs
    → count v (map (λ k. index_of k xs) xs) ≡ once_below (length xs) v
unfolding index_of count
count-map-index_of v [] a = ground arith
count-map-index_of zero (x ∷ xs) (c, a) = ground (
  arith,
  eq_self x,
  ap (count 0) (map-index_of_cons x xs xs c),
  (count-map-suc (λ k. index_of k xs) 0 xs).0,
)
count-map-index_of (suc v) (x ∷ xs) (c, a) = ground (
  arith,
  eq_self x,
  ap (count (suc v)) (map-index_of_cons x xs xs c),
  (count-map-suc (λ k. index_of k xs) v xs).1,
  count-map-index_of v xs a,
)
