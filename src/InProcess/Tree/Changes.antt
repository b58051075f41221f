-- ===== src/InProcess/Tree/Changes.antt =====
-- A change of one leaf in `Tree.__call__` of inprocess/rank_assignment.py, and what it keeps.
use nvidia_resiliency_ext_x.Prelude.{
  ℕ, ◌+◌, ◌≡◌, refl, sym, ap, ◌∙◌, subst, true, some, some-injective, List, [], ◌∷◌, map, arith,
  Bool-cases, inl, inr, All, if-cases,
}
use nvidia_resiliency_ext_x.Prelude.Eq.{◌==◌, ==_iff, number_keys}
use nvidia_resiliency_ext_x.InProcess.RankAssignment.{terminated, State}
use nvidia_resiliency_ext_x.InProcess.Tree.Topology.{
  Inner, TreeNode, iter_leaves, initial_ranks, is_terminated,
}
use nvidia_resiliency_ext_x.InProcess.Tree.Leaves.{
  changed_at, at_leaf, with_rank, with_initial_rank,
}
use nvidia_resiliency_ext_x.InProcess.Tree.LeafLists.{
  count_active, AreApart, KeepsInitialRank, KeepsRank, changed, initial_ranks-changed,
  count_active-changed, with_rank-changed, iter_leaves-at_leaf,
}
use nvidia_resiliency_ext_x.InProcess.Tree.Recording.{Fits, at_leaf-IsRecorded}
use nvidia_resiliency_ext_x.InProcess.Tree.Reserving.{with_rank-with_initial_rank, All-found}
use nvidia_resiliency_ext_x.InProcess.Tree.Keeping.{
  ranks, IsRanked, ended, HasSize, IsSound, Follows, Keeps,
}

pub All-map_of :
    {P : State → Type 0} (f : State → State) (leaves : List State)
    → ((s : State) → P s → P (f s))
    → All P leaves
    → All P (map f leaves)
All-map_of {P} f [] h w = tt
All-map_of {P} f (s ∷ leaves) h (p, w) = (h s p, All-map_of {P = P} f leaves h w)

All-map_found :
    (f : State → State) (all leaves : List State)
    → ((s : State) → with_initial_rank s.initial_rank all ≡ some s → IsRanked s → IsRanked (f s))
    → All (λ s. with_initial_rank s.initial_rank all ≡ some s) leaves
    → All IsRanked leaves
    → All IsRanked (map f leaves)
All-map_found f all [] h e w = tt
All-map_found f all (s ∷ leaves) h (q, e) (p, w) = (h s q p, All-map_found f all leaves h e w)

ended-changed :
    (k : ℕ) (f : State → State) (s : State) (all leaves : List State)
    → with_initial_rank k all ≡ some s
    → is_terminated (f s).mode ≡ is_terminated s.mode
    → All (λ u. with_initial_rank u.initial_rank all ≡ some u) leaves
    → ended (map (changed_at k f) leaves) ≡ ended leaves
ended-changed k f s all [] found e h = refl
ended-changed k f s all (u ∷ leaves) found e (at_u, h) = elim (Bool-cases (u.initial_rank == k)) [
  | inl i ↦
      let same : u ≡ s = some-injective u s (
        sym (subst (λ j. with_initial_rank j all ≡ some u) ((==_iff u.initial_rank k).0 i) at_u)
        ∙ found) in
      rw (i, ended-changed k f s all leaves found e h)
        (ap (λ b. b ∷ ended leaves)
          (subst (λ x. is_terminated (f x).mode ≡ is_terminated x.mode) (sym same) e))
  | inr i ↦ rw (i, ended-changed k f s all leaves found e h) refl
]

ranks-changed :
    (k : ℕ) (f : State → State) (leaves : List State)
    → KeepsRank f
    → ranks (changed k f leaves) ≡ ranks leaves
ranks-changed k f [] keeps = refl
ranks-changed k f (s ∷ leaves) keeps = ground (arith, ranks-changed k f leaves keeps, keeps s)

-- How a change of the leaf `s` must be.
pub record IsSlight (k : ℕ) (f : State → State) (g : Inner → Inner) (s : State) : Type 0 where
  pub keeps_initial_rank : KeepsInitialRank f
  pub keeps_rank : KeepsRank f
  pub keeps_size : (u : State) → (f u).active_world_size ≡ u.active_world_size
  pub ranked : IsRanked s → IsRanked (f s)
  pub fits : Fits k f g
  pub ends : s.mode ≡ terminated → (f s).mode ≡ terminated

-- It leaves a terminated leaf its active rank.
pub record IsMild (k : ℕ) (f : State → State) (g : Inner → Inner) (s : State) : Type 0 where
  pub slight : IsSlight k f g s
  pub frees : s.mode ≡ terminated → (f s).active_rank ≡ s.active_rank

module _ (k : ℕ) (f : State → State) (g : Inner → Inner) (s : State) (t : TreeNode)
    (found : with_initial_rank k (iter_leaves t) ≡ some s) (w : IsSound t) where
  pub at_leaf-count :
      (v : ℕ)
      → count_active v (iter_leaves (at_leaf k f g t)) + count_active v (s ∷ [])
        ≡ count_active v (iter_leaves t) + count_active v (f s ∷ [])
  at_leaf-count v =
      rw (iter_leaves-at_leaf k f g t) (count_active-changed k f v (iter_leaves t) s found w.apart)

  pub at_leaf-ended :
      is_terminated (f s).mode ≡ is_terminated s.mode
      → ended (iter_leaves (at_leaf k f g t)) ≡ ended (iter_leaves t)
  at_leaf-ended e = rw (iter_leaves-at_leaf k f g t) (
      ended-changed k f s (iter_leaves t) (iter_leaves t) found e
        (All-found (iter_leaves t) w.apart))

  with_rank-at_leaf :
      (r : ℕ) (u : State)
      → KeepsRank f
      → with_rank r (iter_leaves t) ≡ some u
      → with_rank r (iter_leaves (at_leaf k f g t)) ≡ some (changed_at k f u)
  with_rank-at_leaf r u keeps e =
      rw (iter_leaves-at_leaf k f g t) (with_rank-changed k f r (iter_leaves t) u keeps e)

  same_leaf :
      (r : ℕ) (u : State)
      → with_rank r (iter_leaves t) ≡ some u
      → (u.initial_rank == k) ≡ true
      → u ≡ s
  same_leaf r u e i = some-injective u s (
      sym (
        subst (λ j. with_initial_rank j (iter_leaves t) ≡ some u) ((==_iff u.initial_rank k).0 i)
          (with_rank-with_initial_rank r (iter_leaves t) u w.apart e))
      ∙ found)

  mode-changed_at :
      (r : ℕ) (u : State)
      → (s.mode ≡ terminated → (f s).mode ≡ terminated)
      → with_rank r (iter_leaves t) ≡ some u
      → u.mode ≡ terminated
      → (changed_at k f u).mode ≡ terminated
  mode-changed_at r u ends e m =
      if-cases (λ x. x.mode ≡ terminated) (u.initial_rank == k) (f u) u
        (λ i.
          let same = same_leaf r u e i in
          subst (λ x. (f x).mode ≡ terminated) (sym same)
            (ends (ap (λ (x : State). x.mode) (sym same) ∙ m)))
        (λ i. m)

  pub at_leaf-Follows : IsSlight k f g s → Follows t (at_leaf k f g t)
  at_leaf-Follows slight =
      let leaves_after = iter_leaves-at_leaf k f g t in
      let keys =
        ap initial_ranks leaves_after
        ∙ initial_ranks-changed k f (iter_leaves t) slight.keeps_initial_rank in
      record {
        sound = record {
          apart = subst AreApart (sym keys) w.apart;
          recorded = at_leaf-IsRecorded k f g t slight.fits w.recorded;
          ranked = subst (All IsRanked) (sym leaves_after) (
              All-map_found (changed_at k f) (iter_leaves t) (iter_leaves t)
                (λ u at_u h.
                  if-cases IsRanked (u.initial_rank == k) (f u) u
                    (λ e.
                      let same : u ≡ s = some-injective u s (
                        sym (
                          subst (λ j. with_initial_rank j (iter_leaves t) ≡ some u)
                            ((==_iff u.initial_rank k).0 e) at_u)
                        ∙ found) in
                      subst (λ x. IsRanked (f x)) (sym same)
                        (slight.ranked (subst IsRanked same h)))
                    (λ e. h))
                (All-found (iter_leaves t) w.apart) w.ranked);
        };
        same_ranks = ap ranks leaves_after ∙ ranks-changed k f (iter_leaves t) slight.keeps_rank;
        same_initial_ranks = keys;
        sizes = λ size h. subst (All (HasSize size)) (sym leaves_after) (
            All-map_of (changed_at k f) (iter_leaves t)
              (λ u e.
                if-cases (HasSize size) (u.initial_rank == k) (f u) u (λ i. slight.keeps_size u ∙ e)
                  (λ i. e))
              h);
        over = λ r (u, e, m). (
          changed_at k f u,
          with_rank-at_leaf r u slight.keeps_rank e,
          mode-changed_at r u slight.ends e m,
        );
      }

  pub at_leaf-Keeps : IsMild k f g s → Keeps t (at_leaf k f g t)
  at_leaf-Keeps mild = record {
    follows = at_leaf-Follows mild.slight;
    still_terminated = λ r v (u, e, m, a). (
      changed_at k f u,
      with_rank-at_leaf r u mild.slight.keeps_rank e,
      mode-changed_at r u mild.slight.ends e m,
      if-cases (λ x. x.active_rank ≡ some v) (u.initial_rank == k) (f u) u
          (λ i.
            let same = same_leaf r u e i in
            subst (λ x. (f x).active_rank ≡ some v) (sym same)
              (mild.frees (ap (λ (x : State). x.mode) (sym same) ∙ m)
                ∙ ap (λ (x : State). x.active_rank) (sym same)
                ∙ a))
          (λ i. a),
    );
  }
