-- ===== src/InProcess/Tree/Ended.antt =====
-- All terminations of `Tree.__call__` in inprocess/rank_assignment.py, and which active ranks they set
-- free.
use nvidia_resiliency_ext_x.Prelude.{
  ℕ, ◌+◌, ◌≡◌, refl, sym, ap, ◌∙◌, subst, true, false, some, some-injective, List, [], ◌∷◌, arith,
  Bool-cases, inl, inr, All,
}
use nvidia_resiliency_ext_x.Prelude.Eq.{◌==◌, ==_iff, number_keys}
use nvidia_resiliency_ext_x.Prelude.Keys.{contains}
use nvidia_resiliency_ext_x.Prelude.Method.{ok}
use nvidia_resiliency_ext_x.InProcess.RankAssignment.{State}
use nvidia_resiliency_ext_x.InProcess.Tree.Topology.{TreeNode, iter_leaves}
use nvidia_resiliency_ext_x.InProcess.Tree.Leaves.{with_rank, terminate}
use nvidia_resiliency_ext_x.InProcess.Tree.Reassignment.{terminate_all}
use nvidia_resiliency_ext_x.InProcess.Tree.LeafLists.{count_active, AreApart}
use nvidia_resiliency_ext_x.InProcess.Tree.Keeping.{
  IsSound, IsTerminatedAt, IsOver, Keeps, Keeps-refl, Keeps-trans,
}
use nvidia_resiliency_ext_x.InProcess.Tree.Ending.{
  IsFound, with_rank-found, rank_map-found, IsActiveAt, weight, pending, terminate-Keeps,
  terminate-count, with_rank-terminate_other, terminated-at, terminate-IsOver,
}

pending-terminate :
    (v r : ℕ) (rs : List ℕ) (s : State) (t : TreeNode)
    → with_rank r (iter_leaves t) ≡ some s
    → IsSound t
    → contains r rs ≡ false
    → pending v rs (iter_leaves (terminate s.initial_rank t)) ≡ pending v rs (iter_leaves t)
unfolding pending contains
pending-terminate v r [] s t found w c = refl
pending-terminate v r (q ∷ rs) s t found w c =
    let ne : (r == q) ≡ false = ground (arith, ==_iff r q, ==_iff q r) in
    omega (
      arith,
      ap (weight v) (with_rank-terminate_other r s t found w q ne),
      pending-terminate v r rs s t found w (ground arith),
    )

pub record IsEnded (rs : List ℕ) (t u : TreeNode) : Type 0 where
  pub keeps : Keeps t u
  pub counts :
      (v : ℕ)
      → count_active v (iter_leaves u) + pending v rs (iter_leaves t)
        ≡ count_active v (iter_leaves t)
  pub ended : (r v : ℕ) → contains r rs ≡ true → IsActiveAt t r v → IsTerminatedAt u r v
  pub over : (r : ℕ) → contains r rs ≡ true → IsOver u r

pub terminate_all-IsEnded :
    (rs : List ℕ) (t : TreeNode)
    → IsSound t
    → AreApart rs
    → All (IsFound t) rs
    → (u : TreeNode) × (terminate_all rs t ≡ (ok tt, u)) × IsEnded rs t u
unfolding terminate_all pending contains
terminate_all-IsEnded [] t w a f = (
  t,
  refl,
  record {
    keeps = Keeps-refl t w;
    counts = λ v. omega arith;
    ended = λ r v c h. absurd (ground arith);
    over = λ r c. absurd (ground arith);
  },
)
terminate_all-IsEnded (r ∷ rs) t w (c, a) (f, fs) =
    let (s, found, rank) = with_rank-found r (iter_leaves t) f in
    let t1 = terminate s.initial_rank t in
    let first = terminate-Keeps r s t found w in
    let (u, run, rest) =
      terminate_all-IsEnded rs t1 first.follows.sound a
        (subst (λ l. All (λ q. contains q l ≡ true) rs) (sym first.follows.same_ranks) fs) in
    (
      u,
      rw (rank_map-found r t s found) run,
      record {
        keeps = Keeps-trans first rest.keeps;
        counts = λ v. omega (
          arith,
          rest.counts v,
          pending-terminate v r rs s t found w c,
          ap (weight v) found,
          terminate-count r s t found w v,
        );
        ended = λ q v d h. elim (Bool-cases (r == q)) [
          | inl e ↦
              let same : r ≡ q = (==_iff r q).0 e in
              let (x, at_q, active_x, rank_x) = h in
              let here : x ≡ s =
                some-injective x s
                  (sym at_q ∙ ap (λ j. with_rank j (iter_leaves t)) (sym same) ∙ found) in
              rest.keeps.still_terminated q v (
                subst (λ j. IsTerminatedAt t1 j v) same
                  (terminated-at r s t found w v
                    (ap (λ (y : State). y.active_rank) (sym here) ∙ rank_x)))
          | inr e ↦
              let (x, at_q, active_x, rank_x) = h in
              rest.ended q v (ground arith)
                (x, with_rank-terminate_other r s t found w q e ∙ at_q, active_x, rank_x)
        ];
        over = λ q d. elim (Bool-cases (r == q)) [
          | inl e ↦
              rest.keeps.follows.over q
                (subst (λ j. IsOver t1 j) ((==_iff r q).0 e) (terminate-IsOver r s t found w))
          | inr e ↦ rest.over q (ground arith)
        ];
      },
    )
