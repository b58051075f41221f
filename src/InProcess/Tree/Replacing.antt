-- ===== src/InProcess/Tree/Replacing.antt =====
-- `replace_with_inactive` of `Tree` in inprocess/rank_assignment.py: an inactive leaf takes over the
-- active rank of a terminated one.
use nvidia_resiliency_ext_x.Prelude.{
  ℕ, ◌+◌, ◌≤◌, ◌≡◌, refl, sym, ap, ◌∙◌, some, List, [], ◌∷◌, ◌++◌, map, arith, Option-cases, inl,
  inr, All,
}
use nvidia_resiliency_ext_x.Prelude.Eq.{number_keys}
use nvidia_resiliency_ext_x.Prelude.Keys.{count, count-append}
use nvidia_resiliency_ext_x.Prelude.Method.{ok}
use nvidia_resiliency_ext_x.InProcess.RankAssignment.{active, inactive, State}
use nvidia_resiliency_ext_x.InProcess.Tree.Topology.{
  TreeNode, iter_leaves, is_active, is_terminated, leave_inactive,
}
use nvidia_resiliency_ext_x.InProcess.Tree.Leaves.{
  with_initial_rank, take_over_from, above, reserved,
}
use nvidia_resiliency_ext_x.InProcess.Tree.Reassignment.{replace_one, replace_each}
use nvidia_resiliency_ext_x.InProcess.Tree.LeafLists.{count_active}
use nvidia_resiliency_ext_x.InProcess.Tree.Recording.{leave_inactive-Fits}
use nvidia_resiliency_ext_x.InProcess.Tree.Reserving.{reserved-found}
use nvidia_resiliency_ext_x.InProcess.Tree.Keeping.{
  ended, IsSound, IsTerminatedAt, Keeps, Keeps-refl, Keeps-trans,
}
use nvidia_resiliency_ext_x.InProcess.Tree.Changes.{
  at_leaf-ended, IsMild, at_leaf-count, at_leaf-Keeps,
}
use nvidia_resiliency_ext_x.InProcess.Tree.Ending.{rank_map-found}

-- How often `v` is the active rank of one of these terminated leaves.
abbrev pub held_by : (ℕ → ℕ) → List ℕ → ℕ → ℕ
held_by value rs v = count v (map value rs)

held_by-append :
    (value : ℕ → ℕ) (rs : List ℕ) (r v : ℕ)
    → held_by value (rs ++ r ∷ []) v ≡ held_by value rs v + count v (value r ∷ [])
unfolding count
held_by-append value [] r v = omega arith
held_by-append value (j ∷ rs) r v = ground (arith, held_by-append value rs r v)

module _ (t : TreeNode) (w : IsSound t) (k : ℕ) (x : State) (v : ℕ)
    (found : with_initial_rank k (iter_leaves t) ≡ some x) (idle : x.mode ≡ inactive) where
  take_over_from-IsMild :
      IsMild k (λ s. record s { active_rank = some v; mode = active }) (leave_inactive k) x
  take_over_from-IsMild = record {
    slight = record {
      keeps_initial_rank = λ u. refl;
      keeps_rank = λ u. refl;
      keeps_size = λ u. refl;
      ranked = λ h e. refl;
      fits =
          leave_inactive-Fits k (λ s. record s { active_rank = some v; mode = active }) (λ u. refl)
            (λ u. refl);
      ends = λ e. absurd (ground (arith, e, idle));
    };
    frees = λ e. absurd (ground (arith, e, idle));
  }

  take_over_from-Keeps : Keeps t (take_over_from (some v) k t)
  unfolding take_over_from
  take_over_from-Keeps =
      at_leaf-Keeps k (λ s. record s { active_rank = some v; mode = active }) (leave_inactive k) x t
        found w take_over_from-IsMild

  take_over_from-ended : ended (iter_leaves (take_over_from (some v) k t)) ≡ ended (iter_leaves t)
  unfolding take_over_from
  take_over_from-ended =
      at_leaf-ended k (λ s. record s { active_rank = some v; mode = active }) (leave_inactive k) x t
        found w (sym (ap is_terminated idle))

  take_over_from-count :
      (j : ℕ)
      → count_active j (iter_leaves (take_over_from (some v) k t))
        ≡ count_active j (iter_leaves t) + count j (v ∷ [])
  unfolding take_over_from count_active count
  take_over_from-count j = ground (
    arith,
    at_leaf-count k (λ s. record s { active_rank = some v; mode = active }) (leave_inactive k) x t
        found w j,
    ap is_active idle,
  )

-- The ranks in `more` are those in `replaced` and some of `rs`; the leaves of the new ones are
-- replaced.
pub record IsReplaced (value : ℕ → ℕ) (rs replaced more : List ℕ) (t u : TreeNode) : Type 0 where
  pub keeps : Keeps t u
  pub counts :
      (v : ℕ)
      → count_active v (iter_leaves u) + held_by value replaced v
        ≡ count_active v (iter_leaves t) + held_by value more v
  pub ends : ended (iter_leaves u) ≡ ended (iter_leaves t)
  pub known : (r : ℕ) → count r more ≤ count r replaced + count r rs

abbrev pub AreTerminated : (ℕ → ℕ) → TreeNode → List ℕ → Type 0
AreTerminated value t rs = All (λ r. IsTerminatedAt t r (value r)) rs

pub replace_one-IsReplaced :
    (value : ℕ → ℕ) (r : ℕ) (replaced : List ℕ) (t : TreeNode)
    → IsSound t
    → IsTerminatedAt t r (value r)
    → (more : List ℕ) × (u : TreeNode) × (replace_one r replaced t ≡ (ok more, u))
      × IsReplaced value (r ∷ []) replaced more t u
unfolding replace_one count
replace_one-IsReplaced value r replaced t w (s, found, over, rank) =
    elim (Option-cases (reserved (above s.initial_rank t))) [
      | inl e ↦ (
        replaced,
        t,
        rw (rank_map-found r t s found, e) refl,
        record {
          keeps = Keeps-refl t w;
          counts = λ v. refl;
          ends = refl;
          known = λ j. omega arith;
        },
      )
      | inr (k, e) ↦
          let (x, at_k, idle) = reserved-found s.initial_rank k t w.recorded w.apart e in
          (
            replaced ++ r ∷ [],
            take_over_from (some (value r)) k t,
            rw (rank_map-found r t s found, e) (rw rank refl),
            record {
              keeps = take_over_from-Keeps t w k x (value r) at_k idle;
              counts = λ v. omega (
                arith,
                take_over_from-count t w k x (value r) at_k idle v,
                held_by-append value replaced r v,
              );
              ends = take_over_from-ended t w k x (value r) at_k idle;
              known = λ j. omega (arith, count-append j replaced (r ∷ []));
            },
          )
    ]

pub AreTerminated-after :
    (value : ℕ → ℕ) (rs : List ℕ) (t u : TreeNode)
    → Keeps t u
    → AreTerminated value t rs
    → AreTerminated value u rs
AreTerminated-after value [] t u k a = tt
AreTerminated-after value (r ∷ rs) t u k (h, a) =
    (k.still_terminated r (value r) h, AreTerminated-after value rs t u k a)

pub replace_each-IsReplaced :
    (value : ℕ → ℕ) (rs replaced : List ℕ) (t : TreeNode)
    → IsSound t
    → AreTerminated value t rs
    → (more : List ℕ) × (u : TreeNode) × (replace_each rs replaced t ≡ (ok more, u))
      × IsReplaced value rs replaced more t u
unfolding replace_each count
replace_each-IsReplaced value [] replaced t w a = (
  replaced,
  t,
  refl,
  record { keeps = Keeps-refl t w; counts = λ v. refl; ends = refl; known = λ r. omega arith },
)
replace_each-IsReplaced value (r ∷ rs) replaced t w (h, a) =
    let (some_more, t1, run, first) = replace_one-IsReplaced value r replaced t w h in
    let (more, u, run_rest, rest) =
      replace_each-IsReplaced value rs some_more t1 first.keeps.follows.sound
        (AreTerminated-after value rs t t1 first.keeps a) in
    (
      more,
      u,
      rw run run_rest,
      record {
        keeps = Keeps-trans first.keeps rest.keeps;
        counts = λ v. omega (arith, first.counts v, rest.counts v);
        ends = rest.ends ∙ first.ends;
        known = λ j. ground (arith, first.known j, rest.known j);
      },
    )
