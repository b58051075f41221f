-- ===== src/InProcess/Tree/Choosing.antt =====
-- The active ranks that terminations in `Tree.__call__` of inprocess/rank_assignment.py set free.
use nvidia_resiliency_ext_x.Prelude.{
  ℕ, ◌≡◌, ◌≤◌, length, refl, ap, subst, true, false, Option, none, some, some-injective, List, [],
  ◌∷◌, map, if◌then◌else◌, arith, Bool-cases, inl, inr, All,
}
use nvidia_resiliency_ext_x.Prelude.Eq.{◌==◌, number_keys}
use nvidia_resiliency_ext_x.Prelude.Keys.{contains, count}
use nvidia_resiliency_ext_x.Prelude.Method.{ok}
use nvidia_resiliency_ext_x.InProcess.RankAssignment.{State}
use nvidia_resiliency_ext_x.InProcess.Tree.Topology.{TreeNode, iter_leaves, is_active}
use nvidia_resiliency_ext_x.InProcess.Tree.Leaves.{with_rank}
use nvidia_resiliency_ext_x.InProcess.Tree.Reassignment.{active_among}
use nvidia_resiliency_ext_x.InProcess.Tree.LeafLists.{count_active, is_rank, AreApart}
use nvidia_resiliency_ext_x.InProcess.Tree.Keeping.{has_rank, IsRanked, IsSound}
use nvidia_resiliency_ext_x.InProcess.Tree.Ending.{
  IsFound, with_rank-found, rank_map-found, IsActiveAt, weight, pending,
}

abbrev pub held : Option ℕ → ℕ
held none = 0
held (some r) = r

abbrev rank_held : Option State → ℕ
rank_held none = 0
rank_held (some s) = held s.active_rank

-- The active rank of the leaf of rank `r`.
abbrev pub value_at : List State → ℕ → ℕ
value_at leaves r = rank_held (with_rank r leaves)

pub record IsChosen (rs : List ℕ) (t : TreeNode) (ta : List ℕ) : Type 0 where
  pub within : (r : ℕ) → contains r ta ≡ true → contains r rs ≡ true
  pub chosen_apart : AreApart ta
  pub no_more : length ta ≤ length rs
  pub actives : All (λ r. IsActiveAt t r (value_at (iter_leaves t) r)) ta
  pub values : (v : ℕ) → pending v rs (iter_leaves t) ≡ count v (map (value_at (iter_leaves t)) ta)

pub All-with_rank :
    (P : State → Type 0) (r : ℕ) (leaves : List State) (s : State)
    → All P leaves
    → with_rank r leaves ≡ some s
    → P s
unfolding with_rank
All-with_rank P r [] s w h = absurd (ground arith)
All-with_rank P r (t ∷ leaves) s (p, w) h = elim (Bool-cases (t.rank == r)) [
  | inl e ↦ subst P (some-injective t s (ground arith)) p
  | inr e ↦ All-with_rank P r leaves s w (ground arith)
]

weight-active :
    (v : ℕ) (s : State)
    → is_active s.mode ≡ true
    → s.active_rank ≡ some (held s.active_rank)
    → weight v (some s) ≡ (if held s.active_rank == v then 1 else 0)
unfolding weight count_active
weight-active v s e h = rw e (ap (λ o. if is_rank v o then 1 else 0) h)

weight-not_active : (v : ℕ) (s : State) → is_active s.mode ≡ false → weight v (some s) ≡ 0
unfolding weight count_active
weight-not_active v s e = ground arith

has_rank-held : (o : Option ℕ) → has_rank o ≡ true → o ≡ some (held o)
has_rank-held none h = absurd (ground arith)
has_rank-held (some r) h = refl

pub active_among-IsChosen :
    (rs : List ℕ) (t : TreeNode)
    → IsSound t
    → AreApart rs
    → All (IsFound t) rs
    → (ta : List ℕ) × (active_among rs t ≡ (ok ta, t)) × IsChosen rs t ta
unfolding active_among pending contains count
active_among-IsChosen [] t w a f = (
  [],
  refl,
  record {
    within = λ r c. c;
    chosen_apart = tt;
    no_more = omega arith;
    actives = tt;
    values = λ v. refl;
  },
)
active_among-IsChosen (r ∷ rs) t w (c, a) (f, fs) =
    let (s, found, rank) = with_rank-found r (iter_leaves t) f in
    let (ta, run, x) = active_among-IsChosen rs t w a fs in
    elim (Bool-cases (is_active s.mode)) [
      | inl e ↦
          let solid =
            has_rank-held s.active_rank
              (All-with_rank IsRanked r (iter_leaves t) s w.ranked found e) in
          let value : s.active_rank ≡ some (value_at (iter_leaves t) r) = rw found solid in
          (
            r ∷ ta,
            rw (rank_map-found r t s found, run, e) refl,
            record {
              within = λ q d. ground (arith, x.within q);
              chosen_apart = (ground (arith, x.within r), x.chosen_apart);
              no_more = omega (arith, x.no_more);
              actives = ((s, found, e, value), x.actives);
              values = λ v. ground (
                arith,
                x.values v,
                ap (weight v) found,
                ap rank_held found,
                weight-active v s e solid,
              );
            },
          )
      | inr e ↦ (
        ta,
        rw (rank_map-found r t s found, run, e) refl,
        record {
          within = λ q d. ground (arith, x.within q);
          chosen_apart = x.chosen_apart;
          no_more = omega (arith, x.no_more);
          actives = x.actives;
          values = λ v. ground (arith, x.values v, ap (weight v) found, weight-not_active v s e);
        },
      )
    ]
