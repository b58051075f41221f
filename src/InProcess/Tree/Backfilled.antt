-- ===== src/InProcess/Tree/Backfilled.antt =====
-- `replace_with_backfill` of `Tree` in inprocess/rank_assignment.py over all backfill domains.
use nvidia_resiliency_ext_x.Prelude.{
  ℕ, zero, suc, ◌+◌, ◌≤◌, ◌≡◌, refl, ◌∙◌, ◌&&◌, true, some, List, [], ◌∷◌, length, arith, if-cases,
  All, leb,
}
use nvidia_resiliency_ext_x.Prelude.Eq.{number_keys}
use nvidia_resiliency_ext_x.Prelude.Keys.{contains, count}
use nvidia_resiliency_ext_x.Prelude.Sorting.{sorted, count-sorted, length-sorted}
use nvidia_resiliency_ext_x.Prelude.Method.{ok}
use nvidia_resiliency_ext_x.InProcess.RankAssignment.{State}
use nvidia_resiliency_ext_x.InProcess.Tree.Topology.{TreeNode, iter_leaves, is_active}
use nvidia_resiliency_ext_x.InProcess.Tree.Leaves.{with_initial_rank}
use nvidia_resiliency_ext_x.InProcess.Tree.Reassignment.{
  active_in, largest, largest_reversed, greater_rank, backfill_domains, replace_with_backfill,
}
use nvidia_resiliency_ext_x.InProcess.Tree.LeafLists.{count_active}
use nvidia_resiliency_ext_x.InProcess.Tree.Reserving.{All-found}
use nvidia_resiliency_ext_x.InProcess.Tree.Keeping.{
  ended, IsSound, IsTerminatedAt, Keeps, Keeps-refl, Keeps-trans,
}
use nvidia_resiliency_ext_x.InProcess.Tree.RankSets.{All-sorted, SameItems-map}
use nvidia_resiliency_ext_x.InProcess.Tree.Replacing.{held_by, AreTerminated}
use nvidia_resiliency_ext_x.InProcess.Tree.Grouping.{
  held_in_all, number_in_all, HaveRanks, by_domain-IsGrouped,
}
use nvidia_resiliency_ext_x.InProcess.Tree.Backfilling.{IsPaired, IsBounded, pair_up-IsPaired}
use nvidia_resiliency_ext_x.InProcess.Tree.Exchanging.{IsActiveLeaf}

abbrev Works : List State → State → Type 0
Works leaves s = (with_initial_rank s.initial_rank leaves ≡ some s) × (is_active s.mode ≡ true)

All-active_in :
    (all : List State) (domain : List ℕ) (leaves : List State)
    → All (λ s. with_initial_rank s.initial_rank all ≡ some s) leaves
    → All (Works all) (active_in domain leaves)
unfolding active_in
All-active_in all domain [] h = tt
All-active_in all domain (s ∷ leaves) (p, h) =
    if-cases (All (Works all)) (contains s.initial_rank domain && is_active s.mode)
      (s ∷ active_in domain leaves) (active_in domain leaves)
      (λ e. ((p, ground arith), All-active_in all domain leaves h))
      (λ e. All-active_in all domain leaves h)

All-largest :
    (P : State → Type 0) (n : ℕ) (leaves : List State) → All P leaves → All P (largest n leaves)
unfolding largest
All-largest P zero leaves h = tt
All-largest P (suc n) [] h = tt
All-largest P (suc n) (s ∷ leaves) (p, h) = (p, All-largest P n leaves h)

All-largest_reversed :
    (t : TreeNode) (leaves : List State) (keys : List ℕ)
    → All (Works (iter_leaves t)) leaves
    → All (IsActiveLeaf t) keys
    → All (IsActiveLeaf t) (largest_reversed leaves keys)
unfolding largest_reversed
All-largest_reversed t [] keys h k = k
All-largest_reversed t (s ∷ leaves) keys ((found, e), h) k =
    All-largest_reversed t leaves (s.initial_rank ∷ keys) h ((s, found, e), k)

pub backfill_domains-IsPaired :
    (ds : List (List ℕ × List State)) (replaced : List ℕ) (t : TreeNode)
    → IsSound t
    → HaveRanks ds
    → IsBounded (λ v. held_in_all v ds) replaced t
    → (more : List ℕ) × (u : TreeNode) × (backfill_domains ds replaced t ≡ (ok more, u))
      × IsPaired (λ v. held_in_all v ds) (number_in_all ds) replaced more t u
unfolding backfill_domains held_in_all number_in_all
backfill_domains-IsPaired [] replaced t w h b = (
  replaced,
  t,
  refl,
  record { keeps = Keeps-refl t w; counts = λ v. omega arith; ends = refl; numbers = omega arith },
)
backfill_domains-IsPaired ((domain, ts) ∷ ds) replaced t w (p, h) b =
    let working =
      All-largest_reversed t
        (largest (length ts) (sorted greater_rank (active_in domain (iter_leaves t)))) []
        (All-largest (Works (iter_leaves t)) (length ts)
          (sorted greater_rank (active_in domain (iter_leaves t)))
          (All-sorted greater_rank (Works (iter_leaves t)) (active_in domain (iter_leaves t)) (
            All-active_in (iter_leaves t) domain (iter_leaves t)
              (All-found (iter_leaves t) w.apart))))
        tt in
    let (next, t1, run, first) =
      pair_up-IsPaired
        (largest_reversed
          (largest (length ts) (sorted greater_rank (active_in domain (iter_leaves t)))) [])
        ts replaced t w working p (λ v. omega (arith, b v)) in
    let (more, u, run_rest, rest) =
      backfill_domains-IsPaired ds next t1 first.keeps.follows.sound h
        (λ v. omega (arith, b v, first.counts v)) in
    (
      more,
      u,
      rw run run_rest,
      record {
        keeps = Keeps-trans first.keeps rest.keeps;
        counts = λ v. omega (arith, first.counts v, rest.counts v);
        ends = rest.ends ∙ first.ends;
        numbers = omega (arith, first.numbers, rest.numbers);
      },
    )

-- The ranks that are set free are as many as the unhandled ones, and all others are those of active
-- leaves.
pub record IsBackfilled (value : ℕ → ℕ) (rs more : List ℕ) (t u : TreeNode) : Type 0 where
  pub keeps : Keeps t u
  pub counts :
      (v : ℕ)
      → count_active v (iter_leaves u) + count v more
        ≡ count_active v (iter_leaves t) + held_by value rs v
  pub ends : ended (iter_leaves u) ≡ ended (iter_leaves t)
  pub numbers : length more ≡ length rs

pub replace_with_backfill-IsBackfilled :
    (value : ℕ → ℕ) (rs : List ℕ) (t : TreeNode)
    → IsSound t
    → AreTerminated value t rs
    → ((v : ℕ) → count_active v (iter_leaves t) + held_by value rs v ≤ 1)
    → (more : List ℕ) × (u : TreeNode) × (replace_with_backfill rs t ≡ (ok more, u))
      × IsBackfilled value rs more t u
unfolding replace_with_backfill held_in_all number_in_all count
replace_with_backfill-IsBackfilled value rs t w a b =
    let same : (v : ℕ) → held_by value (sorted leb rs) v ≡ held_by value rs v =
      λ v. SameItems-map value v (sorted leb rs) rs (λ k. count-sorted leb k rs) in
    let (ds, run, x) =
      by_domain-IsGrouped value (sorted leb rs) (record { nodes = []; replaced = [] }) t tt
        (All-sorted leb (λ r. IsTerminatedAt t r (value r)) rs a)
        (λ v. omega (arith, b v, same v)) in
    let (more, u, run_rest, y) =
      backfill_domains-IsPaired ds.nodes ds.replaced t w x.ranked
        (λ v. omega (arith, b v, same v, x.contents v)) in
    (
      more,
      u,
      rw run run_rest,
      record {
        keeps = y.keeps;
        counts = λ v. omega (arith, y.counts v, same v, x.contents v);
        ends = y.ends;
        numbers = omega (arith, y.numbers, x.numbers, length-sorted leb rs);
      },
    )
