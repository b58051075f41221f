-- ===== src/InProcess/Shifting.antt =====
-- `ShiftRanks` of inprocess/rank_assignment.py over all ranks.
use nvidia_resiliency_ext_x.Prelude.{
  ℕ, zero, suc, ◌+◌, ◌-◌, ◌≤◌, ◌<◌, ◌≡◌, refl, sym, subst, ap, false, List, [], ◌∷◌, length, arith,
  All,
}
use nvidia_resiliency_ext_x.Prelude.Eq.{number_keys}
use nvidia_resiliency_ext_x.Prelude.Keys.{contains, count, contains-eq-true}
use nvidia_resiliency_ext_x.Prelude.Method.{ok}
use nvidia_resiliency_ext_x.InProcess.RankAssignment.{RankAssignmentCtx, below, shift_ranks}

-- The terminated ranks of a world: no rank twice, and every one a rank of it.
pub record AreRanksOf (world_size : ℕ) (ts : List ℕ) : Type 0 where
  pub once : (t : ℕ) → count t ts ≤ 1
  pub bounded : All (λ t. t < world_size) ts

pub below-suc : (ts : List ℕ) (n : ℕ) → below ts (suc n) ≡ below ts n + count n ts
unfolding below count
below-suc [] n = refl
below-suc (t ∷ ts) n = ground (arith, below-suc ts n)

below-le : (ts : List ℕ) (n m : ℕ) → ((t : ℕ) → count t ts ≤ 1) → below ts (m + n) ≤ below ts n + m
below-le ts n zero once = let e : 0 + n ≡ n = omega arith in omega (arith, ap (below ts) e)
below-le ts n (suc m) once =
    let e : suc m + n ≡ suc (m + n) = omega arith in
    omega (arith, ap (below ts) e, below-suc ts (m + n), once (m + n), below-le ts n m once)

below_zero : (ts : List ℕ) → below ts 0 ≡ 0
unfolding below
below_zero [] = refl
below_zero (t ∷ ts) = ground (arith, below_zero ts)

pub below-eq-length : (ts : List ℕ) (n : ℕ) → All (λ t. t < n) ts → below ts n ≡ length ts
unfolding below
below-eq-length [] n w = refl
below-eq-length (t ∷ ts) n w = ground (arith, below-eq-length ts n w.1)

count-eq-zero : (t : ℕ) (ts : List ℕ) → contains t ts ≡ false → count t ts ≡ 0
count-eq-zero t ts h = ground (arith, contains-eq-true t ts)

-- A healthy rank has as many new ranks after it as there are healthy ranks after it.
below-gap :
    (ts : List ℕ) (r s : ℕ)
    → ((t : ℕ) → count t ts ≤ 1)
    → contains r ts ≡ false
    → r < s
    → below ts s + r < below ts r + s
below-gap ts r s once h l =
    let m = s - suc r in
    let e : s ≡ m + suc r = omega arith in
    let far : below ts s ≤ below ts (suc r) + m =
      subst (λ x. below ts x ≤ below ts (suc r) + m) (sym e) (below-le ts (suc r) m once) in
    omega (arith, far, below-suc ts r, count-eq-zero r ts h)

pub below-le_self : (ts : List ℕ) (r : ℕ) → ((t : ℕ) → count t ts ≤ 1) → below ts r ≤ r
below-le_self ts zero once = omega (arith, below_zero ts)
below-le_self ts (suc r) once = omega (arith, below-suc ts r, once r, below-le_self ts r once)

abbrev pub at_rank : RankAssignmentCtx → ℕ → RankAssignmentCtx
at_rank ctx rank = record ctx { state = record ctx.state { rank = rank } }

-- What `ShiftRanks` makes of a healthy rank.
abbrev pub shifted : RankAssignmentCtx → ℕ → RankAssignmentCtx
shifted ctx rank = record {
  state = record ctx.state {
    rank = rank - below ctx.terminated_ranks rank;
    world_size = ctx.state.world_size - length ctx.terminated_ranks;
  };
  terminated_ranks = [];
}

shift_ranks-healthy :
    (ctx : RankAssignmentCtx) (rank : ℕ)
    → contains rank ctx.terminated_ranks ≡ false
    → shift_ranks (at_rank ctx rank) ≡ ok (shifted ctx rank)
unfolding shift_ranks
shift_ranks-healthy ctx rank h = rw h refl

-- If the terminated ranks are ranks of the world and none stands twice, then of two healthy ranks
-- the greater gets the greater new rank, below the new world size, which is the old one less the
-- terminated ranks, and no terminated ranks are left.
pub shift_ranks-IsOrderly :
    (ctx : RankAssignmentCtx) (r s : ℕ)
    → AreRanksOf ctx.state.world_size ctx.terminated_ranks
    → contains r ctx.terminated_ranks ≡ false
    → contains s ctx.terminated_ranks ≡ false
    → r < s
    → s < ctx.state.world_size
    → (a : RankAssignmentCtx) × (b : RankAssignmentCtx) × (shift_ranks (at_rank ctx r) ≡ ok a)
      × (shift_ranks (at_rank ctx s) ≡ ok b)
      × (a.state.rank < b.state.rank)
      × (b.state.rank < b.state.world_size)
      × (b.state.world_size + length ctx.terminated_ranks ≡ ctx.state.world_size)
      × (b.terminated_ranks ≡ [])
shift_ranks-IsOrderly ctx r s w h k l m =
    let ts = ctx.terminated_ranks in
    let size = ctx.state.world_size in
    let near = below-gap ts r s w.once h l in
    let last = below-gap ts s size w.once k m in
    let all = below-eq-length ts size w.bounded in
    let start = below-le_self ts r w.once in
    let middle = below-le_self ts s w.once in
    (
      shifted ctx r,
      shifted ctx s,
      shift_ranks-healthy ctx r h,
      shift_ranks-healthy ctx s k,
      omega arith,
      omega arith,
      omega arith,
      refl,
    )
