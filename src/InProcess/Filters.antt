-- ===== src/InProcess/Filters.antt =====
-- The rank filters of inprocess/rank_assignment.py.
use nvidia_resiliency_ext_x.Prelude.{
  ℕ, suc, ◌+◌, ◌*◌, ◌/◌, ◌≤◌, ◌<◌, ◌≡◌, ◌↔◌, refl, Option, none, some, arith, if◌then◌else◌, ltb,
  if-cases, zero, sym, subst, ap,
}
use native.Mathlib.Omega.{div_fact, mod_fact}
use native.Mathlib.Nat.{mul_comm, suc-mul}
use nvidia_resiliency_ext_x.InProcess.RankAssignment.{
  active, RankAssignmentCtx, min, bounded_size, with_active_size, max_active_world_size,
  active_world_size_divisible_by,
}

-- The ranks below the active world size are active, under their own number, and no others.
pub record IsFiltered (ctx : RankAssignmentCtx) (size : ℕ) : Type 0 where
  pub active_size : ctx.state.active_world_size ≡ some size
  pub actives : (ctx.state.mode ≡ active) ↔ (ctx.state.rank < size)
  pub numbered :
      ctx.state.active_rank ≡ (if ltb ctx.state.rank size then some ctx.state.rank else none)

with_active_size-IsFiltered :
    (size : ℕ) (ctx : RankAssignmentCtx) → IsFiltered (with_active_size size ctx) size
unfolding with_active_size
with_active_size-IsFiltered size ctx = record {
  active_size = ground arith;
  actives = (λ h. ground arith, λ h. ground arith);
  numbered = ground arith;
}

-- The size that the filters find: the ranks that may be active.
abbrev pub available : ℕ → RankAssignmentCtx → ℕ
available limit ctx = min (bounded_size ctx.state.active_world_size ctx.state.world_size) limit

with_active_size-frame :
    (size : ℕ) (ctx : RankAssignmentCtx)
    → ((with_active_size size ctx).state.rank ≡ ctx.state.rank)
      × ((with_active_size size ctx).state.world_size ≡ ctx.state.world_size)
      × ((with_active_size size ctx).state.active_world_size ≡ some size)
unfolding with_active_size
with_active_size-frame size ctx = (ground arith, ground arith, ground arith)

available-le :
    (limit : ℕ) (ctx : RankAssignmentCtx)
    → (available limit ctx ≤ limit) × (available limit ctx ≤ ctx.state.world_size)
available-le limit ctx = (ground arith, ground arith)

divisible_by-eq :
    (divisor m : ℕ) (ctx : RankAssignmentCtx)
    → ctx.state.active_world_size ≡ some m
    → m ≤ ctx.state.world_size
    → active_world_size_divisible_by divisor ctx ≡ with_active_size ((m / divisor) * divisor) ctx
unfolding active_world_size_divisible_by
divisible_by-eq divisor m ctx e l =
    let bounded : bounded_size ctx.state.active_world_size ctx.state.world_size ≡ m =
      rw e
        (if-cases (λ x. x ≡ m) (ltb ctx.state.world_size m) _ _ (λ b. ground arith) (λ b. refl)) in
    ap (λ n. with_active_size ((n / divisor) * divisor) ctx) bounded

-- The greatest multiple up to a number.
multiple_bounds :
    (m divisor : ℕ)
    → 0 < divisor
    → ((m / divisor) * divisor ≤ m) × (m < (m / divisor) * divisor + divisor)
multiple_bounds m zero h = absurd (omega arith)
multiple_bounds m (suc k) h =
    let whole = div_fact m k in
    let left = mod_fact m k in
    let comm = mul_comm (suc k) (m / suc k) in
    (omega (arith, whole, left, comm), omega (arith, whole, left, comm))

-- Up to the active world size before, if there was one.
abbrev pub IsUpTo : Option ℕ → ℕ → Type 0
IsUpTo none n = Unit
IsUpTo (some m) n = n ≤ m

-- The sizes that the filters may choose.
pub record IsAllowed (limit : ℕ) (ctx : RankAssignmentCtx) (n : ℕ) : Type 0 where
  pub limited : n ≤ limit
  pub in_world : n ≤ ctx.state.world_size
  pub no_more : IsUpTo ctx.state.active_world_size n

IsUpTo-bounded_size :
    (o : Option ℕ) (world_size n : ℕ)
    → (n ≤ bounded_size o world_size → IsUpTo o n)
      × (IsUpTo o n → n ≤ world_size → n ≤ bounded_size o world_size)
IsUpTo-bounded_size none world_size n = (λ h. tt, λ h l. l)
IsUpTo-bounded_size (some m) world_size n = (λ h. ground arith, λ h l. ground arith)

IsAllowed-available :
    (limit : ℕ) (ctx : RankAssignmentCtx) (n : ℕ)
    → (n ≤ available limit ctx → IsAllowed limit ctx n)
      × (IsAllowed limit ctx n → n ≤ available limit ctx)
IsAllowed-available limit ctx n =
    let (below_limit, below_world) = available-le limit ctx in
    let (bounded, back) = IsUpTo-bounded_size ctx.state.active_world_size ctx.state.world_size n in
    (
      λ h. record {
        limited = omega arith;
        in_world = omega arith;
        no_more = bounded (ground arith);
      },
      λ a. ground (arith, back a.no_more a.in_world, a.limited),
    )

multiple-le : (a b divisor : ℕ) → a * divisor < b * divisor + divisor → a ≤ b
multiple-le zero b divisor h = omega arith
multiple-le (suc a) zero divisor h = absurd (ground arith)
multiple-le (suc a) (suc b) divisor h =
    let rest = multiple-le a b divisor (omega (arith, suc-mul a divisor, suc-mul b divisor)) in
    omega arith

-- After MaxActiveWorldSize with a limit and then ActiveWorldSizeDivisibleBy with a divisor that is
-- not zero, the ranks below the active world size are active under their own number and no others,
-- and that size is the greatest multiple of the divisor up to the limit, the world size and, if
-- there was one, the active world size before.
pub filters-IsFiltered :
    (limit divisor : ℕ) (ctx : RankAssignmentCtx)
    → 0 < divisor
    → (n : ℕ) × IsFiltered
        (active_world_size_divisible_by divisor (max_active_world_size (some limit) ctx))
        (n * divisor)
      × IsAllowed limit ctx (n * divisor)
      × ((k : ℕ) → IsAllowed limit ctx (k * divisor) → k ≤ n)
unfolding max_active_world_size
filters-IsFiltered limit divisor ctx h =
    let m = available limit ctx in
    let first = with_active_size m ctx in
    let (same_rank, same_size, found) = with_active_size-frame m ctx in
    let (below_limit, below_world) = available-le limit ctx in
    let (low, high) = multiple_bounds m divisor h in
    (
      m / divisor,
      subst (λ x. IsFiltered x ((m / divisor) * divisor))
          (sym (divisible_by-eq divisor m first found (omega arith)))
          (with_active_size-IsFiltered ((m / divisor) * divisor) first),
      (IsAllowed-available limit ctx ((m / divisor) * divisor)).0 low,
      λ k a.
          multiple-le k (m / divisor) divisor
            (omega (arith, high, (IsAllowed-available limit ctx (k * divisor)).1 a)),
    )
