-- ===== src/InProcess/RankAssignment.antt =====
-- `State` and `Mode` of inprocess/state.py, and the rank filters and assignments of
-- inprocess/rank_assignment.py that need no store. A rank is a number: only `Tree` writes `None`. The
-- set of terminated ranks is a list without repetitions, and it has no more items than there are ranks.
use nvidia_resiliency_ext_x.Prelude.{
  ℕ, zero, suc, ◌-◌, ◌*◌, ◌/◌, Option, none, some, List, [], ◌∷◌, length, if◌then◌else◌, ltb, leb,
}
use nvidia_resiliency_ext_x.Prelude.Eq.{number_keys}
use nvidia_resiliency_ext_x.Prelude.Keys.{contains}
use nvidia_resiliency_ext_x.Prelude.Sorting.{sorted}
use nvidia_resiliency_ext_x.Prelude.Method.{Exceptional, ok, err}

pub data Mode : Type 0 where
  initialized active inactive terminated : Mode

pub record State : Type 0 where
  pub rank : ℕ
  pub world_size : ℕ
  pub active_rank : Option ℕ
  pub active_world_size : Option ℕ
  pub initial_rank : ℕ
  pub initial_world_size : ℕ
  pub iteration : ℕ
  pub mode : Mode

-- `RankAssignmentCtx`, without the store.
pub record RankAssignmentCtx : Type 0 where
  pub state : State
  pub terminated_ranks : List ℕ

pub data AssignmentError : Type 0 where
  rank_discarded index_error key_error type_error assertion_error : AssignmentError

unfoldable pub activate_all_ranks : RankAssignmentCtx → RankAssignmentCtx
activate_all_ranks ctx = record ctx {
  state = record ctx.state {
    mode = active;
    active_rank = some ctx.state.rank;
    active_world_size = some ctx.state.world_size;
  };
}

abbrev pub min : ℕ → ℕ → ℕ
min a b = if ltb b a then b else a

-- The active world size so far, at most the world size.
abbrev pub bounded_size : Option ℕ → ℕ → ℕ
bounded_size none world_size = world_size
bounded_size (some active_world_size) world_size = min active_world_size world_size

-- Ranks below the active world size are active.
unfoldable pub with_active_size : ℕ → RankAssignmentCtx → RankAssignmentCtx
with_active_size size ctx = record ctx {
  state =
      if ltb ctx.state.rank size
      then record ctx.state {
        mode = active;
        active_rank = some ctx.state.rank;
        active_world_size = some size;
      }
      else record ctx.state { mode = inactive; active_rank = none; active_world_size = some size };
}

abbrev pub limited : Option ℕ → ℕ → ℕ
limited none size = size
limited (some max_active_world_size) size = min size max_active_world_size

unfoldable pub max_active_world_size : Option ℕ → RankAssignmentCtx → RankAssignmentCtx
unfolding with_active_size
max_active_world_size limit ctx =
    with_active_size (limited limit (bounded_size ctx.state.active_world_size ctx.state.world_size))
      ctx

unfoldable pub active_world_size_divisible_by : ℕ → RankAssignmentCtx → RankAssignmentCtx
unfolding with_active_size
active_world_size_divisible_by divisor ctx =
    let size = bounded_size ctx.state.active_world_size ctx.state.world_size in
    with_active_size ((size / divisor) * divisor) ctx

-- l[i]
abbrev pub item : List ℕ → ℕ → Exceptional AssignmentError ℕ
item [] i = err index_error
item (x ∷ xs) zero = ok x
item (x ∷ xs) (suc i) = item xs i

abbrev pub reassigned :
    Exceptional AssignmentError ℕ
    → ℕ
    → RankAssignmentCtx
    → Exceptional AssignmentError RankAssignmentCtx
reassigned (err x) world_size ctx = err x
reassigned (ok rank) world_size ctx = ok (record {
  state = record ctx.state { rank = rank; world_size = world_size };
  terminated_ranks = [];
})

unfoldable pub filled_rank : List ℕ → ℕ → ℕ → Exceptional AssignmentError ℕ
filled_rank terminated_ranks world_size rank =
    if leb world_size rank then item (sorted leb terminated_ranks) (rank - world_size) else ok rank

unfoldable pub fill_gaps : RankAssignmentCtx → Exceptional AssignmentError RankAssignmentCtx
unfolding filled_rank
fill_gaps ctx =
    let world_size = ctx.state.world_size - length ctx.terminated_ranks in
    if contains ctx.state.rank ctx.terminated_ranks
    then err rank_discarded
    else reassigned (filled_rank ctx.terminated_ranks world_size ctx.state.rank) world_size ctx

-- sum(rank > terminated_rank for terminated_rank in terminated_ranks)
unfoldable pub below : List ℕ → ℕ → ℕ
below [] rank = 0
below (t ∷ ts) rank = let n = below ts rank in if ltb t rank then suc n else n

unfoldable pub shift_ranks : RankAssignmentCtx → Exceptional AssignmentError RankAssignmentCtx
unfolding below
shift_ranks ctx =
    let world_size = ctx.state.world_size - length ctx.terminated_ranks in
    if contains ctx.state.rank ctx.terminated_ranks
    then err rank_discarded
    else reassigned (ok (ctx.state.rank - below ctx.terminated_ranks ctx.state.rank)) world_size ctx
