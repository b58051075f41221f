-- ===== src/InProcess/Samples.antt =====
-- Tests of the rank assignments on a world of eight ranks, and the theorems at it.
use nvidia_resiliency_ext_x.Prelude.{
  ℕ, ◌+◌, ◌*◌, ◌≤◌, ◌<◌, ◌≡◌, ◌≢◌, refl, true, false, none, some, List, [], ◌∷◌, arith,
}
use nvidia_resiliency_ext_x.Prelude.Eq.{number_keys}
use nvidia_resiliency_ext_x.Prelude.Keys.{contains, count}
use nvidia_resiliency_ext_x.Prelude.Method.{ok}
use nvidia_resiliency_ext_x.InProcess.RankAssignment.{
  active, RankAssignmentCtx, max_active_world_size, active_world_size_divisible_by, fill_gaps,
  shift_ranks,
}
use nvidia_resiliency_ext_x.InProcess.Filters.{IsFiltered, IsAllowed, filters-IsFiltered}
use nvidia_resiliency_ext_x.InProcess.Shifting.{AreRanksOf, at_rank, shift_ranks-IsOrderly}
use nvidia_resiliency_ext_x.InProcess.Filling.{fill_gaps-distinct}
use nvidia_resiliency_ext_x.InProcess.Overflow.{fill_gaps-overflow}

abbrev eight_ranks : List ℕ → RankAssignmentCtx
eight_ranks ts = record {
  state = record {
    rank = 0;
    world_size = 8;
    active_rank = none;
    active_world_size = none;
    initial_rank = 0;
    initial_world_size = 8;
    iteration = 0;
    mode = active;
  };
  terminated_ranks = ts;
}

two-AreRanksOf : AreRanksOf 8 (1 ∷ 4 ∷ [])
unfolding count
two-AreRanksOf = record { once = λ t. ground arith; bounded = (omega arith, (omega arith, tt)) }

healthy_seven : contains {K = ℕ} 7 (1 ∷ 4 ∷ []) ≡ false
unfolding contains
healthy_seven = refl

healthy_six : contains {K = ℕ} 6 (1 ∷ 4 ∷ []) ≡ false
unfolding contains
healthy_six = refl

shift_ranks-IsOrderly_example :
    (a : RankAssignmentCtx) × (b : RankAssignmentCtx) × (shift_ranks
        (at_rank (eight_ranks (1 ∷ 4 ∷ [])) 6)
      ≡ ok a)
    × (shift_ranks (at_rank (eight_ranks (1 ∷ 4 ∷ [])) 7) ≡ ok b)
    × (a.state.rank < b.state.rank)
    × (b.state.rank < b.state.world_size)
    × (b.state.world_size + 2 ≡ 8)
    × (b.terminated_ranks ≡ [])
shift_ranks-IsOrderly_example =
    shift_ranks-IsOrderly (eight_ranks (1 ∷ 4 ∷ [])) 6 7 two-AreRanksOf healthy_six healthy_seven
      (omega arith) (omega arith)

fill_gaps-distinct_example :
    (a : RankAssignmentCtx) × (b : RankAssignmentCtx) × (fill_gaps
        (at_rank (eight_ranks (1 ∷ 4 ∷ [])) 6)
      ≡ ok a)
    × (fill_gaps (at_rank (eight_ranks (1 ∷ 4 ∷ [])) 7) ≡ ok b)
    × (a.state.rank ≢ b.state.rank)
    × (a.state.rank < a.state.world_size)
    × (b.state.rank < b.state.world_size)
fill_gaps-distinct_example =
    fill_gaps-distinct (eight_ranks (1 ∷ 4 ∷ [])) 6 7 two-AreRanksOf
      (omega arith, (omega arith, tt)) healthy_six healthy_seven (omega arith) (omega arith)
      (λ e. omega (arith, e))

-- The example of the doc: ranks 1, 4 and 5 of eight are terminated.
healthy_last : contains {K = ℕ} 7 (1 ∷ 4 ∷ 5 ∷ []) ≡ false
unfolding contains
healthy_last = refl

terminated_five : contains {K = ℕ} 5 (1 ∷ 4 ∷ 5 ∷ []) ≡ true
unfolding contains
terminated_five = refl

fill_gaps-overflow_example :
    (a : RankAssignmentCtx) × (fill_gaps (at_rank (eight_ranks (1 ∷ 4 ∷ 5 ∷ [])) 7) ≡ ok a)
    × (a.state.world_size ≤ a.state.rank)
fill_gaps-overflow_example =
    fill_gaps-overflow (eight_ranks (1 ∷ 4 ∷ 5 ∷ [])) 7 5 refl healthy_last terminated_five
      (omega arith) (omega arith)

-- Six ranks were active before.
abbrev six_active : RankAssignmentCtx
six_active = record (eight_ranks []) {
  state = record (eight_ranks []).state { active_world_size = some 6 };
}

filters-IsFiltered_example :
    (n : ℕ) × IsFiltered
      (active_world_size_divisible_by 4 (max_active_world_size (some 7) six_active))
      (n * 4)
    × IsAllowed 7 six_active (n * 4)
    × ((k : ℕ) → IsAllowed 7 six_active (k * 4) → k ≤ n)
filters-IsFiltered_example = filters-IsFiltered 7 4 six_active (omega arith)
