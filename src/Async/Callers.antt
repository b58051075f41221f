-- ===== src/Async/Callers.antt =====
-- The answers of `TemporalAsyncCaller` and `PersistentAsyncCaller` of
-- checkpointing/async_ckpt/core.py to a poll. What a poll reads of the process, of the other ranks
-- and of the worker's answers is an input.
use nvidia_resiliency_ext_x.Prelude.{
  ℕ, Bool, true, false, not, ◌&&◌, ◌||◌, Option, none, some, List, [], ◌∷◌, if◌then◌else◌,
}

-- What one poll reads: whether the process is alive, what sync_all_async_calls returns for a rank
-- that is still active and for one that is not, what get_nowait finds one time after the other, for
-- as long as it is known, and the maximum of the ranks' call indices.
pub record Poll : Type 0 where
  pub alive : Bool
  pub sync_all_async_calls : Bool → Bool
  pub comp_q : List (Option ℕ)
  pub max_idx : ℕ

abbrev pub check_done : Bool → Poll → Bool → Bool
check_done no_dist poll is_alive =
    if no_dist then not is_alive else poll.sync_all_async_calls is_alive

-- TemporalAsyncCaller.is_current_async_call_done; the state is whether there is a process.
unfoldable pub temporal_done : Bool → Bool → Poll → Bool → Bool × Bool
temporal_done blocking no_dist poll process =
    if check_done no_dist poll (process && poll.alive) || blocking
    then (true, false)
    else (false, process)

pub record Persistent : Type 0 where
  pub process : Bool
  pub cur_item : Option ℕ

-- The loop over comp_q while there is no item: whether the request is still active, and the item.
-- A blocking poll that never finds an item does not end.
unfoldable pub wait_item : Bool → List (Option ℕ) → Option (Bool × Option ℕ)
wait_item blocking [] = if blocking then none else some (true, none)
wait_item blocking (some item ∷ answers) = some (false, some item)
wait_item blocking (none ∷ answers) =
    let rest = wait_item blocking answers in if blocking then rest else some (true, none)

unfoldable pub poll_item : Bool → Poll → Option ℕ → Option (Bool × Option ℕ)
unfolding wait_item
poll_item blocking poll (some item) = some (false, some item)
poll_item blocking poll none = wait_item blocking poll.comp_q

abbrev pub polled : Bool → Poll → Persistent → Option (Bool × Option ℕ) → Option (Bool × Persistent)
polled no_dist poll p none = none
polled no_dist poll p (some (is_alive, item)) =
    let is_done = check_done no_dist poll is_alive in
    some (is_done, record p { cur_item = if is_done then none else item })

-- PersistentAsyncCaller.is_current_async_call_done, if it ends
unfoldable pub persistent_done : Bool → Bool → Poll → Persistent → Option (Bool × Persistent)
unfolding poll_item
persistent_done blocking no_dist poll p =
    polled no_dist poll p
      (if p.process then poll_item blocking poll p.cur_item else some (false, p.cur_item))

-- An async caller of its own, with whether it has a process, or the shared persistent one.
pub data Caller : Type 0 where
  temporal : Bool → Caller
  shared : Caller

abbrev pub some_caller : Option Persistent → Persistent
some_caller none = record { process = false; cur_item = none }
some_caller (some p) = p

abbrev pub from_shared : Option (Bool × Persistent) → Option (Bool × Caller × Option Persistent)
from_shared none = none
from_shared (some (done, t)) = some (done, shared, some t)

-- The answer to a poll, by the caller of the call, if it ends.
unfoldable pub caller_done :
    Bool → Bool → Poll → Caller → Option Persistent → Option (Bool × Caller × Option Persistent)
unfolding temporal_done persistent_done
caller_done blocking no_dist poll (temporal process) p =
    let (done, left) = temporal_done blocking no_dist poll process in some (done, temporal left, p)
caller_done blocking no_dist poll shared p =
    from_shared (persistent_done blocking no_dist poll (some_caller p))
