-- ===== src/Async/Queue.antt =====
-- `AsyncCallsQueue` of checkpointing/async_ckpt/core.py.
use nvidia_resiliency_ext_x.Prelude.{
  ℕ, ◌+◌, Bool, true, false, ◌||◌, Option, none, some, List, [], ◌∷◌, ◌++◌, if◌then◌else◌,
}
use nvidia_resiliency_ext_x.Prelude.Eq.{◌==◌, number_keys}
use nvidia_resiliency_ext_x.Prelude.Method.{Exceptional, ok, err, raise, ◌>>=◌}
use nvidia_resiliency_ext_x.Async.Request.{
  AsyncError, type_error, assertion_error, never_returns, Effect, AsyncRequest, freeze, run_all,
}
use nvidia_resiliency_ext_x.Async.Callers.{
  Poll, Persistent, Caller, temporal, shared, some_caller, caller_done,
}

pub record ActiveAsyncRequest (S : Type 0) : Type 0 where
  pub idx : ℕ
  pub async_caller : Caller
  pub async_request : AsyncRequest S

-- The queue; `next_idx` is one more than its call_idx, which starts at minus one.
pub record AsyncCallsQueue (S : Type 0) : Type 0 where
  pub async_calls : List (ActiveAsyncRequest S)
  pub next_idx : ℕ
  pub persistent : Bool
  pub persistent_caller : Option Persistent

-- What the loop leaves: the program's state, the calls and the shared caller.
pub record Left (S : Type 0) : Type 0 where
  pub program : S
  pub calls : List (ActiveAsyncRequest S)
  pub shared_caller : Option Persistent

module _ {S : Type 0} where
  -- _get_async_caller
  unfoldable pub get_async_caller : AsyncCallsQueue S → Caller × AsyncCallsQueue S
  get_async_caller q =
      if q.persistent
      then (shared, record q { persistent_caller = some (some_caller q.persistent_caller) })
      else (temporal false, q)

  -- schedule_async_call starts a process if there is a function to run.
  abbrev pub has_function : Option (Effect S) → Bool
  has_function none = false
  has_function (some fn) = true

  abbrev pub start_async_call :
      AsyncRequest S → Caller → Option Persistent → Caller × Option Persistent
  start_async_call r (temporal process) p = (temporal (process || has_function r.async_fn), p)
  start_async_call r shared none = (shared, none)
  start_async_call r shared (some p) =
      (shared, some (record p { process = p.process || has_function r.async_fn }))

  -- What schedule_async_request does once it has an index and a caller.
  unfoldable pub enqueue : ℕ → AsyncRequest S → Caller → AsyncCallsQueue S → AsyncCallsQueue S
  unfolding freeze
  enqueue idx async_request caller q =
      let request = freeze async_request in
      let (started, p) =
        start_async_call (record request { call_idx = idx; finalize_fns = [] }) caller
          q.persistent_caller in
      record q {
        async_calls =
            q.async_calls
            ++ record { idx = idx; async_caller = started; async_request = request } ∷ [];
        persistent_caller = p;
      }

  -- schedule_async_request, by the way in which it gets its caller.
  unfoldable pub schedule_from :
      (AsyncCallsQueue S → Exceptional AsyncError Caller × AsyncCallsQueue S)
      → AsyncRequest S
      → AsyncCallsQueue S
      → Exceptional AsyncError ℕ × AsyncCallsQueue S
  unfolding enqueue
  schedule_from get_caller async_request q =
      let idx = q.next_idx in
      (get_caller >>= λ caller t. (ok idx, enqueue idx async_request caller t))
        (record q { next_idx = idx + 1 })

  abbrev pub found_caller : AsyncCallsQueue S → Exceptional AsyncError Caller × AsyncCallsQueue S
  found_caller q = let (caller, t) = get_async_caller q in (ok caller, t)

  -- The code passes `group` to `_get_async_caller`, which takes no argument.
  unfoldable pub schedule_async_request :
      AsyncRequest S → AsyncCallsQueue S → Exceptional AsyncError ℕ × AsyncCallsQueue S
  unfolding schedule_from
  schedule_async_request = schedule_from (raise type_error)

  -- What follows a poll: whether the call is done, how its functions ended, and whether all ranks
  -- have finalized the same call.
  abbrev pub after_poll :
      Bool
      → Exceptional AsyncError (Unit {0})
      → Bool
      → Exceptional AsyncError (List ℕ) × Left S
      → Left S
      → Exceptional AsyncError (List ℕ) × Left S
      → Exceptional AsyncError (List ℕ) × Left S
  after_poll false r same stays gone rest = stays
  after_poll true (err x) same stays gone rest = (err x, gone)
  after_poll true (ok _) false stays gone rest = (err assertion_error, gone)
  after_poll true (ok _) true stays gone rest = rest

  -- The body of the loop at a call, from the end of its functions and the answer to its poll.
  abbrev pub on_poll :
      ActiveAsyncRequest S
      → List (ActiveAsyncRequest S)
      → List ℕ
      → S
      → Option Persistent
      → Exceptional AsyncError (Unit {0})
      → S
      → Bool
      → (Option Persistent → Exceptional AsyncError (List ℕ) × Left S)
      → Option (Bool × Caller × Option Persistent)
      → Exceptional AsyncError (List ℕ) × Left S
  on_poll c cs finalized s p r u same next none =
      (err never_returns, record { program = s; calls = c ∷ cs; shared_caller = p })
  on_poll c cs finalized s p r u same next (some (done, caller, t)) =
      after_poll done r same
        (
          ok finalized,
          record {
            program = s;
            calls = record c { async_caller = caller } ∷ cs;
            shared_caller = t;
          },
        )
        (record { program = u; calls = cs; shared_caller = t }) (next t)

  module _ (blocking no_dist : Bool) (polls : ℕ → Poll) where
    -- The loop of maybe_finalize_async_calls; each call is polled once, with the poll of its index.
    unfoldable pub finalize_loop :
        List (ActiveAsyncRequest S)
        → List ℕ
        → S
        → Option Persistent
        → Exceptional AsyncError (List ℕ) × Left S
    unfolding caller_done run_all
    finalize_loop [] finalized s p =
        (ok finalized, record { program = s; calls = []; shared_caller = p })
    finalize_loop (c ∷ cs) finalized s p =
        let (r, u) = run_all c.async_request.finalize_fns s in
        let next = λ (t : Option Persistent). finalize_loop cs (finalized ++ c.idx ∷ []) u t in
        on_poll c cs finalized s p r u ((polls c.idx).max_idx == c.idx) next
          (caller_done blocking no_dist (polls c.idx) c.async_caller p)

    unfoldable pub maybe_finalize_async_calls :
        S → AsyncCallsQueue S → Exceptional AsyncError (List ℕ) × S × AsyncCallsQueue S
    unfolding finalize_loop
    maybe_finalize_async_calls s q =
        let (r, left) = finalize_loop q.async_calls [] s q.persistent_caller in
        (
          r,
          left.program,
          record q { async_calls = left.calls; persistent_caller = left.shared_caller },
        )
