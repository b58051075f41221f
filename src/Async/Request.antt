-- ===== src/Async/Request.antt =====
-- `AsyncRequest` of checkpointing/async_ckpt/core.py. A function that a request holds is what it does
-- to the state of the program, with its arguments applied.
use nvidia_resiliency_ext_x.Prelude.{
  ℕ, Bool, true, Option, none, some, List, [], ◌∷◌, ◌++◌, if◌then◌else◌,
}
use nvidia_resiliency_ext_x.Prelude.Method.{Exceptional, ok, err, ret, ◌>>◌}

-- RuntimeError, TypeError, a failed assertion, and what a function of a request raises; and, though
-- it is no exception, that a wait does not end.
pub data AsyncError : Type 0 where
  runtime_error type_error assertion_error function_error never_returns : AsyncError

abbrev pub Effect : Type 0 → Type 0
Effect S = S → Exceptional AsyncError (Unit {0}) × S

pub record AsyncRequest (S : Type 0) : Type 0 where
  pub async_fn : Option (Effect S)
  pub finalize_fns : List (Effect S)
  pub has_preload : Bool
  pub is_frozen : Bool
  pub call_idx : ℕ

module _ {S : Type 0} where
  -- The list of the request is mutated, so the request comes back.
  unfoldable pub add_finalize_fn :
      Effect S → AsyncRequest S → Exceptional AsyncError (Unit {0}) × AsyncRequest S
  add_finalize_fn fn r =
      if r.is_frozen
      then (err runtime_error, r)
      else (ok tt, record r { finalize_fns = r.finalize_fns ++ fn ∷ [] })

  unfoldable pub freeze : AsyncRequest S → AsyncRequest S
  freeze r = record r { is_frozen = true }

  abbrev pub run_optional : Option (Effect S) → Effect S
  run_optional none = ret tt
  run_optional (some fn) = fn

  -- for finalize_fn in finalize_fns: finalize_fn()
  unfoldable pub run_all : List (Effect S) → Effect S
  run_all [] = ret tt
  run_all (fn ∷ fns) = fn >> run_all fns

  -- The barrier between the two waits for the other ranks.
  unfoldable pub execute_sync : AsyncRequest S → Effect S
  unfolding run_all
  execute_sync r = run_optional r.async_fn >> run_all r.finalize_fns
