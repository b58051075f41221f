-- ===== src/Async/Blocking.antt =====
-- What a blocking call of maybe_finalize_async_calls of checkpointing/async_ckpt/core.py finalizes.
use mathlib.Core.List.{append_assoc, append-nil}
use nvidia_resiliency_ext_x.Prelude.{
  ℕ, Bool, true, false, ◌≡◌, refl, sym, ap, ◌∙◌, Option, none, some, inl, inr, Bool-cases, List, [],
  ◌∷◌, ◌++◌, All, arith,
}
use nvidia_resiliency_ext_x.Prelude.Eq.{◌==◌, number_keys}
use nvidia_resiliency_ext_x.Prelude.Method.{Exceptional, ok, err, after_result}
use nvidia_resiliency_ext_x.Async.Request.{AsyncError, Effect, run_all}
use nvidia_resiliency_ext_x.Async.Callers.{
  Poll, Persistent, Caller, temporal, shared, some_caller, caller_done, check_done, temporal_done,
  wait_item, poll_item, persistent_done,
}
use nvidia_resiliency_ext_x.Async.Queue.{
  ActiveAsyncRequest, AsyncCallsQueue, finalize_loop, maybe_finalize_async_calls,
}
use nvidia_resiliency_ext_x.Async.Ordering.{indices, functions}

module _ {S : Type 0} where
  abbrev IsSplit : List (Effect S) → List (Effect S) → S → S → Type 0
  IsSplit fs gs s u = (v : S) × (run_all fs s ≡ (ok tt, v)) × (run_all gs v ≡ (ok tt, u))

  after_result-IsSplit :
      (r : Exceptional AsyncError (Unit {0})) (t u : S) (fs gs : List (Effect S))
      → after_result r (λ _. run_all (fs ++ gs)) t ≡ (ok tt, u)
      → ((t : S) → run_all (fs ++ gs) t ≡ (ok tt, u) → IsSplit fs gs t u)
      → (v : S) × (after_result r (λ _. run_all fs) t ≡ (ok tt, v)) × (run_all gs v ≡ (ok tt, u))
  after_result-IsSplit (ok _) t u fs gs e h = h t e
  after_result-IsSplit (err x) t u fs gs e h = absurd (ground arith)

  run_all-IsSplit :
      (fs gs : List (Effect S)) (s u : S) → run_all (fs ++ gs) s ≡ (ok tt, u) → IsSplit fs gs s u
  unfolding run_all
  run_all-IsSplit [] gs s u e = (s, refl, e)
  run_all-IsSplit (f ∷ fs) gs s u e =
      after_result-IsSplit (f s).0 (f s).1 u fs gs e (λ t h. run_all-IsSplit fs gs t u h)

-- The worker answers at some time.
abbrev pub IsAnswered : List (Option ℕ) → Type 0
IsAnswered [] = ⊥
IsAnswered (some item ∷ answers) = Unit
IsAnswered (none ∷ answers) = IsAnswered answers

-- A call of the shared caller has its answer when it is polled.
abbrev pub IsAwaited : {S : Type 0} → (ℕ → Poll) → ActiveAsyncRequest S → Type 0
IsAwaited polls c = c.async_caller ≡ shared → IsAnswered (polls c.idx).comp_q

wait_item-IsAnswered :
    (answers : List (Option ℕ))
    → IsAnswered answers
    → (item : Option ℕ) × (wait_item true answers ≡ some (false, item))
unfolding wait_item
wait_item-IsAnswered [] h = absurd h
wait_item-IsAnswered (some item ∷ answers) h = (some item, refl)
wait_item-IsAnswered (none ∷ answers) h = wait_item-IsAnswered answers h

poll_item-IsAnswered :
    (poll : Poll) (o : Option ℕ)
    → IsAnswered poll.comp_q
    → (item : Option ℕ) × (poll_item true poll o ≡ some (false, item))
unfolding poll_item
poll_item-IsAnswered poll (some item) h = (some item, refl)
poll_item-IsAnswered poll none h = wait_item-IsAnswered poll.comp_q h

-- Where the worker never answers, a blocking poll does not end.
wait_item-silent :
    (answers : List (Option ℕ)) → All (λ a. a ≡ none) answers → wait_item true answers ≡ none
unfolding wait_item
wait_item-silent [] h = refl
wait_item-silent (some item ∷ answers) (e, h) = absurd (ground (arith, e))
wait_item-silent (none ∷ answers) (e, h) = wait_item-silent answers h

persistent_done-silent :
    (no_dist : Bool) (poll : Poll) (p : Persistent)
    → p.process ≡ true
    → p.cur_item ≡ none
    → All (λ a. a ≡ none) poll.comp_q
    → persistent_done true no_dist poll p ≡ none
unfolding persistent_done poll_item
persistent_done-silent no_dist poll p running empty h =
    rw (running, empty, wait_item-silent poll.comp_q h) refl

module _ (no_dist : Bool) (polls : ℕ → Poll)
    (all_done : (i : ℕ) → (polls i).sync_all_async_calls false ≡ true) where
  persistent_done-blocking :
      (i : ℕ) (p : Persistent)
      → IsAnswered (polls i).comp_q
      → (t : Persistent) × (persistent_done true no_dist (polls i) p ≡ some (true, t))
  unfolding persistent_done
  persistent_done-blocking i p h =
      let (item, answered) = poll_item-IsAnswered (polls i) p.cur_item h in
      let done : check_done no_dist (polls i) false ≡ true = ground (arith, all_done i) in
      elim (Bool-cases p.process) [
        | inl e ↦ (record p { cur_item = none }, rw (e, answered, done) refl)
        | inr e ↦ (record p { cur_item = none }, rw (e, done) refl)
      ]

  caller_done-blocking :
      (i : ℕ) (caller : Caller) (p : Option Persistent)
      → (caller ≡ shared → IsAnswered (polls i).comp_q)
      → (left : Caller × Option Persistent) × (caller_done true no_dist (polls i) caller p
          ≡ some (true, left.0, left.1))
  unfolding caller_done temporal_done
  caller_done-blocking i (temporal process) p h = ((temporal false, p), ground arith)
  caller_done-blocking i shared p h =
      let (t, e) = persistent_done-blocking i (some_caller p) (h refl) in
      ((shared, some t), rw e refl)

  module _ {S : Type 0} where
    finalize_loop-blocking :
        (calls : List (ActiveAsyncRequest S)) (finalized : List ℕ) (s u : S) (p : Option Persistent)
        → All (IsAwaited polls) calls
        → All (λ c. ((polls c.idx).max_idx == c.idx) ≡ true) calls
        → run_all (functions calls) s ≡ (ok tt, u)
        → (t : Option Persistent) × (finalize_loop true no_dist polls calls finalized s p ≡ (
          ok (finalized ++ indices calls),
          record { program = u; calls = []; shared_caller = t },
        ))
    unfolding finalize_loop run_all
    finalize_loop-blocking [] finalized s u p answers same run = (
      p,
      ap (λ (l : List ℕ). (ok l, record { program = s; calls = []; shared_caller = p }))
            (sym (append-nil finalized))
          ∙ ap
              (λ (q : Exceptional AsyncError (Unit {0}) × S).
                (ok (finalized ++ []), record { program = q.1; calls = []; shared_caller = p }))
              run,
    )
    finalize_loop-blocking (c ∷ cs) finalized s u p (answer, answers) (same, sames) run =
        let (v, first, rest) =
          run_all-IsSplit c.async_request.finalize_fns (functions cs) s u run in
        let (left, done) = caller_done-blocking c.idx c.async_caller p answer in
        let (t, e) =
          finalize_loop-blocking cs (finalized ++ c.idx ∷ []) v u left.1 answers sames rest in
        (
          t,
          rw (done, first, same)
              (e
                ∙ ap (λ (l : List ℕ). (ok l, record { program = u; calls = []; shared_caller = t }))
                    (append_assoc finalized (c.idx ∷ []) (indices cs))),
        )

    -- If the worker answers every call of the shared caller at some time, sync_all_async_calls says
    -- that all are done where this rank is not active, all ranks finalize the calls of the same
    -- indices, and the finalization functions of the queue return, then a blocking call ends and
    -- finalizes the whole queue: it returns all indices in order, has run the functions, and leaves
    -- the queue empty.
    pub maybe_finalize_async_calls-blocking :
        (s u : S) (q : AsyncCallsQueue S)
        → All (IsAwaited polls) q.async_calls
        → All (λ c. ((polls c.idx).max_idx == c.idx) ≡ true) q.async_calls
        → run_all (functions q.async_calls) s ≡ (ok tt, u)
        → (t : AsyncCallsQueue S) × (maybe_finalize_async_calls true no_dist polls s q
            ≡ (ok (indices q.async_calls), u, t))
          × (t.async_calls ≡ [])
          × (t.next_idx ≡ q.next_idx)
    unfolding maybe_finalize_async_calls
    maybe_finalize_async_calls-blocking s u q answers same run =
        let (t, e) =
          finalize_loop-blocking q.async_calls [] s u q.persistent_caller answers same run in
        (record q { async_calls = []; persistent_caller = t }, rw e refl, refl, refl)
