-- ===== src/Async/Ordering.antt =====
-- The order in which maybe_finalize_async_calls of checkpointing/async_ckpt/core.py finalizes calls,
-- and what a blocking call finalizes.
use mathlib.Core.List.{append_assoc, append-nil}
use nvidia_resiliency_ext_x.Prelude.{
  ℕ, Bool, true, false, ◌≡◌, refl, sym, ap, ◌∙◌, Option, none, some, List, [], ◌∷◌, ◌++◌, map,
  arith, inl, inr, ◌⊎◌, Bool-cases, if◌then◌else◌,
}
use nvidia_resiliency_ext_x.Prelude.Eq.{◌==◌, number_keys}
use nvidia_resiliency_ext_x.Prelude.Method.{Exceptional, ok, err, after_result}
use nvidia_resiliency_ext_x.Async.Request.{
  AsyncError, assertion_error, never_returns, AsyncRequest, Effect, run_all,
}
use nvidia_resiliency_ext_x.Async.Callers.{
  Poll, Persistent, Caller, temporal, shared, some_caller, wait_item, poll_item, polled,
  from_shared, persistent_done, caller_done,
}
use nvidia_resiliency_ext_x.Async.Queue.{
  ActiveAsyncRequest, AsyncCallsQueue, Left, on_poll, finalize_loop, maybe_finalize_async_calls,
}

-- Only a blocking poll may not end.
wait_item-none :
    (blocking : Bool) (answers : List (Option ℕ))
    → wait_item blocking answers ≡ none
    → blocking ≡ true
unfolding wait_item
wait_item-none blocking [] h = ground arith
wait_item-none blocking (some item ∷ answers) h = absurd (ground arith)
wait_item-none blocking (none ∷ answers) h = ground arith

polled-none :
    (no_dist : Bool) (poll : Poll) (p : Persistent) (o : Option (Bool × Option ℕ))
    → from_shared (polled no_dist poll p o) ≡ none
    → o ≡ none
polled-none no_dist poll p none h = refl
polled-none no_dist poll p (some (b, item)) h = absurd (ground arith)

poll_item-none :
    (blocking : Bool) (poll : Poll) (o : Option ℕ)
    → poll_item blocking poll o ≡ none
    → blocking ≡ true
unfolding poll_item
poll_item-none blocking poll (some item) h = absurd (ground arith)
poll_item-none blocking poll none h = wait_item-none blocking poll.comp_q h

caller_done-none :
    (blocking no_dist : Bool) (poll : Poll) (caller : Caller) (p : Option Persistent)
    → caller_done blocking no_dist poll caller p ≡ none
    → blocking ≡ true
unfolding caller_done persistent_done
caller_done-none blocking no_dist poll (temporal process) p h = absurd (ground arith)
caller_done-none blocking no_dist poll shared p h =
    let q = some_caller p in
    let stuck =
      polled-none no_dist poll q
        (if q.process then poll_item blocking poll q.cur_item else some (false, q.cur_item)) h in
    elim (Bool-cases q.process) [
      | inl e ↦ poll_item-none blocking poll q.cur_item (ground (arith, stuck))
      | inr e ↦ absurd (ground (arith, stuck))
    ]

module _ {S : Type 0} where
  abbrev pub indices : List (ActiveAsyncRequest S) → List ℕ
  indices [] = []
  indices (c ∷ cs) = c.idx ∷ indices cs

  -- The finalization functions of calls, in order.
  abbrev pub functions : List (ActiveAsyncRequest S) → List (Effect S)
  functions [] = []
  functions (c ∷ cs) = c.async_request.finalize_fns ++ functions cs

  after_ok :
      (r : Exceptional AsyncError (Unit {0})) (t : S) (k l : Effect S)
      (answer : Exceptional AsyncError (Unit {0}) × S) (u : S)
      → after_result r (λ _. k) t ≡ (ok tt, u)
      → ((v : S) → k v ≡ (ok tt, u) → l v ≡ answer)
      → after_result r (λ _. l) t ≡ answer
  after_ok (ok _) t k l answer u e h = h t e
  after_ok (err x) t k l answer u e h = absurd (ground arith)

  run_all-append :
      (fs gs : List (Effect S)) (s u : S)
      → run_all fs s ≡ (ok tt, u)
      → run_all (fs ++ gs) s ≡ run_all gs u
  unfolding run_all
  run_all-append [] gs s u e = ap (λ p. run_all gs p.1) e
  run_all-append (f ∷ fs) gs s u e =
      after_ok (f s).0 (f s).1 (run_all fs) (run_all (fs ++ gs)) (run_all gs u) u e
        (λ t h. run_all-append fs gs t u h)

  -- Calls without their callers, which a poll changes.
  abbrev pub requests : List (ActiveAsyncRequest S) → List (ℕ × AsyncRequest S)
  requests calls = map (λ c. (c.idx, c.async_request)) calls

  module _ (blocking : Bool) (polls : ℕ → Poll) where
    -- How the loop is stopped in front of the calls `rest` in the state `u`: a wait does not end and
    -- nothing is gone, or the next call is gone and its functions have raised, or they have run and
    -- the ranks do not finalize the same call.
    abbrev pub IsStopped : AsyncError → List (ActiveAsyncRequest S) → S → Left S → Type 0
    IsStopped x rest u left =
        ((x ≡ never_returns) × (blocking ≡ true) × (left.calls ≡ rest) × (left.program ≡ u))
        ⊎ ((c : ActiveAsyncRequest S) × (rest ≡ c ∷ left.calls)
            × ((run_all c.async_request.finalize_fns u ≡ (err x, left.program))
                ⊎ ((run_all c.async_request.finalize_fns u ≡ (ok tt, left.program))
                    × (x ≡ assertion_error)
                    × (((polls c.idx).max_idx == c.idx) ≡ false))))

    -- What the loop is to answer after some calls have been finalized: the calls of a first part of
    -- the list have been finalized, each once and in order, and the others are left; or it was
    -- stopped after such a part.
    abbrev pub IsInOrder :
        List (ActiveAsyncRequest S) → List ℕ → S → Exceptional AsyncError (List ℕ) × Left S → Type 0
    IsInOrder calls finalized s (ok done, left) =
        (first : List (ActiveAsyncRequest S)) × (rest : List (ActiveAsyncRequest S)) × (calls
          ≡ first ++ rest)
        × (done ≡ finalized ++ indices first)
        × (requests left.calls ≡ requests rest)
        × (run_all (functions first) s ≡ (ok tt, left.program))
    IsInOrder calls finalized s (err x, left) =
        (first : List (ActiveAsyncRequest S)) × (rest : List (ActiveAsyncRequest S)) × (u : S)
        × (calls ≡ first ++ rest)
        × (run_all (functions first) s ≡ (ok tt, u))
        × IsStopped x rest u left

    IsInOrder-cons :
        (c : ActiveAsyncRequest S) (cs : List (ActiveAsyncRequest S)) (finalized : List ℕ) (s u : S)
        (r : Exceptional AsyncError (List ℕ) × Left S)
        → run_all c.async_request.finalize_fns s ≡ (ok tt, u)
        → IsInOrder cs (finalized ++ c.idx ∷ []) u r
        → IsInOrder (c ∷ cs) finalized s r
    IsInOrder-cons c cs finalized s u (ok done, left) e (first, rest, split, d, kept, run) = (
      c ∷ first,
      rest,
      ap (λ l. c ∷ l) split,
      d ∙ append_assoc finalized (c.idx ∷ []) (indices first),
      kept,
      run_all-append c.async_request.finalize_fns (functions first) s u e ∙ run,
    )
    IsInOrder-cons c cs finalized s u (err x, left) e (first, rest, v, split, run, stopped) = (
      c ∷ first,
      rest,
      v,
      ap (λ l. c ∷ l) split,
      run_all-append c.async_request.finalize_fns (functions first) s u e ∙ run,
      stopped,
    )

    on_poll-IsInOrder :
        (c : ActiveAsyncRequest S) (cs : List (ActiveAsyncRequest S)) (finalized : List ℕ) (s u : S)
        (p : Option Persistent) (r : Exceptional AsyncError (Unit {0})) (same : Bool)
        (more : Option Persistent → Exceptional AsyncError (List ℕ) × Left S)
        (answer : Option (Bool × Caller × Option Persistent))
        → (answer ≡ none → blocking ≡ true)
        → ((polls c.idx).max_idx == c.idx) ≡ same
        → run_all c.async_request.finalize_fns s ≡ (r, u)
        → ((t : Option Persistent) → IsInOrder cs (finalized ++ c.idx ∷ []) u (more t))
        → IsInOrder (c ∷ cs) finalized s (on_poll c cs finalized s p r u same more answer)
    unfolding run_all
    on_poll-IsInOrder c cs finalized s u p r same more none w i e h =
        ([], c ∷ cs, s, refl, refl, inl (refl, w refl, refl, refl))
    on_poll-IsInOrder c cs finalized s u p r same more (some (false, caller, t)) w i e h =
        ([], c ∷ cs, refl, sym (append-nil finalized), refl, refl)
    on_poll-IsInOrder c cs finalized s u p (err x) same more (some (true, caller, t)) w i e h =
        ([], c ∷ cs, s, refl, refl, inr (c, refl, inl e))
    on_poll-IsInOrder c cs finalized s u p (ok _) false more (some (true, caller, t)) w i e h =
        ([], c ∷ cs, s, refl, refl, inr (c, refl, inr (e, refl, i)))
    on_poll-IsInOrder c cs finalized s u p (ok _) true more (some (true, caller, t)) w i e h =
        IsInOrder-cons c cs finalized s u (more t) e (h t)

  module _ (blocking no_dist : Bool) (polls : ℕ → Poll) where
    finalize_loop-IsInOrder :
        (calls : List (ActiveAsyncRequest S)) (finalized : List ℕ) (s : S) (p : Option Persistent)
        → IsInOrder blocking polls calls finalized s
            (finalize_loop blocking no_dist polls calls finalized s p)
    unfolding finalize_loop run_all
    finalize_loop-IsInOrder [] finalized s p =
        ([], [], refl, sym (append-nil finalized), refl, refl)
    finalize_loop-IsInOrder (c ∷ cs) finalized s p =
        let (r, u) = run_all c.async_request.finalize_fns s in
        on_poll-IsInOrder blocking polls c cs finalized s u p r _ _
          (caller_done blocking no_dist (polls c.idx) c.async_caller p)
          (caller_done-none blocking no_dist (polls c.idx) c.async_caller p) refl refl
          (λ t. finalize_loop-IsInOrder cs (finalized ++ c.idx ∷ []) u t)

    -- However the polls answer, maybe_finalize_async_calls goes through the queue from its front. If
    -- it returns, the queue was a first part and a rest: it returns the indices of the first part,
    -- has run the finalization functions of its calls, each once and in order, and leaves the rest
    -- with its requests in their order. If it does not return normally, it has first run the
    -- functions of a first part so, and then: the functions of the next call raised, or they have
    -- run but the ranks do not finalize the same call, and that call is gone and the others are
    -- left; or it is blocking and the wait for the worker's answer does not end.
    pub maybe_finalize_async_calls-IsInOrder :
        (s : S) (q : AsyncCallsQueue S)
        → let (r, u, t) = maybe_finalize_async_calls blocking no_dist polls s q in
          IsInOrder blocking polls q.async_calls [] s
            (r, record { program = u; calls = t.async_calls; shared_caller = t.persistent_caller })
    unfolding maybe_finalize_async_calls
    maybe_finalize_async_calls-IsInOrder s q =
        finalize_loop-IsInOrder q.async_calls [] s q.persistent_caller
