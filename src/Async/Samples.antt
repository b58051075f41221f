-- ===== src/Async/Samples.antt =====
-- A queue of two calls, a trainer with its worker, and the theorems at them.
use nvidia_resiliency_ext_x.Prelude.{
  ℕ, ◌+◌, true, false, not, ◌≡◌, refl, none, some, List, [], ◌∷◌, ◌++◌,
}
use nvidia_resiliency_ext_x.Prelude.Eq.{◌==◌, number_keys}
use nvidia_resiliency_ext_x.Prelude.Method.{ok, err, ◌>>=◌}
use nvidia_resiliency_ext_x.Async.Request.{type_error, Effect, AsyncRequest, freeze, run_all}
use nvidia_resiliency_ext_x.Async.Callers.{Poll, temporal, shared, temporal_done, caller_done}
use nvidia_resiliency_ext_x.Async.Queue.{
  AsyncCallsQueue, enqueue, get_async_caller, found_caller, schedule_from, schedule_async_request,
  finalize_loop, maybe_finalize_async_calls,
}
use nvidia_resiliency_ext_x.Async.Ordering.{
  indices, IsInOrder, maybe_finalize_async_calls-IsInOrder,
}
use nvidia_resiliency_ext_x.Async.Blocking.{maybe_finalize_async_calls-blocking}
use nvidia_resiliency_ext_x.Async.Worker.{
  Protocol, new_protocol, schedule_async_call, schedule, take, request, take_item, Reach, here,
  next,
}
use nvidia_resiliency_ext_x.Async.Orderly.{IsOrderly}
use nvidia_resiliency_ext_x.Async.Protocol.{Reach-IsOrderly}
use nvidia_resiliency_ext_x.Async.Joining.{after_join, Reach-after_join}

-- The program's state is a list of what has run.
abbrev note : ℕ → Effect (List ℕ)
note k log = (ok tt, log ++ k ∷ [])

abbrev noting : ℕ → AsyncRequest (List ℕ)
noting k = record {
  async_fn = some (note k);
  finalize_fns = note k ∷ note (k + 1) ∷ [];
  has_preload = false;
  is_frozen = false;
  call_idx = 0;
}

abbrev empty_queue : AsyncCallsQueue (List ℕ)
empty_queue = record {
  async_calls = [];
  next_idx = 0;
  persistent = false;
  persistent_caller = none;
}

abbrev two_calls : AsyncCallsQueue (List ℕ)
two_calls = record empty_queue {
  async_calls =
      record { idx = 0; async_caller = temporal true; async_request = noting 10 }
      ∷ record { idx = 1; async_caller = temporal true; async_request = noting 20 }
      ∷ [];
  next_idx = 2;
}

-- The call of the first index is done on all ranks, the second is not.
abbrev first_done : ℕ → Poll
first_done i = record {
  alive = i == 1;
  sync_all_async_calls = not;
  comp_q = none ∷ some i ∷ [];
  max_idx = i;
}

-- Both calls with the shared caller, whose worker runs.
abbrev shared_calls : AsyncCallsQueue (List ℕ)
shared_calls = record empty_queue {
  async_calls =
      record { idx = 0; async_caller = shared; async_request = noting 10 }
      ∷ record { idx = 1; async_caller = shared; async_request = noting 20 }
      ∷ [];
  next_idx = 2;
  persistent = true;
  persistent_caller = some (record { process = true; cur_item = none });
}

schedule_raises : (schedule_async_request (noting 10) empty_queue).0 ≡ err type_error
unfolding schedule_async_request schedule_from
schedule_raises = refl

schedule_twice :
    indices
      ((schedule_from found_caller (noting 10) >>= λ _. schedule_from found_caller (noting 20))
        empty_queue).1.async_calls
    ≡ 0 ∷ 1 ∷ []
unfolding schedule_from get_async_caller enqueue freeze
schedule_twice = refl

finalizes_first : (maybe_finalize_async_calls false false first_done [] two_calls).1 ≡ 10 ∷ 11 ∷ []
unfolding maybe_finalize_async_calls finalize_loop run_all caller_done temporal_done
finalizes_first = refl

maybe_finalize_async_calls-IsInOrder_example :
    let (r, u, t) = maybe_finalize_async_calls false false first_done [] two_calls in
    IsInOrder false first_done two_calls.async_calls [] []
      (r, record { program = u; calls = t.async_calls; shared_caller = t.persistent_caller })
maybe_finalize_async_calls-IsInOrder_example =
    maybe_finalize_async_calls-IsInOrder false false first_done [] two_calls

maybe_finalize_async_calls-blocking_example :
    (t : AsyncCallsQueue (List ℕ)) × (maybe_finalize_async_calls true false first_done []
        shared_calls
      ≡ (ok (0 ∷ 1 ∷ []), 10 ∷ 11 ∷ 20 ∷ 21 ∷ [], t))
    × (t.async_calls ≡ [])
    × (t.next_idx ≡ 2)
unfolding run_all
maybe_finalize_async_calls-blocking_example =
    maybe_finalize_async_calls-blocking false first_done (λ i. refl) [] (10 ∷ 11 ∷ 20 ∷ 21 ∷ [])
      shared_calls (λ e. tt, (λ e. tt, tt)) (refl, (refl, tt)) refl

-- One request with a preload, which the worker has taken.
abbrev scheduled_one : Protocol
scheduled_one = schedule_async_call 0 true new_protocol

abbrev taken_one : Protocol
taken_one = take_item (request 0 true) [] scheduled_one

taken_one-Reach : Reach new_protocol taken_one
unfolding schedule_async_call
taken_one-Reach = next (next here (schedule 0 true refl)) (take (request 0 true) [] refl refl)

Reach-IsOrderly_example : IsOrderly taken_one
Reach-IsOrderly_example = Reach-IsOrderly taken_one-Reach

Reach-after_join_example :
    (q : Protocol) × Reach taken_one q
    × (q.trainer ≡ after_join taken_one.trainer)
    × (q.scheduled ≡ taken_one.scheduled)
    × (taken_one.scheduled ≡ q.reported ++ q.comp_q)
unfolding schedule_async_call take_item
Reach-after_join_example = Reach-after_join taken_one-Reach refl
