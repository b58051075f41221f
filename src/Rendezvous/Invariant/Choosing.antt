-- ===== src/Rendezvous/Invariant/Choosing.antt =====
-- On a well-formed state the operations choose permitted actions, and no deadline is missing.
use nvidia_resiliency_ext_x.Prelude.{
  ℕ, ◌+◌, ◌≡◌, ◌≢◌, refl, ◌⊎◌, inl, inr, Bool, true, false, not, ◌&&◌, ◌||◌, Option, none, some,
  arith, eqb, ltb, leb, length, if◌then◌else◌, if-cases, Option-cases,
}
use nvidia_resiliency_ext_x.Prelude.Dict.{get, has}
use nvidia_resiliency_ext_x.Prelude.Keys.{contains}
use nvidia_resiliency_ext_x.Rendezvous.Base.{
  node_eq, WorkerState, unknown, RendezvousState, Action, keep_alive, add_to_participants,
  remove_from_participants, remove_from_wait_list, remove_from_redundancy_list, error_timeout,
  finish, rendezvous_graceful_exit, key_error, Result, ok, err,
}
use nvidia_resiliency_ext_x.Rendezvous.Handlers.{
  Context, is_final_workers_state, should_keep_alive, alive_or_sync, out_of_time, join_redundant,
  join_late, rollback_period, join_completed, check_deadline, join_waiting, join_op,
  action_or_timeout, exit_lists, exit_op, set_worker_state, worker_state_eq, set_workers_state_op,
  close_op, keep_alive_op, Op, join_request, keep_alive_request, close_request, exit_request,
  set_workers_request, handle,
}
use nvidia_resiliency_ext_x.Rendezvous.Invariant.{IsWellFormed, Permits}
use nvidia_resiliency_ext_x.Rendezvous.Invariant.Updates.{worker_states-IsWellFormed}

module _ (c : Context) (s : RendezvousState) where
  abbrev pub Fits : Action → Type 0
  Fits a = Permits a c.node s

  alive_or_sync-Fits : Fits (alive_or_sync c s)
  alive_or_sync-Fits = if-cases Fits (should_keep_alive c s) _ _ (λ e. tt) (λ e. tt)

  join_redundant-Fits : contains c.node s.redundancy_list ≡ true → Fits (join_redundant c s)
  unfolding join_redundant
  join_redundant-Fits here =
      if-cases Fits (eqb (length s.participants) c.settings.max_nodes) _ _ (λ e. alive_or_sync-Fits)
        (λ e.
          if-cases Fits (s.complete && not c.settings.upscaling_enabled) _ _
            (λ k. alive_or_sync-Fits) (λ k. here))

  join_late-Fits : Fits (join_late c s)
  unfolding join_late
  join_late-Fits =
      if-cases Fits (leb c.clock.monotonic (c.op_deadline + rollback_period)) _ _
        (λ e.
          if-cases Fits (has c.node s.participants) _ _ (λ k. k)
            (λ k. if-cases Fits (contains c.node s.wait_list) _ _ (λ l. l) (λ l. tt)))
        (λ e. tt)

  join_completed-Fits : has c.node s.participants ≡ false → Fits (join_completed c s)
  unfolding join_completed
  join_completed-Fits out =
      if-cases Fits
        (ltb (length s.participants) c.settings.max_nodes && c.settings.upscaling_enabled) _ _
        (λ e. if-cases Fits (contains c.node s.wait_list) _ _ (λ k. alive_or_sync-Fits) (λ k. out))
        (λ e.
          if-cases Fits
            (not (contains c.node s.redundancy_list) && not (contains c.node s.wait_list)) _ _
            (λ k. (out, ground arith)) (λ k. alive_or_sync-Fits))

  -- A result is an action that the state permits.
  abbrev pub IsFit : Result Action → Type 0
  IsFit r = (a : Action) × (r ≡ ok a) × Fits a

  check_deadline-IsFit : (o : Option ℕ) → o ≢ none → IsFit (check_deadline c s o)
  unfolding check_deadline
  check_deadline-IsFit none set = absurd (set refl)
  check_deadline-IsFit (some deadline) set = (
    _,
    refl,
    if-cases Fits (ltb deadline c.clock.utcnow_deadline) _ _ (λ e. tt) (λ e. alive_or_sync-Fits),
  )

  join_waiting-IsFit : IsWellFormed c.settings s → s.complete ≡ false → IsFit (join_waiting c s)
  unfolding join_waiting
  join_waiting-IsFit w going =
      if-cases IsFit
        (leb c.settings.min_nodes (length s.participants)
          && leb (length s.participants) c.settings.max_nodes)
        _ _ (λ e. check_deadline-IsFit s.deadline (w.deadline_set going (ground arith)))
        (λ e. (_, refl, alive_or_sync-Fits))

  -- The graceful exit, of a redundant node whose rendezvous is closed.
  abbrev pub IsGraceful : Result Action → Type 0
  IsGraceful r =
      (r ≡ err rendezvous_graceful_exit)
      × (s.closed ≡ true)
      × (contains c.node s.redundancy_list ≡ true)

  join_open-IsFit :
      IsWellFormed c.settings s
      → contains c.node s.redundancy_list ≡ false
      → has c.node s.participants ≡ false ⊎ (s.complete ≡ false)
      → IsFit (
          if out_of_time c
          then ok (join_late c s)
          else if s.complete
          then ok (join_completed c s)
          else if has c.node s.participants
          then join_waiting c s
          else ok add_to_participants)
  join_open-IsFit w spare e =
      if-cases IsFit (out_of_time c) _ _ (λ k. (_, refl, join_late-Fits))
        (λ k.
          if-cases IsFit s.complete _ _ (λ done. (_, refl, join_completed-Fits (ground arith)))
            (λ going.
              if-cases IsFit (has c.node s.participants) _ _ (λ member. join_waiting-IsFit w going)
                (λ out. (_, refl, (going, out, spare)))))

  pub join_op_lem : IsWellFormed c.settings s → IsGraceful (join_op c s) ⊎ IsFit (join_op c s)
  unfolding join_op
  join_op_lem w =
      if-cases (λ r. IsGraceful r ⊎ IsFit r) s.closed _ _
        (λ k.
          if-cases (λ r. IsGraceful r ⊎ IsFit r) (contains c.node s.redundancy_list) _ _
            (λ here. inl (refl, k, here)) (λ away. inr (_, refl, tt)))
        (λ k. inr (
          if-cases IsFit (contains c.node s.redundancy_list) _ _
            (λ here. (_, refl, join_redundant-Fits here))
            (λ spare.
              if-cases IsFit (s.complete && has c.node s.participants) _ _ (λ e. (_, refl, tt))
                (λ e. join_open-IsFit w spare (ground arith)))))

  action_or_timeout-Fits : (a : Action) → Fits a → Fits (action_or_timeout c a)
  unfolding action_or_timeout
  action_or_timeout-Fits a h = if-cases Fits (out_of_time c) _ _ (λ e. tt) (λ e. h)

  exit_lists-Fits : (all : Bool) → Fits (exit_lists all c s)
  unfolding exit_lists
  exit_lists-Fits all =
      if-cases Fits (has c.node s.participants) _ _
        (λ e. action_or_timeout-Fits remove_from_participants e)
        (λ e.
          if-cases Fits (all && contains c.node s.redundancy_list) _ _
            (λ k. action_or_timeout-Fits remove_from_redundancy_list (ground arith))
            (λ k.
              if-cases Fits (all && contains c.node s.wait_list) _ _
                (λ l. action_or_timeout-Fits remove_from_wait_list (ground arith)) (λ l. tt)))

-- What a handler may return: the state is well formed; an action is permitted there, and an error
-- is the graceful exit or the missing worker state of `_SetWorkersStateOp`.
pub record IsChosen (c : Context) (r : Result Action × RendezvousState) : Type 0 where
  pub well_formed : IsWellFormed c.settings r.1
  pub outcome :
      ((r.0 ≡ err rendezvous_graceful_exit) ⊎ (r.0 ≡ err key_error))
      ⊎ ((a : Action) × (r.0 ≡ ok a) × Permits a c.node r.1)

module _ (c : Context) (s : RendezvousState) (w : IsWellFormed c.settings s) where
  fit-IsChosen : (a : Action) → Permits a c.node s → IsChosen c (ok a, s)
  fit-IsChosen a h = record { well_formed = w; outcome = inr (a, refl, h) }

  written-IsChosen : (v : WorkerState) → IsChosen c (ok keep_alive, set_worker_state c.node v s)
  written-IsChosen v = record {
    well_formed = worker_states-IsWellFormed c.settings s _ w;
    outcome = inr (_, refl, tt);
  }

  join-IsChosen : (r : Result Action) → IsGraceful c s r ⊎ IsFit c s r → IsChosen c (r, s)
  join-IsChosen r (inl e) = record { well_formed = w; outcome = inl (inl e.0) }
  join-IsChosen r (inr e) = record { well_formed = w; outcome = inr e }

  exit-IsChosen : (all : Bool) → IsChosen c (exit_op all c s)
  unfolding exit_op
  exit-IsChosen all = elim (Option-cases (get c.node s.worker_states)) [
    | inl missing ↦ rw (exit_op, missing) (fit-IsChosen _ (exit_lists-Fits c s all))
    | inr (v, found) ↦
        rw (exit_op, found)
          (if-cases (IsChosen c) (is_final_workers_state v) _ _
            (λ e. fit-IsChosen _ (exit_lists-Fits c s all)) (λ e. written-IsChosen unknown))
  ]

  set_workers-IsChosen : (target : WorkerState) → IsChosen c (set_workers_state_op target c s)
  unfolding set_workers_state_op
  set_workers-IsChosen target = elim (Option-cases (get c.node s.worker_states)) [
    | inl missing ↦
        rw (set_workers_state_op, missing) (record { well_formed = w; outcome = inl (inr refl) })
    | inr (v, found) ↦
        rw (set_workers_state_op, found)
          (if-cases (IsChosen c) (worker_state_eq v target || is_final_workers_state v) _ _
            (λ e. fit-IsChosen finish tt)
            (λ e.
              if-cases (IsChosen c) (out_of_time c) _ _ (λ k. fit-IsChosen error_timeout tt)
                (λ k. written-IsChosen target)))
  ]

  close-Fits : Fits c s (close_op c s)
  unfolding close_op
  close-Fits =
      if-cases (Fits c s) s.closed _ _ (λ e. tt)
        (λ e. if-cases (Fits c s) (out_of_time c) _ _ (λ k. tt) (λ k. tt))

  keep_alive-Fits : Fits c s (keep_alive_op c s)
  unfolding keep_alive_op
  keep_alive-Fits =
      if-cases (Fits c s) (should_keep_alive c s) _ _
        (λ e. if-cases (Fits c s) (out_of_time c) _ _ (λ k. tt) (λ k. tt)) (λ e. tt)

  -- Every operation, on a well-formed state.
  pub handle-IsChosen : (op : Op) → IsChosen c (handle op c s)
  unfolding handle
  handle-IsChosen join_request = join-IsChosen (join_op c s) (join_op_lem c s w)
  handle-IsChosen keep_alive_request = fit-IsChosen (keep_alive_op c s) keep_alive-Fits
  handle-IsChosen close_request = fit-IsChosen (close_op c s) close-Fits
  handle-IsChosen (exit_request all) = exit-IsChosen all
  handle-IsChosen (set_workers_request target) = set_workers-IsChosen target
