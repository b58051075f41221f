-- ===== src/Rendezvous/Exiting.antt =====
-- Leaving a rendezvous (`_RendezvousExitOp` with `remove_from_all`) in
-- fault_tolerance/_ft_rendezvous.py comes to an end: each action brings the node nearer to it.
use nvidia_resiliency_ext_x.Prelude.{
  ℕ, ◌+◌, ◌<◌, ◌≡◌, refl, inl, inr, Bool, true, false, not, Option, none, some, arith, Bool-cases,
  Option-cases,
}
use nvidia_resiliency_ext_x.Prelude.Eq.{eq_self}
use nvidia_resiliency_ext_x.Prelude.Dict.{get, has, get-put, has-without}
use nvidia_resiliency_ext_x.Prelude.Keys.{contains, contains-discard}
use nvidia_resiliency_ext_x.Rendezvous.Base.{
  NodeDesc, node_eq, WorkerState, unknown, RendezvousSettings, RendezvousState, Action, keep_alive,
  remove_from_participants, remove_from_wait_list, remove_from_redundancy_list, finish, Result, ok,
}
use nvidia_resiliency_ext_x.Rendezvous.Actions.{
  Executor, ActionInputs, beat, act_remove_from_participants, act_remove_from_wait_list,
  act_remove_from_redundancy_list, perform,
}
use nvidia_resiliency_ext_x.Rendezvous.Handlers.{
  Context, is_final_workers_state, out_of_time, set_worker_state, action_or_timeout, exit_lists,
  exit_op,
}
use nvidia_resiliency_ext_x.Rendezvous.Invariant.{IsPlaced}

abbrev one_if : Bool → ℕ
one_if true = 1
one_if false = 0

abbrev live_worker : Option WorkerState → Bool
live_worker none = false
live_worker (some w) = not (is_final_workers_state w)

-- How far node `n` is from having left: its worker state is not final, and the lists that hold it.
pub exit_distance : NodeDesc → RendezvousState → ℕ
exit_distance n s =
    one_if (live_worker (get n s.worker_states))
    + one_if (has n s.participants)
    + one_if (contains n s.redundancy_list)
    + one_if (contains n s.wait_list)

-- What one round of leaving achieves: it ends with the node gone, or its action succeeds and
-- brings the node nearer.
pub data Progress (settings : RendezvousSettings) (inputs : ActionInputs) (x : Executor)
    (n : NodeDesc) (r : Result Action × RendezvousState) : Type 0 where
  left : r.0 ≡ ok finish → exit_distance n r.1 ≡ 0 → Progress settings inputs x n r
  nearer :
      (a : Action)
      → r.0 ≡ ok a
      → (perform settings n inputs a (record x { state = r.1 })).0 ≡ ok tt
      → exit_distance n (perform settings n inputs a (record x { state = r.1 })).1.state
        < exit_distance n x.state
      → Progress settings inputs x n r

module _ (settings : RendezvousSettings) (inputs : ActionInputs) (c : Context) (x : Executor)
    (p : IsPlaced c.node x.state) (on_time : out_of_time c ≡ false) where
  distance-leave_participants :
      has c.node x.state.participants ≡ true
      → ((perform settings c.node inputs remove_from_participants x).0 ≡ ok tt)
        × (exit_distance c.node (perform settings c.node inputs remove_from_participants x).1.state
            < exit_distance c.node x.state)
  unfolding perform act_remove_from_participants exit_distance
  distance-leave_participants here = ground (
    arith,
    p.participant_alive here,
    has-without c.node c.node x.state.participants,
    eq_self c.node,
  )

  distance-leave_redundancy :
      contains c.node x.state.redundancy_list ≡ true
      → ((perform settings c.node inputs remove_from_redundancy_list x).0 ≡ ok tt)
        × (exit_distance c.node
              (perform settings c.node inputs remove_from_redundancy_list x).1.state
            < exit_distance c.node x.state)
  unfolding perform act_remove_from_redundancy_list exit_distance
  distance-leave_redundancy here = ground (
    arith,
    p.redundant_alive here,
    contains-discard c.node c.node x.state.redundancy_list,
    eq_self c.node,
  )

  distance-leave_wait :
      contains c.node x.state.wait_list ≡ true
      → ((perform settings c.node inputs remove_from_wait_list x).0 ≡ ok tt)
        × (exit_distance c.node (perform settings c.node inputs remove_from_wait_list x).1.state
            < exit_distance c.node x.state)
  unfolding perform act_remove_from_wait_list exit_distance
  distance-leave_wait here = ground (
    arith,
    p.waiting_alive here,
    contains-discard c.node c.node x.state.wait_list,
    eq_self c.node,
  )

  distance-lose_worker :
      (w : WorkerState)
      → get c.node x.state.worker_states ≡ some w
      → is_final_workers_state w ≡ false
      → let y = record x { state = set_worker_state c.node unknown x.state } in
        ((perform settings c.node inputs keep_alive y).0 ≡ ok tt)
        × (exit_distance c.node (perform settings c.node inputs keep_alive y).1.state
            < exit_distance c.node x.state)
  unfolding perform exit_distance beat is_final_workers_state
  distance-lose_worker w found live =
      ground (arith, get-put c.node c.node unknown x.state.worker_states, eq_self c.node)

  exit_lists-Progress :
      live_worker (get c.node x.state.worker_states) ≡ false
      → Progress settings inputs x c.node (ok (exit_lists true c x.state), x.state)
  unfolding exit_lists action_or_timeout exit_distance
  exit_lists-Progress idle = elim (Bool-cases (has c.node x.state.participants)) [
    | inl here ↦
        let d = distance-leave_participants here in
        nearer remove_from_participants (ground arith) d.0 d.1
    | inr out ↦ elim (Bool-cases (contains c.node x.state.redundancy_list)) [
      | inl here ↦
          let d = distance-leave_redundancy here in
          nearer remove_from_redundancy_list (ground arith) d.0 d.1
      | inr spare ↦ elim (Bool-cases (contains c.node x.state.wait_list)) [
        | inl here ↦
            let d = distance-leave_wait here in nearer remove_from_wait_list (ground arith) d.0 d.1
        | inr gone ↦ left (ground arith) (ground arith)
      ]
    ]
  ]

  -- Before its deadline, at a node that stands in at most one list and has a heartbeat there, an
  -- operation that leaves everything either finishes with the node in no list and without a live
  -- worker state, or its action succeeds and makes the number of lists and live worker states to
  -- leave smaller.
  pub exit_op-Progress : Progress settings inputs x c.node (exit_op true c x.state)
  unfolding exit_op
  exit_op-Progress = elim (Option-cases (get c.node x.state.worker_states)) [
    | inl missing ↦ rw (exit_op, missing) (exit_lists-Progress (ground arith))
    | inr (w, found) ↦ elim (Bool-cases (is_final_workers_state w)) [
      | inl final ↦ rw (exit_op, found, final) (exit_lists-Progress (ground arith))
      | inr live ↦
          rw (exit_op, found, live)
            (let d = distance-lose_worker w found live in nearer keep_alive refl d.0 d.1)
    ]
  ]
