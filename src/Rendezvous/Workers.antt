-- ===== src/Rendezvous/Workers.antt =====
-- Final worker states in fault_tolerance/_ft_rendezvous.py: what an operation's callable and the
-- removal of dead nodes do with them. Workers/Rounds has what a round does, its action included.
pub mod Early
pub mod Rounds
use nvidia_resiliency_ext_x.Prelude.{
  ℕ, ◌≡◌, refl, ◌⊎◌, inl, inr, Bool, true, false, ◌||◌, Option, none, some, List, [], ◌∷◌, arith,
  if-cases, Option-cases,
}
use nvidia_resiliency_ext_x.Prelude.Eq.{==_iff, eq_self}
use nvidia_resiliency_ext_x.Prelude.Dict.{Dict, get, get-put}
use nvidia_resiliency_ext_x.Rendezvous.Base.{
  NodeDesc, node_eq, WorkerState, unknown, RendezvousSettings, RendezvousState, Action, keep_alive,
  finish, Result, ok,
}
use nvidia_resiliency_ext_x.Rendezvous.Actions.{remove_participant_epilogue}
use nvidia_resiliency_ext_x.Rendezvous.Handlers.{
  Context, is_final_workers_state, out_of_time, set_worker_state, exit_op, worker_state_eq,
  set_workers_state_op, Op, join_request, keep_alive_request, close_request, exit_request,
  set_workers_request, handle,
}
use nvidia_resiliency_ext_x.Rendezvous.Holder.{
  dead_nodes, lose_worker, remove_dead, remove_all_dead, allowed_silence, sanitize,
}

-- Node `m` has the final worker state `w`.
module _ (m : NodeDesc) (w : WorkerState) (final : is_final_workers_state w ≡ true) where
  abbrev Holds : RendezvousState → Type 0
  Holds s = get m s.worker_states ≡ some w

  -- A worker state that is not final is another node's.
  write-Holds :
      (n : NodeDesc) (v u : WorkerState) (s : RendezvousState)
      → get n s.worker_states ≡ some v
      → is_final_workers_state v ≡ false
      → Holds s
      → Holds (set_worker_state n u s)
  write-Holds n v u s found live h = ground (arith, get-put m n u s.worker_states, ==_iff n m)

  exit-Holds :
      (all : Bool) (c : Context) (s : RendezvousState) → Holds s → Holds (exit_op all c s).1
  exit-Holds all c s h = elim (Option-cases (get c.node s.worker_states)) [
    | inl missing ↦ unfold exit_op in rw (exit_op, missing) h
    | inr (v, found) ↦
        unfold exit_op in
        rw (exit_op, found)
          (if-cases {A = Result Action × RendezvousState} (λ r. Holds r.1)
            (is_final_workers_state v) _ _ (λ e. h) (λ e. write-Holds c.node v unknown s found e h))
  ]

  set_workers-Holds :
      (target : WorkerState) (c : Context) (s : RendezvousState)
      → Holds s
      → Holds (set_workers_state_op target c s).1
  set_workers-Holds target c s h = elim (Option-cases (get c.node s.worker_states)) [
    | inl missing ↦ unfold set_workers_state_op in rw (set_workers_state_op, missing) h
    | inr (v, found) ↦
        unfold set_workers_state_op in
        rw (set_workers_state_op, found)
          (if-cases {A = Result Action × RendezvousState} (λ r. Holds r.1)
            (worker_state_eq v target || is_final_workers_state v) _ _ (λ e. h)
            (λ e.
              if-cases {A = Result Action × RendezvousState} (λ r. Holds r.1) (out_of_time c) _ _
                (λ k. h) (λ k. write-Holds c.node v target s found (ground arith) h)))
  ]

  -- The callable of no operation of any node changes a final worker state.
  pub handle-keeps_final :
      (op : Op) (c : Context) (s : RendezvousState)
      → get m s.worker_states ≡ some w
      → get m (handle op c s).1.worker_states ≡ some w
  unfolding handle
  handle-keeps_final join_request c s h = h
  handle-keeps_final keep_alive_request c s h = h
  handle-keeps_final close_request c s h = h
  handle-keeps_final (exit_request all) c s h = exit-Holds all c s h
  handle-keeps_final (set_workers_request target) c s h = set_workers-Holds target c s h

  lose_worker-keeps :
      (n : NodeDesc) (o : Option WorkerState) (ws : Dict NodeDesc WorkerState)
      → get n ws ≡ o
      → get m ws ≡ some w
      → get m (lose_worker n o ws) ≡ some w
  unfolding lose_worker
  lose_worker-keeps n none ws e h = h
  lose_worker-keeps n (some v) ws e h = ground (arith, get-put m n unknown ws, ==_iff n m)

  remove_all_dead-keeps :
      (dead : List NodeDesc) (s : RendezvousState) (removed : Bool)
      → Holds s
      → Holds (remove_all_dead dead (s, removed)).0
  unfolding remove_all_dead remove_dead
  remove_all_dead-keeps [] s removed h = h
  remove_all_dead-keeps (n ∷ dead) s removed h =
      remove_all_dead-keeps dead (remove_dead n s) _
        (lose_worker-keeps n (get n s.worker_states) s.worker_states refl h)

  -- The removal of dead nodes changes no final worker state either, that of a dead node included.
  pub sanitize-keeps_final :
      (settings : RendezvousSettings) (now : ℕ) (s : RendezvousState)
      → get m s.worker_states ≡ some w
      → get m (sanitize settings now s).worker_states ≡ some w
  unfolding sanitize remove_participant_epilogue
  sanitize-keeps_final settings now s h = ground (
    arith,
    remove_all_dead-keeps (dead_nodes now (allowed_silence settings) s.last_heartbeats) s false h,
  )

worker_state_eq-eq : (v w : WorkerState) → worker_state_eq v w ≡ true → v ≡ w
unfolding worker_state_eq
worker_state_eq-eq v w h = ground arith

-- `_SetWorkersStateOp` ends only when it reads the target or another final state, and the state
-- that it writes otherwise is the target.
pub set_workers-finish :
    (target : WorkerState) (c : Context) (s : RendezvousState)
    → let r = set_workers_state_op target c s in
      (r.0 ≡ ok finish
        → (w : WorkerState) × (get c.node s.worker_states ≡ some w)
          × ((w ≡ target) ⊎ (is_final_workers_state w ≡ true)))
      × (r.0 ≡ ok keep_alive → get c.node r.1.worker_states ≡ some target)
unfolding set_workers_state_op
set_workers-finish target c s = elim (Option-cases (get c.node s.worker_states)) [
  | inl missing ↦ rw (set_workers_state_op, missing) (λ e. cc, λ e. cc)
  | inr (v, found) ↦
      rw (set_workers_state_op, found)
        (
          λ e. (v, refl, ground (arith, worker_state_eq-eq v target)),
          λ e. ground (arith, get-put c.node c.node target s.worker_states, eq_self c.node),
        )
]
