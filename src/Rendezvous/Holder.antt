-- ===== src/Rendezvous/Holder.antt =====
-- `_BackendRendezvousStateHolder` of fault_tolerance/_ft_rendezvous.py: how a node reads and writes
-- the state that the backend holds, and how it drops the nodes that have no heartbeat. The backend
-- and `pickle` are parameters; the documented compare-and-set of the backend is stated as its laws.
use nvidia_resiliency_ext_x.Prelude.{
  ℕ, zero, suc, ◌+◌, ◌-◌, ◌*◌, ◌≡◌, ◌⊎◌, Bool, true, false, Option, none, some, List, [], ◌∷◌, leb,
  ltb, if◌then◌else◌,
}
use nvidia_resiliency_ext_x.Prelude.Dict.{Dict, get, has, put, without}
use nvidia_resiliency_ext_x.Prelude.Keys.{discard}
use nvidia_resiliency_ext_x.Rendezvous.Base.{
  NodeDesc, node_eq, WorkerState, unknown, RendezvousSettings, RendezvousState, initial_state,
  rendezvous_state, Result, ok, err,
}
use nvidia_resiliency_ext_x.Rendezvous.Actions.{remove_participant_epilogue}
use nvidia_resiliency_ext_x.Rendezvous.Handlers.{is_final_workers_state}

-- `RendezvousBackend` and `pickle`: bytes, fencing tokens, and a store with its two operations.
pub record Backend : Type 1 where
  pub Bytes : Type 0
  pub Token : Type 0
  pub Store : Type 0
  pub dumps : RendezvousState → Bytes
  pub loads : Bytes → Option RendezvousState
  pub held : Store → Option Bytes
  pub get_state : Store → Option (Bytes × Token)
  pub set_state : Bytes → Option Token → Store → Option (Bytes × Token × Bool) × Store

-- What the documentation of the two operations promises, as far as the code relies on it.
pub record IsFencing (b : Backend) : Type 0 where
  pub loads-dumps : (s : RendezvousState) → b.loads (b.dumps s) ≡ some s
  pub read :
      (t : b.Store) (v : b.Bytes) (k : b.Token) → b.get_state t ≡ some (v, k) → b.held t ≡ some v
  pub written :
      (v : b.Bytes) (k : Option b.Token) (t : b.Store)
      → (b.held (b.set_state v k t).1 ≡ some v) ⊎ (b.held (b.set_state v k t).1 ≡ b.held t)
  pub returned :
      (v : b.Bytes) (k : Option b.Token) (t : b.Store) (r : b.Bytes × b.Token × Bool)
      → (b.set_state v k t).0 ≡ some r
      → b.held (b.set_state v k t).1 ≡ some r.0

-- The nodes whose last heartbeat lies before the expiry time, with the time allowed on the left.
unfoldable pub dead_nodes : ℕ → ℕ → Dict NodeDesc ℕ → List NodeDesc
dead_nodes now allowed [] = []
dead_nodes now allowed ((n, last) ∷ d) =
    let rest = dead_nodes now allowed d in if ltb (last + allowed) now then n ∷ rest else rest

-- What `_sanitize` does to the worker state of a dead node.
unfoldable pub lose_worker :
    NodeDesc → Option WorkerState → Dict NodeDesc WorkerState → Dict NodeDesc WorkerState
lose_worker n none ws = ws
lose_worker n (some w) ws = if is_final_workers_state w then ws else put n unknown ws

-- The body of the loop over the dead nodes.
unfoldable pub remove_dead : NodeDesc → RendezvousState → RendezvousState
remove_dead n s = record s {
  last_heartbeats = without n s.last_heartbeats;
  participants = without n s.participants;
  wait_list = discard n s.wait_list;
  redundancy_list = discard n s.redundancy_list;
  worker_states = lose_worker n (get n s.worker_states) s.worker_states;
}

-- The loop: the state, and `participant_removed`.
unfoldable pub remove_all_dead : List NodeDesc → RendezvousState × Bool → RendezvousState × Bool
remove_all_dead [] r = r
remove_all_dead (n ∷ dead) (s, removed) =
    remove_all_dead dead (remove_dead n s, if has n s.participants then true else removed)

abbrev pub allowed_silence : RendezvousSettings → ℕ
allowed_silence settings = settings.keep_alive_interval * settings.keep_alive_max_attempt

-- `_sanitize`
unfoldable pub sanitize : RendezvousSettings → ℕ → RendezvousState → RendezvousState
sanitize settings now s =
    let dead = dead_nodes now (allowed_silence settings) s.last_heartbeats in
    let r = remove_all_dead dead (s, false) in
    if r.1 then remove_participant_epilogue settings r.0 else r.0

-- The readings of the clocks in `sync`.
pub record SyncClock : Type 0 where
  pub monotonic : ℕ
  pub synced_at : ℕ
  pub utcnow : ℕ

module _ (b : Backend) where
  open b use {Bytes, Token, Store, dumps, loads, get_state, set_state}

  -- The fields of the holder less its state. `last_sync_time` is `none` for -1.
  pub record Holder : Type 0 where
    pub token : Option Token
    pub dirty : Bool
    pub last_sync_time : Option ℕ

  -- `_last_sync_time >= max(time.monotonic() - cache_duration, 0)` for a positive duration.
  unfoldable pub serves_cached : ℕ → ℕ → Option ℕ → Bool
  serves_cached cache_duration now none = false
  serves_cached zero now (some last) = false
  serves_cached (suc d) now (some last) = leb (now - suc d) last

  -- The state that a reply of the backend stands for.
  unfoldable pub loaded : Option Bytes → Result RendezvousState
  loaded none = ok initial_state
  loaded (some v) = elim (loads v) [ none ↦ err rendezvous_state | some s ↦ ok s ]

  -- What `sync` works on: the holder, the state that it shares with the executor, the backend.
  pub record Synced : Type 0 where
    pub holder : Holder
    pub state : RendezvousState
    pub store : Store

  -- The end of `sync`, from the reply of the backend.
  unfoldable pub take_reply :
      RendezvousSettings
      → SyncClock
      → Option Bytes
      → Option Token
      → Option Bool
      → Synced
      → Result (Option Bool) × Synced
  unfolding sanitize
  take_reply settings clock bits token has_set y = elim (loaded bits) [
    | err x ↦ (err x, y)
    | ok s ↦ (
      ok has_set,
      record y {
        holder = record { token = token; dirty = false; last_sync_time = some clock.synced_at };
        state = sanitize settings clock.utcnow s;
      },
    )
  ]

  -- The reply of `set_state`. Where there is none, the bytes are still those that were to be written.
  unfoldable pub take_set_reply :
      RendezvousSettings
      → SyncClock
      → Option (Bytes × Token × Bool)
      → Synced
      → Result (Option Bool) × Synced
  unfolding take_reply
  take_set_reply settings clock none y =
      take_reply settings clock (some (dumps y.state)) none (some false) y
  take_set_reply settings clock (some (v, k, has_set)) y =
      take_reply settings clock (some v) (some k) (some has_set) y

  unfoldable pub take_get_reply :
      RendezvousSettings
      → SyncClock
      → Option (Bytes × Token)
      → Synced
      → Result (Option Bool) × Synced
  unfolding take_reply
  take_get_reply settings clock none = take_reply settings clock none none none
  take_get_reply settings clock (some (v, k)) = take_reply settings clock (some v) (some k) none

  -- `sync`; the result `ok none` is Python's `None`.
  unfoldable pub sync_state :
      RendezvousSettings → ℕ → SyncClock → Synced → Result (Option Bool) × Synced
  unfolding take_set_reply take_get_reply
  sync_state settings cache_duration clock y =
      if y.holder.dirty
      then (let (reply, store) = set_state (dumps y.state) y.holder.token y.store in
          take_set_reply settings clock reply (record y { store = store }))
      else if serves_cached cache_duration clock.monotonic y.holder.last_sync_time
      then (ok none, y)
      else take_get_reply settings clock (get_state y.store) y
