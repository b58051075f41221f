-- ===== src/Rendezvous/Safety/Syncing.antt =====
-- `sync` leaves well-formed states at the node and in the backend.
use nvidia_resiliency_ext_x.Prelude.{
  ℕ, ◌≡◌, refl, sym, subst, ◌∙◌, inl, inr, Bool, false, Option, none, some, List, [], ◌∷◌, if-cases,
}
use nvidia_resiliency_ext_x.Rendezvous.Base.{
  NodeDesc, node_eq, RendezvousSettings, RendezvousState, initial_state, Result, ok,
}
use nvidia_resiliency_ext_x.Rendezvous.Holder.{
  Backend, IsFencing, dead_nodes, remove_dead, remove_all_dead, allowed_silence, sanitize,
  SyncClock, serves_cached, loaded, Synced, take_reply, take_set_reply, take_get_reply, sync_state,
}
use nvidia_resiliency_ext_x.Rendezvous.Invariant.{
  AreValid, IsWellFormed, initial_state-IsWellFormed,
}
use nvidia_resiliency_ext_x.Rendezvous.Invariant.Updates.{worker_states-IsWellFormed}
use nvidia_resiliency_ext_x.Rendezvous.Invariant.Removal.{
  remove_node, remove_node-IsWellFormed, epilogue-IsWellFormed,
}

remove_dead-IsWellFormed :
    (settings : RendezvousSettings) (n : NodeDesc) (s : RendezvousState)
    → IsWellFormed settings s
    → IsWellFormed settings (remove_dead n s)
unfolding remove_dead
remove_dead-IsWellFormed settings n s w =
    worker_states-IsWellFormed settings (remove_node n s) _
      (remove_node-IsWellFormed settings n s w)

remove_all_dead-IsWellFormed :
    (settings : RendezvousSettings) (dead : List NodeDesc) (s : RendezvousState) (removed : Bool)
    → IsWellFormed settings s
    → IsWellFormed settings (remove_all_dead dead (s, removed)).0
unfolding remove_all_dead
remove_all_dead-IsWellFormed settings [] s removed w = w
remove_all_dead-IsWellFormed settings (n ∷ dead) s removed w =
    remove_all_dead-IsWellFormed settings dead (remove_dead n s) _
      (remove_dead-IsWellFormed settings n s w)

pub sanitize-IsWellFormed :
    (settings : RendezvousSettings) (now : ℕ) (s : RendezvousState)
    → AreValid settings
    → IsWellFormed settings s
    → IsWellFormed settings (sanitize settings now s)
unfolding sanitize
sanitize-IsWellFormed settings now s v w =
    let dead = dead_nodes now (allowed_silence settings) s.last_heartbeats in
    let swept = remove_all_dead-IsWellFormed settings dead s false w in
    if-cases (IsWellFormed settings) (remove_all_dead dead (s, false)).1 _ _
      (λ e. epilogue-IsWellFormed settings _ v swept) (λ e. swept)

module _ (b : Backend) (settings : RendezvousSettings) where
  -- Bytes that stand for a well-formed state.
  abbrev pub AreGood : b.Bytes → Type 0
  AreGood v = (s : RendezvousState) × (b.loads v ≡ some s) × IsWellFormed settings s

  -- Whatever the backend holds stands for a well-formed state.
  abbrev pub IsStored : b.Store → Type 0
  IsStored t = (v : b.Bytes) → b.held t ≡ some v → AreGood v

  pub record IsSynced (r : Result (Option Bool) × Synced b) : Type 0 where
    pub has_set : Option Bool
    pub returns : r.0 ≡ ok has_set
    pub well_formed : IsWellFormed settings r.1.state
    pub stored : IsStored r.1.store

module _ (b : Backend) (settings : RendezvousSettings) (clock : SyncClock)
    (v : AreValid settings) where
  take_reply-none-IsSynced :
      (token : Option b.Token) (has_set : Option Bool) (y : Synced b)
      → IsStored b settings y.store
      → IsSynced b settings (take_reply b settings clock none token has_set y)
  unfolding take_reply loaded
  take_reply-none-IsSynced token has_set y kept = record {
    has_set = has_set;
    returns = refl;
    well_formed =
        sanitize-IsWellFormed settings clock.utcnow initial_state v
          (initial_state-IsWellFormed settings v);
    stored = kept;
  }

  take_reply-some-IsSynced :
      (bytes : b.Bytes) (token : Option b.Token) (has_set : Option Bool) (y : Synced b)
      → AreGood b settings bytes
      → IsStored b settings y.store
      → IsSynced b settings (take_reply b settings clock (some bytes) token has_set y)
  unfolding take_reply loaded
  take_reply-some-IsSynced bytes token has_set y (s, e, w) kept =
      rw (take_reply, loaded, e)
        (record {
          has_set = has_set;
          returns = refl;
          well_formed = sanitize-IsWellFormed settings clock.utcnow s v w;
          stored = kept;
        })

  module _ (f : IsFencing b) where
    -- After a write the backend holds the state that was written, or what it held before.
    set_state-IsStored :
        (s : RendezvousState) (token : Option b.Token) (t : b.Store)
        → IsWellFormed settings s
        → IsStored b settings t
        → IsStored b settings (b.set_state (b.dumps s) token t).1
    set_state-IsStored s token t w kept bytes e = elim (f.written (b.dumps s) token t) [
      | inl own ↦
          let same : b.dumps s ≡ bytes = cc in
          subst (AreGood b settings) same (s, f.loads-dumps s, w)
      | inr old ↦ kept bytes (sym old ∙ e)
    ]

    set_reply-IsSynced :
        (reply : Option (b.Bytes × b.Token × Bool)) (y : Synced b)
        → ((r : b.Bytes × b.Token × Bool) → reply ≡ some r → AreGood b settings r.0)
        → IsWellFormed settings y.state
        → IsStored b settings y.store
        → IsSynced b settings (take_set_reply b settings clock reply y)
    unfolding take_set_reply
    set_reply-IsSynced none y good w kept =
        take_reply-some-IsSynced (b.dumps y.state) none (some false) y
          (y.state, f.loads-dumps y.state, w) kept
    set_reply-IsSynced (some (bytes, k, has_set)) y good w kept =
        take_reply-some-IsSynced bytes (some k) (some has_set) y (good _ refl) kept

    get_reply-IsSynced :
        (reply : Option (b.Bytes × b.Token)) (y : Synced b)
        → ((bytes : b.Bytes) (k : b.Token) → reply ≡ some (bytes, k) → AreGood b settings bytes)
        → IsStored b settings y.store
        → IsSynced b settings (take_get_reply b settings clock reply y)
    unfolding take_get_reply
    get_reply-IsSynced none y good kept = take_reply-none-IsSynced none none y kept
    get_reply-IsSynced (some (bytes, k)) y good kept =
        take_reply-some-IsSynced bytes (some k) none y (good bytes k refl) kept

    -- `sync` does not raise: what it reads was written by a node.
    pub sync_state-IsSynced :
        (cache_duration : ℕ) (y : Synced b)
        → IsWellFormed settings y.state
        → IsStored b settings y.store
        → IsSynced b settings (sync_state b settings cache_duration clock y)
    unfolding sync_state
    sync_state-IsSynced cache_duration y w kept =
        let wrote = b.set_state (b.dumps y.state) y.holder.token y.store in
        let kept' = set_state-IsStored y.state y.holder.token y.store w kept in
        if-cases (IsSynced b settings) y.holder.dirty _ _
          (λ e.
            set_reply-IsSynced wrote.0 (record y { store = wrote.1 })
              (λ r h. kept' r.0 (f.returned _ _ _ r h)) w kept')
          (λ e.
            if-cases (IsSynced b settings)
              (serves_cached b cache_duration clock.monotonic y.holder.last_sync_time) _ _
              (λ k. record { has_set = none; returns = refl; well_formed = w; stored = kept })
              (λ k.
                get_reply-IsSynced (b.get_state y.store) y
                  (λ bytes t h. kept bytes (f.read y.store bytes t h)) kept))
