-- ===== src/Rendezvous/Finishing.antt =====
-- How an operation of fault_tolerance/_ft_rendezvous.py finishes: the loop of its rounds adds nothing.
use nvidia_resiliency_ext_x.Prelude.{
  ℕ, ◌≡◌, ◌≢◌, subst, refl, sym, ap, Bool, Option, List, [], ◌∷◌, arith,
}
use nvidia_resiliency_ext_x.Rendezvous.Base.{
  NodeDesc, node_eq, RendezvousSettings, RendezvousState, Action, keep_alive, add_to_participants,
  add_to_wait_list, add_to_redundancy_list, remove_from_participants, remove_from_wait_list,
  remove_from_redundancy_list, mark_rendezvous_complete, mark_rendezvous_closed, error_closed,
  error_timeout, sync, finish, Result, ok, err,
}
use nvidia_resiliency_ext_x.Rendezvous.Actions.{Executor}
use nvidia_resiliency_ext_x.Rendezvous.Handlers.{Op, Context, handle}
use nvidia_resiliency_ext_x.Rendezvous.Holder.{Backend, Synced}
use nvidia_resiliency_ext_x.Rendezvous.Run.{
  RoundInputs, Outcome, finished, raised, again, Local, save_round, after_action, dispatch,
  after_handler, after_sync, run_round, run, round_context,
}

module _ (b : Backend) (settings : RendezvousSettings) (name : NodeDesc) (op : Op)
    (P : RendezvousState → Type 0) where
  -- Where the loop returns, the node's state has the property.
  abbrev pub FinishesWith : Outcome × Local b → Type 0
  FinishesWith r = r.0 ≡ finished → P r.1.node.executor.state

  module _
      (fits : (c : Context) (s : RendezvousState)
        → c.node ≡ name
        → (handle op c s).0 ≡ ok finish
        → P (handle op c s).1) where
    after_action_ne :
        (deadline : ℕ) (r : Result (Unit {0}) × Executor) (l : Local b)
        → (after_action b deadline r l).0 ≢ finished
    unfolding after_action
    after_action_ne deadline (ok u, x) l h = cc
    after_action_ne deadline (err e, x) l h = cc

    state-save_round : (x : Executor) → (save_round x).state ≡ x.state
    unfolding save_round
    state-save_round x = ground arith

    module _ (updates : Bool) (inputs : RoundInputs) (deadline : ℕ) where
      dispatch-finish :
          (a : Action) (l : Local b)
          → (dispatch b updates settings name inputs deadline a l).0 ≡ finished
          → (a ≡ finish) × (dispatch b updates settings name inputs deadline a l ≡ (finished, l))
      unfolding dispatch after_action
      dispatch-finish finish l h = (refl, refl)
      dispatch-finish error_closed l h = cc
      dispatch-finish error_timeout l h = cc
      dispatch-finish sync l h = cc
      dispatch-finish keep_alive l h = absurd (after_action_ne _ _ l h)
      dispatch-finish add_to_participants l h = absurd (after_action_ne _ _ l h)
      dispatch-finish add_to_wait_list l h = absurd (after_action_ne _ _ l h)
      dispatch-finish add_to_redundancy_list l h = absurd (after_action_ne _ _ l h)
      dispatch-finish remove_from_participants l h = absurd (after_action_ne _ _ l h)
      dispatch-finish remove_from_wait_list l h = absurd (after_action_ne _ _ l h)
      dispatch-finish remove_from_redundancy_list l h = absurd (after_action_ne _ _ l h)
      dispatch-finish mark_rendezvous_complete l h = absurd (after_action_ne _ _ l h)
      dispatch-finish mark_rendezvous_closed l h = absurd (after_action_ne _ _ l h)

      handler-FinishesWith :
          (r : Result Action) (s : RendezvousState) (l : Local b)
          → (r ≡ ok finish → P s)
          → FinishesWith (after_handler b updates settings name inputs deadline (r, s) l)
      unfolding after_handler
      handler-FinishesWith (err e) s l joined h = cc
      handler-FinishesWith (ok a) s l joined h =
          let x = record l.node.executor { state = s } in
          let saved = record l { node = record l.node { executor = save_round x } } in
          let (e, q) = dispatch-finish a saved h in
          subst (λ r. P r.1.node.executor.state) (sym q)
            (subst P (sym (state-save_round x)) (joined (ap ok e)))

      sync-FinishesWith :
          (r : Result (Option Bool) × Synced b) (l : Local b)
          → FinishesWith (after_sync b updates settings name inputs deadline op r l)
      unfolding after_sync
      sync-FinishesWith (err e, y) l h = cc
      sync-FinishesWith (ok has_set, y) l h =
          let r = handle op (round_context settings name inputs deadline) y.state in
          handler-FinishesWith r.0 r.1 _
            (fits (round_context settings name inputs deadline) y.state refl) h

    run_round-FinishesWith :
        (updates : Bool) (cache_duration : ℕ) (inputs : RoundInputs) (deadline : ℕ) (l : Local b)
        → FinishesWith (run_round b updates settings cache_duration name op inputs deadline l)
    unfolding run_round
    run_round-FinishesWith updates cache_duration inputs deadline l =
        sync-FinishesWith updates inputs deadline _ l

    -- What the operation makes sure of when it finishes holds when its loop returns.
    pub run-FinishesWith :
        (updates : Bool) (cache_duration : ℕ) (rounds : List RoundInputs) (deadline : ℕ)
        (l : Local b)
        → FinishesWith (run b updates settings cache_duration name op rounds deadline l)
    unfolding run
    run-FinishesWith updates cache_duration [] deadline l = λ h. cc
    run-FinishesWith updates cache_duration (inputs ∷ rest) deadline l =
        let r = run_round b updates settings cache_duration name op inputs deadline l in
        go r.0 r (run_round-FinishesWith updates cache_duration inputs deadline l)
          λ later. run-FinishesWith updates cache_duration rest later r.1
      where
        go :
            (o : Outcome) (r : Outcome × Local b)
            → FinishesWith r
            → ((later : ℕ)
                → FinishesWith (run b updates settings cache_duration name op rest later r.1))
            → FinishesWith (elim o [
              | finished ↦ r
              | raised e ↦ r
              | again later ↦ run b updates settings cache_duration name op rest later r.1
            ])
        go finished r one more = one
        go (raised e) r one more = one
        go (again later) r one more = more later
