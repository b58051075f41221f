-- ===== src/Rendezvous/Leaving.antt =====
-- What it means that `FtRendezvousHandler.shutdown` and `remove_this_node` of
-- fault_tolerance/_ft_rendezvous.py return.
use nvidia_resiliency_ext_x.Prelude.{ℕ, ◌+◌, ◌*◌, ◌≡◌, refl, sym, subst, true, false, List, arith}
use nvidia_resiliency_ext_x.Prelude.Dict.{has}
use nvidia_resiliency_ext_x.Prelude.Keys.{contains}
use nvidia_resiliency_ext_x.Rendezvous.Base.{
  NodeDesc, node_eq, RendezvousSettings, RendezvousState, finish, ok,
}
use nvidia_resiliency_ext_x.Rendezvous.Handlers.{
  Context, close_request, exit_request, handle, close_op, exit_op, exit_lists, action_or_timeout,
}
use nvidia_resiliency_ext_x.Rendezvous.Holder.{Backend}
use nvidia_resiliency_ext_x.Rendezvous.Run.{RoundInputs, Outcome, finished, raised, again, Local}
use nvidia_resiliency_ext_x.Rendezvous.Finishing.{FinishesWith, run-FinishesWith}
use nvidia_resiliency_ext_x.Rendezvous.Handler.{
  answered, answer_to, shutdown_answer, shutdown, remove_this_node,
}

close-fits :
    (name : NodeDesc) (c : Context) (s : RendezvousState)
    → c.node ≡ name
    → (handle close_request c s).0 ≡ ok finish
    → (handle close_request c s).1.closed ≡ true
unfolding handle close_op
close-fits name c s e h = ground arith

-- The node stands in no list.
pub record IsGone (name : NodeDesc) (s : RendezvousState) : Type 0 where
  pub no_participant : has name s.participants ≡ false
  pub not_redundant : contains name s.redundancy_list ≡ false
  pub not_waiting : contains name s.wait_list ≡ false

exit_lists-finish :
    (c : Context) (s : RendezvousState) → exit_lists true c s ≡ finish → IsGone c.node s
unfolding exit_lists action_or_timeout
exit_lists-finish c s h = record {
  no_participant = ground arith;
  not_redundant = ground arith;
  not_waiting = ground arith;
}

exit_op-finish :
    (c : Context) (s : RendezvousState)
    → (exit_op true c s).0 ≡ ok finish
    → (exit_lists true c s ≡ finish) × ((exit_op true c s).1 ≡ s)
unfolding exit_op
exit_op-finish c s h = (ground arith, ground arith)

exit-fits :
    (name : NodeDesc) (c : Context) (s : RendezvousState)
    → c.node ≡ name
    → (handle (exit_request true) c s).0 ≡ ok finish
    → IsGone name (handle (exit_request true) c s).1
unfolding handle
exit-fits name c s e h =
    let (gone, same) = exit_op-finish c s h in
    subst (λ n. IsGone n (exit_op true c s).1) e
      (subst (IsGone c.node) (sym same) (exit_lists-finish c s gone))

module _ (b : Backend) (settings : RendezvousSettings) (cache_duration : ℕ) (name : NodeDesc) where
  closed-answer :
      (r : Outcome × Local b)
      → FinishesWith b settings name close_request (λ s. s.closed ≡ true) r
      → (shutdown_answer b settings cache_duration name r).0 ≡ answered true
      → (shutdown_answer b settings cache_duration name r).1.node.executor.state.closed ≡ true
  closed-answer (finished, l) f h = f refl
  closed-answer (raised e, l) f h = ground arith
  closed-answer (again later, l) f h = cc

  IsGone-answer :
      (r : Outcome × Local b)
      → FinishesWith b settings name (exit_request true) (IsGone name) r
      → (answer_to b settings cache_duration name (λ l. answered tt) r).0 ≡ answered tt
      → IsGone name
          (answer_to b settings cache_duration name (λ l. answered tt) r).1.node.executor.state
  IsGone-answer (finished, l) f h = f refl
  IsGone-answer (raised e, l) f h = cc
  IsGone-answer (again later, l) f h = cc

-- If shutdown returns `True`, the state that the node holds then is closed.
pub shutdown-closed :
    (b : Backend) (settings : RendezvousSettings) (cache_duration : ℕ) (name : NodeDesc) (now : ℕ)
    (rounds : List RoundInputs) (l : Local b)
    → (shutdown b settings cache_duration name now rounds l).0 ≡ answered true
    → (shutdown b settings cache_duration name now rounds l).1.node.executor.state.closed ≡ true
unfolding shutdown
shutdown-closed b settings cache_duration name now rounds l =
    closed-answer b settings cache_duration name _ (
      run-FinishesWith b settings name close_request (λ s. s.closed ≡ true) (close-fits name) false
        cache_duration rounds (now + settings.timeout.close) l)

-- If remove_this_node returns, the node is in no list of the state that it holds then.
pub remove_this_node-IsGone :
    (b : Backend) (settings : RendezvousSettings) (cache_duration : ℕ) (name : NodeDesc) (now : ℕ)
    (rounds : List RoundInputs) (l : Local b)
    → (remove_this_node b settings cache_duration name now rounds l).0 ≡ answered tt
    → IsGone name
        (remove_this_node b settings cache_duration name now rounds l).1.node.executor.state
unfolding remove_this_node
remove_this_node-IsGone b settings cache_duration name now rounds l =
    IsGone-answer b settings cache_duration name _ (
      run-FinishesWith b settings name (exit_request true) (IsGone name) (exit-fits name) false
        cache_duration rounds (now + 3 * settings.timeout.heartbeat) l)
