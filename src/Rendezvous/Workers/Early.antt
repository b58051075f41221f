-- ===== src/Rendezvous/Workers/Early.antt =====
-- The actions that may complete a rendezvous: when the operations of
-- fault_tolerance/_ft_rendezvous.py choose them.
use nvidia_resiliency_ext_x.Prelude.{ℕ, ◌≡◌, false, Option, none, some, arith}
use nvidia_resiliency_ext_x.Rendezvous.Base.{
  node_eq, RendezvousState, Action, add_to_participants, mark_rendezvous_complete, Result, ok, err,
}
use nvidia_resiliency_ext_x.Rendezvous.Handlers.{
  Context, join_closed, join_redundant, join_late, join_completed, check_deadline, join_waiting,
  join_op, action_or_timeout, exit_lists, exit_op, set_workers_state_op, close_op, keep_alive_op,
  Op, join_request, keep_alive_request, close_request, exit_request, set_workers_request, handle,
}

-- The actions that may complete a rendezvous are chosen only where it is not complete.
abbrev pub IsEarly : RendezvousState → Action → Type 0
IsEarly s add_to_participants = s.complete ≡ false
IsEarly s mark_rendezvous_complete = s.complete ≡ false
IsEarly s _ = Unit

abbrev pub AllEarly : RendezvousState → Result Action → Type 0
AllEarly s (ok a) = IsEarly s a
AllEarly s (err e) = Unit

module _ (c : Context) (s : RendezvousState) where
  check_deadline-AllEarly : (o : Option ℕ) → s.complete ≡ false → AllEarly s (check_deadline c s o)
  unfolding check_deadline
  check_deadline-AllEarly none going = tt
  check_deadline-AllEarly (some deadline) going = ground arith

  join_op-AllEarly : AllEarly s (join_op c s)
  unfolding join_op join_closed join_redundant join_late join_completed join_waiting
  join_op-AllEarly = ground (arith, check_deadline-AllEarly s.deadline)

  pub handle-AllEarly : (op : Op) → AllEarly s (handle op c s).0
  unfolding handle exit_op exit_lists action_or_timeout set_workers_state_op close_op keep_alive_op
  handle-AllEarly join_request = join_op-AllEarly
  handle-AllEarly keep_alive_request = ground arith
  handle-AllEarly close_request = ground arith
  handle-AllEarly (exit_request all) = ground arith
  handle-AllEarly (set_workers_request target) = ground arith
