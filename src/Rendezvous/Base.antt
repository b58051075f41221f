-- ===== src/Rendezvous/Base.antt =====
-- The data of fault_tolerance/_ft_rendezvous.py: node descriptors, settings, the shared state of a
-- rendezvous, the actions of its state machine, and actions as functions on the state that may
-- raise. Times are natural numbers of one unit; what was written before a raise stays written.
use Prim.Native.Nat.{Ordering}
use Prim.Native.String.{compare}
use nvidia_resiliency_ext_x.Prelude.Method.{Exceptional}
pub use nvidia_resiliency_ext_x.Prelude.Method.{
  ok, err, bind_result, ret, raise, modify, after_result, ◌>>=◌, ◌>>◌,
}
use nvidia_resiliency_ext_x.Prelude.{
  ℕ, ◌≡◌, ◌↔◌, Bool, true, false, ◌&&◌, Option, none, List, [], String, arith, eqb, ltb, leb,
  if◌then◌else◌,
}
use nvidia_resiliency_ext_x.Prelude.Eq.{KeyEq}
use nvidia_resiliency_ext_x.Prelude.Dict.{Dict}
use text.Mathlib.Text.{◌==◌ as text_eq}
use text.Mathlib.TextEquality.{eq_iff}

-- `_NodeDesc`
pub record NodeDesc : Type 0 where
  pub addr : String
  pub pid : ℕ
  pub local_id : ℕ

unfoldable pub node_beq : NodeDesc → NodeDesc → Bool
node_beq a b = text_eq a.addr b.addr && (eqb a.pid b.pid && eqb a.local_id b.local_id)

pub node_beq_iff : (a b : NodeDesc) → (node_beq a b ≡ true) ↔ (a ≡ b)
unfolding node_beq
node_beq_iff a b = ground (arith, eq_iff a.addr b.addr)

instance unfoldable pub node_eq : KeyEq NodeDesc
unfolding node_beq
node_eq = record { test = node_beq; decides = node_beq_iff }

-- The order of the tuples (addr, pid, local_id).
unfoldable pub node_le : NodeDesc → NodeDesc → Bool
node_le a b = elim (compare a.addr b.addr) [
  | Ordering.lt ↦ true
  | Ordering.gt ↦ false
  | Ordering.eq ↦ if eqb a.pid b.pid then leb a.local_id b.local_id else ltb a.pid b.pid
]

-- `WorkerState`
pub data WorkerState : Type 0 where
  unknown init healthy unhealthy stopped succeeded failed : WorkerState

-- `RendezvousTimeout`: the fields are checked to be positive when it is built.
pub record RendezvousTimeout : Type 0 where
  pub join : ℕ
  pub last_call : ℕ
  pub close : ℕ
  pub heartbeat : ℕ

-- `RendezvousSettings`
pub record RendezvousSettings : Type 0 where
  pub min_nodes : ℕ
  pub max_nodes : ℕ
  pub timeout : RendezvousTimeout
  pub keep_alive_interval : ℕ
  pub keep_alive_max_attempt : ℕ
  pub upscaling_enabled : Bool

-- `_RendezvousState`
pub record RendezvousState : Type 0 where
  pub round : ℕ
  pub complete : Bool
  pub deadline : Option ℕ
  pub closed : Bool
  pub participants : Dict NodeDesc ℕ
  pub wait_list : List NodeDesc
  pub redundancy_list : List NodeDesc
  pub last_heartbeats : Dict NodeDesc ℕ
  pub worker_states : Dict NodeDesc WorkerState

-- `_RendezvousState.__init__`
abbrev pub initial_state : RendezvousState
initial_state = record {
  round = 0;
  complete = false;
  deadline = none;
  closed = false;
  participants = [];
  wait_list = [];
  redundancy_list = [];
  last_heartbeats = [];
  worker_states = [];
}

-- `_Action`
pub data Action : Type 0 where
  keep_alive add_to_participants add_to_wait_list add_to_redundancy_list : Action
  remove_from_participants remove_from_wait_list remove_from_redundancy_list : Action
  mark_rendezvous_complete mark_rendezvous_closed sync error_closed error_timeout finish : Action

-- The exceptions that the component raises, Python's own among them.
pub data Error : Type 0 where
  rendezvous_closed rendezvous_timeout rendezvous_graceful_exit rendezvous_state : Error
  unhealthy_node key_error index_error assertion_error type_error value_error : Error

abbrev pub Result {ℓ} : Type ℓ → Type ℓ
Result A = Exceptional Error A

-- A method that mutates a state and may raise.
abbrev pub Method {ℓ} : Type 0 → Type ℓ → Type ℓ
Method S A = S → Result A × S
