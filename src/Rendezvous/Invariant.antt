-- ===== src/Rendezvous/Invariant.antt =====
-- The well-formedness of a rendezvous state, and which actions a node may take on one.
pub mod Updates
pub mod Removal
pub mod Completing
pub mod Acting
pub mod Choosing
use nvidia_resiliency_ext_x.Prelude.{
  ℕ, ◌≤◌, ◌<◌, ◌≡◌, ◌≢◌, refl, Bool, true, false, none, [], arith, length,
}
use nvidia_resiliency_ext_x.Prelude.Dict.{get, has, IsUnique}
use nvidia_resiliency_ext_x.Prelude.Keys.{contains}
use nvidia_resiliency_ext_x.Rendezvous.Base.{
  NodeDesc, node_eq, RendezvousSettings, RendezvousState, initial_state, Action,
  add_to_participants, add_to_wait_list, add_to_redundancy_list, remove_from_participants,
  remove_from_wait_list, remove_from_redundancy_list,
}
use nvidia_resiliency_ext_x.Rendezvous.Ranks.Counting.{IsInjective}

-- The bounds that `FtRendezvousHandler.__init__` checks.
pub record AreValid (settings : RendezvousSettings) : Type 0 where
  pub some_node : 1 ≤ settings.min_nodes
  pub min_within : settings.min_nodes ≤ settings.max_nodes

-- Where one node may stand: in one of the three lists at most, and then it has a heartbeat.
pub record IsPlaced (n : NodeDesc) (s : RendezvousState) : Type 0 where
  pub participant_alive : has n s.participants ≡ true → has n s.last_heartbeats ≡ true
  pub waiting_alive : contains n s.wait_list ≡ true → has n s.last_heartbeats ≡ true
  pub redundant_alive : contains n s.redundancy_list ≡ true → has n s.last_heartbeats ≡ true
  pub participant_not_waiting : has n s.participants ≡ true → contains n s.wait_list ≡ false
  pub participant_not_redundant : has n s.participants ≡ true → contains n s.redundancy_list ≡ false
  pub waiting_not_redundant : contains n s.wait_list ≡ true → contains n s.redundancy_list ≡ false

-- What holds of the lists also in the middle of an action.
pub record IsSound (settings : RendezvousSettings) (s : RendezvousState) : Type 0 where
  pub unique : IsUnique s.participants
  pub within : length s.participants ≤ settings.max_nodes
  pub placed : (n : NodeDesc) → IsPlaced n s

-- What holds between two actions: a round that is not complete has room, and a deadline once it
-- has the nodes that it needs; a complete one has no deadline, and no rank twice.
pub record IsWellFormed (settings : RendezvousSettings) (s : RendezvousState) : Type 0 where
  pub sound : IsSound settings s
  pub open sound use *
  pub open_below : s.complete ≡ false → length s.participants < settings.max_nodes
  pub deadline_set :
      s.complete ≡ false → settings.min_nodes ≤ length s.participants → s.deadline ≢ none
  pub deadline_cleared : s.complete ≡ true → s.deadline ≡ none
  pub ranks_distinct : s.complete ≡ true → IsInjective s.participants

pub initial_state-IsWellFormed :
    (settings : RendezvousSettings) → AreValid settings → IsWellFormed settings initial_state
unfolding has contains get
initial_state-IsWellFormed settings v = record {
  sound = record { unique = tt; within = omega arith; placed = λ n. ground arith };
  open_below = λ c. omega arith;
  deadline_set = λ c h. absurd (omega arith);
  deadline_cleared = λ c. cc;
  ranks_distinct = λ c. cc;
}

-- What a node is to find in the state before it takes an action.
abbrev pub Permits : Action → NodeDesc → RendezvousState → Type 0
Permits add_to_participants n s =
    (s.complete ≡ false) × (has n s.participants ≡ false) × (contains n s.redundancy_list ≡ false)
Permits add_to_wait_list n s = has n s.participants ≡ false
Permits add_to_redundancy_list n s =
    (has n s.participants ≡ false) × (contains n s.wait_list ≡ false)
Permits remove_from_participants n s = has n s.participants ≡ true
Permits remove_from_wait_list n s = contains n s.wait_list ≡ true
Permits remove_from_redundancy_list n s = contains n s.redundancy_list ≡ true
Permits _ n s = Unit
