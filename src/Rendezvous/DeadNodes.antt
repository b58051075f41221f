-- ===== src/Rendezvous/DeadNodes.antt =====
-- `_sanitize` of fault_tolerance/_ft_rendezvous.py removes the nodes without a recent heartbeat, and
-- no other node.
use nvidia_resiliency_ext_x.Prelude.{
  ℕ, ◌+◌, ◌≡◌, refl, Bool, true, false, not, ◌&&◌, Option, none, some, List, [], ◌∷◌, arith, ltb,
  if◌then◌else◌,
}
use nvidia_resiliency_ext_x.Prelude.Eq.{==_iff}
use nvidia_resiliency_ext_x.Prelude.Dict.{Dict, get, has, IsUnique, has-without, get-eq-none}
use nvidia_resiliency_ext_x.Prelude.Keys.{contains, contains-discard}
use nvidia_resiliency_ext_x.Rendezvous.Base.{NodeDesc, node_eq, RendezvousSettings, RendezvousState}
use nvidia_resiliency_ext_x.Rendezvous.Actions.{remove_participant_epilogue}
use nvidia_resiliency_ext_x.Rendezvous.Holder.{
  dead_nodes, remove_dead, remove_all_dead, allowed_silence, sanitize,
}

-- A node is dead if it has a heartbeat and the last one lies too far back.
abbrev pub is_dead : ℕ → ℕ → Option ℕ → Bool
is_dead now allowed none = false
is_dead now allowed (some last) = ltb (last + allowed) now

contains-dead_nodes :
    (n : NodeDesc) (now allowed : ℕ) (d : Dict NodeDesc ℕ)
    → IsUnique d
    → contains n (dead_nodes now allowed d) ≡ is_dead now allowed (get n d)
unfolding contains dead_nodes get
contains-dead_nodes n now allowed [] u = refl
contains-dead_nodes n now allowed ((j, last) ∷ d) u =
    ground (arith, contains-dead_nodes n now allowed d, ==_iff j n, get-eq-none j d)

-- Whether a node stands in one of the four collections, before and after the loop.
module _ (n : NodeDesc) where
  participants-remove :
      (dead : List NodeDesc) (s : RendezvousState) (removed : Bool)
      → has n (remove_all_dead dead (s, removed)).0.participants
        ≡ (not (contains n dead) && has n s.participants)
  unfolding remove_all_dead remove_dead contains
  participants-remove [] s removed = refl
  participants-remove (m ∷ dead) s removed = ground (
    arith,
    participants-remove dead (remove_dead m s) (if has m s.participants then true else removed),
    has-without n m s.participants,
  )

  heartbeats-remove :
      (dead : List NodeDesc) (s : RendezvousState) (removed : Bool)
      → has n (remove_all_dead dead (s, removed)).0.last_heartbeats
        ≡ (not (contains n dead) && has n s.last_heartbeats)
  unfolding remove_all_dead remove_dead contains
  heartbeats-remove [] s removed = refl
  heartbeats-remove (m ∷ dead) s removed = ground (
    arith,
    heartbeats-remove dead (remove_dead m s) (if has m s.participants then true else removed),
    has-without n m s.last_heartbeats,
  )

  wait-remove :
      (dead : List NodeDesc) (s : RendezvousState) (removed : Bool)
      → contains n (remove_all_dead dead (s, removed)).0.wait_list
        ≡ (not (contains n dead) && contains n s.wait_list)
  unfolding remove_all_dead remove_dead contains
  wait-remove [] s removed = refl
  wait-remove (m ∷ dead) s removed = ground (
    arith,
    wait-remove dead (remove_dead m s) (if has m s.participants then true else removed),
    contains-discard n m s.wait_list,
  )

  redundancy-remove :
      (dead : List NodeDesc) (s : RendezvousState) (removed : Bool)
      → contains n (remove_all_dead dead (s, removed)).0.redundancy_list
        ≡ (not (contains n dead) && contains n s.redundancy_list)
  unfolding remove_all_dead remove_dead contains
  redundancy-remove [] s removed = refl
  redundancy-remove (m ∷ dead) s removed = ground (
    arith,
    redundancy-remove dead (remove_dead m s) (if has m s.participants then true else removed),
    contains-discard n m s.redundancy_list,
  )

-- A node is in a list of the swept state exactly if it was in that list and is not dead.
pub record IsSwept (settings : RendezvousSettings) (now : ℕ) (s t : RendezvousState) : Type 0 where
  pub participants_swept :
      (n : NodeDesc)
      → has n t.participants ≡ (
          not (is_dead now (allowed_silence settings) (get n s.last_heartbeats))
          && has n s.participants)
  pub wait_list_swept :
      (n : NodeDesc)
      → contains n t.wait_list ≡ (
          not (is_dead now (allowed_silence settings) (get n s.last_heartbeats))
          && contains n s.wait_list)
  pub redundancy_list_swept :
      (n : NodeDesc)
      → contains n t.redundancy_list ≡ (
          not (is_dead now (allowed_silence settings) (get n s.last_heartbeats))
          && contains n s.redundancy_list)
  pub last_heartbeats_swept :
      (n : NodeDesc)
      → has n t.last_heartbeats ≡ (
          not (is_dead now (allowed_silence settings) (get n s.last_heartbeats))
          && has n s.last_heartbeats)

-- If the heartbeats have unique keys, a node is among the participants, the wait list, the
-- redundancy list or the heartbeats after _sanitize exactly if it was there before and its last
-- heartbeat is not older than the allowed silence.
pub sanitize-IsSwept :
    (settings : RendezvousSettings) (now : ℕ) (s : RendezvousState)
    → IsUnique s.last_heartbeats
    → IsSwept settings now s (sanitize settings now s)
unfolding sanitize remove_participant_epilogue
sanitize-IsSwept settings now s u =
    let dead = dead_nodes now (allowed_silence settings) s.last_heartbeats in
    let exact =
      λ (n : NodeDesc). contains-dead_nodes n now (allowed_silence settings) s.last_heartbeats u in
    record {
      participants_swept = λ n. ground (arith, participants-remove n dead s false, exact n);
      wait_list_swept = λ n. ground (arith, wait-remove n dead s false, exact n);
      redundancy_list_swept = λ n. ground (arith, redundancy-remove n dead s false, exact n);
      last_heartbeats_swept = λ n. ground (arith, heartbeats-remove n dead s false, exact n);
    }
