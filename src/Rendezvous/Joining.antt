-- ===== src/Rendezvous/Joining.antt =====
-- What `FtRendezvousHandler.next_rendezvous` of fault_tolerance/_ft_rendezvous.py returns.
use nvidia_resiliency_ext_x.Prelude.{ℕ, ◌≤◌, ◌≡◌, true, false, some, length}
use nvidia_resiliency_ext_x.Prelude.Dict.{get, has}
use nvidia_resiliency_ext_x.Rendezvous.Base.{NodeDesc, node_eq, RendezvousSettings, RendezvousState}
use nvidia_resiliency_ext_x.Rendezvous.Safety.Rounds.{IsMeant}
use nvidia_resiliency_ext_x.Rendezvous.Handler.{Answer, answered, failed_with, unanswered}

-- The node takes part in a complete round.
abbrev pub IsJoined : NodeDesc → RendezvousState → Type 0
IsJoined name s = (s.complete ≡ true) × (has name s.participants ≡ true) × (s.closed ≡ false)

-- What a node learns that has joined: its rank in a complete round that is not closed, where no other
-- node has it, and the number of participants. An exception is one that is meant.
abbrev pub IsWorld :
    (settings : RendezvousSettings) → NodeDesc → RendezvousState → Answer (ℕ × ℕ) → Type 0
IsWorld settings name s (answered (rank, size)) =
    IsJoined name s
    × (get name s.participants ≡ some rank)
    × ((other : NodeDesc) → get other s.participants ≡ some rank → other ≡ name)
    × (size ≡ length s.participants)
    × (size ≤ settings.max_nodes)
IsWorld settings name s (failed_with e) = IsMeant e
IsWorld settings name s unanswered = Unit
