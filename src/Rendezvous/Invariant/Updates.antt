-- ===== src/Rendezvous/Invariant/Updates.antt =====
-- The updates that the actions make to the state keep it well formed.
use nvidia_resiliency_ext_x.Prelude.{ℕ, ◌≡◌, true, false, arith}
use nvidia_resiliency_ext_x.Prelude.Eq.{==_iff}
use nvidia_resiliency_ext_x.Prelude.Dict.{Dict, has, without, has-put, has-without, get-without}
use nvidia_resiliency_ext_x.Prelude.Keys.{contains, add, discard, contains-add, contains-discard}
use nvidia_resiliency_ext_x.Rendezvous.Base.{
  NodeDesc, node_eq, WorkerState, RendezvousSettings, RendezvousState,
}
use nvidia_resiliency_ext_x.Rendezvous.Ranks.Counting.{IsInjective}
use nvidia_resiliency_ext_x.Rendezvous.Actions.{beat, mark_closed}
use nvidia_resiliency_ext_x.Rendezvous.Invariant.{IsPlaced, IsWellFormed}

without-IsInjective :
    (n : NodeDesc) (d : Dict NodeDesc ℕ) → IsInjective d → IsInjective (without n d)
without-IsInjective n d inj p q r hp hq =
    inj p q r (ground (arith, get-without p n d)) (ground (arith, get-without q n d))

module _ (settings : RendezvousSettings) (n : NodeDesc) (now : ℕ) (s : RendezvousState) where
  beat-IsPlaced : (p : NodeDesc) → IsPlaced p s → IsPlaced p (beat n now s)
  unfolding beat
  beat-IsPlaced p w = ground (arith, has-put p n now s.last_heartbeats)

  -- A heartbeat adds to the nodes that are alive, and changes nothing else.
  pub beat-IsWellFormed : IsWellFormed settings s → IsWellFormed settings (beat n now s)
  unfolding beat
  beat-IsWellFormed w = record {
    sound = record {
      unique = w.unique;
      within = w.within;
      placed = λ p. beat-IsPlaced p (w.placed p);
    };
    open_below = w.open_below;
    deadline_set = w.deadline_set;
    deadline_cleared = w.deadline_cleared;
    ranks_distinct = w.ranks_distinct;
  }

  -- Joining the wait list, from outside or from the redundancy list.
  pub wait-IsWellFormed :
      has n s.participants ≡ false
      → IsWellFormed settings s
      → let t = record s {
        redundancy_list = discard n s.redundancy_list;
        wait_list = add n s.wait_list;
      } in
        IsWellFormed settings (beat n now t)
  unfolding beat
  wait-IsWellFormed out w = record {
    sound = record {
      unique = w.unique;
      within = w.within;
      placed = λ p. ground (
        arith,
        has-put p n now s.last_heartbeats,
        w.placed p,
        contains-discard p n s.redundancy_list,
        contains-add p n s.wait_list,
        ==_iff n p,
      );
    };
    open_below = w.open_below;
    deadline_set = w.deadline_set;
    deadline_cleared = w.deadline_cleared;
    ranks_distinct = w.ranks_distinct;
  }

  pub redundant-IsWellFormed :
      has n s.participants ≡ false
      → contains n s.wait_list ≡ false
      → IsWellFormed settings s
      → IsWellFormed settings (beat n now (record s { redundancy_list = add n s.redundancy_list }))
  unfolding beat
  redundant-IsWellFormed out idle w = record {
    sound = record {
      unique = w.unique;
      within = w.within;
      placed = λ p. ground (
        arith,
        has-put p n now s.last_heartbeats,
        w.placed p,
        contains-add p n s.redundancy_list,
        ==_iff n p,
      );
    };
    open_below = w.open_below;
    deadline_set = w.deadline_set;
    deadline_cleared = w.deadline_cleared;
    ranks_distinct = w.ranks_distinct;
  }

pub mark_closed-IsWellFormed :
    (settings : RendezvousSettings) (s : RendezvousState)
    → IsWellFormed settings s
    → IsWellFormed settings (mark_closed s)
unfolding mark_closed
mark_closed-IsWellFormed settings s w = record {
  sound = record { unique = w.unique; within = w.within; placed = λ p. ground (arith, w.placed p) };
  open_below = w.open_below;
  deadline_set = w.deadline_set;
  deadline_cleared = w.deadline_cleared;
  ranks_distinct = w.ranks_distinct;
}

-- Worker states play no part in the invariant.
pub worker_states-IsWellFormed :
    (settings : RendezvousSettings) (s : RendezvousState) (ws : Dict NodeDesc WorkerState)
    → IsWellFormed settings s
    → IsWellFormed settings (record s { worker_states = ws })
worker_states-IsWellFormed settings s ws w = record {
  sound = record { unique = w.unique; within = w.within; placed = λ p. ground (arith, w.placed p) };
  open_below = w.open_below;
  deadline_set = w.deadline_set;
  deadline_cleared = w.deadline_cleared;
  ranks_distinct = w.ranks_distinct;
}

-- A node leaves the wait list or the redundancy list, and its heartbeat goes too.
module _ (settings : RendezvousSettings) (n : NodeDesc) (s : RendezvousState) where
  pub leave_wait-IsWellFormed :
      contains n s.wait_list ≡ true
      → IsWellFormed settings s
      → IsWellFormed settings (record s {
        wait_list = discard n s.wait_list;
        last_heartbeats = without n s.last_heartbeats;
      })
  leave_wait-IsWellFormed here w = record {
    sound = record {
      unique = w.unique;
      within = w.within;
      placed = λ p. ground (
        arith,
        has-without p n s.last_heartbeats,
        w.placed p,
        w.placed n,
        contains-discard p n s.wait_list,
        ==_iff n p,
      );
    };
    open_below = w.open_below;
    deadline_set = w.deadline_set;
    deadline_cleared = w.deadline_cleared;
    ranks_distinct = w.ranks_distinct;
  }

  pub leave_redundant-IsWellFormed :
      contains n s.redundancy_list ≡ true
      → IsWellFormed settings s
      → IsWellFormed settings (record s {
        redundancy_list = discard n s.redundancy_list;
        last_heartbeats = without n s.last_heartbeats;
      })
  leave_redundant-IsWellFormed here w = record {
    sound = record {
      unique = w.unique;
      within = w.within;
      placed = λ p. ground (
        arith,
        has-without p n s.last_heartbeats,
        w.placed p,
        w.placed n,
        contains-discard p n s.redundancy_list,
        ==_iff n p,
      );
    };
    open_below = w.open_below;
    deadline_set = w.deadline_set;
    deadline_cleared = w.deadline_cleared;
    ranks_distinct = w.ranks_distinct;
  }
