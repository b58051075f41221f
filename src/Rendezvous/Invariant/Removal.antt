-- ===== src/Rendezvous/Invariant/Removal.antt =====
-- Removing a node, and the epilogue of a removal, keep the state well formed.
use nvidia_resiliency_ext_x.Prelude.{
  ℕ, ◌+◌, ◌<◌, ◌≡◌, refl, ap, true, false, none, [], ◌∷◌, arith, ltb, length, if-cases,
}
use nvidia_resiliency_ext_x.Prelude.Eq.{==_iff}
use nvidia_resiliency_ext_x.Prelude.Dict.{
  Dict, has, without, has-without, get-without, length-without, without-IsUnique,
}
use nvidia_resiliency_ext_x.Prelude.Keys.{discard, contains-discard}
use nvidia_resiliency_ext_x.Rendezvous.Base.{NodeDesc, node_eq, RendezvousSettings, RendezvousState}
use nvidia_resiliency_ext_x.Rendezvous.Ranks.Counting.{IsInjective}
use nvidia_resiliency_ext_x.Rendezvous.Actions.{remove_participant_epilogue, is_empty}
use nvidia_resiliency_ext_x.Rendezvous.Invariant.{AreValid, IsPlaced, IsWellFormed}

pub without-IsInjective :
    (n : NodeDesc) (d : Dict NodeDesc ℕ) → IsInjective d → IsInjective (without n d)
without-IsInjective n d inj p q r hp hq =
    inj p q r (ground (arith, get-without p n d)) (ground (arith, get-without q n d))

-- The node leaves every list, and its heartbeat goes.
abbrev pub remove_node : NodeDesc → RendezvousState → RendezvousState
remove_node n s = record s {
  participants = without n s.participants;
  wait_list = discard n s.wait_list;
  redundancy_list = discard n s.redundancy_list;
  last_heartbeats = without n s.last_heartbeats;
}

module _ (settings : RendezvousSettings) (n : NodeDesc) (s : RendezvousState) where
  remove_node-IsPlaced : (p : NodeDesc) → IsPlaced p s → IsPlaced p (remove_node n s)
  remove_node-IsPlaced p w = ground (
    arith,
    has-without p n s.last_heartbeats,
    has-without p n s.participants,
    contains-discard p n s.wait_list,
    contains-discard p n s.redundancy_list,
  )

  pub remove_node-IsWellFormed : IsWellFormed settings s → IsWellFormed settings (remove_node n s)
  remove_node-IsWellFormed w = record {
    sound = record {
      unique = without-IsUnique n s.participants w.unique;
      within = omega (arith, length-without n s.participants, w.within);
      placed = λ p. remove_node-IsPlaced p (w.placed p);
    };
    open_below = λ c. omega (arith, length-without n s.participants, w.open_below c);
    deadline_set = λ c h. w.deadline_set c (omega (arith, length-without n s.participants));
    deadline_cleared = w.deadline_cleared;
    ranks_distinct = λ c. without-IsInjective n s.participants (w.ranks_distinct c);
  }

  leave_participants-IsPlaced :
      has n s.participants ≡ true
      → IsPlaced n s
      → (p : NodeDesc) → IsPlaced p s
      → IsPlaced p (record s {
        participants = without n s.participants;
        last_heartbeats = without n s.last_heartbeats;
      })
  leave_participants-IsPlaced here v p w =
      ground (arith, has-without p n s.last_heartbeats, has-without p n s.participants, ==_iff n p)

  pub leave_participants-IsWellFormed :
      has n s.participants ≡ true
      → IsWellFormed settings s
      → IsWellFormed settings (record s {
        participants = without n s.participants;
        last_heartbeats = without n s.last_heartbeats;
      })
  leave_participants-IsWellFormed here w = record {
    sound = record {
      unique = without-IsUnique n s.participants w.unique;
      within = omega (arith, length-without n s.participants, w.within);
      placed = λ p. leave_participants-IsPlaced here (w.placed n) p (w.placed p);
    };
    open_below = λ c. omega (arith, length-without n s.participants, w.open_below c);
    deadline_set = λ c h. w.deadline_set c (omega (arith, length-without n s.participants));
    deadline_cleared = w.deadline_cleared;
    ranks_distinct = λ c. without-IsInjective n s.participants (w.ranks_distinct c);
  }

module _ (settings : RendezvousSettings) (s : RendezvousState) (v : AreValid settings) where
  -- An empty round starts anew: it has room, and needs no deadline.
  reopen-IsWellFormed :
      s.participants ≡ []
      → IsWellFormed settings s
      → IsWellFormed settings (record s { complete = false; round = s.round + 1 })
  reopen-IsWellFormed e w = record {
    sound = record {
      unique = w.unique;
      within = w.within;
      placed = λ p. ground (arith, w.placed p);
    };
    open_below = λ c. rw e (omega (arith, v.some_node, v.min_within));
    deadline_set = λ c h. absurd (omega (arith, v.some_node, ap (length {A = NodeDesc × ℕ}) e));
    deadline_cleared = λ c. cc;
    ranks_distinct = λ c. cc;
  }

  clear_deadline-IsWellFormed :
      length s.participants < settings.min_nodes
      → IsWellFormed settings s
      → IsWellFormed settings (record s { deadline = none })
  clear_deadline-IsWellFormed few w = record {
    sound = record {
      unique = w.unique;
      within = w.within;
      placed = λ p. ground (arith, w.placed p);
    };
    open_below = w.open_below;
    deadline_set = λ c h. absurd (omega arith);
    deadline_cleared = λ c. refl;
    ranks_distinct = w.ranks_distinct;
  }

is_empty-eq : (d : Dict NodeDesc ℕ) → is_empty d ≡ true → d ≡ []
is_empty-eq [] h = refl
is_empty-eq (x ∷ d) h = cc

pub epilogue-IsWellFormed :
    (settings : RendezvousSettings) (s : RendezvousState)
    → AreValid settings
    → IsWellFormed settings s
    → IsWellFormed settings (remove_participant_epilogue settings s)
unfolding remove_participant_epilogue
epilogue-IsWellFormed settings s v w =
    if-cases (IsWellFormed settings) s.complete _ _
      (λ c.
        if-cases (IsWellFormed settings) (is_empty s.participants) _ _
          (λ e. reopen-IsWellFormed settings s v (is_empty-eq s.participants e) w) (λ e. w))
      (λ c.
        if-cases (IsWellFormed settings) (ltb (length s.participants) settings.min_nodes) _ _
          (λ e. clear_deadline-IsWellFormed settings s v (ground arith) w) (λ e. w))
