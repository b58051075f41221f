-- ===== src/Rendezvous/Safety/World.antt =====
-- Any number of nodes that share one backend, their rounds in any order.
use nvidia_resiliency_ext_x.Prelude.{ℕ, Bool, false, none, [], if◌then◌else◌, if-cases}
use nvidia_resiliency_ext_x.Prelude.Eq.{◌==◌}
use nvidia_resiliency_ext_x.Prelude.Dict.{get}
use nvidia_resiliency_ext_x.Rendezvous.Base.{NodeDesc, node_eq, RendezvousSettings, initial_state}
use nvidia_resiliency_ext_x.Rendezvous.Actions.{Executor}
use nvidia_resiliency_ext_x.Rendezvous.Handlers.{Op}
use nvidia_resiliency_ext_x.Rendezvous.Holder.{Backend, IsFencing, Holder}
use nvidia_resiliency_ext_x.Rendezvous.Run.{RoundInputs, Node, Local, run_round}
use nvidia_resiliency_ext_x.Rendezvous.Invariant.{AreValid, initial_state-IsWellFormed}
use nvidia_resiliency_ext_x.Rendezvous.Invariant.Completing.{IsExecutor}
use nvidia_resiliency_ext_x.Rendezvous.Safety.Syncing.{IsStored}
use nvidia_resiliency_ext_x.Rendezvous.Safety.Rounds.{IsHealthy, run_round-IsRound}

-- The executor and the holder that `FtRendezvousHandler.from_backend` builds.
abbrev pub new_executor : Executor
new_executor = record { state = initial_state; prev_participants = []; prev_round = none }

abbrev pub new_holder : (b : Backend) → Holder b
new_holder b = record { token = none; dirty = false; last_sync_time = none }

module _ (b : Backend) where
  pub record World : Type 0 where
    pub node : NodeDesc → Node b
    pub store : b.Store

  abbrev pub at_node : World → NodeDesc → Local b
  at_node w name = record { node = w.node name; store = w.store }

  abbrev pub install : World → NodeDesc → Local b → World
  install w name l = record { node = λ m. if m == name then l.node else w.node m; store = l.store }

  -- A node runs a round of some operation, or starts anew.
  pub data Step (settings : RendezvousSettings) (w : World) : World → Type 0 where
    round :
        (updates : Bool) (cache_duration : ℕ) (name : NodeDesc) (op : Op) (inputs : RoundInputs)
        (deadline : ℕ)
        → Step settings w (
            install w name
              (run_round b updates settings cache_duration name op inputs deadline
                (at_node w name)).1)
    start :
        (name : NodeDesc)
        → Step settings w (
            install w name (record {
              node = record { executor = new_executor; holder = new_holder b };
              store = w.store;
            }))

  pub data Reach (settings : RendezvousSettings) (w : World) : World → Type 0 where
    here : Reach settings w w
    next : {u t : World} → Reach settings w u → Step settings u t → Reach settings w t

  -- Every node and the backend hold well-formed states.
  pub record IsSafe (settings : RendezvousSettings) (w : World) : Type 0 where
    pub executors : (name : NodeDesc) → IsExecutor settings (w.node name).executor
    pub stored : IsStored b settings w.store

  module _ (f : IsFencing b) (settings : RendezvousSettings) (v : AreValid settings) where
    new_executor-IsExecutor : IsExecutor settings new_executor
    unfolding get
    new_executor-IsExecutor = record {
      well_formed = initial_state-IsWellFormed settings v;
      prev_distinct = λ p q r h k. cc;
    }

    install-IsSafe :
        (w : World) (name : NodeDesc) (l : Local b)
        → IsSafe settings w
        → IsHealthy b settings l
        → IsSafe settings (install w name l)
    install-IsSafe w name l s h = record {
      executors = λ m.
          if-cases (λ (n : Node b). IsExecutor settings n.executor) (m == name) _ _
            (λ e. h.executor) (λ e. s.executors m);
      stored = h.stored;
    }

    Step-IsSafe : {w t : World} → Step settings w t → IsSafe settings w → IsSafe settings t
    Step-IsSafe {w} (round updates cache_duration name op inputs deadline) s =
        install-IsSafe w name _ s
          (run_round-IsRound b f updates settings cache_duration name op inputs deadline
            (at_node w name) v (record { executor = s.executors name; stored = s.stored })).healthy
    Step-IsSafe {w} (start name) s =
        install-IsSafe w name _ s (record { executor = new_executor-IsExecutor; stored = s.stored })

    -- However the rounds of any number of nodes that share a fenced backend interleave, and
    -- whenever nodes start anew, every state that a node or the backend holds is well formed if it
    -- was so at the start: at most max_nodes participants, no node in two lists, a heartbeat for
    -- every node in a list, room in a round that is not complete, a deadline where it has
    -- min_nodes, and distinct ranks in a complete one.
    pub Reach-IsSafe : {w t : World} → Reach settings w t → IsSafe settings w → IsSafe settings t
    Reach-IsSafe here s = s
    Reach-IsSafe (next r st) s = Step-IsSafe st (Reach-IsSafe r s)
