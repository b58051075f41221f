-- ===== src/Rendezvous/Invariant/Completing.antt =====
-- Joining a round and completing it keep the state well formed.
use nvidia_resiliency_ext_x.Prelude.{
  ℕ, suc, ◌≤◌, ◌<◌, ◌≡◌, ◌≢◌, refl, ap, true, false, none, List, [], ◌∷◌, arith, eqb, length,
  if-cases,
}
use nvidia_resiliency_ext_x.Prelude.Eq.{==_iff}
use nvidia_resiliency_ext_x.Prelude.Dict.{Dict, has, put, has-put, length-put, put-IsUnique}
use nvidia_resiliency_ext_x.Prelude.Keys.{contains, contains-discard, contains-update}
use nvidia_resiliency_ext_x.Rendezvous.Base.{
  NodeDesc, node_eq, RendezvousSettings, RendezvousState, Result, ok,
}
use nvidia_resiliency_ext_x.Rendezvous.Ranks.Counting.{IsInjective}
use nvidia_resiliency_ext_x.Rendezvous.Ranks.Assignment.{
  IsRanking, assign_ranks-IsRanking, IsRanking-IsInjective, IsRanking-has, IsRanking-length,
  IsRanking-IsUnique,
}
use nvidia_resiliency_ext_x.Rendezvous.Actions.{
  Executor, ActionInputs, is_empty, move_waiting, all_healthy, mark_complete, join_round,
  complete_if_full,
}
use nvidia_resiliency_ext_x.Rendezvous.Invariant.{IsPlaced, IsSound, IsWellFormed}

-- What holds of an executor between two actions.
pub record IsExecutor (settings : RendezvousSettings) (x : Executor) : Type 0 where
  pub well_formed : IsWellFormed settings x.state
  pub prev_distinct : IsInjective x.prev_participants

is_empty-contains : (n : NodeDesc) (l : List NodeDesc) → is_empty l ≡ true → contains n l ≡ false
unfolding contains
is_empty-contains n [] h = refl
is_empty-contains n (x ∷ l) h = cc

-- A state whose participants have the ranks of `_assign_ranks`.
module _ (settings : RendezvousSettings) (s : RendezvousState) (prev ranks : Dict NodeDesc ℕ)
    (w : IsSound settings s) (i : IsRanking s.participants prev ranks) where
  ranked-IsPlaced : (n : NodeDesc) → IsPlaced n s → IsPlaced n (record s { participants = ranks })
  ranked-IsPlaced n p = ground (arith, IsRanking-has i n)

  -- With the wait list moved the round is complete, and no rank stands twice.
  complete-IsWellFormed :
      let t = move_waiting (record s { complete = true; deadline = none }) in
      IsWellFormed settings (record t { participants = ranks; worker_states = all_healthy ranks })
  unfolding move_waiting contains
  complete-IsWellFormed =
      if-cases
        (λ t.
          IsWellFormed settings
            (record t { participants = ranks; worker_states = all_healthy ranks }))
        (is_empty s.wait_list) _ _
        (λ e. record {
          sound = record {
            unique = IsRanking-IsUnique i w.unique;
            within = omega (arith, IsRanking-length i, w.within);
            placed = λ n. ground (arith, ranked-IsPlaced n (w.placed n));
          };
          open_below = λ c. cc;
          deadline_set = λ c. cc;
          deadline_cleared = λ c. refl;
          ranks_distinct = λ c. IsRanking-IsInjective i;
        })
        (λ e. record {
          sound = record {
            unique = IsRanking-IsUnique i w.unique;
            within = omega (arith, IsRanking-length i, w.within);
            placed = λ n. ground (
              arith,
              ranked-IsPlaced n (w.placed n),
              contains-update n s.redundancy_list s.wait_list,
            );
          };
          open_below = λ c. cc;
          deadline_set = λ c. cc;
          deadline_cleared = λ c. refl;
          ranks_distinct = λ c. IsRanking-IsInjective i;
        })

-- `_mark_rendezvous_complete` does not raise on a sound state, and leaves it well formed.
pub mark_complete-IsExecutor :
    (settings : RendezvousSettings) (x : Executor)
    → IsSound settings x.state
    → IsInjective x.prev_participants
    → ((mark_complete x).0 ≡ ok tt) × IsExecutor settings (mark_complete x).1
unfolding mark_complete
mark_complete-IsExecutor settings x w inj =
    let (ranks, e, i) =
      assign_ranks-IsRanking x.state.participants x.prev_participants w.unique inj in
    (
      rw e,
      rw e (record {
        well_formed = complete-IsWellFormed settings x.state x.prev_participants ranks w i;
        prev_distinct = inj;
      }),
    )

-- The states that `join_round` makes: sound, and with a deadline where one is due.
module _ (settings : RendezvousSettings) (n : NodeDesc) (inputs : ActionInputs)
    (s : RendezvousState) (w : IsWellFormed settings s) (going : s.complete ≡ false)
    (out : has n s.participants ≡ false) (spare : contains n s.redundancy_list ≡ false) where
  join_round-IsPlaced : (p : NodeDesc) → IsPlaced p s → IsPlaced p (join_round settings n inputs s)
  unfolding join_round
  join_round-IsPlaced p v =
      if-cases (IsPlaced p) (eqb (length (put n 0 s.participants)) settings.min_nodes) _ _
        (λ e. ground (
          arith,
          has-put p n inputs.heartbeat_time s.last_heartbeats,
          ==_iff n p,
          has-put p n 0 s.participants,
          contains-discard p n s.wait_list,
        ))
        (λ e. ground (
          arith,
          has-put p n inputs.heartbeat_time s.last_heartbeats,
          ==_iff n p,
          has-put p n 0 s.participants,
          contains-discard p n s.wait_list,
        ))

  length-join_round :
      length (join_round settings n inputs s).participants ≡ suc (length s.participants)
  unfolding join_round
  length-join_round = ground (arith, length-put n 0 s.participants)

  join_round-IsSound : IsSound settings (join_round settings n inputs s)
  unfolding join_round
  join_round-IsSound = record {
    unique = ground (arith, put-IsUnique n 0 s.participants w.unique);
    within = omega (arith, length-join_round, w.open_below going);
    placed = λ p. join_round-IsPlaced p (w.placed p);
  }

  complete-join_round : (join_round settings n inputs s).complete ≡ false
  unfolding join_round
  complete-join_round = ground arith

  -- The node that reaches the minimum sets the deadline; below it none is due, and above it the
  -- deadline was set before.
  deadline-join_round :
      settings.min_nodes ≤ length (join_round settings n inputs s).participants
      → (join_round settings n inputs s).deadline ≢ none
  unfolding join_round
  deadline-join_round h = ground (arith, length-put n 0 s.participants, w.deadline_set going)

  joined-IsWellFormed :
      length (join_round settings n inputs s).participants < settings.max_nodes
      → IsWellFormed settings (join_round settings n inputs s)
  joined-IsWellFormed below = record {
    sound = join_round-IsSound;
    open_below = λ c. below;
    deadline_set = λ c h. deadline-join_round h;
    deadline_cleared = λ c. cc complete-join_round;
    ranks_distinct = λ c. cc complete-join_round;
  }

  -- A node that joins completes the round if it is the last that the round can take.
  pub join-IsExecutor :
      (x : Executor)
      → x.state ≡ join_round settings n inputs s
      → IsInjective x.prev_participants
      → ((complete_if_full settings x).0 ≡ ok tt)
        × IsExecutor settings (complete_if_full settings x).1
  unfolding complete_if_full
  join-IsExecutor x e inj =
      if-cases {A = Result (Unit {0}) × Executor} (λ r. (r.0 ≡ ok tt) × IsExecutor settings r.1)
        (eqb (length x.state.participants) settings.max_nodes) _ _
        (λ full. mark_complete-IsExecutor settings x (rw e join_round-IsSound) inj)
        (λ more. (
          refl,
          record {
            well_formed = rw e (
                joined-IsWellFormed (
                  let same = ap (λ (t : RendezvousState). length t.participants) e in
                  ground (arith, join_round-IsSound.within)));
            prev_distinct = inj;
          },
        ))
