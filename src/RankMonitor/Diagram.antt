-- ===== src/RankMonitor/Diagram.antt =====
-- The life of a rank monitor (fault_tolerance/rank_monitor_state_machine.py), for any calls.
use nvidia_resiliency_ext_x.Prelude.{
  ◌≡◌, refl, sym, ◌⊎◌, ◌↔◌, inl, inr, Bool, true, false, List, [], ◌∷◌, ◌++◌, All, arith,
}
use mathlib.Core.List.{Memᴰ}
use nvidia_resiliency_ext_x.Prelude.Method.{ok, err}
use nvidia_resiliency_ext_x.RankMonitor.Machine.{
  MonitorState, handling_start, handling_processing, handling_completed, finalized, aborted,
  invalid_transition, can_transition_to, is_restarting, Call, message, restart_check,
  connection_lost, signal, call, state_after, run_calls,
}

-- The only call that asks for a transition which the table forbids is a signal to a monitor that is
-- finalized.
pub call-invalid_transition :
    (c : Call) (s : MonitorState)
    → (call c s ≡ err invalid_transition) ↔ ((c ≡ signal) × (s ≡ finalized))
unfolding call
call-invalid_transition message s = (λ h. ground arith, λ h. ground arith)
call-invalid_transition restart_check s = (λ h. ground arith, λ h. ground arith)
call-invalid_transition connection_lost s = (λ h. ground arith, λ h. ground arith)
call-invalid_transition signal s = (λ h. ground arith, λ h. ground arith)

-- A call that returns stays where it is or follows the table.
pub call-can_transition_to :
    (c : Call) (s t : MonitorState) → call c s ≡ ok t → (t ≡ s) ⊎ (can_transition_to s t ≡ true)
unfolding call
call-can_transition_to c s t h = ground arith

run_calls-finalized : (cs : List Call) → run_calls cs finalized ≡ finalized
unfolding run_calls call
run_calls-finalized [] = refl
run_calls-finalized (c ∷ cs) = ground (arith, run_calls-finalized cs)

-- A finalized monitor stays finalized, and an aborted one stays aborted or is finalized.
pub run_calls-over :
    (cs : List Call)
    → (run_calls cs finalized ≡ finalized)
      × ((run_calls cs aborted ≡ aborted) ⊎ (run_calls cs aborted ≡ finalized))
unfolding run_calls call
run_calls-over [] = (refl, inl refl)
run_calls-over (c ∷ cs) =
    let over = run_calls-over cs in
    (run_calls-finalized (c ∷ cs), ground (arith, run_calls-finalized cs))

abbrev pub has_handled : MonitorState → Bool
has_handled handling_start = true
has_handled handling_processing = true
has_handled handling_completed = true
has_handled aborted = true
has_handled _ = false

call-has_handled :
    (c : Call) (s : MonitorState)
    → has_handled s ≡ false
    → (c ≡ connection_lost) ⊎ (has_handled (state_after (call c s) s) ≡ false)
unfolding call
call-has_handled c s h = ground arith

-- A monitor that has never lost its connection handles no restart: it is not in a handling state
-- and not aborted.
pub handling_needs_loss :
    (cs : List Call) (s : MonitorState)
    → has_handled s ≡ false
    → has_handled (run_calls cs s) ≡ true
    → Memᴰ connection_lost cs
unfolding run_calls
handling_needs_loss [] s h k = cc
handling_needs_loss (c ∷ cs) s h k = elim (call-has_handled c s h) [
  | inl e ↦ Memᴰ.head (sym e)
  | inr fresh ↦ Memᴰ.tail (handling_needs_loss cs (state_after (call c s) s) fresh k)
]

-- While a restart is handled: a message completes it, a second loss aborts it, and the periodic
-- checks between them leave it under way.
pub restart_ends :
    (checks : List Call) (s : MonitorState)
    → All (λ c. c ≡ restart_check) checks
    → is_restarting s ≡ true
    → (run_calls (checks ++ message ∷ []) s ≡ handling_completed)
      × (run_calls (checks ++ connection_lost ∷ []) s ≡ aborted)
unfolding run_calls call is_restarting
restart_ends [] s checked h = (ground arith, ground arith)
restart_ends (c ∷ cs) s checked h =
    restart_ends cs (state_after (call c s) s) checked.1 (ground arith)
