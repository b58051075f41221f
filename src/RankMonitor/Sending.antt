-- ===== src/RankMonitor/Sending.antt =====
-- Whether a message about a section reaches the open sections of the server of
-- fault_tolerance/rank_monitor_server.py.
use nvidia_resiliency_ext_x.Prelude.{
  ℕ, ◌≡◌, refl, ◌⊎◌, inl, inr, Bool, false, not, ◌&&◌, ◌||◌, String,
}
use nvidia_resiliency_ext_x.Prelude.Eq.{◌==◌, text_keys}
use nvidia_resiliency_ext_x.Prelude.Method.{Exceptional, ok, err, ◌>>◌}
use nvidia_resiliency_ext_x.Data.{SectionAction, open_section, close_section, close_all}
use nvidia_resiliency_ext_x.RankMonitor.Machine.{MachineError, MonitorState, handle_msg}
use nvidia_resiliency_ext_x.RankMonitor.Server.{
  RestartTask, no_task, running, failed, Server, ServerError, machine_error, task_error, Reply,
  enter, stop_periodic_restart_check, update_sections_on, handle_section_msg,
}

-- The message is not reached, or it is handled with the same open sections.
unfoldable pub IsReached :
    SectionAction → String → ℕ → Server → Exceptional ServerError Reply × Server → Type 0
IsReached action name now s r =
    ((x : ServerError) × (r.0 ≡ err x) × (r.1.open_sections ≡ s.open_sections))
    ⊎ ((t : Server) × (t.open_sections ≡ s.open_sections)
        × (r ≡ update_sections_on action name now t))

entered-IsReached :
    (action : SectionAction) (name : String) (now : ℕ) (s t : Server)
    (r : Exceptional MachineError MonitorState)
    → t.open_sections ≡ s.open_sections
    → IsReached action name now s ((enter r >> update_sections_on action name now) t)
unfolding IsReached
entered-IsReached action name now s t (ok m) e = inr (record t { machine = m }, e, refl)
entered-IsReached action name now s t (err x) e = inl (machine_error x, refl, e)

RestartTask-cases :
    (k : RestartTask) → (k ≡ no_task) ⊎ (k ≡ running) ⊎ ((x : MachineError) × (k ≡ failed x))
RestartTask-cases no_task = inl refl
RestartTask-cases running = inr (inl refl)
RestartTask-cases (failed x) = inr (inr (x, refl))

pub handle_section_msg-IsReached :
    (action : SectionAction) (name : String) (now : ℕ) (s : Server)
    → IsReached action name now s (handle_section_msg action name now s)
unfolding handle_section_msg stop_periodic_restart_check IsReached
handle_section_msg-IsReached action name now s = elim (RestartTask-cases s.restart_task) [
  | inl e ↦ rw e (
      entered-IsReached action name now s (record s { restart_task = no_task })
        (handle_msg s.machine) refl)
  | inr (inl e) ↦ rw e (
      entered-IsReached action name now s (record s { restart_task = no_task })
        (handle_msg s.machine) refl)
  | inr (inr (x, e)) ↦ rw e (inl (task_error x, refl, refl))
]

-- What an action makes of whether a section is open.
abbrev pub is_open_after : SectionAction → String → String → Bool → Bool
is_open_after open_section name other is_open = (name == other) || is_open
is_open_after close_section name other is_open = not (name == other) && is_open
is_open_after close_all name other is_open = false
