-- ===== src/RankMonitor/Opening.antt =====
-- Sections that a rank opens and closes (fault_tolerance/rank_monitor_server.py).
use nvidia_resiliency_ext_x.Prelude.{
  ℕ, ◌≡◌, ap, ◌∙◌, refl, false, none, some, String, if◌then◌else◌, ◌⊎◌, inl, inr,
}
use nvidia_resiliency_ext_x.Prelude.Eq.{text_keys, eq_self}
use nvidia_resiliency_ext_x.Prelude.Dict.{has, put, without-put, has-put}
use nvidia_resiliency_ext_x.Prelude.Method.{ok}
use nvidia_resiliency_ext_x.Data.{SectionAction, open_section, close_section}
use nvidia_resiliency_ext_x.RankMonitor.Machine.{initialize, handling_completed, handle_msg}
use nvidia_resiliency_ext_x.RankMonitor.Server.{
  Server, no_task, ok_msg, is_empty, handle_section_msg, stop_periodic_restart_check,
  update_sections_on, close_one,
}

-- A monitor in normal service.
abbrev pub IsServing : Server → Type 0
IsServing s =
    ((s.machine ≡ initialize) ⊎ (s.machine ≡ handling_completed)) × (s.restart_task ≡ no_task)

handle_section_msg-serving :
    (s : Server) (name : String) (now : ℕ) (action : SectionAction)
    → IsServing s
    → handle_section_msg action name now s ≡ update_sections_on action name now s
unfolding handle_section_msg handle_msg stop_periodic_restart_check
handle_section_msg-serving s name now action w = elim w.0 [
  | inl e ↦ rw (e, w.1) refl
  | inr e ↦ rw (e, w.1) refl
]

opened : Server → String → ℕ → Server
opened s name now = record s {
  open_sections = put name now s.open_sections;
  out_of_section_time = none;
}

open_section-fresh :
    (s : Server) (name : String) (now : ℕ)
    → has name s.open_sections ≡ false
    → update_sections_on open_section name now s ≡ (ok ok_msg, opened s name now)
unfolding update_sections_on opened
open_section-fresh s name now h = rw h refl

close_section-fresh :
    (s : Server) (name : String) (now later : ℕ)
    → has name s.open_sections ≡ false
    → update_sections_on close_section name later (opened s name now) ≡ (
      ok ok_msg,
      record s { out_of_section_time = if is_empty s.open_sections then some later else none },
    )
unfolding update_sections_on close_one opened
close_section-fresh s name now later h =
    rw (has-put name name now s.open_sections, eq_self name, without-put name now s.open_sections h)
      refl

-- In normal service, a section that is opened and closed again leaves the open sections as they were;
-- outside of all sections the time counts from the close.
pub close-open :
    (s : Server) (name : String) (now later : ℕ)
    → IsServing s
    → has name s.open_sections ≡ false
    → let t = (handle_section_msg open_section name now s).1 in
      ((handle_section_msg open_section name now s).0 ≡ ok ok_msg)
      × (handle_section_msg close_section name later t ≡ (
        ok ok_msg,
        record s { out_of_section_time = if is_empty s.open_sections then some later else none },
      ))
unfolding opened
close-open s name now later w h =
    let first =
      handle_section_msg-serving s name now open_section w ∙ open_section-fresh s name now h in
    let second =
      handle_section_msg-serving (opened s name now) name later close_section (w.0, w.1)
      ∙ close_section-fresh s name now later h in
    (ap (λ r. r.0) first, ap (λ r. handle_section_msg close_section name later r.1) first ∙ second)
