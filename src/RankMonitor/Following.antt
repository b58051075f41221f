-- ===== src/RankMonitor/Following.antt =====
-- What a message about a section makes of the open sections, at the server of
-- fault_tolerance/rank_monitor_server.py and in the calculator of fault_tolerance/timeouts_calc.py.
use nvidia_resiliency_ext_x.Prelude.{
  ℕ, ◌≡◌, refl, ap, ◌⊎◌, inl, inr, Bool, true, false, not, String, [], arith,
}
use nvidia_resiliency_ext_x.Prelude.Eq.{text_keys}
use nvidia_resiliency_ext_x.Prelude.Dict.{Dict, has, put, without, has-put, has-without, get-of_has}
use nvidia_resiliency_ext_x.Prelude.Method.{ok}
use nvidia_resiliency_ext_x.Data.{SectionAction, open_section, close_section, close_all}
use nvidia_resiliency_ext_x.RankMonitor.Server.{
  Server, ok_msg, already_open, not_open, close_one, update_sections_on,
}
use nvidia_resiliency_ext_x.Timeouts.Calc.{
  close_all_sections, TimeoutsCalc, open_named, close_named, update_on_section_event,
}
use nvidia_resiliency_ext_x.Timeouts.Sections.{
  IsTracked, update_on_section_event-IsTracked, close_all_sections-empty,
}
use nvidia_resiliency_ext_x.RankMonitor.Client.{section_update}
use nvidia_resiliency_ext_x.RankMonitor.Sending.{is_open_after}

-- Whether an action suits the open sections.
abbrev pub suits : SectionAction → String → Dict String ℕ → Bool
suits open_section name d = not (has name d)
suits close_section name d = has name d
suits close_all name d = true

pub suits-alike :
    (action : SectionAction) (name : String) (d e : Dict String ℕ)
    → has name d ≡ has name e
    → suits action name d ≡ suits action name e
suits-alike open_section name d e h = ap not h
suits-alike close_section name d e h = h
suits-alike close_all name d e h = refl

pub update_sections_on-accepted :
    (action : SectionAction) (name : String) (now : ℕ) (s : Server)
    → suits action name s.open_sections ≡ true
    → let r = update_sections_on action name now s in
      (r.0 ≡ ok ok_msg)
      × ((other : String)
          → has other r.1.open_sections
            ≡ is_open_after action name other (has other s.open_sections))
unfolding update_sections_on close_one has
update_sections_on-accepted open_section name now s h =
    (ground arith, λ other. ground (arith, has-put other name now s.open_sections))
update_sections_on-accepted close_section name now s h =
    (ground arith, λ other. ground (arith, has-without other name s.open_sections))
update_sections_on-accepted close_all name now s h = (refl, λ other. refl)

pub update_sections_on-refused :
    (action : SectionAction) (name : String) (now : ℕ) (s : Server)
    → suits action name s.open_sections ≡ false
    → let r = update_sections_on action name now s in
      ((r.0 ≡ ok (already_open name)) ⊎ (r.0 ≡ ok (not_open name))) × (r.1 ≡ s)
unfolding update_sections_on
update_sections_on-refused open_section name now s h = (inl (ground arith), ground arith)
update_sections_on-refused close_section name now s h = (inr (ground arith), ground arith)
update_sections_on-refused close_all name now s h = absurd (ground arith)

open_named-opens :
    (name : String) (later : ℕ) (c : TimeoutsCalc)
    → has name c.open_sections ≡ false
    → ((open_named name later c).0 ≡ ok tt)
      × ((open_named name later c).1.open_sections ≡ put name later c.open_sections)
unfolding open_named
open_named-opens name later c h = (ground arith, ground arith)

close_named-closes :
    (name : String) (later : ℕ) (c : TimeoutsCalc)
    → has name c.open_sections ≡ true
    → has name c.section_to_max_time ≡ true
    → ((close_named name later c).0 ≡ ok tt)
      × ((close_named name later c).1.open_sections ≡ without name c.open_sections)
unfolding close_named
close_named-closes name later c o k =
    let (since, s) = get-of_has name c.open_sections o in
    let (longest, l) = get-of_has name c.section_to_max_time k in (rw (s, l) refl, rw (s, l) refl)

has-empty : (other : String) (d : Dict String ℕ) → d ≡ [] → has other d ≡ false
unfolding has
has-empty other d e = rw e refl

-- The calculator follows an action that suits it.
pub section_update-follows :
    (action : SectionAction) (name : String) (later : ℕ) (c : TimeoutsCalc)
    → IsTracked c
    → (action ≡ close_all) ⊎ (has name c.section_to_max_time ≡ true)
    → suits action name c.open_sections ≡ true
    → let r = section_update action name later c in
      (r.0 ≡ ok tt)
      × IsTracked r.1
      × ((other : String)
          → has other r.1.open_sections
            ≡ is_open_after action name other (has other c.open_sections))
unfolding section_update update_on_section_event
section_update-follows open_section name later c w (inl e) h = absurd (ground arith)
section_update-follows open_section name later c w (inr k) h =
    let (o, d) = open_named-opens name later c (ground arith) in
    let tracked = (update_on_section_event-IsTracked name open_section later c w).0 in
    (
      ground arith,
      tracked,
      λ other. ground (arith, has-put other name later c.open_sections, ap (has other) d),
    )
section_update-follows close_section name later c w (inl e) h = absurd (ground arith)
section_update-follows close_section name later c w (inr k) h =
    let (o, d) = close_named-closes name later c (ground arith) k in
    let tracked = (update_on_section_event-IsTracked name close_section later c w).0 in
    (
      ground arith,
      tracked,
      λ other. ground (arith, has-without other name c.open_sections, ap (has other) d),
    )
section_update-follows close_all name later c w k h =
    let (o, d, t) = close_all_sections-empty later c w in
    (o, t, λ other. has-empty other (close_all_sections later c).1.open_sections d)
