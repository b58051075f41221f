-- ===== src/RankMonitor/Sections.antt =====
-- What the periodic check of `RankMonitorServer` finds (fault_tolerance/rank_monitor_server.py).
use nvidia_resiliency_ext_x.Prelude.{
  ℕ, ◌≡◌, ◌≢◌, refl, Bool, true, false, ◌||◌, Option, none, some, String, List, [], ◌∷◌,
  Option-cases, ◌⊎◌, inl, inr, arith,
}
use nvidia_resiliency_ext_x.Prelude.Dict.{Dict, get, has}
use nvidia_resiliency_ext_x.Prelude.Eq.{text_keys, eq_self}
use nvidia_resiliency_ext_x.Prelude.Method.{Exceptional, ok, err}
use nvidia_resiliency_ext_x.Data.{RankInfo}
use nvidia_resiliency_ext_x.RankMonitor.Server.{
  Config, Server, started, ServerError, missing_timeout, is_empty,
}
use nvidia_resiliency_ext_x.RankMonitor.Serving.{
  is_over, time_over, hb_over, sections_over, check_rank, is_hb_timeout_elapsed, check_sections,
  is_section_timeout_elapsed, periodic_rank_check, Event, serve,
}
use nvidia_resiliency_ext_x.RankMonitor.Clocks.{IsClocked, serve-IsClocked}

-- A check that returns, or raises the `KeyError` of an open section without a timeout.
abbrev pub IsChecked : Config → Dict String ℕ → Exceptional ServerError Bool → Type 0
IsChecked c d r =
    ((b : Bool) × (r ≡ ok b))
    ⊎ ((name : String) × (r ≡ err (missing_timeout name))
        × (has name d ≡ true)
        × (get name c.rank_section_timeouts ≡ none))

time_over-total :
    (timeout since : Option ℕ) (now : ℕ)
    → since ≢ none
    → (b : Bool) × (time_over timeout since now ≡ ok b)
time_over-total timeout none now h = absurd (h refl)
time_over-total timeout (some since) now h = (is_over timeout since now, refl)

check_sections-IsChecked :
    (c : Config) (now : ℕ) (b : Bool) (d : Dict String ℕ) → IsChecked c d (check_sections c now b d)
unfolding check_sections has
check_sections-IsChecked c now b [] = inl (b, refl)
check_sections-IsChecked c now b ((name, since) ∷ d) =
    elim (Option-cases (get name c.rank_section_timeouts)) [
      | inl e ↦ inr (name, rw (check_sections, e), rw (eq_self name), e)
      | inr (t, e) ↦ elim (check_sections-IsChecked c now (is_over t since now) d) [
        | inl (r, q) ↦ inl (r, rw (check_sections, e, q))
        | inr (k, q, h, g) ↦ inr (k, rw (check_sections, e, q), ground arith, g)
      ]
    ]

hb_over-total :
    (last : Option ℕ) (s : Server) (now : ℕ)
    → s.start_time ≢ none
    → (b : Bool) × (hb_over last s now ≡ ok b)
hb_over-total none s now h = time_over-total _ s.start_time now h
hb_over-total (some last) s now h = (_, refl)

sections_over-IsChecked :
    (d : Dict String ℕ) (s : Server) (now : ℕ)
    → (is_empty d ≡ true → s.out_of_section_time ≢ none)
    → IsChecked s.cfg d (sections_over d s now)
unfolding sections_over
sections_over-IsChecked [] s now h = inl (time_over-total _ s.out_of_section_time now (h refl))
sections_over-IsChecked (x ∷ d) s now h = check_sections-IsChecked s.cfg now false (x ∷ d)

check_rank-IsChecked :
    (info : Option RankInfo) (s : Server) (now : ℕ)
    → (info ≢ none → s.start_time ≢ none)
    → (info ≢ none → is_empty s.open_sections ≡ true → s.out_of_section_time ≢ none)
    → IsChecked s.cfg s.open_sections (check_rank info s now)
unfolding is_hb_timeout_elapsed is_section_timeout_elapsed
check_rank-IsChecked none s now starts leaves = inl (false, refl)
check_rank-IsChecked (some info) s now starts leaves =
    let (hb, h) = hb_over-total s.last_hb_time s now (starts (λ e. cc)) in
    elim (sections_over-IsChecked s.open_sections s now (leaves (λ e. cc))) [
      | inl (b, q) ↦ inl (hb || b, rw (h, q))
      | inr (name, q, listed, absent) ↦ inr (name, rw (h, q), listed, absent)
    ]

-- At a server whose moments are set, a turn of the periodic check returns, unless a section is open
-- that the configuration has no timeout for: its name is what the `KeyError` carries.
pub periodic_rank_check-IsChecked :
    (s : Server) (now : ℕ)
    → IsClocked s
    → IsChecked s.cfg s.open_sections (periodic_rank_check s now)
unfolding periodic_rank_check
periodic_rank_check-IsChecked s now w = check_rank-IsChecked s.rank_info s now w.starts w.leaves

-- Whatever reaches a new server, and however messages, lost and late connections, signals and
-- restart checks interleave, a turn of the periodic check returns, or raises the KeyError of a
-- section that is open and that the configuration has no timeout for: it never calculates with a
-- moment that is not set.
pub serve-IsChecked :
    (cfg : Config) (es : List Event) (now : ℕ)
    → let s = serve es (started cfg) in IsChecked s.cfg s.open_sections (periodic_rank_check s now)
serve-IsChecked cfg es now = periodic_rank_check-IsChecked (serve es (started cfg)) now (
    serve-IsClocked es (started cfg)
      (record { starts = λ e. absurd (e refl); leaves = λ e. absurd (e refl) }))
