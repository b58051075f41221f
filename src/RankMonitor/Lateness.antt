-- ===== src/RankMonitor/Lateness.antt =====
-- What ends a rank in the periodic check of `RankMonitorServer`
-- (fault_tolerance/rank_monitor_server.py).
use nvidia_resiliency_ext_x.Prelude.{
  ℕ, ◌+◌, ◌<◌, ◌≡◌, ◌≢◌, refl, sym, ◌∙◌, ap, Bool, true, false, Option, none, some, String, [], ◌∷◌,
  ◌++◌, Option-cases, ◌⊎◌, inl, inr, arith, All,
}
use mathlib.Core.List.{Memᴰ}
use nvidia_resiliency_ext_x.Prelude.Dict.{Dict, get}
use nvidia_resiliency_ext_x.Prelude.Eq.{text_keys}
use nvidia_resiliency_ext_x.Prelude.Method.{ok, err}
use nvidia_resiliency_ext_x.Data.{RankInfo}
use nvidia_resiliency_ext_x.RankMonitor.Server.{Config, Server, missing_timeout}
use nvidia_resiliency_ext_x.RankMonitor.Serving.{
  is_over, time_over, hb_over, sections_over, check_rank, is_hb_timeout_elapsed, check_sections,
  is_section_timeout_elapsed, periodic_rank_check,
}

-- A moment that lies further back than the timeout allows.
abbrev pub IsLate : Option ℕ → Option ℕ → ℕ → Type 0
IsLate timeout since now = (t : ℕ) × (u : ℕ) × (timeout ≡ some t) × (since ≡ some u) × (u + t < now)

-- Some open section has been open for longer than its timeout.
abbrev pub HasLateSection : Config → Dict String ℕ → ℕ → Type 0
HasLateSection c d now =
    (name : String) × (since : ℕ) × (t : ℕ) × Memᴰ (name, since) d
    × (get name c.rank_section_timeouts ≡ some (some t))
    × (since + t < now)

is_over-true :
    (timeout : Option ℕ) (since now : ℕ)
    → is_over timeout since now ≡ true
    → (t : ℕ) × (timeout ≡ some t) × (since + t < now)
is_over-true none since now h = cc
is_over-true (some t) since now h = (t, refl, ground arith)

time_over-true :
    (timeout since : Option ℕ) (now : ℕ)
    → time_over timeout since now ≡ ok true
    → IsLate timeout since now
time_over-true timeout none now h = cc
time_over-true timeout (some since) now h =
    let q : is_over timeout since now ≡ true = cc in
    let (t, e, l) = is_over-true timeout since now q in (t, since, e, refl, l)

check_sections-step :
    (c : Config) (now since : ℕ) (b : Bool) (name : String) (d : Dict String ℕ) {t : Option ℕ}
    → get name c.rank_section_timeouts ≡ some t
    → check_sections c now b ((name, since) ∷ d) ≡ check_sections c now (is_over t since now) d
unfolding check_sections
check_sections-step c now since b name d e = rw (check_sections, e) refl

check_sections-missing :
    (c : Config) (now since : ℕ) (b : Bool) (name : String) (d : Dict String ℕ)
    → get name c.rank_section_timeouts ≡ none
    → check_sections c now b ((name, since) ∷ d) ≡ err (missing_timeout name)
unfolding check_sections
check_sections-missing c now since b name d e = rw (check_sections, e) refl

check_sections-true :
    (c : Config) (now : ℕ) (b : Bool) (d : Dict String ℕ)
    → check_sections c now b d ≡ ok true
    → (b ≡ true) ⊎ HasLateSection c d now
unfolding check_sections
check_sections-true c now b [] h = let q : b ≡ true = cc in inl q
check_sections-true c now b ((name, since) ∷ d) h =
    elim (Option-cases (get name c.rank_section_timeouts)) [
      | inl e ↦ cc (h, check_sections-missing c now since b name d e)
      | inr (t, e) ↦
          elim (check_sections-true c now (is_over t since now) d
            (sym (check_sections-step c now since b name d e) ∙ h)) [
              | inl q ↦
                  let (v, f, l) = is_over-true t since now q in
                  inr (name, since, v, Memᴰ.head refl, e ∙ ap some f, l)
              | inr (n, u, v, m, g, l) ↦ inr (n, u, v, Memᴰ.tail m, g, l)
            ]
    ]

-- The sections of a check: an overdue one, or none open and outside of all for too long.
abbrev pub IsLateInSections : Dict String ℕ → Server → ℕ → Type 0
IsLateInSections d s now =
    HasLateSection s.cfg d now
    ⊎ ((d ≡ []) × IsLate s.cfg.rank_out_of_section_timeout s.out_of_section_time now)

sections_over-true :
    (d : Dict String ℕ) (s : Server) (now : ℕ)
    → sections_over d s now ≡ ok true
    → IsLateInSections d s now
unfolding sections_over
sections_over-true [] s now h = inr (refl, time_over-true _ s.out_of_section_time now h)
sections_over-true (x ∷ d) s now h = elim (check_sections-true s.cfg now false (x ∷ d) h) [
  | inl q ↦ cc
  | inr late ↦ inl late
]

abbrev pub HasLateHeartbeat : Server → ℕ → Type 0
HasLateHeartbeat s now =
    ((s.last_hb_time ≡ none) × IsLate s.cfg.initial_rank_heartbeat_timeout s.start_time now)
    ⊎ IsLate s.cfg.rank_heartbeat_timeout s.last_hb_time now

hb_over-true :
    (last : Option ℕ) (s : Server) (now : ℕ)
    → hb_over last s now ≡ ok true
    → ((last ≡ none) × IsLate s.cfg.initial_rank_heartbeat_timeout s.start_time now)
      ⊎ IsLate s.cfg.rank_heartbeat_timeout last now
hb_over-true none s now h = inl (refl, time_over-true _ s.start_time now h)
hb_over-true (some last) s now h = inr (time_over-true _ (some last) now h)

check_rank-true :
    (info : Option RankInfo) (s : Server) (now : ℕ)
    → check_rank info s now ≡ ok true
    → (info ≢ none)
      × ((is_hb_timeout_elapsed s now ≡ ok true) ⊎ (is_section_timeout_elapsed s now ≡ ok true))
check_rank-true none s now h = cc
check_rank-true (some info) s now h = (λ e. cc, ground arith)

-- If a turn of the periodic check ends the rank, the rank has introduced itself, and its heartbeat
-- is late, or an open section is open for longer than its timeout, or no section is open and it has
-- been outside for too long.
pub periodic_rank_check-true :
    (s : Server) (now : ℕ)
    → periodic_rank_check s now ≡ ok true
    → (s.rank_info ≢ none) × (HasLateHeartbeat s now ⊎ IsLateInSections s.open_sections s now)
unfolding periodic_rank_check is_hb_timeout_elapsed is_section_timeout_elapsed
periodic_rank_check-true s now h =
    let (known, late) = check_rank-true s.rank_info s now h in
    (
      known,
      elim late [
        | inl q ↦ inl (hb_over-true s.last_hb_time s now q)
        | inr q ↦ inr (sections_over-true s.open_sections s now q)
      ],
    )

-- Every open section has an entry in the configuration.
abbrev pub IsConfigured : Config → Dict String ℕ → Type 0
IsConfigured c d = All (λ x. get x.0 c.rank_section_timeouts ≢ none) d

-- If every open section has a timeout in the configuration, the loop over the open sections returns
-- whether the one that stands last is over its timeout, whatever the others are.
pub check_sections-append :
    (c : Config) (now since : ℕ) (b : Bool) (d : Dict String ℕ) (name : String) (t : Option ℕ)
    → IsConfigured c d
    → get name c.rank_section_timeouts ≡ some t
    → check_sections c now b (d ++ (name, since) ∷ []) ≡ ok (is_over t since now)
unfolding check_sections
check_sections-append c now since b [] name t w e = check_sections-step c now since b name [] e
check_sections-append c now since b ((n, u) ∷ d) name t w e =
    elim (Option-cases (get n c.rank_section_timeouts)) [
      | inl q ↦ absurd (w.0 q)
      | inr (v, q) ↦
          check_sections-step c now u b n (d ++ (name, since) ∷ []) q
          ∙ check_sections-append c now since (is_over v u now) d name t w.1 e
    ]
