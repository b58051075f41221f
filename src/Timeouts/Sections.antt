-- ===== src/Timeouts/Sections.antt =====
-- The sections that `TimeoutsCalc` measures (fault_tolerance/timeouts_calc.py).
use nvidia_resiliency_ext_x.Prelude.{
  ℕ, ◌≡◌, refl, sym, subst, ◌∙◌, ap, Bool, true, false, not, ◌&&◌, some, String, [], ◌∷◌, inl, inr,
  arith, if◌then◌else◌, Bool-cases,
}
use nvidia_resiliency_ext_x.Prelude.Eq.{text_keys, ==_iff, eq_self}
use nvidia_resiliency_ext_x.Prelude.Dict.{
  Dict, get, has, without, keys, IsUnique, has-put, has-without, get-put, get-of_has, get-eq-none,
  put-IsUnique, without-IsUnique, without-absent,
}
use nvidia_resiliency_ext_x.Prelude.Method.{Exceptional, ok, err}
use nvidia_resiliency_ext_x.Prelude.Integers.{ℤ, difference, leb_ℤ, max_ℤ, leb_ℤ-max_ℤ}
use nvidia_resiliency_ext_x.Data.{SectionAction, open_section, close_section, close_all}
use nvidia_resiliency_ext_x.Timeouts.Calc.{
  CalcError, calc_error, TimeoutsCalc, maybe_bump_oos_time, open_named, closed, close_named,
  close_each, on_section, update_on_section_event, close_all_sections,
}

-- The open sections are measured ones, each open once.
pub record IsTracked (c : TimeoutsCalc) : Type 0 where
  pub known :
      (name : String) → has name c.open_sections ≡ true → has name c.section_to_max_time ≡ true
  pub unique : IsUnique c.open_sections

maybe_bump_oos_time-frame :
    (now : ℕ) (c : TimeoutsCalc)
    → ((maybe_bump_oos_time now c).section_to_max_time ≡ c.section_to_max_time)
      × ((maybe_bump_oos_time now c).open_sections ≡ c.open_sections)
unfolding maybe_bump_oos_time
maybe_bump_oos_time-frame now c = (ground arith, ground arith)

-- The outcome of a method: what it returns and what state it leaves.
abbrev pub Outcome : Type 0
Outcome = Exceptional CalcError (Unit {0}) × TimeoutsCalc

-- Either the method raises TimeoutsCalcError and changes nothing, or it returns.
abbrev pub IsChecked : Bool → TimeoutsCalc → Outcome → Type 0
IsChecked fits c r = if fits then r.0 ≡ ok tt else r ≡ (err calc_error, c)

open_named-IsTracked :
    (name : String) (now : ℕ) (c : TimeoutsCalc)
    → IsTracked c
    → has name c.section_to_max_time ≡ true
    → IsTracked (open_named name now c).1
      × IsChecked (not (has name c.open_sections)) c (open_named name now c)
unfolding open_named
open_named-IsTracked name now c w h = elim (Bool-cases (has name c.open_sections)) [
  | inl e ↦ rw e (w, refl)
  | inr e ↦ rw e (
    record {
      known = λ other o. ground (
        arith,
        has-put other name now c.open_sections,
        w.known other,
        ==_iff name other,
        maybe_bump_oos_time-frame now c,
      );
      unique = put-IsUnique name now c.open_sections w.unique;
    },
    refl,
  )
]

closed-IsTracked :
    (name : String) (now since : ℕ) (longest : ℤ) (c : TimeoutsCalc)
    → IsTracked c
    → IsTracked (closed name now since longest c)
closed-IsTracked name now since longest c w = record {
  known = λ other o. ground (
    arith,
    has-put other name (max_ℤ longest (difference now since)) c.section_to_max_time,
    w.known other,
    has-without other name c.open_sections,
  );
  unique = without-IsUnique name c.open_sections w.unique;
}

-- A section that is open, with what is known of it.
close_named-open :
    (name : String) (now : ℕ) (c : TimeoutsCalc)
    → IsTracked c
    → has name c.open_sections ≡ true
    → (since : ℕ) × (longest : ℤ) × (get name c.open_sections ≡ some since)
      × (get name c.section_to_max_time ≡ some longest)
      × (close_named name now c ≡ (ok tt, closed name now since longest c))
unfolding close_named
close_named-open name now c w h =
    let (since, s) = get-of_has name c.open_sections h in
    let (longest, l) = get-of_has name c.section_to_max_time (w.known name h) in
    (since, longest, s, l, rw (s, l) refl)

close_named-IsTracked :
    (name : String) (now : ℕ) (c : TimeoutsCalc)
    → IsTracked c
    → IsTracked (close_named name now c).1
      × IsChecked (has name c.open_sections) c (close_named name now c)
unfolding close_named
close_named-IsTracked name now c w = elim (Bool-cases (has name c.open_sections)) [
  | inl e ↦
      let (since, longest, s, l, step) = close_named-open name now c w e in
      rw (step, e) (closed-IsTracked name now since longest c w, refl)
  | inr e ↦ rw (get-eq-none name c.open_sections e, e) (w, refl)
]

has-first : (name : String) (t : ℕ) (d : Dict String ℕ) → has name ((name, t) ∷ d) ≡ true
unfolding has
has-first name t d = ground (arith, eq_self name)

without-first :
    (name : String) (t : ℕ) (d : Dict String ℕ)
    → IsUnique ((name, t) ∷ d)
    → without name ((name, t) ∷ d) ≡ d
unfolding without
without-first name t d u = ground (arith, eq_self name, without-absent name d u.0)

-- Closing all of them, along the dict of the open sections.
close_each-IsTracked :
    (d : Dict String ℕ) (now : ℕ) (c : TimeoutsCalc)
    → c.open_sections ≡ d
    → IsTracked c
    → let r = close_each (keys d) now c in (r.0 ≡ ok tt) × (r.1.open_sections ≡ []) × IsTracked r.1
unfolding close_each
close_each-IsTracked [] now c e w = (refl, e, w)
close_each-IsTracked ((name, t) ∷ d) now c e w =
    let listed : has name c.open_sections ≡ true =
      subst (λ o. has name o ≡ true) (sym e) (has-first name t d) in
    let (since, longest, s, l, step) = close_named-open name now c w listed in
    let after = closed name now since longest c in
    let rest : after.open_sections ≡ d =
      ap (without name) e ∙ without-first name t d (subst IsUnique e w.unique) in
    rw step (close_each-IsTracked d now after rest (closed-IsTracked name now since longest c w))

-- What the sections of an event have to be for it to be taken.
abbrev pub fits : SectionAction → String → TimeoutsCalc → Bool
fits open_section name c = has name c.section_to_max_time && not (has name c.open_sections)
fits close_section name c = has name c.section_to_max_time && has name c.open_sections
fits close_all name c = has name c.section_to_max_time

on_section-IsTracked :
    (action : SectionAction) (name : String) (now : ℕ) (c : TimeoutsCalc)
    → IsTracked c
    → has name c.section_to_max_time ≡ true
    → IsTracked (on_section action name now c).1
      × IsChecked (fits action name c) c (on_section action name now c)
on_section-IsTracked open_section name now c w h = rw h (open_named-IsTracked name now c w h)
on_section-IsTracked close_section name now c w h = rw h (close_named-IsTracked name now c w)
on_section-IsTracked close_all name now c w h =
    let (r, e, v) = close_each-IsTracked c.open_sections now c refl w in rw h (v, r)

unknown-IsChecked :
    (action : SectionAction) (name : String) (c : TimeoutsCalc)
    → has name c.section_to_max_time ≡ false
    → IsChecked (fits action name c) c (err calc_error, c)
unknown-IsChecked open_section name c h = rw h refl
unknown-IsChecked close_section name c h = rw h refl
unknown-IsChecked close_all name c h = rw h refl

-- Where the open sections are measured ones and each is open once, an event keeps that; it returns
-- if the section is measured, and not open for an open, and open for a close; otherwise it raises
-- TimeoutsCalcError and changes nothing.
pub update_on_section_event-IsTracked :
    (name : String) (action : SectionAction) (now : ℕ) (c : TimeoutsCalc)
    → IsTracked c
    → IsTracked (update_on_section_event name action now c).1
      × IsChecked (fits action name c) c (update_on_section_event name action now c)
unfolding update_on_section_event
update_on_section_event-IsTracked name action now c w =
    elim (Bool-cases (has name c.section_to_max_time)) [
      | inl e ↦ rw e (on_section-IsTracked action name now c w e)
      | inr e ↦ rw e (w, unknown-IsChecked action name c e)
    ]

-- Closing all sections never raises, and leaves none open.
pub close_all_sections-empty :
    (now : ℕ) (c : TimeoutsCalc)
    → IsTracked c
    → ((close_all_sections now c).0 ≡ ok tt)
      × ((close_all_sections now c).1.open_sections ≡ [])
      × IsTracked (close_all_sections now c).1
unfolding close_all_sections
close_all_sections-empty now c w = close_each-IsTracked c.open_sections now c refl w

-- A section that is closed has a maximum that covers the time it was open, and no less than before.
pub close_named-covers :
    (name : String) (now since : ℕ) (longest : ℤ) (c : TimeoutsCalc)
    → get name c.open_sections ≡ some since
    → get name c.section_to_max_time ≡ some longest
    → let after = (close_named name now c).1 in
      (m : ℤ) × (get name after.section_to_max_time ≡ some m)
      × (leb_ℤ (difference now since) m ≡ true)
      × (leb_ℤ longest m ≡ true)
      × (has name after.open_sections ≡ false)
unfolding close_named
close_named-covers name now since longest c s l =
    let m = max_ℤ longest (difference now since) in
    let both = leb_ℤ-max_ℤ longest (difference now since) in
    rw (s, l)
      (
        m,
        ground (arith, get-put name name m c.section_to_max_time, eq_self name),
        both.1,
        both.0,
        ground (arith, has-without name name c.open_sections, eq_self name),
      )
