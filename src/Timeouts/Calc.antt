-- ===== src/Timeouts/Calc.antt =====
-- `TimeoutsCalc` of fault_tolerance/timeouts_calc.py: its state, and the methods that update it. The
-- moment of an event is an argument, as in the code; -1 stands for what was not measured.
use nvidia_resiliency_ext_x.Prelude.{
  ℕ, ◌+◌, Bool, true, false, Option, none, some, String, List, [], ◌∷◌, if◌then◌else◌, eqb,
}
use nvidia_resiliency_ext_x.Prelude.Eq.{text_keys}
use nvidia_resiliency_ext_x.Prelude.Dict.{Dict, get, has, put, without, keys, values}
use nvidia_resiliency_ext_x.Prelude.Method.{Exceptional, ok, err, ret, ◌>>◌}
use nvidia_resiliency_ext_x.Prelude.Integers.{ℤ, negsuc, difference, max_ℤ}
use nvidia_resiliency_ext_x.Data.{SectionAction, open_section, close_section, close_all}

-- `TimeoutsCalcError`, a missing key, arithmetic on `None`, a failed assertion.
pub data CalcError : Type 0 where
  calc_error key_error type_error assertion_error : CalcError

pub record TimeoutsCalc : Type 0 where
  pub start_time : ℕ
  pub prev_hb_time : Option ℕ
  pub count : ℕ
  pub initial_max_time : ℤ
  pub subsequent_max_time : ℤ
  pub safety_factor : ℕ
  pub open_sections : Dict String ℕ
  pub last_section_close_time : ℕ
  pub out_of_section_max_time : ℤ
  pub section_to_max_time : Dict String ℤ

-- {name: -1 for name in sections}, onto the dict of the names before
unfoldable pub unmeasured : List String → Dict String ℤ → Dict String ℤ
unmeasured [] d = d
unmeasured (name ∷ names) d = unmeasured names (put name (negsuc 0) d)

abbrev sections_or_none : Option (List String) → List String
sections_or_none none = []
sections_or_none (some names) = names

unfoldable pub new_calc : Option (List String) → ℕ → ℕ → TimeoutsCalc
unfolding unmeasured
new_calc sections start_time safety_factor = record {
  start_time = start_time;
  prev_hb_time = none;
  count = 0;
  initial_max_time = negsuc 0;
  subsequent_max_time = negsuc 0;
  safety_factor = safety_factor;
  open_sections = [];
  last_section_close_time = start_time;
  out_of_section_max_time = negsuc 0;
  section_to_max_time = unmeasured (sections_or_none sections) [];
}

unfoldable pub reset_start_time : ℕ → TimeoutsCalc → TimeoutsCalc
reset_start_time now c = record c { start_time = now }

abbrev pub first_hb : ℕ → TimeoutsCalc → TimeoutsCalc
first_hb hb_time c = record c {
  initial_max_time = max_ℤ c.initial_max_time (difference hb_time c.start_time);
  count = c.count + 1;
  prev_hb_time = some hb_time;
}

abbrev pub next_hb : Option ℕ → ℕ → TimeoutsCalc → Exceptional CalcError (Unit {0}) × TimeoutsCalc
next_hb none hb_time c = (err type_error, c)
next_hb (some prev) hb_time c = (
  ok tt,
  record c {
    subsequent_max_time = max_ℤ c.subsequent_max_time (difference hb_time prev);
    count = c.count + 1;
    prev_hb_time = some hb_time;
  },
)

unfoldable pub update_on_heartbeat :
    ℕ → TimeoutsCalc → Exceptional CalcError (Unit {0}) × TimeoutsCalc
update_on_heartbeat hb_time c =
    if eqb c.count 0 then (ok tt, first_hb hb_time c) else next_hb c.prev_hb_time hb_time c

abbrev pub is_out_of_section : Dict String ℕ → Bool
is_out_of_section [] = true
is_out_of_section (x ∷ d) = false

unfoldable pub maybe_bump_oos_time : ℕ → TimeoutsCalc → TimeoutsCalc
maybe_bump_oos_time now c =
    if is_out_of_section c.open_sections
    then record c {
      out_of_section_max_time =
          max_ℤ c.out_of_section_max_time (difference now c.last_section_close_time);
    }
    else c

-- `_open_section`
unfoldable pub open_named :
    String → ℕ → TimeoutsCalc → Exceptional CalcError (Unit {0}) × TimeoutsCalc
unfolding maybe_bump_oos_time
open_named name now c = if has name c.open_sections then (err calc_error, c) else (
  ok tt,
  record (maybe_bump_oos_time now c) { open_sections = put name now c.open_sections },
)

-- The section has been open since `since`, and `longest` is what was measured of it before.
abbrev pub closed : String → ℕ → ℕ → ℤ → TimeoutsCalc → TimeoutsCalc
closed name now since longest c =
    let rest = without name c.open_sections in
    record c {
      section_to_max_time = put name (max_ℤ longest (difference now since)) c.section_to_max_time;
      open_sections = rest;
      last_section_close_time = if is_out_of_section rest then now else c.last_section_close_time;
    }

abbrev pub close_measured :
    Option ℕ
    → Option ℤ
    → String
    → ℕ
    → TimeoutsCalc
    → Exceptional CalcError (Unit {0}) × TimeoutsCalc
close_measured none longest name now c = (err calc_error, c)
close_measured (some since) none name now c = (err key_error, c)
close_measured (some since) (some longest) name now c = (ok tt, closed name now since longest c)

-- `_close_section`
unfoldable pub close_named :
    String → ℕ → TimeoutsCalc → Exceptional CalcError (Unit {0}) × TimeoutsCalc
close_named name now c =
    close_measured (get name c.open_sections) (get name c.section_to_max_time) name now c

unfoldable pub close_each :
    List String → ℕ → TimeoutsCalc → Exceptional CalcError (Unit {0}) × TimeoutsCalc
unfolding close_named
close_each [] now = ret tt
close_each (name ∷ names) now = close_named name now >> close_each names now

abbrev pub on_section :
    SectionAction → String → ℕ → TimeoutsCalc → Exceptional CalcError (Unit {0}) × TimeoutsCalc
on_section open_section name now c = open_named name now c
on_section close_section name now c = close_named name now c
on_section close_all name now c = close_each (keys c.open_sections) now c

-- With a section that is not `None`.
unfoldable pub update_on_section_event :
    String → SectionAction → ℕ → TimeoutsCalc → Exceptional CalcError (Unit {0}) × TimeoutsCalc
unfolding open_named close_named close_each
update_on_section_event name action now c =
    if has name c.section_to_max_time then on_section action name now c else (err calc_error, c)

-- With `None` for the section, as closing all of them is called.
unfoldable pub close_all_sections :
    ℕ → TimeoutsCalc → Exceptional CalcError (Unit {0}) × TimeoutsCalc
unfolding close_each
close_all_sections now c = close_each (keys c.open_sections) now c

-- What `synchronize_all` reduces, and how it takes the result over: a tensor that is too short raises.
unfoldable pub measured : TimeoutsCalc → List ℤ
measured c =
    c.initial_max_time
    ∷ c.subsequent_max_time
    ∷ c.out_of_section_max_time
    ∷ values c.section_to_max_time

unfoldable pub take_over : Dict String ℤ → List ℤ → Option (Dict String ℤ)
take_over [] xs = some []
take_over (p ∷ d) [] = none
take_over ((name, t) ∷ d) (x ∷ xs) = elim (take_over d xs) [
  | none ↦ none
  | some rest ↦ some ((name, x) ∷ rest)
]

abbrev pub with_times : TimeoutsCalc → List ℤ → Option TimeoutsCalc
with_times c (initial ∷ subsequent ∷ out_of_section ∷ rest) =
    elim (take_over c.section_to_max_time rest) [
      | none ↦ none
      | some sections ↦ some (record c {
        initial_max_time = initial;
        subsequent_max_time = subsequent;
        out_of_section_max_time = out_of_section;
        section_to_max_time = sections;
      })
    ]
with_times c _ = none

unfoldable pub synchronize_all : (List ℤ → List ℤ) → TimeoutsCalc → Option TimeoutsCalc
unfolding measured take_over
synchronize_all all_reduce c = with_times c (all_reduce (measured c))
