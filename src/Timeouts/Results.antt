-- ===== src/Timeouts/Results.antt =====
-- The timeouts that `TimeoutsCalc` returns (fault_tolerance/timeouts_calc.py). Only positive times are
-- scaled; a mean is rounded down to a tick.
use nvidia_resiliency_ext_x.Prelude.{
  ℕ, ◌+◌, ◌*◌, ◌/◌, Bool, true, false, ◌&&◌, ◌||◌, Option, none, some, String, List, [], ◌∷◌,
  if◌then◌else◌, ltb,
}
use nvidia_resiliency_ext_x.Prelude.Eq.{text_keys}
use nvidia_resiliency_ext_x.Prelude.Dict.{Dict, get, put, keys}
use nvidia_resiliency_ext_x.Prelude.Keys.{contains, update}
use nvidia_resiliency_ext_x.Prelude.Method.{Exceptional, ok, err, bind_result}
use nvidia_resiliency_ext_x.Prelude.Integers.{ℤ, pos, negsuc, is_positive}
use nvidia_resiliency_ext_x.Data.{HeartbeatTimeouts, SectionTimeouts}
use nvidia_resiliency_ext_x.Timeouts.Calc.{
  CalcError, calc_error, key_error, type_error, assertion_error, TimeoutsCalc,
}

-- safety_factor * time
abbrev pub scaled : ℕ → ℤ → ℕ
scaled factor (pos t) = factor * t
scaled factor (negsuc t) = 0

-- `_ema` with its alpha of a half
unfoldable pub ema : ℕ → ℕ → ℕ
ema x curr = (x + curr) / 2

unfoldable pub can_get_hb_timeouts : TimeoutsCalc → Bool
can_get_hb_timeouts c = is_positive c.initial_max_time && is_positive c.subsequent_max_time

abbrev pub calculated_before : Option HeartbeatTimeouts → Option HeartbeatTimeouts
calculated_before none = none
calculated_before (some t) = elim t.were_calculated [ some true ↦ some t | _ ↦ none ]

abbrev pub merge_hb : Option HeartbeatTimeouts → ℕ → ℕ → Exceptional CalcError HeartbeatTimeouts
merge_hb none initial subsequent =
    ok
      (record { initial = some initial; subsequent = some subsequent; were_calculated = some true })
merge_hb (some t) initial subsequent = elim t.initial [
  | none ↦ err assertion_error
  | some i ↦ elim t.subsequent [
    | none ↦ err assertion_error
    | some u ↦ ok (record {
      initial = some (ema initial i);
      subsequent = some (ema subsequent u);
      were_calculated = some true;
    })
  ]
]

unfoldable pub get_hb_timeouts :
    Option HeartbeatTimeouts → TimeoutsCalc → Exceptional CalcError HeartbeatTimeouts
unfolding can_get_hb_timeouts ema
get_hb_timeouts current c =
    if can_get_hb_timeouts c
    then merge_hb (calculated_before current) (scaled c.safety_factor c.initial_max_time)
        (scaled c.safety_factor c.subsequent_max_time)
    else err calc_error

-- all(self.section_to_max_time[s] > 0 for s in selected), which stops at the first that is not
unfoldable pub all_positive : Dict String ℤ → List String → Exceptional CalcError Bool
all_positive d [] = ok true
all_positive d (name ∷ names) = elim (get name d) [
  | none ↦ err key_error
  | some t ↦ elim (is_positive t) [ true ↦ all_positive d names | false ↦ ok false ]
]

-- selected_sections if selected_sections else self.section_to_max_time.keys(): an empty collection
-- counts as none
abbrev pub selected_or_all : Option (List String) → TimeoutsCalc → List String
selected_or_all none c = keys c.section_to_max_time
selected_or_all (some []) c = keys c.section_to_max_time
selected_or_all (some (name ∷ names)) c = name ∷ names

unfoldable pub can_get_section_timeouts :
    Option (List String) → Bool → TimeoutsCalc → Exceptional CalcError Bool
unfolding all_positive
can_get_section_timeouts selected calc_out_of_section c =
    bind_result (all_positive c.section_to_max_time (selected_or_all selected c)) (λ can1.
      ok (can1 && (if calc_out_of_section then is_positive c.out_of_section_max_time else true)))

unfoldable pub blank : List String → Dict String (Option ℕ) → Dict String (Option ℕ)
blank [] d = d
blank (name ∷ names) d = blank names (put name none d)

-- The loop over the selected sections.
unfoldable pub fill_timeouts :
    TimeoutsCalc
    → List String
    → Dict String (Option ℕ)
    → Exceptional CalcError (Dict String (Option ℕ))
fill_timeouts c [] timeouts = ok timeouts
fill_timeouts c (name ∷ names) timeouts = elim (get name c.section_to_max_time) [
  | none ↦ err key_error
  | some t ↦ elim (ltb 0 (scaled c.safety_factor t)) [
    | false ↦ err assertion_error
    | true ↦ fill_timeouts c names (put name (some (scaled c.safety_factor t)) timeouts)
  ]
]

-- self.safety_factor * self.out_of_section_max_time, and the assertion on it
unfoldable pub out_of_section_timeout : Bool → TimeoutsCalc → Exceptional CalcError (Option ℕ)
out_of_section_timeout false c = ok none
out_of_section_timeout true c =
    let t = scaled c.safety_factor c.out_of_section_max_time in
    if ltb 0 t then ok (some t) else err assertion_error

abbrev pub given_or_all : Option (List String) → TimeoutsCalc → List String
given_or_all none c = keys c.section_to_max_time
given_or_all (some names) c = names

-- Two timeouts that must not be `None`.
abbrev ema_of : Option ℕ → Option ℕ → Exceptional CalcError (Option ℕ)
ema_of (some x) (some y) = ok (some (ema x y))
ema_of _ _ = err type_error

abbrev lookup : String → Dict String (Option ℕ) → Exceptional CalcError (Option ℕ)
lookup name d = elim (get name d) [ none ↦ err key_error | some t ↦ ok t ]

unfoldable pub merged_section :
    SectionTimeouts → SectionTimeouts → String → Exceptional CalcError (Option ℕ)
unfolding ema
merged_section new current name =
    if contains name current.calculated_sections && contains name new.calculated_sections
    then bind_result (lookup name current.section)
        (λ x. bind_result (lookup name new.section) (λ y. ema_of x y))
    else if contains name new.calculated_sections
    then lookup name new.section
    else lookup name current.section

unfoldable pub merge_sections :
    SectionTimeouts → SectionTimeouts → List String → Exceptional CalcError (Dict String (Option ℕ))
unfolding merged_section
merge_sections new current [] = ok []
merge_sections new current (name ∷ names) =
    bind_result (merged_section new current name)
      (λ t. bind_result (merge_sections new current names) (λ rest. ok ((name, t) ∷ rest)))

unfoldable pub merge_out_of_section :
    SectionTimeouts → SectionTimeouts → Exceptional CalcError (Option ℕ)
unfolding ema
merge_out_of_section new current =
    if current.is_out_of_section_calculated && new.is_out_of_section_calculated
    then ema_of current.out_of_section new.out_of_section
    else if new.is_out_of_section_calculated
    then ok new.out_of_section
    else ok current.out_of_section

-- `_get_merged_section_timeouts`
unfoldable pub get_merged_section_timeouts :
    SectionTimeouts → Option SectionTimeouts → Exceptional CalcError SectionTimeouts
unfolding merge_sections merge_out_of_section
get_merged_section_timeouts new none = ok new
get_merged_section_timeouts new (some current) =
    bind_result (merge_sections new current (keys new.section)) (λ sections.
      bind_result (merge_out_of_section new current) (λ oos. ok (record {
        section = sections;
        out_of_section = oos;
        calculated_sections = update current.calculated_sections new.calculated_sections;
        is_out_of_section_calculated =
            current.is_out_of_section_calculated || new.is_out_of_section_calculated;
      })))

-- What is calculated anew, before it is merged.
unfoldable pub new_section_timeouts :
    Option (List String) → Bool → TimeoutsCalc → Exceptional CalcError SectionTimeouts
unfolding fill_timeouts blank out_of_section_timeout
new_section_timeouts selected calc_out_of_section c =
    bind_result (fill_timeouts c (given_or_all selected c) (blank (keys c.section_to_max_time) []))
      (λ sections. bind_result (out_of_section_timeout calc_out_of_section c) (λ oos. ok (record {
        section = sections;
        out_of_section = oos;
        calculated_sections = given_or_all selected c;
        is_out_of_section_calculated = calc_out_of_section;
      })))

unfoldable pub get_section_timeouts :
    Option (List String)
    → Bool
    → Option SectionTimeouts
    → TimeoutsCalc
    → Exceptional CalcError SectionTimeouts
unfolding can_get_section_timeouts new_section_timeouts get_merged_section_timeouts
get_section_timeouts selected calc_out_of_section current c =
    bind_result (can_get_section_timeouts selected calc_out_of_section c) (λ can.
      if can
      then bind_result (new_section_timeouts selected calc_out_of_section c)
          (λ new. get_merged_section_timeouts new current)
      else err calc_error)
