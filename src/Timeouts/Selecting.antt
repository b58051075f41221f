-- ===== src/Timeouts/Selecting.antt =====
-- That `can_get_section_timeouts` is enough for `get_section_timeouts`
-- (fault_tolerance/timeouts_calc.py).
use nvidia_resiliency_ext_x.Prelude.{
  ℕ, zero, suc, ◌≤◌, ◌<◌, ◌≡◌, ◌≢◌, refl, sym, ◌∙◌, ap, Bool, true, false, ◌&&◌, ◌||◌, Option, none,
  some, String, List, [], ◌∷◌, inl, inr, arith, if◌then◌else◌, ltb, if-cases, Bool-cases,
  Option-cases, All,
}
use nvidia_resiliency_ext_x.Prelude.Eq.{text_keys, ◌==◌, ==_iff}
use nvidia_resiliency_ext_x.Prelude.Dict.{Dict, get, put, keys, get-put}
use nvidia_resiliency_ext_x.Prelude.Keys.{contains}
use nvidia_resiliency_ext_x.Prelude.Method.{Exceptional, ok, err, bind_result}
use nvidia_resiliency_ext_x.Prelude.Integers.{ℤ, pos, negsuc, is_positive}
use nvidia_resiliency_ext_x.Data.{SectionTimeouts}
use nvidia_resiliency_ext_x.Timeouts.Calc.{CalcError, key_error, TimeoutsCalc}
use nvidia_resiliency_ext_x.Timeouts.Results.{
  scaled, all_positive, selected_or_all, can_get_section_timeouts, blank, fill_timeouts,
  out_of_section_timeout, given_or_all, new_section_timeouts, get_merged_section_timeouts,
  get_section_timeouts,
}

-- A section with a positive maximum.
abbrev pub IsPositive : Dict String ℤ → String → Type 0
IsPositive d name = (t : ℕ) × (get name d ≡ some (pos t)) × (0 < t)

is_positive-pos : (t : ℤ) → is_positive t ≡ true → (n : ℕ) × (t ≡ pos n) × (0 < n)
is_positive-pos (pos n) h = (n, refl, ground arith)
is_positive-pos (negsuc n) h = cc

all_positive-missing :
    (d : Dict String ℤ) (name : String) (names : List String)
    → get name d ≡ none
    → all_positive d (name ∷ names) ≡ err key_error
unfolding all_positive
all_positive-missing d name names e = rw (all_positive, e) refl

all_positive-step :
    (d : Dict String ℤ) (name : String) (names : List String) (t : ℤ)
    → get name d ≡ some t
    → all_positive d (name ∷ names) ≡ (if is_positive t then all_positive d names else ok false)
unfolding all_positive
all_positive-step d name names t e = elim (Bool-cases (is_positive t)) [
  | inl p ↦ rw (all_positive, e, p) refl
  | inr p ↦ rw (all_positive, e, p) refl
]

all_positive-All :
    (d : Dict String ℤ) (names : List String)
    → all_positive d names ≡ ok true
    → All (IsPositive d) names
unfolding all_positive
all_positive-All d [] h = tt
all_positive-All d (name ∷ names) h = elim (Option-cases (get name d)) [
  | inl e ↦ cc (h, all_positive-missing d name names e)
  | inr (t, e) ↦ elim (Bool-cases (is_positive t)) [
    | inl p ↦
        let (n, q, l) = is_positive-pos t p in
        let rest : all_positive d names ≡ ok true =
          sym (all_positive-step d name names t e ∙ rw p refl) ∙ h in
        ((n, e ∙ ap some q, l), all_positive-All d names rest)
    | inr p ↦
        let stop : all_positive d (name ∷ names) ≡ ok false =
          all_positive-step d name names t e ∙ rw p refl in
        cc (h, stop)
  ]
]

scaled-positive : (factor t : ℕ) → 1 ≤ factor → 0 < t → ltb 0 (scaled factor (pos t)) ≡ true
scaled-positive zero t f h = ground arith
scaled-positive (suc k) t f h = ground arith

-- What the loop over the selected sections makes of a dict.
abbrev pub IsFilled :
    TimeoutsCalc → List String → Dict String (Option ℕ) → Dict String (Option ℕ) → Type 0
IsFilled c names before after =
    (name : String) (t : ℤ)
    → get name c.section_to_max_time ≡ some t
    → get name after
      ≡ (if contains name names then some (some (scaled c.safety_factor t)) else get name before)

fill_timeouts-step :
    (c : TimeoutsCalc) (name : String) (names : List String) (before : Dict String (Option ℕ))
    (t : ℕ)
    → 1 ≤ c.safety_factor
    → get name c.section_to_max_time ≡ some (pos t)
    → 0 < t
    → fill_timeouts c (name ∷ names) before
      ≡ fill_timeouts c names (put name (some (scaled c.safety_factor (pos t))) before)
unfolding fill_timeouts
fill_timeouts-step c name names before t f e l =
    rw (fill_timeouts, e, scaled-positive c.safety_factor t f l) refl

get-put-scaled :
    (c : TimeoutsCalc) (name other : String) (b : Bool) (before : Dict String (Option ℕ)) (t u : ℤ)
    → get name c.section_to_max_time ≡ some t
    → get other c.section_to_max_time ≡ some u
    → (if b
        then some (some (scaled c.safety_factor u))
        else get other (put name (some (scaled c.safety_factor t)) before))
      ≡ (if (name == other) || b then some (some (scaled c.safety_factor u)) else get other before)
get-put-scaled c name other b before t u e q = elim (Bool-cases (name == other)) [
  | inl p ↦
      let same = (==_iff name other).0 p in
      let value : t ≡ u = cc in
      rw (get-put other name (some (scaled c.safety_factor t)) before, p, value)
        (if-cases (λ x. x ≡ some (some (scaled c.safety_factor u))) b _ _ (λ k. refl) (λ k. refl))
  | inr p ↦ rw (get-put other name (some (scaled c.safety_factor t)) before, p) refl
]

fill_timeouts-IsFilled :
    (c : TimeoutsCalc) (names : List String) (before : Dict String (Option ℕ))
    → 1 ≤ c.safety_factor
    → All (IsPositive c.section_to_max_time) names
    → (after : Dict String (Option ℕ)) × (fill_timeouts c names before ≡ ok after)
      × IsFilled c names before after
unfolding fill_timeouts contains
fill_timeouts-IsFilled c [] before f w = (before, refl, λ name t e. refl)
fill_timeouts-IsFilled c (name ∷ names) before f w =
    let (t, e, l) = w.0 in
    let now = some (scaled c.safety_factor (pos t)) in
    let (after, r, filled) = fill_timeouts-IsFilled c names (put name now before) f w.1 in
    (
      after,
      fill_timeouts-step c name names before t f e l ∙ r,
      λ other u q.
          filled other u q
          ∙ get-put-scaled c name other (contains other names) before (pos t) u e q,
    )

selected-eq :
    (selected : Option (List String)) (c : TimeoutsCalc)
    → selected ≢ some []
    → given_or_all selected c ≡ selected_or_all selected c
selected-eq none c h = refl
selected-eq (some []) c h = absurd (h refl)
selected-eq (some (name ∷ names)) c h = refl

-- The out-of-section timeout that is asked for.
abbrev pub is_enough : Bool → ℤ → Bool
is_enough calc t = if calc then is_positive t else true

out_of_section_timeout-total :
    (calc : Bool) (c : TimeoutsCalc)
    → 1 ≤ c.safety_factor
    → is_enough calc c.out_of_section_max_time ≡ true
    → out_of_section_timeout calc c
      ≡ ok (if calc then some (scaled c.safety_factor c.out_of_section_max_time) else none)
unfolding out_of_section_timeout
out_of_section_timeout-total false c f h = refl
out_of_section_timeout-total true c f h =
    let (n, e, l) = is_positive-pos c.out_of_section_max_time h in
    rw (e, scaled-positive c.safety_factor n f l) refl

can_get-parts :
    (r : Exceptional CalcError Bool) (b : Bool)
    → bind_result r (λ can1. ok (can1 && b)) ≡ ok true
    → (r ≡ ok true) × (b ≡ true)
can_get-parts r b h = (ground arith, ground arith)

new_section_timeouts-eq :
    (selected : Option (List String)) (calc : Bool) (c : TimeoutsCalc)
    (sections : Dict String (Option ℕ)) (oos : Option ℕ)
    → fill_timeouts c (given_or_all selected c) (blank (keys c.section_to_max_time) [])
      ≡ ok sections
    → out_of_section_timeout calc c ≡ ok oos
    → new_section_timeouts selected calc c
      ≡ ok (record {
        section = sections;
        out_of_section = oos;
        calculated_sections = given_or_all selected c;
        is_out_of_section_calculated = calc;
      })
unfolding new_section_timeouts
new_section_timeouts-eq selected calc c sections oos r o = rw (r, o) refl

get_section_timeouts-eq :
    (selected : Option (List String)) (calc : Bool) (c : TimeoutsCalc) (t : SectionTimeouts)
    → can_get_section_timeouts selected calc c ≡ ok true
    → new_section_timeouts selected calc c ≡ ok t
    → get_section_timeouts selected calc none c ≡ ok t
unfolding get_section_timeouts get_merged_section_timeouts
get_section_timeouts-eq selected calc c t h r = rw (h, r) refl

-- If `can_get_section_timeouts` says yes, for sections that are not an empty collection, and the
-- safety factor is at least one, `get_section_timeouts` with no timeouts to merge returns: the factor
-- times the maximum for each selected section, `None` for the others, and the same out of sections.
pub get_section_timeouts-IsFilled :
    (selected : Option (List String)) (calc : Bool) (c : TimeoutsCalc)
    → selected ≢ some []
    → 1 ≤ c.safety_factor
    → can_get_section_timeouts selected calc c ≡ ok true
    → (t : SectionTimeouts) × (get_section_timeouts selected calc none c ≡ ok t)
      × IsFilled c (selected_or_all selected c) (blank (keys c.section_to_max_time) []) t.section
      × (t.out_of_section
          ≡ (if calc then some (scaled c.safety_factor c.out_of_section_max_time) else none))
unfolding can_get_section_timeouts
get_section_timeouts-IsFilled selected calc c some_names f h =
    let names = selected_or_all selected c in
    let before = blank (keys c.section_to_max_time) [] in
    let (all, enough) = can_get-parts (all_positive c.section_to_max_time names) _ h in
    let (after, r, filled) =
      fill_timeouts-IsFilled c names before f (all_positive-All c.section_to_max_time names all) in
    let oos = out_of_section_timeout-total calc c f enough in
    let given : fill_timeouts c (given_or_all selected c) before ≡ ok after =
      rw (selected-eq selected c some_names) r in
    (
      _,
      get_section_timeouts-eq selected calc c _ h
          (new_section_timeouts-eq selected calc c after _ given oos),
      filled,
      refl,
    )
