-- ===== src/Timeouts/Syncing.antt =====
-- `TimeoutsCalc.synchronize_all` (fault_tolerance/timeouts_calc.py). The reduction of a tensor over the
-- ranks of a group is a parameter: it keeps the length.
use nvidia_resiliency_ext_x.Prelude.{
  ◌≡◌, refl, ap, Option, some, String, List, [], ◌∷◌, arith, length,
}
use nvidia_resiliency_ext_x.Prelude.Dict.{Dict, keys, values}
use nvidia_resiliency_ext_x.Prelude.Integers.{ℤ}
use nvidia_resiliency_ext_x.Timeouts.Calc.{
  TimeoutsCalc, measured, take_over, with_times, synchronize_all,
}

take_over-values :
    (d : Dict String ℤ) (xs : List ℤ)
    → length xs ≡ length (values d)
    → (e : Dict String ℤ) × (take_over d xs ≡ some e) × (values e ≡ xs) × (keys e ≡ keys d)
unfolding take_over
take_over-values [] [] h = ([], refl, refl, refl)
take_over-values [] (x ∷ xs) h = absurd (omega arith)
take_over-values ((name, t) ∷ d) [] h = absurd (omega arith)
take_over-values ((name, t) ∷ d) (x ∷ xs) h =
    let (e, r, v, k) = take_over-values d xs (omega arith) in
    ((name, x) ∷ e, rw r refl, ap (λ l. x ∷ l) v, ap (λ l. name ∷ l) k)

-- What a calculator holds that has taken over the reduced times.
abbrev pub HasTaken : TimeoutsCalc → List ℤ → Option TimeoutsCalc → Type 0
HasTaken c reduced r =
    (d : TimeoutsCalc) × (r ≡ some d)
    × (measured d ≡ reduced)
    × (keys d.section_to_max_time ≡ keys c.section_to_max_time)

with_times-HasTaken :
    (c : TimeoutsCalc) (xs : List ℤ)
    → length xs ≡ length (measured c)
    → HasTaken c xs (with_times c xs)
unfolding measured
with_times-HasTaken c (initial ∷ subsequent ∷ out_of_section ∷ rest) h =
    let (e, r, v, k) = take_over-values c.section_to_max_time rest (omega arith) in
    let d = record c {
      initial_max_time = initial;
      subsequent_max_time = subsequent;
      out_of_section_max_time = out_of_section;
      section_to_max_time = e;
    } in
    (d, rw (with_times, r) refl, ap (λ l. initial ∷ subsequent ∷ out_of_section ∷ l) v, k)
with_times-HasTaken c (a ∷ b ∷ []) h = absurd (omega arith)
with_times-HasTaken c (a ∷ []) h = absurd (omega arith)
with_times-HasTaken c [] h = absurd (omega arith)

-- If the reduction keeps the length, every rank holds the reduced times afterwards, each under the name
-- that it had before; no tensor is too short.
pub synchronize_all-HasTaken :
    (all_reduce : List ℤ → List ℤ) (c : TimeoutsCalc)
    → length (all_reduce (measured c)) ≡ length (measured c)
    → HasTaken c (all_reduce (measured c)) (synchronize_all all_reduce c)
unfolding synchronize_all
synchronize_all-HasTaken all_reduce c h = with_times-HasTaken c (all_reduce (measured c)) h
