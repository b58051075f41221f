-- ===== src/Timeouts/Samples.antt =====
-- Tests of the timeouts on concrete calculators, and the theorems at them.
use nvidia_resiliency_ext_x.Prelude.{ℕ, ◌≡◌, refl, true, false, none, some, List, [], ◌∷◌, arith}
use nvidia_resiliency_ext_x.Prelude.Eq.{text_keys}
use nvidia_resiliency_ext_x.Prelude.Dict.{has, put}
use nvidia_resiliency_ext_x.Prelude.Method.{ok}
use nvidia_resiliency_ext_x.Prelude.Integers.{pos, negsuc}
use nvidia_resiliency_ext_x.Data.{HeartbeatTimeouts, open_section, close_section}
use nvidia_resiliency_ext_x.RankMonitor.Serving.{is_over}
use nvidia_resiliency_ext_x.Timeouts.Calc.{
  TimeoutsCalc, new_calc, unmeasured, update_on_heartbeat, update_on_section_event, open_named,
  maybe_bump_oos_time,
}
use nvidia_resiliency_ext_x.Timeouts.Results.{can_get_hb_timeouts, get_hb_timeouts}
use nvidia_resiliency_ext_x.Timeouts.Heartbeats.{beats, AreInTime, get_hb_timeouts-AreInTime}
use nvidia_resiliency_ext_x.Timeouts.Sections.{
  IsTracked, IsChecked, fits, update_on_section_event-IsTracked,
}

abbrev fresh_calc : TimeoutsCalc
fresh_calc = record {
  start_time = 100;
  prev_hb_time = none;
  count = 0;
  initial_max_time = negsuc 0;
  subsequent_max_time = negsuc 0;
  safety_factor = 5;
  open_sections = [];
  last_section_close_time = 100;
  out_of_section_max_time = negsuc 0;
  section_to_max_time = ("setup", negsuc 0) ∷ ("step", negsuc 0) ∷ [];
}

new_calc_test : new_calc (some ("setup" ∷ "step" ∷ [])) 100 5 ≡ fresh_calc
unfolding new_calc unmeasured put
new_calc_test = refl

abbrev three_beats : List ℕ
three_beats = 103 ∷ 110 ∷ []

abbrev calculated : HeartbeatTimeouts
calculated = record { initial = some 5; subsequent = some 35; were_calculated = some true }

beats-three_beats : get_hb_timeouts none (beats (101 ∷ three_beats) fresh_calc).1 ≡ ok calculated
unfolding get_hb_timeouts can_get_hb_timeouts beats update_on_heartbeat
beats-three_beats = refl

get_hb_timeouts-AreInTime_example :
    (is_over (some 5) 100 101 ≡ false) × AreInTime (some 35) 101 three_beats
get_hb_timeouts-AreInTime_example =
    get_hb_timeouts-AreInTime none fresh_calc 101 three_beats calculated refl refl (omega arith)
      beats-three_beats

abbrev in_setup : TimeoutsCalc
in_setup = record fresh_calc {
  open_sections = ("setup", 120) ∷ [];
  out_of_section_max_time = pos 20;
}

open_setup : update_on_section_event "setup" open_section 120 fresh_calc ≡ (ok tt, in_setup)
unfolding update_on_section_event open_named maybe_bump_oos_time has put
open_setup = refl

in_setup-IsTracked : IsTracked in_setup
unfolding has
in_setup-IsTracked = record { known = λ name h. ground arith; unique = (refl, tt) }

update_on_section_event-IsTracked_example :
    IsTracked (update_on_section_event "setup" close_section 150 in_setup).1
    × IsChecked
        (fits close_section "setup" in_setup)
        in_setup
        (update_on_section_event "setup" close_section 150 in_setup)
update_on_section_event-IsTracked_example =
    update_on_section_event-IsTracked "setup" close_section 150 in_setup in_setup-IsTracked
