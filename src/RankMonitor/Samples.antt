-- ===== src/RankMonitor/Samples.antt =====
-- Tests of the rank monitor on concrete runs, and the theorems at them.
use nvidia_resiliency_ext_x.RankMonitor.Client.{Monitored}
use nvidia_resiliency_ext_x.Prelude.Integers.{negsuc}
use nvidia_resiliency_ext_x.Prelude.{
  ◌≡◌, ◌≢◌, refl, ◌⊎◌, true, false, none, some, List, [], ◌∷◌, ◌++◌,
}
use nvidia_resiliency_ext_x.Prelude.Eq.{text_keys}
use nvidia_resiliency_ext_x.Prelude.Dict.{get, has, put}
use nvidia_resiliency_ext_x.Prelude.Method.{ok}
use nvidia_resiliency_ext_x.Data.{RankInfo, open_section, init_msg, section_msg}
use nvidia_resiliency_ext_x.RankMonitor.Machine.{initialize, is_restarting, handle_msg}
use nvidia_resiliency_ext_x.RankMonitor.Server.{
  Config, Server, started, handle_section_msg, stop_periodic_restart_check, update_sections_on,
  handle_message, handle_init_msg,
}
use nvidia_resiliency_ext_x.RankMonitor.Serving.{
  is_over, periodic_rank_check, Event, connect, hang_up, message_in, serve, check_sections,
  is_hb_timeout_elapsed, is_section_timeout_elapsed, sections_over, on_event, receive,
  after_message,
}
use nvidia_resiliency_ext_x.RankMonitor.Restarts.{IsTasked, serve-IsTasked}
use nvidia_resiliency_ext_x.RankMonitor.Sections.{IsChecked, serve-IsChecked}
use nvidia_resiliency_ext_x.RankMonitor.Lateness.{
  HasLateHeartbeat, IsLateInSections, periodic_rank_check-true, IsConfigured, check_sections-append,
}

abbrev two_sections : Config
two_sections = record {
  initial_rank_heartbeat_timeout = some 60;
  rank_heartbeat_timeout = some 20;
  rank_section_timeouts = ("setup", some 10) ∷ ("step", some 30) ∷ [];
  rank_out_of_section_timeout = some 5;
}

abbrev first_rank : RankInfo
first_rank = record { global_rank = 0; local_rank = 0; host = "a"; pid = 41 }

abbrev in_step : List Event
in_step =
    connect
    ∷ message_in (init_msg first_rank) 0 0
    ∷ message_in (section_msg open_section "setup") 2 2
    ∷ message_in (section_msg open_section "step") 9 9
    ∷ []

abbrev in_step_server : Server
in_step_server = record (started two_sections) {
  rank_info = some first_rank;
  start_time = some 0;
  open_sections = ("setup", 2) ∷ ("step", 9) ∷ [];
  connection_locked = true;
  machine = initialize;
}

serve-in_step : serve in_step (started two_sections) ≡ in_step_server
unfolding serve on_event receive after_message handle_message handle_init_msg handle_section_msg
    update_sections_on handle_msg stop_periodic_restart_check has put
serve-in_step = refl

-- "setup" is overdue since 13, and "step", opened later, hides it.
hidden_setup : periodic_rank_check in_step_server 30 ≡ ok false
unfolding periodic_rank_check is_hb_timeout_elapsed is_section_timeout_elapsed sections_over
    check_sections get
hidden_setup = refl

late_step : periodic_rank_check in_step_server 40 ≡ ok true
unfolding periodic_rank_check is_hb_timeout_elapsed is_section_timeout_elapsed sections_over
    check_sections get
late_step = refl

serve-IsChecked_example :
    let s = serve in_step (started two_sections) in
    IsChecked s.cfg s.open_sections (periodic_rank_check s 30)
serve-IsChecked_example = serve-IsChecked two_sections in_step 30

periodic_rank_check-true_example :
    (in_step_server.rank_info ≢ none)
    × (HasLateHeartbeat in_step_server 40
        ⊎ IsLateInSections in_step_server.open_sections in_step_server 40)
periodic_rank_check-true_example = periodic_rank_check-true in_step_server 40 late_step

setup-IsConfigured : IsConfigured two_sections (("setup", 2) ∷ [])
unfolding get
setup-IsConfigured = (λ e. cc, tt)

step_timeout : get "step" two_sections.rank_section_timeouts ≡ some (some 30)
unfolding get
step_timeout = refl

check_sections-append_example :
    check_sections two_sections 30 false (("setup", 2) ∷ ("step", 9) ∷ [])
    ≡ ok (is_over (some 30) 9 30)
check_sections-append_example =
    check_sections-append two_sections 30 9 false (("setup", 2) ∷ []) "step" (some 30)
      setup-IsConfigured step_timeout

started-IsTasked : IsTasked (started two_sections)
unfolding is_restarting
started-IsTasked = record { restarting = λ h. cc; over = λ h k. absurd (h refl) }

serve-IsTasked_example : IsTasked (serve (in_step ++ hang_up ∷ []) (started two_sections))
serve-IsTasked_example =
    serve-IsTasked (in_step ++ hang_up ∷ []) (started two_sections) started-IsTasked

abbrev idle_server : Server
idle_server = record in_step_server { open_sections = []; out_of_section_time = some 2 }

-- A client that is connected to the idle server.
abbrev idle_client : Monitored
idle_client = record {
  client = record {
    is_initialized = true;
    timeouts_calc = record {
      start_time = 0;
      prev_hb_time = none;
      count = 0;
      initial_max_time = negsuc 0;
      subsequent_max_time = negsuc 0;
      safety_factor = 2;
      open_sections = [];
      last_section_close_time = 0;
      out_of_section_max_time = negsuc 0;
      section_to_max_time = ("setup", negsuc 0) ∷ ("step", negsuc 0) ∷ [];
    };
  };
  server = idle_server;
  connected = true;
}
