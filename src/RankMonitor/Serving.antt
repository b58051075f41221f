-- ===== src/RankMonitor/Serving.antt =====
-- The timeouts that `RankMonitorServer` checks, and the events that reach it
-- (fault_tolerance/rank_monitor_server.py). Between two events no handler is under way: the locks and
-- awaits that split a handler are the socket's.
use nvidia_resiliency_ext_x.Prelude.{
  ℕ, ◌+◌, Bool, true, false, ◌||◌, Option, none, some, String, List, [], ◌∷◌, if◌then◌else◌, ltb,
}
use nvidia_resiliency_ext_x.Prelude.Eq.{text_keys}
use nvidia_resiliency_ext_x.Prelude.Dict.{Dict, get}
use nvidia_resiliency_ext_x.Prelude.Method.{Exceptional, ok, err, bind_result}
use nvidia_resiliency_ext_x.Data.{Message, RankInfo}
use nvidia_resiliency_ext_x.RankMonitor.Machine.{MonitorState, MachineError, periodic_restart_check}
use nvidia_resiliency_ext_x.RankMonitor.Server.{
  Config, Server, RestartTask, no_task, running, failed, ServerError, missing_time, missing_timeout,
  Reply, handle_message, connection_lost_handler, signal_handler,
}

-- timeout is not None and now - since > timeout
abbrev pub is_over : Option ℕ → ℕ → ℕ → Bool
is_over none since now = false
is_over (some t) since now = ltb (since + t) now

-- Arithmetic on `None` raises.
abbrev pub time_over : Option ℕ → Option ℕ → ℕ → Exceptional ServerError Bool
time_over timeout none now = err missing_time
time_over timeout (some since) now = ok (is_over timeout since now)

abbrev pub hb_over : Option ℕ → Server → ℕ → Exceptional ServerError Bool
hb_over none s now = time_over s.cfg.initial_rank_heartbeat_timeout s.start_time now
hb_over (some last) s now = ok (is_over s.cfg.rank_heartbeat_timeout last now)

unfoldable pub is_hb_timeout_elapsed : Server → ℕ → Exceptional ServerError Bool
is_hb_timeout_elapsed s now = hb_over s.last_hb_time s now

abbrev pub found_timeout : String → Option (Option ℕ) → Exceptional ServerError (Option ℕ)
found_timeout name none = err (missing_timeout name)
found_timeout name (some t) = ok t

-- The loop over the open sections. Each turn overwrites `is_elapsed`.
unfoldable pub check_sections : Config → ℕ → Bool → Dict String ℕ → Exceptional ServerError Bool
check_sections c now is_elapsed [] = ok is_elapsed
check_sections c now is_elapsed ((name, since) ∷ rest) =
    bind_result (found_timeout name (get name c.rank_section_timeouts))
      (λ t. check_sections c now (is_over t since now) rest)

unfoldable pub sections_over : Dict String ℕ → Server → ℕ → Exceptional ServerError Bool
unfolding check_sections
sections_over [] s now = time_over s.cfg.rank_out_of_section_timeout s.out_of_section_time now
sections_over (x ∷ d) s now = check_sections s.cfg now false (x ∷ d)

unfoldable pub is_section_timeout_elapsed : Server → ℕ → Exceptional ServerError Bool
unfolding sections_over
is_section_timeout_elapsed s now = sections_over s.open_sections s now

-- A turn of `_periodic_rank_check`: whether it ends in `_handle_timeout`.
abbrev pub check_rank : Option RankInfo → Server → ℕ → Exceptional ServerError Bool
check_rank none s now = ok false
check_rank (some info) s now = bind_result (is_hb_timeout_elapsed s now) (λ hb_timed_out.
    bind_result (is_section_timeout_elapsed s now)
      (λ section_timed_out. ok (hb_timed_out || section_timed_out)))

unfoldable pub periodic_rank_check : Server → ℕ → Exceptional ServerError Bool
unfolding is_hb_timeout_elapsed is_section_timeout_elapsed
periodic_rank_check s now = check_rank s.rank_info s now

-- An exception ends the connection: it is logged, and the connection is cleaned up.
unfoldable pub after_message :
    Exceptional ServerError Reply → Server → Exceptional ServerError (Unit {0}) × Server
unfolding connection_lost_handler
after_message (ok reply) s = (ok tt, s)
after_message (err x) s = connection_lost_handler s

unfoldable pub receive : Message → ℕ → ℕ → Server → Exceptional ServerError (Unit {0}) × Server
unfolding handle_message after_message
receive m now later s = let (r, t) = handle_message m now later s in after_message r t

-- A turn of `_periodic_restart_check`, of a task that is under way.
abbrev pub tick_result : Exceptional MachineError MonitorState → Server → Server
tick_result (ok m) s = record s { machine = m }
tick_result (err x) s = record s { restart_task = failed x }

abbrev pub tick_task : RestartTask → Server → Server
tick_task running s = tick_result (periodic_restart_check s.machine) s
tick_task no_task s = s
tick_task (failed x) s = s

unfoldable pub restart_tick : Server → Server
unfolding periodic_restart_check
restart_tick s = tick_task s.restart_task s

-- A connection that asks for the lock (and waits while another has it), one that waits for it too long, a message on the connection, its
-- end, a signal, and a turn of the restart check.
pub data Event : Type 0 where
  connect connect_too_late hang_up terminate tick : Event
  message_in : Message → ℕ → ℕ → Event

unfoldable pub on_event : Event → Server → Exceptional ServerError (Unit {0}) × Server
unfolding receive connection_lost_handler signal_handler restart_tick
on_event connect s =
    if s.is_closing || s.connection_locked
    then (ok tt, s)
    else (ok tt, record s { connection_locked = true })
on_event connect_too_late s = if s.is_closing then (ok tt, s) else connection_lost_handler s
on_event hang_up s = connection_lost_handler s
on_event terminate s = signal_handler s
on_event tick s = (ok tt, restart_tick s)
on_event (message_in m now later) s = receive m now later s

unfoldable pub serve : List Event → Server → Server
unfolding on_event
serve [] s = s
serve (e ∷ es) s = serve es (on_event e s).1
