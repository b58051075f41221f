-- ===== src/RankMonitor/Restarts.antt =====
-- The restart that a lost connection begins (fault_tolerance/rank_monitor_server.py): the task of the
-- periodic restart check and the state machine agree.
use nvidia_resiliency_ext_x.Prelude.{
  ℕ, ◌≡◌, ◌≢◌, Bool, true, false, ◌||◌, none, some, String, List, [], ◌∷◌, if-cases, ◌⊎◌, arith,
}
use nvidia_resiliency_ext_x.Prelude.Eq.{text_keys}
use nvidia_resiliency_ext_x.Prelude.Method.{Exceptional, ok, err}
use nvidia_resiliency_ext_x.Data.{
  Message, authkey_msg, init_msg, heartbeat_msg, update_config_msg, section_msg, SectionAction,
}
use nvidia_resiliency_ext_x.RankMonitor.Machine.{
  aborted, finalized, handling_completed, is_restarting, handle_msg, unexpected_call,
  invalid_transition, handle_ipc_connection_lost,
}
use nvidia_resiliency_ext_x.RankMonitor.Server.{
  Server, no_task, running, ServerError, Reply, ok_msg, handle_message, handle_heartbeat_msg,
  handle_section_msg, handle_init_msg, handle_update_config_msg, machine_error,
  stop_periodic_restart_check, connection_lost_handler, signal_handler, update_sections_on,
  close_one,
}
use nvidia_resiliency_ext_x.RankMonitor.Serving.{
  Event, connect, connect_too_late, hang_up, terminate, tick, message_in, receive, after_message,
  restart_tick, on_event, serve,
}

-- While a restart is handled the task is under way, and otherwise a task is left over only once the
-- machine has been aborted or finalized.
pub record IsTasked (s : Server) : Type 0 where
  pub restarting : is_restarting s.machine ≡ true → s.restart_task ≡ running
  pub over :
      s.restart_task ≢ no_task
      → is_restarting s.machine ≡ false
      → (s.machine ≡ aborted) ⊎ (s.machine ≡ finalized)

handle_heartbeat_msg-IsTasked :
    (has_state : Bool) (now : ℕ) (s : Server)
    → IsTasked s
    → IsTasked (handle_heartbeat_msg has_state now s).1
unfolding handle_heartbeat_msg is_restarting handle_msg
handle_heartbeat_msg-IsTasked has_state now s w = record {
  restarting = ground arith;
  over = ground arith;
}

connection_lost_handler-IsTasked :
    (s : Server) → IsTasked s → IsTasked (connection_lost_handler s).1
unfolding connection_lost_handler
connection_lost_handler-IsTasked s w = record { restarting = ground arith; over = ground arith }

restart_tick-IsTasked : (s : Server) → IsTasked s → IsTasked (restart_tick s)
unfolding restart_tick is_restarting
restart_tick-IsTasked s w = record { restarting = ground arith; over = ground arith }

signal_handler-IsTasked : (s : Server) → IsTasked s → IsTasked (signal_handler s).1
unfolding signal_handler is_restarting
signal_handler-IsTasked s w = record { restarting = ground arith; over = ground arith }

-- Sections change neither the machine nor the task.
update_sections_on-frame :
    (action : SectionAction) (name : String) (now : ℕ) (s : Server)
    → ((update_sections_on action name now s).1.machine ≡ s.machine)
      × ((update_sections_on action name now s).1.restart_task ≡ s.restart_task)
unfolding update_sections_on close_one
update_sections_on-frame action name now s = (ground arith, ground arith)

handle_section_msg-IsTasked :
    (action : SectionAction) (name : String) (now : ℕ) (s : Server)
    → IsTasked s
    → IsTasked (handle_section_msg action name now s).1
unfolding handle_section_msg is_restarting handle_msg
handle_section_msg-IsTasked action name now s w = record {
  restarting = ground (arith, update_sections_on-frame action name now);
  over = ground (arith, update_sections_on-frame action name now);
}

handle_message-IsTasked :
    (m : Message) (now later : ℕ) (s : Server)
    → IsTasked s
    → IsTasked (handle_message m now later s).1
unfolding handle_message handle_init_msg handle_update_config_msg
handle_message-IsTasked authkey_msg now later s w = w
handle_message-IsTasked (init_msg info) now later s w = record {
  restarting = w.restarting;
  over = w.over;
}
handle_message-IsTasked (update_config_msg hb sections) now later s w = record {
  restarting = w.restarting;
  over = w.over;
}
handle_message-IsTasked (heartbeat_msg has_state) now later s w =
    handle_heartbeat_msg-IsTasked has_state now s w
handle_message-IsTasked (section_msg action name) now later s w =
    handle_section_msg-IsTasked action name now s w

after_message-IsTasked :
    (r : Exceptional ServerError Reply) (s : Server) → IsTasked s → IsTasked (after_message r s).1
unfolding after_message
after_message-IsTasked (ok reply) s w = w
after_message-IsTasked (err x) s w = connection_lost_handler-IsTasked s w

pub on_event-IsTasked : (e : Event) (s : Server) → IsTasked s → IsTasked (on_event e s).1
unfolding on_event receive
on_event-IsTasked connect s w =
    if-cases {A = Exceptional ServerError (Unit {0}) × Server} (λ r. IsTasked r.1)
      (s.is_closing || s.connection_locked) (ok tt, s)
      (ok tt, record s { connection_locked = true }) (λ e. w)
      (λ e. record { restarting = w.restarting; over = w.over })
on_event-IsTasked connect_too_late s w =
    if-cases {A = Exceptional ServerError (Unit {0}) × Server} (λ r. IsTasked r.1) s.is_closing
      (ok tt, s) (connection_lost_handler s) (λ e. w) (λ e. connection_lost_handler-IsTasked s w)
on_event-IsTasked hang_up s w = connection_lost_handler-IsTasked s w
on_event-IsTasked terminate s w = signal_handler-IsTasked s w
on_event-IsTasked tick s w = restart_tick-IsTasked s w
on_event-IsTasked (message_in m now later) s w =
    after_message-IsTasked (handle_message m now later s).0 _
      (handle_message-IsTasked m now later s w)

-- If it is so at the start, then after any sequence of events the task of the restart check is
-- under way where a restart is handled, and a task is left over without one only where the machine
-- is aborted or finalized.
pub serve-IsTasked : (es : List Event) (s : Server) → IsTasked s → IsTasked (serve es s)
unfolding serve
serve-IsTasked [] s w = w
serve-IsTasked (e ∷ es) s w = serve-IsTasked es (on_event e s).1 (on_event-IsTasked e s w)

-- The first heartbeat after a restart completes it: it cancels the task, and it is acknowledged.
pub handle_heartbeat_msg-completes :
    (now : ℕ) (s : Server)
    → IsTasked s
    → is_restarting s.machine ≡ true
    → handle_heartbeat_msg false now s ≡ (
      ok ok_msg,
      record s { restart_task = no_task; machine = handling_completed; last_hb_time = some now },
    )
unfolding handle_heartbeat_msg is_restarting handle_msg stop_periodic_restart_check
handle_heartbeat_msg-completes now s w h = ground (arith, w.restarting h)

-- Unless the monitor is finalized, a lost connection is cleaned up without an exception: the lock is
-- free, the rank is forgotten, and no section is open.
pub connection_lost_handler-lock :
    (s : Server)
    → s.machine ≢ finalized
    → ((connection_lost_handler s).0 ≡ ok tt)
      × ((connection_lost_handler s).1.connection_locked ≡ false)
      × ((connection_lost_handler s).1.rank_info ≡ none)
      × ((connection_lost_handler s).1.open_sections ≡ [])
unfolding connection_lost_handler handle_ipc_connection_lost
connection_lost_handler-lock s h = (ground arith, ground arith, ground arith, ground arith)

-- In a finalized monitor a further signal raises the invalid transition,
-- and the end of a connection raises before anything is cleaned up: a lock that is held stays held.
pub connection_lost_handler-finalized :
    (s : Server)
    → s.machine ≡ finalized
    → ((signal_handler s).0 ≡ err (machine_error invalid_transition))
      × (connection_lost_handler s ≡ (err (machine_error unexpected_call), s))
unfolding connection_lost_handler handle_ipc_connection_lost signal_handler
connection_lost_handler-finalized s h = (ground arith, ground arith)
