-- ===== src/RankMonitor/Clocks.antt =====
-- The moments that the rank monitor server measures from (fault_tolerance/rank_monitor_server.py): the
-- periodic check never calculates with a moment that is not set.
use nvidia_resiliency_ext_x.Prelude.{
  ℕ, ◌≡◌, ◌≢◌, refl, true, false, ◌||◌, none, some, String, List, [], ◌∷◌, if-cases, arith,
}
use nvidia_resiliency_ext_x.Prelude.Dict.{Dict, put}
use nvidia_resiliency_ext_x.Prelude.Eq.{text_keys}
use nvidia_resiliency_ext_x.Prelude.Method.{Exceptional, ok, err, sequence-keeps, raise, ret}
use nvidia_resiliency_ext_x.Data.{
  Message, SectionAction, open_section, close_section, close_all, authkey_msg, init_msg,
  heartbeat_msg, update_config_msg, section_msg,
}
use nvidia_resiliency_ext_x.RankMonitor.Machine.{
  periodic_restart_check, MonitorState, MachineError, handle_msg, handle_ipc_connection_lost,
  handle_signal,
}
use nvidia_resiliency_ext_x.RankMonitor.Server.{
  Server, RestartTask, no_task, running, failed, ServerError, Reply, enter, is_empty,
  handle_message, handle_section_msg, handle_heartbeat_msg, handle_init_msg,
  handle_update_config_msg, stop_periodic_restart_check, connection_lost_handler, signal_handler,
  update_sections_on, close_one, heartbeat_state, ok_msg,
}
use nvidia_resiliency_ext_x.RankMonitor.Serving.{
  receive, after_message, tick_result, tick_task, restart_tick, Event, on_event, serve, connect,
  connect_too_late, hang_up, terminate, tick, message_in,
}

-- Once a rank has introduced itself, the moments that the checks read are set.
pub record IsClocked (s : Server) : Type 0 where
  pub starts : s.rank_info ≢ none → s.start_time ≢ none
  pub leaves : s.rank_info ≢ none → is_empty s.open_sections ≡ true → s.out_of_section_time ≢ none

put-is_empty : (k : String) (v : ℕ) (d : Dict String ℕ) → is_empty (put k v d) ≡ false
unfolding put
put-is_empty k v [] = refl
put-is_empty k v ((j, w) ∷ d) = ground arith

enter-IsClocked :
    (r : Exceptional MachineError MonitorState) (s : Server) → IsClocked s → IsClocked (enter r s).1
enter-IsClocked (ok m) s w = record { starts = w.starts; leaves = w.leaves }
enter-IsClocked (err x) s w = w

stop-IsClocked : (s : Server) → IsClocked s → IsClocked (stop_periodic_restart_check s).1
unfolding stop_periodic_restart_check
stop-IsClocked s w = record { starts = ground arith; leaves = ground arith }

update_sections_on-IsClocked :
    (action : SectionAction) (name : String) (now : ℕ) (s : Server)
    → IsClocked s
    → IsClocked (update_sections_on action name now s).1
unfolding update_sections_on close_one
update_sections_on-IsClocked open_section name now s w = record {
  starts = ground arith;
  leaves = ground (arith, put-is_empty name now s.open_sections);
}
update_sections_on-IsClocked close_section name now s w = record {
  starts = ground arith;
  leaves = ground arith;
}
update_sections_on-IsClocked close_all name now s w = record {
  starts = ground arith;
  leaves = ground arith;
}

handle_message-IsClocked :
    (m : Message) (now later : ℕ) (s : Server)
    → IsClocked s
    → IsClocked (handle_message m now later s).1
unfolding handle_message handle_init_msg handle_update_config_msg handle_heartbeat_msg
    handle_section_msg
handle_message-IsClocked authkey_msg now later s w = w
handle_message-IsClocked (init_msg info) now later s w = record {
  starts = ground arith;
  leaves = ground arith;
}
handle_message-IsClocked (update_config_msg hb sections) now later s w = record {
  starts = w.starts;
  leaves = w.leaves;
}
handle_message-IsClocked (heartbeat_msg has_state) now later s w =
    sequence-keeps IsClocked stop_periodic_restart_check _ stop-IsClocked
      (λ a.
        sequence-keeps IsClocked (λ s. enter (handle_msg s.machine) s) _
          (λ s. enter-IsClocked (handle_msg s.machine) s)
          (λ b s w.
            if-cases {A = Server → Exceptional ServerError Reply × Server}
              (λ m. IsClocked (m (record s { last_hb_time = some now })).1) has_state
              (raise heartbeat_state) (ret ok_msg)
              (λ e. record { starts = w.starts; leaves = w.leaves })
              (λ e. record { starts = w.starts; leaves = w.leaves })))
      s w
handle_message-IsClocked (section_msg action name) now later s w =
    sequence-keeps IsClocked stop_periodic_restart_check _ stop-IsClocked
      (λ a.
        sequence-keeps IsClocked (λ s. enter (handle_msg s.machine) s) _
          (λ s. enter-IsClocked (handle_msg s.machine) s)
          (λ b. update_sections_on-IsClocked action name now))
      s w

connection_lost_handler-IsClocked :
    (s : Server) → IsClocked s → IsClocked (connection_lost_handler s).1
unfolding connection_lost_handler
connection_lost_handler-IsClocked =
    sequence-keeps IsClocked (λ s. enter (handle_ipc_connection_lost s.machine) s) _
      (λ s. enter-IsClocked (handle_ipc_connection_lost s.machine) s)
      (λ a s w. record { starts = ground arith; leaves = ground arith })

after_message-IsClocked :
    (r : Exceptional ServerError Reply) (s : Server) → IsClocked s → IsClocked (after_message r s).1
unfolding after_message
after_message-IsClocked (ok reply) s w = w
after_message-IsClocked (err x) s w = connection_lost_handler-IsClocked s w

tick_result-IsClocked :
    (r : Exceptional MachineError MonitorState) (s : Server)
    → IsClocked s
    → IsClocked (tick_result r s)
tick_result-IsClocked (ok m) s w = record { starts = w.starts; leaves = w.leaves }
tick_result-IsClocked (err x) s w = record { starts = w.starts; leaves = w.leaves }

tick_task-IsClocked : (t : RestartTask) (s : Server) → IsClocked s → IsClocked (tick_task t s)
tick_task-IsClocked running s w = tick_result-IsClocked (periodic_restart_check s.machine) s w
tick_task-IsClocked no_task s w = w
tick_task-IsClocked (failed x) s w = w

-- The invariant holds after every event, raised or not.
pub on_event-IsClocked : (e : Event) (s : Server) → IsClocked s → IsClocked (on_event e s).1
unfolding on_event receive signal_handler restart_tick
on_event-IsClocked connect s w =
    if-cases {A = Exceptional ServerError (Unit {0}) × Server} (λ r. IsClocked r.1)
      (s.is_closing || s.connection_locked) (ok tt, s)
      (ok tt, record s { connection_locked = true }) (λ e. w)
      (λ e. record { starts = w.starts; leaves = w.leaves })
on_event-IsClocked connect_too_late s w =
    if-cases {A = Exceptional ServerError (Unit {0}) × Server} (λ r. IsClocked r.1) s.is_closing
      (ok tt, s) (connection_lost_handler s) (λ e. w) (λ e. connection_lost_handler-IsClocked s w)
on_event-IsClocked hang_up s w = connection_lost_handler-IsClocked s w
on_event-IsClocked terminate s w =
    sequence-keeps IsClocked (λ s. enter (handle_signal s.machine) s) _
      (λ s. enter-IsClocked (handle_signal s.machine) s)
      (λ a s w. record { starts = w.starts; leaves = w.leaves }) s w
on_event-IsClocked tick s w = tick_task-IsClocked s.restart_task s w
on_event-IsClocked (message_in m now later) s w =
    after_message-IsClocked (handle_message m now later s).0 _
      (handle_message-IsClocked m now later s w)

pub serve-IsClocked : (es : List Event) (s : Server) → IsClocked s → IsClocked (serve es s)
unfolding serve
serve-IsClocked [] s w = w
serve-IsClocked (e ∷ es) s w = serve-IsClocked es (on_event e s).1 (on_event-IsClocked e s w)
