-- ===== src/RankMonitor/Client.antt =====
-- What `RankMonitorClient` of fault_tolerance/rank_monitor_client.py sends while the workload runs,
-- and what the server that it is connected to makes of it. The socket carries one message and its
-- reply at a time; where a handler of the server raises, the connection ends without a reply, and the
-- server cleans up as for any lost connection. What is sent on an ended connection does not arrive.
use nvidia_resiliency_ext_x.Prelude.{ℕ, Bool, false, String, if◌then◌else◌}
use nvidia_resiliency_ext_x.Prelude.Method.{Exceptional, ok, err}
use nvidia_resiliency_ext_x.Data.{SectionAction, open_section, close_section, close_all}
use nvidia_resiliency_ext_x.Timeouts.Calc.{
  TimeoutsCalc, CalcError, update_on_heartbeat, update_on_section_event, close_all_sections,
}
use nvidia_resiliency_ext_x.RankMonitor.Server.{
  Server, ServerError, Reply, ok_msg, handle_heartbeat_msg, handle_section_msg,
  connection_lost_handler,
}

pub record Client : Type 0 where
  pub is_initialized : Bool
  pub timeouts_calc : TimeoutsCalc

-- The client and its server.
pub record Monitored : Type 0 where
  pub client : Client
  pub server : Server
  pub connected : Bool

pub data ClientError : Type 0 where
  not_initialized could_not_send : ClientError

-- The state of the calculator after an update, and an exception of it as one of the client.
abbrev pub updated :
    Exceptional CalcError (Unit {0}) × TimeoutsCalc
    → Monitored
    → Exceptional ClientError (Unit {0}) × Monitored
updated (ok u, c) m = (ok tt, record m { client = record m.client { timeouts_calc = c } })
updated (err x, c) m =
    (err could_not_send, record m { client = record m.client { timeouts_calc = c } })

-- `_ensure_response_is_ok`, and then the update of the calculator. Without a reply the server has
-- left `_handle_ipc_connection`.
abbrev pub after_reply :
    Exceptional ServerError Reply × Server
    → (TimeoutsCalc → Exceptional CalcError (Unit {0}) × TimeoutsCalc)
    → Monitored
    → Exceptional ClientError (Unit {0}) × Monitored
after_reply (ok ok_msg, s) update m =
    updated (update m.client.timeouts_calc) (record m { server = s })
after_reply (ok reply, s) update m = (err could_not_send, record m { server = s })
after_reply (err x, s) update m =
    (err could_not_send, record m { server = (connection_lost_handler s).1; connected = false })

-- Writes a message and reads the reply.
abbrev pub sent :
    Exceptional ServerError Reply × Server
    → (TimeoutsCalc → Exceptional CalcError (Unit {0}) × TimeoutsCalc)
    → Monitored
    → Exceptional ClientError (Unit {0}) × Monitored
sent reply update m = if m.connected then after_reply reply update m else (err could_not_send, m)

-- The moments are those at the server and at the client.
unfoldable pub send_heartbeat : ℕ → ℕ → Monitored → Exceptional ClientError (Unit {0}) × Monitored
unfolding handle_heartbeat_msg update_on_heartbeat
send_heartbeat now later m =
    if m.client.is_initialized
    then sent (handle_heartbeat_msg false now m.server) (update_on_heartbeat later) m
    else (err not_initialized, m)

unfoldable pub section_update :
    SectionAction → String → ℕ → TimeoutsCalc → Exceptional CalcError (Unit {0}) × TimeoutsCalc
unfolding update_on_section_event close_all_sections
section_update open_section section later = update_on_section_event section open_section later
section_update close_section section later = update_on_section_event section close_section later
section_update close_all section later = close_all_sections later

unfoldable pub send_section_msg :
    SectionAction → String → ℕ → ℕ → Monitored → Exceptional ClientError (Unit {0}) × Monitored
unfolding handle_section_msg section_update
send_section_msg action section now later m =
    if m.client.is_initialized
    then sent (handle_section_msg action section now m.server) (section_update action section later)
        m
    else (err not_initialized, m)

abbrev pub start_section :
    String → ℕ → ℕ → Monitored → Exceptional ClientError (Unit {0}) × Monitored
start_section section = send_section_msg open_section section

abbrev pub end_section : String → ℕ → ℕ → Monitored → Exceptional ClientError (Unit {0}) × Monitored
end_section section = send_section_msg close_section section

-- With `None` for the section, which no one reads.
abbrev pub end_all_sections : ℕ → ℕ → Monitored → Exceptional ClientError (Unit {0}) × Monitored
end_all_sections = send_section_msg close_all ""
