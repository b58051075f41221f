-- ===== src/RankMonitor/Server.antt =====
-- `RankMonitorServer` of fault_tolerance/rank_monitor_server.py: its state, and what it does with a
-- message. The handlers take the readings of `time.monotonic()` as arguments.
use nvidia_resiliency_ext_x.Prelude.{
  ℕ, Bool, true, false, Option, none, some, String, [], ◌∷◌, if◌then◌else◌,
}
use nvidia_resiliency_ext_x.Prelude.Eq.{text_keys}
use nvidia_resiliency_ext_x.Prelude.Dict.{Dict, has, put, without}
use nvidia_resiliency_ext_x.Prelude.Method.{Exceptional, ok, err, ret, raise, modify, ◌>>◌}
use nvidia_resiliency_ext_x.Data.{
  RankInfo, HeartbeatTimeouts, SectionTimeouts, SectionAction, open_section, close_section,
  close_all, Message, authkey_msg, init_msg, heartbeat_msg, update_config_msg, section_msg,
}
use nvidia_resiliency_ext_x.RankMonitor.Machine.{
  MonitorState, MachineError, uninitialized, is_restarting, handle_msg, handle_ipc_connection_lost,
  handle_signal,
}

-- The timeouts of `FaultToleranceConfig`.
pub record Config : Type 0 where
  pub initial_rank_heartbeat_timeout : Option ℕ
  pub rank_heartbeat_timeout : Option ℕ
  pub rank_section_timeouts : Dict String (Option ℕ)
  pub rank_out_of_section_timeout : Option ℕ

-- `_periodic_restart_task`: none, under way, or ended by an exception.
pub data RestartTask : Type 0 where
  no_task running : RestartTask
  failed : MachineError → RestartTask

pub record Server : Type 0 where
  pub cfg : Config
  pub rank_info : Option RankInfo
  pub start_time : Option ℕ
  pub last_hb_time : Option ℕ
  pub out_of_section_time : Option ℕ
  pub open_sections : Dict String ℕ
  pub is_closing : Bool
  pub connection_locked : Bool
  pub machine : MonitorState
  pub restart_task : RestartTask

abbrev pub started : Config → Server
started cfg = record {
  cfg = cfg;
  rank_info = none;
  start_time = none;
  last_hb_time = none;
  out_of_section_time = none;
  open_sections = [];
  is_closing = false;
  connection_locked = false;
  machine = uninitialized;
  restart_task = no_task;
}

-- What a handler raises: the exception of the state machine, the one that awaiting the failed task
-- raises again, the assertion on the state of a heartbeat, a section without a timeout, arithmetic on
-- `None`, and a connection that did not get the lock in time.
pub data ServerError : Type 0 where
  machine_error task_error : MachineError → ServerError
  heartbeat_state missing_time lock_timeout : ServerError
  missing_timeout : String → ServerError

pub data Reply : Type 0 where
  ok_msg : Reply
  ok_cfg : Config → Reply
  already_open not_open : String → Reply

abbrev pub enter :
    Exceptional MachineError MonitorState → Server → Exceptional ServerError (Unit {0}) × Server
enter (ok m) s = (ok tt, record s { machine = m })
enter (err x) s = (err (machine_error x), s)

-- A running task makes room for a new one only when it has ended.
unfoldable pub start_periodic_restart_check : Server → Server
start_periodic_restart_check s = elim s.restart_task [
  | running ↦ s
  | _ ↦ record s { restart_task = running }
]

abbrev stop_task : RestartTask → Server → Exceptional ServerError (Unit {0}) × Server
stop_task no_task s = (ok tt, s)
stop_task running s = (ok tt, record s { restart_task = no_task })
stop_task (failed x) s = (err (task_error x), s)

unfoldable pub stop_periodic_restart_check : Server → Exceptional ServerError (Unit {0}) × Server
stop_periodic_restart_check s = stop_task s.restart_task s

abbrev update_hb : Option HeartbeatTimeouts → Config → Config
update_hb none c = c
update_hb (some t) c = record c {
  initial_rank_heartbeat_timeout = t.initial;
  rank_heartbeat_timeout = t.subsequent;
}

abbrev update_sections : Option SectionTimeouts → Config → Config
update_sections none c = c
update_sections (some t) c = record c {
  rank_section_timeouts = t.section;
  rank_out_of_section_timeout = t.out_of_section;
}

unfoldable pub handle_update_config_msg :
    Option HeartbeatTimeouts
    → Option SectionTimeouts
    → Server
    → Exceptional ServerError Reply × Server
handle_update_config_msg hb sections s =
    (ok ok_msg, record s { cfg = update_sections sections (update_hb hb s.cfg) })

unfoldable pub handle_init_msg : RankInfo → ℕ → ℕ → Server → Exceptional ServerError Reply × Server
handle_init_msg info now later s = (
  ok (ok_cfg s.cfg),
  record s {
    rank_info = some info;
    start_time = some now;
    out_of_section_time = some later;
    open_sections = [];
    last_hb_time = none;
  },
)

unfoldable pub handle_heartbeat_msg : Bool → ℕ → Server → Exceptional ServerError Reply × Server
unfolding stop_periodic_restart_check
handle_heartbeat_msg has_state now = do
  stop_periodic_restart_check
  λ s. enter (handle_msg s.machine) s
  modify (λ s. record s { last_hb_time = some now })
  if has_state then raise heartbeat_state else ret ok_msg

abbrev pub is_empty : Dict String ℕ → Bool
is_empty [] = true
is_empty (x ∷ d) = false

-- A section is closed, and it may have been the last one open.
unfoldable pub close_one : String → ℕ → Server → Server
close_one name now s =
    let rest = without name s.open_sections in
    record s {
      open_sections = rest;
      out_of_section_time = if is_empty rest then some now else s.out_of_section_time;
    }

unfoldable pub update_sections_on :
    SectionAction → String → ℕ → Server → Exceptional ServerError Reply × Server
unfolding close_one
update_sections_on open_section name now s =
    if has name s.open_sections then (ok (already_open name), s) else (
      ok ok_msg,
      record s { open_sections = put name now s.open_sections; out_of_section_time = none },
    )
update_sections_on close_section name now s =
    if has name s.open_sections then (ok ok_msg, close_one name now s) else (ok (not_open name), s)
update_sections_on close_all name now s =
    (ok ok_msg, record s { open_sections = []; out_of_section_time = some now })

unfoldable pub handle_section_msg :
    SectionAction → String → ℕ → Server → Exceptional ServerError Reply × Server
unfolding stop_periodic_restart_check update_sections_on
handle_section_msg action name now = do
  stop_periodic_restart_check
  λ s. enter (handle_msg s.machine) s
  update_sections_on action name now

-- The dispatch of `_handle_ipc_connection`.
unfoldable pub handle_message : Message → ℕ → ℕ → Server → Exceptional ServerError Reply × Server
unfolding handle_init_msg handle_heartbeat_msg handle_update_config_msg handle_section_msg
handle_message authkey_msg now later s = (ok ok_msg, s)
handle_message (init_msg info) now later s = handle_init_msg info now later s
handle_message (heartbeat_msg has_state) now later s = handle_heartbeat_msg has_state now s
handle_message (update_config_msg hb sections) now later s = handle_update_config_msg hb sections s
handle_message (section_msg action name) now later s = handle_section_msg action name now s

-- `_handle_ipc_connection_lost`
unfoldable pub connection_lost_handler : Server → Exceptional ServerError (Unit {0}) × Server
unfolding start_periodic_restart_check handle_ipc_connection_lost is_restarting
connection_lost_handler = do
  λ s. enter (handle_ipc_connection_lost s.machine) s
  modify (λ s. if is_restarting s.machine then start_periodic_restart_check s else s)
  modify (λ s. record s {
    rank_info = none;
    start_time = none;
    last_hb_time = none;
    out_of_section_time = none;
    open_sections = [];
    connection_locked = false;
  })

unfoldable pub signal_handler : Server → Exceptional ServerError (Unit {0}) × Server
unfolding handle_signal
signal_handler = do
  λ s. enter (handle_signal s.machine) s
  modify (λ s. record s { is_closing = true })
