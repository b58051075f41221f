-- ===== src/Data.antt =====
-- The messages and timeouts of fault_tolerance/data.py. A moment or a duration is a natural number of
-- clock ticks, the absent timeout is `none`.
use nvidia_resiliency_ext_x.Prelude.{ℕ, Bool, Option, String, List}
use nvidia_resiliency_ext_x.Prelude.Dict.{Dict}

pub record RankInfo : Type 0 where
  pub global_rank : ℕ
  pub local_rank : ℕ
  pub host : String
  pub pid : ℕ

pub record HeartbeatTimeouts : Type 0 where
  pub initial : Option ℕ
  pub subsequent : Option ℕ
  pub were_calculated : Option Bool

pub record SectionTimeouts : Type 0 where
  pub section : Dict String (Option ℕ)
  pub out_of_section : Option ℕ
  pub calculated_sections : List String
  pub is_out_of_section_calculated : Bool

pub data SectionAction : Type 0 where
  open_section close_section close_all : SectionAction

-- `AuthkeyMsg`, `InitMsg`, `HeartbeatMsg` (whether it carries a state), `UpdateConfigMsg` and
-- `SectionMsg`.
pub data Message : Type 0 where
  authkey_msg : Message
  init_msg : RankInfo → Message
  heartbeat_msg : Bool → Message
  update_config_msg : Option HeartbeatTimeouts → Option SectionTimeouts → Message
  section_msg : SectionAction → String → Message
