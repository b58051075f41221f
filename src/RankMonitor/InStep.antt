-- ===== src/RankMonitor/InStep.antt =====
-- The client of fault_tolerance/rank_monitor_client.py and its server agree on the open sections.
use nvidia_resiliency_ext_x.Prelude.{◌≡◌, ◌⊎◌, true, false, String, []}
use nvidia_resiliency_ext_x.Prelude.Eq.{text_keys}
use nvidia_resiliency_ext_x.Prelude.Dict.{has}
use nvidia_resiliency_ext_x.Prelude.Method.{Exceptional, ok, err}
use nvidia_resiliency_ext_x.Timeouts.Sections.{IsTracked}
use nvidia_resiliency_ext_x.RankMonitor.Server.{Server, ServerError, Reply, already_open, not_open}
use nvidia_resiliency_ext_x.RankMonitor.Machine.{finalized}
use nvidia_resiliency_ext_x.RankMonitor.Client.{Monitored, ClientError, could_not_send}

pub record IsInStep (m : Monitored) : Type 0 where
  pub same :
      m.connected ≡ true
      → (name : String)
      → has name m.client.timeouts_calc.open_sections ≡ has name m.server.open_sections
  pub tracked : IsTracked m.client.timeouts_calc

-- The connection is as before, or it has ended and the server has no open sections left, but for a
-- finalized one, which raises before it clears them.
abbrev pub IsCleanedUp : Monitored → Exceptional ClientError (Unit {0}) × Monitored → Type 0
IsCleanedUp m r =
    (r.1.connected ≡ m.connected)
    ⊎ ((r.1.connected ≡ false)
        × (r.0 ≡ err could_not_send)
        × ((r.1.server.open_sections ≡ []) ⊎ (r.1.server.machine ≡ finalized)))

abbrev pub StaysInStep : Monitored → Exceptional ClientError (Unit {0}) × Monitored → Type 0
StaysInStep m r = IsInStep r.1 × ((r.0 ≡ ok tt) ⊎ (r.1.client ≡ m.client)) × IsCleanedUp m r

IsRefused : Exceptional ServerError Reply × Server → Type 0
IsRefused r =
    ((x : ServerError) × (r.0 ≡ err x))
    ⊎ ((name : String) × ((r.0 ≡ ok (already_open name)) ⊎ (r.0 ≡ ok (not_open name))))
