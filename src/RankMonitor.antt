-- ===== src/RankMonitor.antt =====
-- The rank monitor: rank_monitor_state_machine.py, rank_monitor_server.py and rank_monitor_client.py of
-- fault_tolerance.
pub mod Machine
pub mod Diagram
pub mod Server
pub mod Serving
pub mod Clocks
pub mod Restarts
pub mod Sections
pub mod Lateness
pub mod Opening
pub mod Client
pub mod Sending
pub mod Following
pub mod InStep
mod Samples
