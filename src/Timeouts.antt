-- ===== src/Timeouts.antt =====
-- The calculation of timeouts from what a rank observes: fault_tolerance/timeouts_calc.py.
pub mod Calc
pub mod Results
pub mod Heartbeats
pub mod Sections
pub mod Selecting
pub mod Syncing
mod Samples
