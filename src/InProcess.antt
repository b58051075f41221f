-- ===== src/InProcess.antt =====
-- Restarts within a process: the inprocess package.
pub mod RankAssignment
pub mod Filters
pub mod Shifting
pub mod Filling
pub mod Overflow
pub mod Tree
mod Samples
