-- ===== src/Straggler.antt =====
-- The detection of slow ranks: the straggler package.
pub mod NameMapper
pub mod Naming
pub mod Gathering
mod Samples
