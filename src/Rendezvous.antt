-- ===== src/Rendezvous.antt =====
-- The rendezvous of fault-tolerant nodes: fault_tolerance/_ft_rendezvous.py.
pub mod Base
pub mod Ranks
pub mod Actions
pub mod Handlers
pub mod Invariant
pub mod Holder
pub mod Run
pub mod Safety
pub mod Workers
pub mod DeadNodes
pub mod Exiting
pub mod Handler
pub mod Finishing
pub mod Joining
pub mod Leaving
mod Samples
