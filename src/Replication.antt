-- ===== src/Replication.antt =====
-- Replication of local checkpoints: checkpointing/local/replication.
pub mod Groups
pub mod Batch
pub mod Transfer
pub mod Exchange
pub mod Delivery
pub mod Strategies
pub mod Planning
pub mod Outcomes
pub mod Retrieval
pub mod Replicating
pub mod Columns
pub mod Partition
mod Samples
