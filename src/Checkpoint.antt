-- ===== src/Checkpoint.antt =====
-- Local checkpoints: checkpointing/local, less the replication.
pub mod StateDict
pub mod Directory
pub mod Manager
pub mod Operations
pub mod Coverage
pub mod Latest
pub mod Files
pub mod Gathering
pub mod Saving
pub mod Restoring
pub mod Finalizing
mod Samples
pub mod Tensors
