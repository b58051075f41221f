-- ===== src/Async.antt =====
-- Asynchronous checkpointing: checkpointing/async_ckpt/core.py.
pub mod Request
pub mod Callers
pub mod Queue
pub mod Ordering
pub mod Blocking
pub mod Worker
pub mod Orderly
pub mod Protocol
pub mod Joining
mod Samples
