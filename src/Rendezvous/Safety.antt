-- ===== src/Rendezvous/Safety.antt =====
-- Reading and writing the shared state, and a whole round of the loop, keep every state well formed.
pub mod Syncing
pub mod Rounds
pub mod World
