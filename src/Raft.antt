-- ===== src/Raft.antt =====
-- The consensus parts that the repository writes itself: native/sync/src/consensus. The Raft
-- engine, NuRaft, is a library.
pub mod Log
pub mod Membership
pub mod Node
mod Tests
