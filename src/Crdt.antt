-- ===== src/Crdt.antt =====
-- The replicated data types of native/sync/include/crdt, one child each, with their laws.
pub mod Counter
pub mod Register
pub mod OrSet
mod Tests
