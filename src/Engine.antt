-- ===== src/Engine.antt =====
-- The sync engine, native/sync/src/sync_engine.cpp: what it does with the journal in SQLite and
-- with the batches of its peers.
pub mod Store
pub mod Apply
pub mod CatchUp
pub mod Budget
pub mod Inflight
pub mod Doubles
pub mod RateLimit
pub mod Telemetry
pub mod Wire
pub mod Tests
