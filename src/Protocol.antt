-- ===== src/Protocol.antt =====
-- The replication protocol between peers: native/sync/src/sync_protocol.cpp.
pub mod Text
pub mod Handshake
pub mod Batch
pub mod Tests
