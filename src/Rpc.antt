-- ===== src/Rpc.antt =====
-- The framed channel between peers: native/sync/src/transport/rpc_channel.cpp.
pub mod Frame
pub mod Queue
mod Tests
