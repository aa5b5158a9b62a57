-- ===== src/Dht.antt =====
-- The distributed hash table of the nodes: native/p2p/src/dht/.
pub mod Message
pub mod Values
pub mod Routing
mod Tests
