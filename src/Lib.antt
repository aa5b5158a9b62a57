-- ===== src/Lib.antt =====
-- Models and proofs for the native core of tightrope: a proxy for account pools whose nodes keep
-- their databases in step. The models are of the replication protocol and of the data that it
-- replicates.
--
-- How the parts work together. A write is stamped by the clock of its node and put into a journal;
-- journal entries travel to the other nodes in batches, after a handshake, in frames on a channel.
-- A node that receives an entry decides by the table's rule: last write wins, merge a replicated
-- data type, or leave the table to the consensus, which keeps a log and a set of voting members.
--
--   Prelude            names and lemmas that all parts share; ordered maps as sorted association
--                      lists (boost::container::flat_map and flat_set), with lookup and merge laws
--   Clock              native/sync/src/hlc.cpp: compare_hlc, HlcClock
--   Conflict           native/sync/src/conflict_resolver.cpp: rules per table, last write wins
--   Crdt               native/sync/include/crdt/: Counter is g_counter.h and pn_counter.h, Register
--                      is lww_register.h, OrSet is or_set.h
--   Wire               the integer and string readers and writers of the wire formats
--   Text               native/core/text/: Ascii, Hex (hex_codec.cpp), Json (json_escape.cpp)
--   Rpc                native/sync/src/transport/rpc_channel.cpp: Frame is RpcChannel, Queue is
--                      RpcIngressQueue with its limits
--   Protocol           native/sync/src/sync_protocol.cpp: Handshake and Batch
--   Journal            native/sync/src/journal.cpp and checksum.cpp: the in-memory journal
--   Dht                the distributed hash table that finds peers. Message is
--                      native/p2p/src/dht/message.cpp with native/core/net/src/host_port.cpp, Values
--                      is native/p2p/src/dht/value_store.cpp, Routing is routing_table.cpp and the
--                      distances of node_id.cpp beside it
--   Engine             native/sync/src/sync_engine.cpp. Store is the journal table with build_batch,
--                      Apply is apply_batch, CatchUp is an exchange between two nodes, Budget and
--                      Inflight are the guards of batches in flight, RateLimit is the token buckets
--                      (over Doubles), Telemetry is what is counted of each peer, and Wire is
--                      apply_wire_batch, which puts all of them together
--   Ingress            native/sync/src/transport/replication_ingress.cpp: the frames of the Rpc queue go
--                      through the handshake to the engine
--   Raft               native/sync/src/consensus/: Log is raft_log.cpp, Membership is membership.cpp
--                      and quorum.h, Node is raft_rpc.cpp and leader_proxy.cpp
--
-- An object is a record of its fields, and a method that changes it gives the new record, with the
-- result of the source beside it. Bytes and characters are numbers below 256, a std::string is a
-- list of them. Integers are natural numbers with the wrap of their width written out where the
-- source adds to them; the counts of the counters and the comparison results are integers.
-- 64-bit overflow of a counter's sum is not modelled: the counts are unbounded there.
--
-- The sync engine's table is an association list of rows by sequence number, below 2^63; a
-- transaction gives the rows after it, or those before it when it is rolled back. Which statements
-- fail is a parameter, and so are the readings of the clocks. The guards and the telemetry are
-- behind mutexes or atomics: their states are passed from step to step, and what threads can do is
-- a relation of such steps, where the compare-and-exchange loop is one step for each round. A null
-- database handle is not modelled. Doubles are a type with the operations that the source uses; one
-- theorem relies on their exact arithmetic on whole numbers below 2^53.
--
-- The loop of drain_decoded_frames runs on fuel, one more than the buffered bytes. Every frame that
-- it takes is at least six bytes long, so the fuel is never used up, which is proved. All other
-- loops follow the structure of a list, or count down the frames that may still be taken.
--
-- Not modelled: logging, SQL statements (the persistent journal, the repositories, change capture),
-- sockets and TLS, NuRaft (its log store and state machine), LZ4 and libsodium. LZ4, SHA-256,
-- HMAC-SHA256, Boost's address parser and random ids are parameters, with what the proofs use of
-- them as a named field or hypothesis.
-- Text of error messages is kept apart only as far as the source's callers can tell them apart.
pub mod Clock
pub mod Conflict
pub mod Crdt
pub mod Dht
pub mod Engine
pub mod Ingress
pub mod Journal
pub mod Prelude
pub mod Protocol
pub mod Raft
pub mod Rpc
pub mod Text
pub mod Wire
