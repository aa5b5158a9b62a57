-- ===== src/Engine/Wire/Tests.antt =====
-- Runs of apply_wire_batch and of the telemetry (native/sync/src/sync_engine.cpp), with toys in the
-- place of libsodium, LZ4 and the doubles.
use tightrope.Prelude.{ℕ, ◌≡◌, ◌≢◌, ◌⊎◌, arith, Bool, true, false, [], ◌∷◌, List, none, some}
use tightrope.Prelude.Int.{pos}
use tightrope.Wire.{Bytes}
use tightrope.Protocol.Batch.{JournalBatchFrame}
use tightrope.Protocol.Handshake.{HandshakeFrame}
use tightrope.Protocol.Tests.{toy_sodium, toy_lz4}
use tightrope.Engine.Tests.{
  toy, natural, seconds, rate, one_bucket, nothing, default_limits-IsSized,
}
use tightrope.Engine.Apply.Entry.{AllStored, Extends}
use tightrope.Engine.Budget.{default_limits}
use tightrope.Engine.Telemetry.{IngressResult, rate_limit, telemetry_of}
use tightrope.Engine.Telemetry.Results.{Shows}
use tightrope.Engine.Telemetry.History.{recorded, results_of, record-refines}
use tightrope.Engine.Wire.{
  ApplyWireBatchRequest, WireError, invalid_batch, IngressState, Times, Surroundings,
  apply_wire_batch,
}
use tightrope.Engine.Wire.Outcome.{IsLetIn, apply_wire_batch-IsLetIn}
use tightrope.Engine.Wire.Guarded.{IsSettled, apply_wire_batch-IsSettled}

abbrev a_result : Bool → IngressResult WireError
a_result ok = record {
  now_ms = 5;
  last_recv_seq = 3;
  applied_up_to = 2;
  success = ok;
  wire_bytes = 40;
  reason = rate_limit;
  error = some invalid_batch;
  apply_duration_ms = 1;
  replication_latency_ms = some 4;
}

abbrev calls : List (ℕ × IngressResult WireError)
calls = (7, a_result false) ∷ (8, a_result true) ∷ (7, a_result true) ∷ []

record-refines_example :
    Shows (telemetry_of natural 7 (recorded natural calls)) (results_of natural 7 calls)
record-refines_example = record-refines natural 7 calls (λ e. omega (arith, e))

abbrev pub peer : HandshakeFrame
peer = record {
  site_id = 7;
  schema_version = 1;
  last_recv_seq_from_peer = 3;
  auth_key_id = [];
  auth_hmac_hex = [];
}

abbrev pub request : ApplyWireBatchRequest
request = record {
  remote_handshake = peer;
  cluster_shared_secret = [];
  require_handshake_auth = false;
  local_schema_version = 1;
  allow_schema_downgrade = false;
  min_supported_schema_version = 1;
  applied_value = pos 2;
}

abbrev pub times : Times
times = record { observed_ms = 9; steady_now = 11; recorded_ms = 10; elapsed_ms = 1 }

abbrev pub surroundings : Surroundings ℕ
surroundings = record {
  lz4 = toy_lz4;
  sodium = toy_sodium;
  outside = toy;
  doubles = natural;
  steady = seconds;
  limits = default_limits;
  rate_limits = rate;
}

abbrev pub state : IngressState ℕ
state = record { inflight = 1; budget = nothing; buckets = one_bucket; telemetry = [] }

-- An uncompressed batch without entries.
abbrev bytes : Bytes
bytes =
    0 ∷ 20 ∷ 0 ∷ 0 ∷ 0 ∷ 20 ∷ 0 ∷ 0 ∷ 0 ∷ 0 ∷ 0 ∷ 0 ∷ 0 ∷ 0 ∷ 0 ∷ 0 ∷ 0 ∷ 0 ∷ 0 ∷ 0 ∷ 0 ∷ 0 ∷ 0 ∷ 0
    ∷ 0 ∷ 0 ∷ 0 ∷ 0 ∷ 0 ∷ []

apply_wire_batch-IsLetIn_example :
    (((apply_wire_batch surroundings request times state [] bytes).2.success ≡ true)
      × ((batch : JournalBatchFrame) × IsLetIn surroundings request times bytes batch
          × AllStored toy
              (apply_wire_batch surroundings request times state [] bytes).1
              batch.entries
          × Extends [] (apply_wire_batch surroundings request times state [] bytes).1))
    ⊎ (((apply_wire_batch surroundings request times state [] bytes).2.success ≡ false)
        × ((apply_wire_batch surroundings request times state [] bytes).2.error ≢ none)
        × ((apply_wire_batch surroundings request times state [] bytes).1 ≡ []))
apply_wire_batch-IsLetIn_example =
    apply_wire_batch-IsLetIn surroundings request times state [] bytes

apply_wire_batch-IsSettled_example :
    IsSettled surroundings request times state bytes
      (apply_wire_batch surroundings request times state [] bytes)
apply_wire_batch-IsSettled_example =
    apply_wire_batch-IsSettled surroundings request times state [] bytes default_limits-IsSized
