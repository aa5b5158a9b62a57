-- ===== src/Engine/Wire.antt =====
-- SyncEngine::apply_wire_batch of native/sync/src/sync_engine.cpp: the limits, the handshake, the
-- decoding and apply_batch, with the guards around them and the telemetry behind them.
pub mod Steps
pub mod Recorded
pub mod Guarded
pub mod Outcome
pub mod Tests
use tightrope.Prelude.{
  ℕ, ◌+◌, ◌-◌, ◌%◌, Bool, true, false, not, if◌then◌else◌, ltb, List, [], ◌∷◌, Option, none, some,
  length,
}
use tightrope.Prelude.Int.{ℤ}
use tightrope.Wire.{Bytes}
use tightrope.Protocol.Batch.{JournalBatchFrame, Lz4, decode_journal_batch}
use tightrope.Protocol.Batch.Entry.{JournalWireEntry}
use tightrope.Protocol.Handshake.{
  HandshakeFrame, Sodium, AuthError, AuthResult, accepted, rejected, SchemaError, SchemaResult,
  negotiated, incompatible, validate_handshake_auth, validate_handshake_schema_version,
}
use tightrope.Engine.Store.{Rows}
use tightrope.Engine.Apply.{ApplyError, ApplyBatchResult, Outside, apply_batch}
use tightrope.Engine.Budget.{IngressLimits, InflightWire, BudgetError, acquire, release}
use tightrope.Engine.Doubles.{Doubles}
use tightrope.Engine.RateLimit.{
  PeerRateBucket, RateLimits, RateError, Steady, consume_peer_rate_limit_tokens,
}
use tightrope.Engine.Telemetry.{
  PeerIngressRejectionReason, unknown, batch_too_large, backpressure, inflight_wire_budget,
  handshake_auth, handshake_schema, invalid_wire_batch, entry_limit, rate_limit, apply_failed,
  PeerIngressTelemetry, IngressResult, batch_replication_latency_ms, record_peer_ingress_result,
}

pub record ApplyWireBatchRequest : Type 0 where
  pub remote_handshake : HandshakeFrame
  pub cluster_shared_secret : Bytes
  pub require_handshake_auth : Bool
  pub local_schema_version : ℕ
  pub allow_schema_downgrade : Bool
  pub min_supported_schema_version : ℕ
  pub applied_value : ℤ

-- The error text of the result, by what it says.
pub data WireError : Type 0 where
  too_large : ℕ → WireError
  too_many_batches : WireError
  over_budget : BudgetError → WireError
  auth_rejected : AuthError → WireError
  schema_rejected : SchemaError → WireError
  invalid_batch : WireError
  too_many_entries : ℕ → WireError
  limited : RateError → WireError
  not_applied : ApplyError → WireError
  -- Those of ReplicationIngressSession.
  unexpected_before_handshake unexpected_channel : ℕ → WireError
  invalid_handshake bad_stream : WireError

pub record WireResult : Type 0 where
  pub success : Bool
  pub applied_up_to_seq : ℕ
  pub applied_count : ℕ
  pub error : Option WireError

-- The variables that all calls share.
pub record IngressState (D : Type 0) : Type 0 where
  pub inflight : ℕ
  pub budget : InflightWire
  pub buckets : List (ℕ × PeerRateBucket D)
  pub telemetry : List (ℕ × PeerIngressTelemetry D WireError)

-- What one call reads of the clocks.
pub record Times : Type 0 where
  pub observed_ms : ℕ
  pub steady_now : ℕ
  pub recorded_ms : ℕ
  pub elapsed_ms : ℕ

-- libsodium, lz4, the doubles, SQLite with SHA-256, and the limits that the environment gives.
pub record Surroundings (D : Type 0) : Type 0 where
  pub lz4 : Lz4
  pub sodium : Sodium
  pub outside : Outside
  pub doubles : Doubles D
  pub steady : Steady D
  pub limits : IngressLimits
  pub rate_limits : RateLimits D

abbrev pub rejection : WireError → WireResult
rejection err = record {
  success = false;
  applied_up_to_seq = 0;
  applied_count = 0;
  error = some err;
}

-- An ApplyBatchResult with its error as the engine's.
abbrev pub of_applied : ApplyBatchResult → WireResult
of_applied r = record {
  success = r.success;
  applied_up_to_seq = r.applied_up_to_seq;
  applied_count = r.applied_count;
  error = elim r.error [ none ↦ none | some err ↦ some (not_applied err) ];
}

module _ {D : Type 0} (w : Surroundings D) (req : ApplyWireBatchRequest) (times : Times) where
  abbrev pub Outcome : Type 0
  Outcome = IngressState D × Rows × WireResult

  -- record_outcome, with the result that is returned.
  unfoldable pub outcome :
      IngressState D → Rows → ℕ → Option ℕ → PeerIngressRejectionReason → WireResult → Outcome
  outcome s rows wire_bytes latency reason result = (
    record s {
      telemetry =
          record_peer_ingress_result w.doubles req.remote_handshake.site_id
            (record {
              now_ms = times.recorded_ms;
              last_recv_seq = req.remote_handshake.last_recv_seq_from_peer;
              applied_up_to = result.applied_up_to_seq;
              success = result.success;
              wire_bytes = wire_bytes;
              reason = reason;
              error = result.error;
              apply_duration_ms = times.elapsed_ms;
              replication_latency_ms = latency;
            })
            s.telemetry;
    },
    rows,
    result,
  )

  abbrev pub reason_of : ApplyBatchResult → PeerIngressRejectionReason
  reason_of applied = if applied.success then unknown else apply_failed

  -- From the decoded batch on.
  unfoldable pub apply_decoded : IngressState D → Rows → ℕ → JournalBatchFrame → Outcome
  apply_decoded s rows wire_bytes batch =
      let latency = batch_replication_latency_ms batch times.observed_ms in
      let (buckets, refused) =
        consume_peer_rate_limit_tokens w.doubles w.steady w.rate_limits times.steady_now
          req.remote_handshake.site_id (length batch.entries) s.buckets in
      let (after, applied) = apply_batch w.outside req.applied_value rows batch in
      if ltb w.limits.max_wire_batch_entries (length batch.entries)
      then outcome s rows wire_bytes latency entry_limit
          (rejection (too_many_entries (length batch.entries)))
      else elim refused [
        | some err ↦
            outcome (record s { buckets = buckets }) rows wire_bytes latency rate_limit
              (rejection (limited err))
        | none ↦
            outcome (record s { buckets = buckets }) after wire_bytes latency (reason_of applied)
              (of_applied applied)
      ]

  -- From the handshake on.
  unfoldable pub apply_validated : IngressState D → Rows → Bytes → Outcome
  apply_validated s rows bytes =
      elim (validate_handshake_auth w.sodium req.remote_handshake req.cluster_shared_secret
        req.require_handshake_auth) [
          | rejected err ↦
              outcome s rows (length bytes) none handshake_auth (rejection (auth_rejected err))
          | accepted ↦
              elim (validate_handshake_schema_version req.remote_handshake req.local_schema_version
                req.allow_schema_downgrade req.min_supported_schema_version) [
                  | incompatible err ↦
                      outcome s rows (length bytes) none handshake_schema
                        (rejection (schema_rejected err))
                  | negotiated version ↦ elim (decode_journal_batch w.lz4 bytes) [
                    | none ↦
                        outcome s rows (length bytes) none invalid_wire_batch
                          (rejection invalid_batch)
                    | some batch ↦ apply_decoded s rows (length bytes) batch
                  ]
                ]
        ]

  -- The destructors of both guards.
  abbrev pub leave : ℕ → Outcome → Outcome
  leave wire_bytes (s, rows, result) = (
    record s {
      inflight = s.inflight - 1;
      budget = release req.remote_handshake.site_id wire_bytes s.budget;
    },
    rows,
    result,
  )

  abbrev pub leave_count : Outcome → Outcome
  leave_count (s, rows, result) = (record s { inflight = s.inflight - 1 }, rows, result)

  unfoldable pub apply_wire_batch : IngressState D → Rows → Bytes → Outcome
  unfolding outcome apply_validated
  apply_wire_batch s rows bytes =
      let size = length bytes in
      let (budget, refused) = acquire w.limits req.remote_handshake.site_id size s.budget in
      let inside : IngressState D = record s { inflight = s.inflight + 1; budget = budget } in
      if ltb w.limits.max_wire_batch_bytes size
      then outcome s rows size none batch_too_large (rejection (too_large size))
      else if ltb s.inflight w.limits.max_inflight_wire_batches
      then elim refused [
        | some err ↦
            leave_count
              (outcome inside rows size none inflight_wire_budget (rejection (over_budget err)))
        | none ↦ leave size (apply_validated inside rows bytes)
      ]
      else outcome s rows size none backpressure (rejection too_many_batches)
