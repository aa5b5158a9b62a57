-- ===== src/Engine/Telemetry.antt =====
-- What native/sync/src/sync_engine.cpp remembers of the batches that a peer has sent.
pub mod Results
pub mod History
use tightrope.Prelude.{
  ℕ, ◌+◌, ◌-◌, ◌%◌, Bool, true, false, if◌then◌else◌, ltb, ◌==◌, max, List, [], ◌∷◌, Option, none,
  some,
}
use tightrope.Prelude.Maps.{Ordered, nat_ordered, lookup, insert}
use tightrope.Protocol.Batch.{JournalBatchFrame}
use tightrope.Protocol.Batch.Entry.{JournalWireEntry}
use tightrope.Engine.Budget.{InflightWire, InflightWirePeerState, inflight_snapshot}
use tightrope.Engine.Doubles.{Doubles, ewma_update}
use tightrope.Text.Ascii.{codes}
use tightrope.Wire.{Bytes}

pub data PeerIngressRejectionReason : Type 0 where
  unknown batch_too_large backpressure inflight_wire_budget handshake_auth :
      PeerIngressRejectionReason
  handshake_schema invalid_wire_batch entry_limit rate_limit apply_failed :
      PeerIngressRejectionReason
  ingress_protocol : PeerIngressRejectionReason

-- D is double, and E what an error text says; the empty text is `none`.
pub record PeerIngressTelemetry (D E : Type 0) : Type 0 where
  pub site_id : ℕ
  pub last_seen_unix_ms : ℕ
  pub last_reported_seq_from_peer : ℕ
  pub last_applied_up_to_seq : ℕ
  pub accepted_batches : ℕ
  pub rejected_batches : ℕ
  pub accepted_wire_bytes : ℕ
  pub rejected_wire_bytes : ℕ
  pub rejected_batch_too_large : ℕ
  pub rejected_backpressure : ℕ
  pub rejected_inflight_wire_budget : ℕ
  pub rejected_handshake_auth : ℕ
  pub rejected_handshake_schema : ℕ
  pub rejected_invalid_wire_batch : ℕ
  pub rejected_entry_limit : ℕ
  pub rejected_rate_limit : ℕ
  pub rejected_apply_batch : ℕ
  pub rejected_ingress_protocol : ℕ
  pub last_wire_batch_bytes : ℕ
  pub total_apply_duration_ms : ℕ
  pub last_apply_duration_ms : ℕ
  pub max_apply_duration_ms : ℕ
  pub apply_duration_ewma_ms : D
  pub apply_duration_samples : ℕ
  pub total_replication_latency_ms : ℕ
  pub last_replication_latency_ms : ℕ
  pub max_replication_latency_ms : ℕ
  pub replication_latency_ewma_ms : D
  pub replication_latency_samples : ℕ
  pub inflight_wire_batches : ℕ
  pub inflight_wire_batches_peak : ℕ
  pub inflight_wire_bytes : ℕ
  pub inflight_wire_bytes_peak : ℕ
  pub last_rejection_at_unix_ms : ℕ
  pub last_rejection_reason : Bytes
  pub last_rejection_error : Option E
  pub consecutive_failures : ℕ

abbrev pub u64_max : ℕ
u64_max = 18446744073709551615

-- ++ on a std::uint64_t.
abbrev pub increment : ℕ → ℕ
increment n = (n + 1) % 18446744073709551616

unfoldable pub saturating_add_u64 : ℕ → ℕ → ℕ
saturating_add_u64 left right = if ltb (u64_max - left) right then u64_max else left + right

abbrev pub next_sample : ℕ → ℕ
next_sample samples = if ltb samples u64_max then samples + 1 else samples

unfoldable pub rejection_reason_label : PeerIngressRejectionReason → Bytes
rejection_reason_label batch_too_large = codes "batch_too_large"
rejection_reason_label backpressure = codes "backpressure"
rejection_reason_label inflight_wire_budget = codes "inflight_wire_budget"
rejection_reason_label handshake_auth = codes "handshake_auth"
rejection_reason_label handshake_schema = codes "handshake_schema"
rejection_reason_label invalid_wire_batch = codes "invalid_wire_batch"
rejection_reason_label entry_limit = codes "entry_limit"
rejection_reason_label rate_limit = codes "rate_limit"
rejection_reason_label apply_failed = codes "apply_batch"
rejection_reason_label ingress_protocol = codes "ingress_protocol"
rejection_reason_label unknown = codes "unknown"

-- The latency of the oldest entry of a batch, with a loop over the entries.
abbrev latencies : ℕ → ℕ → List JournalWireEntry → ℕ
latencies observed longest [] = longest
latencies observed longest (e ∷ es) =
    latencies observed (max longest (if ltb e.hlc_wall observed then observed - e.hlc_wall else 0))
      es

unfoldable pub batch_replication_latency_ms : JournalBatchFrame → ℕ → Option ℕ
batch_replication_latency_ms batch observed = elim batch.entries [
  | [] ↦ none
  | ◌∷◌ e es ↦ some (latencies observed 0 (e ∷ es))
]

-- The arguments of record_peer_ingress_result, with the time that it reads.
pub record IngressResult (E : Type 0) : Type 0 where
  pub now_ms : ℕ
  pub last_recv_seq : ℕ
  pub applied_up_to : ℕ
  pub success : Bool
  pub wire_bytes : ℕ
  pub reason : PeerIngressRejectionReason
  pub error : Option E
  pub apply_duration_ms : ℕ
  pub replication_latency_ms : Option ℕ

abbrev seed : {D : Type 0} → ℕ → D → Option D
seed samples ewma = if ltb 0 samples then some ewma else none

module _ {D E : Type 0} (d : Doubles D) where
  abbrev pub no_telemetry : PeerIngressTelemetry D E
  no_telemetry = record {
    site_id = 0;
    last_seen_unix_ms = 0;
    last_reported_seq_from_peer = 0;
    last_applied_up_to_seq = 0;
    accepted_batches = 0;
    rejected_batches = 0;
    accepted_wire_bytes = 0;
    rejected_wire_bytes = 0;
    rejected_batch_too_large = 0;
    rejected_backpressure = 0;
    rejected_inflight_wire_budget = 0;
    rejected_handshake_auth = 0;
    rejected_handshake_schema = 0;
    rejected_invalid_wire_batch = 0;
    rejected_entry_limit = 0;
    rejected_rate_limit = 0;
    rejected_apply_batch = 0;
    rejected_ingress_protocol = 0;
    last_wire_batch_bytes = 0;
    total_apply_duration_ms = 0;
    last_apply_duration_ms = 0;
    max_apply_duration_ms = 0;
    apply_duration_ewma_ms = d.zero;
    apply_duration_samples = 0;
    total_replication_latency_ms = 0;
    last_replication_latency_ms = 0;
    max_replication_latency_ms = 0;
    replication_latency_ewma_ms = d.zero;
    replication_latency_samples = 0;
    inflight_wire_batches = 0;
    inflight_wire_batches_peak = 0;
    inflight_wire_bytes = 0;
    inflight_wire_bytes_peak = 0;
    last_rejection_at_unix_ms = 0;
    last_rejection_reason = [];
    last_rejection_error = none;
    consecutive_failures = 0;
  }

  unfoldable pub note_rejection_reason :
      PeerIngressTelemetry D E → PeerIngressRejectionReason → PeerIngressTelemetry D E
  note_rejection_reason t batch_too_large = record t {
    rejected_batch_too_large = increment t.rejected_batch_too_large;
  }
  note_rejection_reason t backpressure = record t {
    rejected_backpressure = increment t.rejected_backpressure;
  }
  note_rejection_reason t inflight_wire_budget = record t {
    rejected_inflight_wire_budget = increment t.rejected_inflight_wire_budget;
  }
  note_rejection_reason t handshake_auth = record t {
    rejected_handshake_auth = increment t.rejected_handshake_auth;
  }
  note_rejection_reason t handshake_schema = record t {
    rejected_handshake_schema = increment t.rejected_handshake_schema;
  }
  note_rejection_reason t invalid_wire_batch = record t {
    rejected_invalid_wire_batch = increment t.rejected_invalid_wire_batch;
  }
  note_rejection_reason t entry_limit = record t {
    rejected_entry_limit = increment t.rejected_entry_limit;
  }
  note_rejection_reason t rate_limit = record t {
    rejected_rate_limit = increment t.rejected_rate_limit;
  }
  note_rejection_reason t apply_failed = record t {
    rejected_apply_batch = increment t.rejected_apply_batch;
  }
  note_rejection_reason t ingress_protocol = record t {
    rejected_ingress_protocol = increment t.rejected_ingress_protocol;
  }
  note_rejection_reason t unknown = t

  unfoldable pub note_duration : PeerIngressTelemetry D E → ℕ → PeerIngressTelemetry D E
  note_duration t ms = record t {
    total_apply_duration_ms = saturating_add_u64 t.total_apply_duration_ms ms;
    last_apply_duration_ms = ms;
    max_apply_duration_ms = max t.max_apply_duration_ms ms;
    apply_duration_ewma_ms =
        ewma_update d (seed t.apply_duration_samples t.apply_duration_ewma_ms) (d.of_nat ms);
    apply_duration_samples = next_sample t.apply_duration_samples;
  }

  unfoldable pub note_latency : PeerIngressTelemetry D E → Option ℕ → PeerIngressTelemetry D E
  note_latency t none = t
  note_latency t (some ms) = record t {
    total_replication_latency_ms = saturating_add_u64 t.total_replication_latency_ms ms;
    last_replication_latency_ms = ms;
    max_replication_latency_ms = max t.max_replication_latency_ms ms;
    replication_latency_ewma_ms =
        ewma_update d (seed t.replication_latency_samples t.replication_latency_ewma_ms)
          (d.of_nat ms);
    replication_latency_samples = next_sample t.replication_latency_samples;
  }

  unfoldable pub note_accepted :
      PeerIngressTelemetry D E → IngressResult E → PeerIngressTelemetry D E
  note_accepted t r = record t {
    accepted_batches = increment t.accepted_batches;
    accepted_wire_bytes = saturating_add_u64 t.accepted_wire_bytes r.wire_bytes;
    consecutive_failures = 0;
  }

  unfoldable pub note_rejected :
      PeerIngressTelemetry D E → IngressResult E → PeerIngressTelemetry D E
  note_rejected t r =
      let counted =
        note_rejection_reason
          (record t {
            rejected_batches = increment t.rejected_batches;
            rejected_wire_bytes = saturating_add_u64 t.rejected_wire_bytes r.wire_bytes;
            last_rejection_at_unix_ms = r.now_ms;
            last_rejection_reason = rejection_reason_label r.reason;
          })
          r.reason in
      record counted {
        last_rejection_error = elim r.error [
          | none ↦ counted.last_rejection_error
          | some err ↦ some err
        ];
        consecutive_failures = increment counted.consecutive_failures;
      }

  unfoldable pub note_result :
      ℕ → PeerIngressTelemetry D E → IngressResult E → PeerIngressTelemetry D E
  note_result site t r =
      let timed =
        note_latency
          (note_duration
            (record t {
              site_id = site;
              last_seen_unix_ms = r.now_ms;
              last_reported_seq_from_peer = max t.last_reported_seq_from_peer r.last_recv_seq;
              last_applied_up_to_seq = max t.last_applied_up_to_seq r.applied_up_to;
              last_wire_batch_bytes = r.wire_bytes;
            })
            r.apply_duration_ms)
          r.replication_latency_ms in
      if r.success then note_accepted timed r else note_rejected timed r

  unfoldable pub telemetry_of : ℕ → List (ℕ × PeerIngressTelemetry D E) → PeerIngressTelemetry D E
  telemetry_of site m = elim (lookup site m) [ none ↦ no_telemetry | some t ↦ t ]

  unfoldable pub record_peer_ingress_result :
      ℕ
      → IngressResult E
      → List (ℕ × PeerIngressTelemetry D E)
      → List (ℕ × PeerIngressTelemetry D E)
  record_peer_ingress_result site r m =
      if site == 0 then m else insert site (note_result site (telemetry_of site m) r) m

  -- The public function of that name; it reports no sequence numbers, duration or latency.
  unfoldable pub record_peer_ingress_rejection :
      ℕ
      → ℕ
      → ℕ
      → PeerIngressRejectionReason
      → Option E
      → List (ℕ × PeerIngressTelemetry D E)
      → List (ℕ × PeerIngressTelemetry D E)
  record_peer_ingress_rejection now site bytes reason err m =
      record_peer_ingress_result site
        (record {
          now_ms = now;
          last_recv_seq = 0;
          applied_up_to = 0;
          success = false;
          wire_bytes = bytes;
          reason = reason;
          error = err;
          apply_duration_ms = 0;
          replication_latency_ms = none;
        })
        m

  abbrev with_inflight : InflightWirePeerState → PeerIngressTelemetry D E → PeerIngressTelemetry D E
  with_inflight peer t = record t {
    inflight_wire_batches = peer.batches;
    inflight_wire_batches_peak = peer.peak_batches;
    inflight_wire_bytes = peer.bytes;
    inflight_wire_bytes_peak = peer.peak_bytes;
  }

  unfoldable pub peer_ingress_telemetry :
      ℕ → List (ℕ × PeerIngressTelemetry D E) → InflightWire → Option (PeerIngressTelemetry D E)
  peer_ingress_telemetry site m s = if site == 0 then none else elim (inflight_snapshot site s) [
    | none ↦ lookup site m
    | some peer ↦ some (
        with_inflight peer
          (elim (lookup site m) [ none ↦ record no_telemetry { site_id = site } | some t ↦ t ]))
  ]
