-- ===== src/Engine/Telemetry/Results.antt =====
-- What a list of results that native/sync/src/sync_engine.cpp recorded says, and telemetry that
-- shows it.
use Prim.Native.Nat.{min}
use tightrope.Prelude.{
  ℕ, suc, ◌+◌, ◌%◌, ◌≡◌, Bool, not, ◌&&◌, if◌then◌else◌, ◌==◌, max, List, [], ◌∷◌, length,
}
use tightrope.Prelude.Maps.{nat_ordered}
use tightrope.Engine.Telemetry.{
  PeerIngressRejectionReason, unknown, batch_too_large, backpressure, inflight_wire_budget,
  handshake_auth, handshake_schema, invalid_wire_batch, entry_limit, rate_limit, apply_failed,
  ingress_protocol, PeerIngressTelemetry, u64_max, IngressResult,
}

-- The values of the enumeration.
abbrev pub reason_value : PeerIngressRejectionReason → ℕ
reason_value unknown = 0
reason_value batch_too_large = 1
reason_value backpressure = 2
reason_value inflight_wire_budget = 3
reason_value handshake_auth = 4
reason_value handshake_schema = 5
reason_value invalid_wire_batch = 6
reason_value entry_limit = 7
reason_value rate_limit = 8
reason_value apply_failed = 9
reason_value ingress_protocol = 10

-- The counter of a reason; Unknown has none.
abbrev pub counter : {D E : Type 0} → PeerIngressRejectionReason → PeerIngressTelemetry D E → ℕ
counter unknown t = 0
counter batch_too_large t = t.rejected_batch_too_large
counter backpressure t = t.rejected_backpressure
counter inflight_wire_budget t = t.rejected_inflight_wire_budget
counter handshake_auth t = t.rejected_handshake_auth
counter handshake_schema t = t.rejected_handshake_schema
counter invalid_wire_batch t = t.rejected_invalid_wire_batch
counter entry_limit t = t.rejected_entry_limit
counter rate_limit t = t.rejected_rate_limit
counter apply_failed t = t.rejected_apply_batch
counter ingress_protocol t = t.rejected_ingress_protocol

abbrev pub is_counted : PeerIngressRejectionReason → PeerIngressRejectionReason → Bool
is_counted k reason = not (reason_value k == 0) && reason_value k == reason_value reason

-- What a list of results says, the last result first.
module _ {E : Type 0} where
  abbrev pub accepted : List (IngressResult E) → ℕ
  accepted [] = 0
  accepted (r ∷ rs) = (if r.success then 1 else 0) + accepted rs

  abbrev pub rejected : List (IngressResult E) → ℕ
  rejected [] = 0
  rejected (r ∷ rs) = (if r.success then 0 else 1) + rejected rs

  abbrev pub rejected_for : PeerIngressRejectionReason → List (IngressResult E) → ℕ
  rejected_for k [] = 0
  rejected_for k (r ∷ rs) =
      (if r.success then 0 else if is_counted k r.reason then 1 else 0) + rejected_for k rs

  abbrev pub accepted_bytes : List (IngressResult E) → ℕ
  accepted_bytes [] = 0
  accepted_bytes (r ∷ rs) = (if r.success then r.wire_bytes else 0) + accepted_bytes rs

  abbrev pub rejected_bytes : List (IngressResult E) → ℕ
  rejected_bytes [] = 0
  rejected_bytes (r ∷ rs) = (if r.success then 0 else r.wire_bytes) + rejected_bytes rs

  -- The failures since the last success.
  abbrev pub failures : List (IngressResult E) → ℕ
  failures [] = 0
  failures (r ∷ rs) = if r.success then 0 else suc (failures rs)

  abbrev pub greatest_reported : List (IngressResult E) → ℕ
  greatest_reported [] = 0
  greatest_reported (r ∷ rs) = max (greatest_reported rs) r.last_recv_seq

  abbrev pub greatest_applied : List (IngressResult E) → ℕ
  greatest_applied [] = 0
  greatest_applied (r ∷ rs) = max (greatest_applied rs) r.applied_up_to

  abbrev pub total_duration : List (IngressResult E) → ℕ
  total_duration [] = 0
  total_duration (r ∷ rs) = r.apply_duration_ms + total_duration rs

-- Telemetry that shows a list of results: counts that wrap, and sums that stop at the greatest.
pub record Shows {D E : Type 0} (t : PeerIngressTelemetry D E) (h : List (IngressResult E))
    : Type 0 where
  pub accepts : t.accepted_batches ≡ accepted h % 18446744073709551616
  pub rejects : t.rejected_batches ≡ rejected h % 18446744073709551616
  pub reasons :
      (k : PeerIngressRejectionReason) → counter k t ≡ rejected_for k h % 18446744073709551616
  pub accepts_bytes : t.accepted_wire_bytes ≡ min (accepted_bytes h) u64_max
  pub rejects_bytes : t.rejected_wire_bytes ≡ min (rejected_bytes h) u64_max
  pub in_a_row : t.consecutive_failures ≡ failures h % 18446744073709551616
  pub reported : t.last_reported_seq_from_peer ≡ greatest_reported h
  pub applied : t.last_applied_up_to_seq ≡ greatest_applied h
  pub durations : t.total_apply_duration_ms ≡ min (total_duration h) u64_max
  pub samples : t.apply_duration_samples ≡ min (length h) u64_max
