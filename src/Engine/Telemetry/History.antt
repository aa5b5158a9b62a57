-- ===== src/Engine/Telemetry/History.antt =====
-- The telemetry of a peer in native/sync/src/sync_engine.cpp against the list of all that was
-- recorded of it.
use Prim.Native.Nat.{min}
use tightrope.Prelude.{
  ℕ, suc, ◌+◌, ◌%◌, ◌≡◌, ◌≢◌, refl, true, false, if◌then◌else◌, List, [], ◌∷◌, arith, inl, inr,
  Bool-cases,
}
use tightrope.Prelude.Maps.{nat_ordered, key_eq, key_eq-eq, lookup, insert, lookup-insert}
use tightrope.Engine.Doubles.{Doubles}
use tightrope.Engine.Telemetry.{
  PeerIngressRejectionReason, PeerIngressTelemetry, u64_max, increment, saturating_add_u64,
  IngressResult, note_rejection_reason, note_duration, note_latency, note_accepted, note_rejected,
  note_result, telemetry_of, record_peer_ingress_result,
}
use tightrope.Engine.Telemetry.Results.{
  counter, is_counted, accepted, rejected, accepted_bytes, rejected_bytes, failures, total_duration,
  Shows,
}

saturating_add-min :
    (total sum n : ℕ) → total ≡ min sum u64_max → saturating_add_u64 total n ≡ min (n + sum) u64_max
unfolding saturating_add_u64
saturating_add-min total sum n h = ground (arith, h)

increment-mod :
    (count n : ℕ)
    → count ≡ n % 18446744073709551616
    → increment count ≡ suc n % 18446744073709551616
increment-mod count n h = omega (arith, h)

module _ {D E : Type 0} (d : Doubles D) where
  counter-note :
      (k reason : PeerIngressRejectionReason) (t : PeerIngressTelemetry D E)
      → counter k (note_rejection_reason d t reason)
        ≡ (if is_counted k reason then increment (counter k t) else counter k t)
  unfolding note_rejection_reason
  counter-note k reason t = grind arith

  -- The other fields.
  note_rejection-kept :
      (reason : PeerIngressRejectionReason) (t : PeerIngressTelemetry D E)
      → let u : PeerIngressTelemetry D E = note_rejection_reason d t reason in
        (u.accepted_batches ≡ t.accepted_batches)
        × (u.rejected_batches ≡ t.rejected_batches)
        × (u.accepted_wire_bytes ≡ t.accepted_wire_bytes)
        × (u.rejected_wire_bytes ≡ t.rejected_wire_bytes)
        × (u.consecutive_failures ≡ t.consecutive_failures)
        × (u.last_reported_seq_from_peer ≡ t.last_reported_seq_from_peer)
        × (u.last_applied_up_to_seq ≡ t.last_applied_up_to_seq)
        × (u.total_apply_duration_ms ≡ t.total_apply_duration_ms)
        × (u.apply_duration_samples ≡ t.apply_duration_samples)
  unfolding note_rejection_reason
  note_rejection-kept reason t = grind arith

  counter-accepted :
      (site : ℕ) (k : PeerIngressRejectionReason) (t : PeerIngressTelemetry D E)
      (r : IngressResult E)
      → r.success ≡ true
      → counter k (note_result d site t r) ≡ counter k t
  unfolding note_result note_accepted note_latency note_duration
  counter-accepted site k t r ok = grind arith

  counter-rejected :
      (site : ℕ) (k : PeerIngressRejectionReason) (t : PeerIngressTelemetry D E)
      (r : IngressResult E)
      → r.success ≡ false
      → counter k (note_result d site t r)
        ≡ (if is_counted k r.reason then increment (counter k t) else counter k t)
  unfolding note_result note_rejected note_latency note_duration note_rejection_reason
  counter-rejected site k t r failed = grind arith

  accepted-Shows :
      (site : ℕ) (t : PeerIngressTelemetry D E) (r : IngressResult E) (h : List (IngressResult E))
      → r.success ≡ true
      → Shows t h
      → Shows (note_result d site t r) (r ∷ h)
  unfolding note_result note_accepted note_latency note_duration
  accepted-Shows site t r h ok s = record {
    accepts = ground (arith, ok, increment-mod t.accepted_batches (accepted h) s.accepts);
    rejects = ground (arith, ok, s.rejects);
    reasons = λ k. ground (arith, ok, counter-accepted site k t r ok, s.reasons k);
    accepts_bytes = ground (
      arith,
      ok,
      saturating_add-min t.accepted_wire_bytes (accepted_bytes h) r.wire_bytes s.accepts_bytes,
    );
    rejects_bytes = ground (arith, ok, s.rejects_bytes);
    in_a_row = ground (arith, ok);
    reported = ground (arith, ok, s.reported);
    applied = ground (arith, ok, s.applied);
    durations = ground (
      arith,
      ok,
      saturating_add-min t.total_apply_duration_ms (total_duration h) r.apply_duration_ms
          s.durations,
    );
    samples = ground (arith, ok, s.samples);
  }

  rejected-Shows :
      (site : ℕ) (t : PeerIngressTelemetry D E) (r : IngressResult E) (h : List (IngressResult E))
      → r.success ≡ false
      → Shows t h
      → Shows (note_result d site t r) (r ∷ h)
  unfolding note_result note_rejected note_latency note_duration note_rejection_reason
  rejected-Shows site t r h failed s = record {
    accepts = ground (arith, failed, s.accepts);
    rejects = ground (arith, failed, increment-mod t.rejected_batches (rejected h) s.rejects);
    reasons = λ k. ground (arith, failed, counter-rejected site k t r failed, s.reasons k);
    accepts_bytes = ground (arith, failed, s.accepts_bytes);
    rejects_bytes = ground (
      arith,
      failed,
      saturating_add-min t.rejected_wire_bytes (rejected_bytes h) r.wire_bytes s.rejects_bytes,
    );
    in_a_row = ground (arith, failed, increment-mod t.consecutive_failures (failures h) s.in_a_row);
    reported = ground (arith, failed, s.reported);
    applied = ground (arith, failed, s.applied);
    durations = ground (
      arith,
      failed,
      saturating_add-min t.total_apply_duration_ms (total_duration h) r.apply_duration_ms
          s.durations,
    );
    samples = ground (arith, failed, s.samples);
  }

  note-Shows :
      (site : ℕ) (t : PeerIngressTelemetry D E) (r : IngressResult E) (h : List (IngressResult E))
      → Shows t h
      → Shows (note_result d site t r) (r ∷ h)
  note-Shows site t r h s = elim (Bool-cases r.success) [
    | inl ok ↦ accepted-Shows site t r h ok s
    | inr failed ↦ rejected-Shows site t r h failed s
  ]

  telemetry_of-insert :
      (k site : ℕ) (t : PeerIngressTelemetry D E) (m : List (ℕ × PeerIngressTelemetry D E))
      → telemetry_of d k (insert site t m) ≡ (if key_eq site k then t else telemetry_of d k m)
  unfolding telemetry_of
  telemetry_of-insert k site t m = ground (arith, lookup-insert k site t m)

  -- The calls of record_peer_ingress_result, the last one first.
  abbrev pub recorded : List (ℕ × IngressResult E) → List (ℕ × PeerIngressTelemetry D E)
  recorded [] = []
  recorded ((site, r) ∷ calls) = record_peer_ingress_result d site r (recorded calls)

  abbrev pub results_of : ℕ → List (ℕ × IngressResult E) → List (IngressResult E)
  results_of site [] = []
  results_of site ((k, r) ∷ calls) =
      let rest = results_of site calls in if key_eq k site then r ∷ rest else rest

  record_self :
      (site k : ℕ) (r : IngressResult E) (m : List (ℕ × PeerIngressTelemetry D E))
      → site ≢ 0
      → key_eq k site ≡ true
      → telemetry_of d site (record_peer_ingress_result d k r m)
        ≡ note_result d site (telemetry_of d site m) r
  unfolding record_peer_ingress_result
  record_self site k r m ne same = ground (
    arith,
    ne,
    same,
    key_eq-eq k site same,
    telemetry_of-insert site k (note_result d k (telemetry_of d k m) r) m,
  )

  record_other :
      (site k : ℕ) (r : IngressResult E) (m : List (ℕ × PeerIngressTelemetry D E))
      → key_eq k site ≡ false
      → telemetry_of d site (record_peer_ingress_result d k r m) ≡ telemetry_of d site m
  unfolding record_peer_ingress_result
  record_other site k r m other =
      ground (arith, other, telemetry_of-insert site k (note_result d k (telemetry_of d k m) r) m)

  record-Shows :
      (site k : ℕ) (r : IngressResult E) (h : List (IngressResult E))
      (m : List (ℕ × PeerIngressTelemetry D E))
      → site ≢ 0
      → Shows (telemetry_of d site m) h
      → Shows
          (telemetry_of d site (record_peer_ingress_result d k r m))
          (if key_eq k site then r ∷ h else h)
  record-Shows site k r h m ne s = elim (Bool-cases (key_eq k site)) [
    | inl same ↦
        rw (same, record_self site k r m ne same) (note-Shows site (telemetry_of d site m) r h s)
    | inr other ↦ rw (other, record_other site k r m other) s
  ]

  -- The telemetry of a peer that has a site id, after any calls: its counts are those of the calls
  -- for that peer, modulo 2^64, for each reason of rejection too; its sums of bytes and durations
  -- are theirs or the greatest std::uint64_t; and its sequence numbers are the greatest of them.
  pub record-refines :
      (site : ℕ) (calls : List (ℕ × IngressResult E))
      → site ≢ 0
      → Shows (telemetry_of d site (recorded calls)) (results_of site calls)
  unfolding lookup telemetry_of
  record-refines site [] ne = record {
    accepts = refl;
    rejects = refl;
    reasons = λ k. grind arith;
    accepts_bytes = refl;
    rejects_bytes = refl;
    in_a_row = refl;
    reported = refl;
    applied = refl;
    durations = refl;
    samples = refl;
  }
  record-refines site ((k, r) ∷ calls) ne =
      record-Shows site k r (results_of site calls) (recorded calls) ne
        (record-refines site calls ne)
