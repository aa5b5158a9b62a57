-- ===== src/Engine/Wire/Recorded.antt =====
-- The outcomes of apply_wire_batch of native/sync/src/sync_engine.cpp behind its guards.
use tightrope.Prelude.{
  ℕ, ◌≡◌, refl, sym, subst, ltb, Option, none, length, arith, inl, inr, Bool-cases, Option-cases,
}
use tightrope.Prelude.Maps.{nat_ordered}
use tightrope.Wire.{Bytes}
use tightrope.Protocol.Batch.{JournalBatchFrame, decode_journal_batch}
use tightrope.Protocol.Handshake.{validate_handshake_auth, validate_handshake_schema_version}
use tightrope.Engine.Store.{Rows}
use tightrope.Engine.RateLimit.{consume_peer_rate_limit_tokens}
use tightrope.Engine.Telemetry.{
  PeerIngressRejectionReason, entry_limit, rate_limit, handshake_auth, handshake_schema,
  invalid_wire_batch, batch_replication_latency_ms,
}
use tightrope.Engine.Apply.{apply_batch}
use tightrope.Engine.Wire.{
  auth_rejected, schema_rejected, invalid_batch, too_many_entries, limited, rejection, of_applied,
  reason_of, ApplyWireBatchRequest, WireResult, IngressState, Times, Surroundings, outcome,
  apply_decoded, apply_validated,
}
use tightrope.Engine.Wire.Steps.{AuthResult-cases, SchemaResult-cases, apply_validated_decoded}

module _ {D : Type 0} (w : Surroundings D) (req : ApplyWireBatchRequest) (times : Times) where
  -- An outcome that is recorded in the telemetry, with the guards as they were.
  abbrev pub IsOutcome : IngressState D → ℕ → IngressState D × Rows × WireResult → Type 0
  IsOutcome s wire_bytes end =
      (s' : IngressState D) × (rows : Rows) × (latency : Option ℕ)
      × (reason : PeerIngressRejectionReason) × (result : WireResult) × (end
          ≡ outcome w req times s' rows wire_bytes latency reason result)
      × (s'.telemetry ≡ s.telemetry)
      × (s'.inflight ≡ s.inflight)
      × (s'.budget ≡ s.budget)

  apply_decoded-IsOutcome :
      (s : IngressState D) (rows : Rows) (wire_bytes : ℕ) (batch : JournalBatchFrame)
      → IsOutcome s wire_bytes (apply_decoded w req times s rows wire_bytes batch)
  unfolding apply_decoded
  apply_decoded-IsOutcome s rows wire_bytes batch =
      let (buckets, refusal) =
        consume_peer_rate_limit_tokens w.doubles w.steady w.rate_limits times.steady_now
          req.remote_handshake.site_id (length batch.entries) s.buckets in
      let latency : Option ℕ = batch_replication_latency_ms batch times.observed_ms in
      let (after, applied) = apply_batch w.outside req.applied_value rows batch in
      elim (Bool-cases (ltb w.limits.max_wire_batch_entries (length batch.entries))) [
        | inl many ↦ (
          s,
          rows,
          latency,
          entry_limit,
          rejection (too_many_entries (length batch.entries)),
          ground (arith, many),
          refl,
          refl,
          refl,
        )
        | inr fits ↦ elim (Option-cases refusal) [
          | inl granted ↦ (
            record s { buckets = buckets },
            after,
            latency,
            reason_of w req times applied,
            of_applied applied,
            ground (arith, fits, granted),
            refl,
            refl,
            refl,
          )
          | inr (err, refused) ↦ (
            record s { buckets = buckets },
            rows,
            latency,
            rate_limit,
            rejection (limited err),
            ground (arith, fits, refused),
            refl,
            refl,
            refl,
          )
        ]
      ]

  pub apply_validated-IsOutcome :
      (s : IngressState D) (rows : Rows) (bytes : Bytes)
      → IsOutcome s (length bytes) (apply_validated w req times s rows bytes)
  unfolding apply_validated
  apply_validated-IsOutcome s rows bytes =
      elim (AuthResult-cases (
        validate_handshake_auth w.sodium req.remote_handshake req.cluster_shared_secret
          req.require_handshake_auth)) [
            | inr (err, failed) ↦ (
              s,
              rows,
              none,
              handshake_auth,
              rejection (auth_rejected err),
              ground (arith, failed),
              refl,
              refl,
              refl,
            )
            | inl authentic ↦
                elim (SchemaResult-cases (
                  validate_handshake_schema_version req.remote_handshake req.local_schema_version
                    req.allow_schema_downgrade req.min_supported_schema_version)) [
                      | inr (err, failed) ↦ (
                        s,
                        rows,
                        none,
                        handshake_schema,
                        rejection (schema_rejected err),
                        ground (arith, authentic, failed),
                        refl,
                        refl,
                        refl,
                      )
                      | inl (version, agreed) ↦
                          elim (Option-cases (decode_journal_batch w.lz4 bytes)) [
                            | inl failed ↦ (
                              s,
                              rows,
                              none,
                              invalid_wire_batch,
                              rejection invalid_batch,
                              ground (arith, authentic, agreed, failed),
                              refl,
                              refl,
                              refl,
                            )
                            | inr (batch, decoded) ↦
                                subst (IsOutcome s (length bytes))
                                  (sym (
                                    apply_validated_decoded w req times s rows bytes batch version
                                      authentic agreed decoded))
                                  (apply_decoded-IsOutcome s rows (length bytes) batch)
                          ]
                    ]
          ]
