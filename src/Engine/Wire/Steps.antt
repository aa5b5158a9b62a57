-- ===== src/Engine/Wire/Steps.antt =====
-- The ways through apply_wire_batch of native/sync/src/sync_engine.cpp.
use tightrope.Prelude.{
  ℕ, ◌+◌, ◌≡◌, ◌⊎◌, refl, true, false, ltb, none, some, length, arith, inl, inr,
}
use tightrope.Wire.{Bytes}
use tightrope.Protocol.Batch.{JournalBatchFrame, decode_journal_batch}
use tightrope.Protocol.Handshake.{
  AuthError, AuthResult, accepted, rejected, SchemaError, SchemaResult, negotiated, incompatible,
  validate_handshake_auth, validate_handshake_schema_version,
}
use tightrope.Engine.Store.{Rows}
use tightrope.Engine.Budget.{BudgetError, acquire}
use tightrope.Engine.Telemetry.{batch_too_large, backpressure, inflight_wire_budget}
use tightrope.Engine.Wire.{
  ApplyWireBatchRequest, too_large, too_many_batches, over_budget, IngressState, Times,
  Surroundings, rejection, outcome, apply_decoded, apply_validated, apply_wire_batch, leave,
  leave_count, too_large, too_many_batches, over_budget,
}

pub AuthResult-cases : (x : AuthResult) → (x ≡ accepted) ⊎ ((err : AuthError) × (x ≡ rejected err))
AuthResult-cases accepted = inl refl
AuthResult-cases (rejected err) = inr (err, refl)

pub SchemaResult-cases :
    (x : SchemaResult)
    → ((v : ℕ) × (x ≡ negotiated v)) ⊎ ((err : SchemaError) × (x ≡ incompatible err))
SchemaResult-cases (negotiated v) = inl (v, refl)
SchemaResult-cases (incompatible err) = inr (err, refl)

module _ {D : Type 0} (w : Surroundings D) (req : ApplyWireBatchRequest) (times : Times) where
  pub apply_validated_decoded :
      (s : IngressState D) (rows : Rows) (bytes : Bytes) (batch : JournalBatchFrame) (version : ℕ)
      → validate_handshake_auth w.sodium req.remote_handshake req.cluster_shared_secret
          req.require_handshake_auth
        ≡ accepted
      → validate_handshake_schema_version req.remote_handshake req.local_schema_version
          req.allow_schema_downgrade req.min_supported_schema_version
        ≡ negotiated version
      → decode_journal_batch w.lz4 bytes ≡ some batch
      → apply_validated w req times s rows bytes
        ≡ apply_decoded w req times s rows (length bytes) batch
  unfolding apply_validated
  apply_validated_decoded s rows bytes batch version authentic agreed decoded =
      ground (arith, authentic, agreed, decoded)

  -- The state behind both guards.
  abbrev pub entered_state : IngressState D → Bytes → IngressState D
  entered_state s bytes = record s {
    inflight = s.inflight + 1;
    budget = (acquire w.limits req.remote_handshake.site_id (length bytes) s.budget).0;
  }

  pub apply_wire_batch_entered :
      (s : IngressState D) (rows : Rows) (bytes : Bytes)
      → ltb w.limits.max_wire_batch_bytes (length bytes) ≡ false
      → ltb s.inflight w.limits.max_inflight_wire_batches ≡ true
      → (acquire w.limits req.remote_handshake.site_id (length bytes) s.budget).1 ≡ none
      → apply_wire_batch w req times s rows bytes
        ≡ leave w req times
            (length bytes)
            (apply_validated w req times (entered_state s bytes) rows bytes)
  unfolding apply_wire_batch
  apply_wire_batch_entered s rows bytes small room entered = ground (arith, small, room, entered)

  pub apply_wire_batch_large :
      (s : IngressState D) (rows : Rows) (bytes : Bytes)
      → ltb w.limits.max_wire_batch_bytes (length bytes) ≡ true
      → apply_wire_batch w req times s rows bytes
        ≡ outcome w req times s rows
            (length bytes)
            none
            batch_too_large
            (rejection (too_large (length bytes)))
  unfolding apply_wire_batch
  apply_wire_batch_large s rows bytes large = ground (arith, large)

  pub apply_wire_batch_full :
      (s : IngressState D) (rows : Rows) (bytes : Bytes)
      → ltb w.limits.max_wire_batch_bytes (length bytes) ≡ false
      → ltb s.inflight w.limits.max_inflight_wire_batches ≡ false
      → apply_wire_batch w req times s rows bytes
        ≡ outcome w req times s rows (length bytes) none backpressure (rejection too_many_batches)
  unfolding apply_wire_batch
  apply_wire_batch_full s rows bytes small full = ground (arith, small, full)

  pub apply_wire_batch_over :
      (s : IngressState D) (rows : Rows) (bytes : Bytes) (err : BudgetError)
      → ltb w.limits.max_wire_batch_bytes (length bytes) ≡ false
      → ltb s.inflight w.limits.max_inflight_wire_batches ≡ true
      → (acquire w.limits req.remote_handshake.site_id (length bytes) s.budget).1 ≡ some err
      → apply_wire_batch w req times s rows bytes
        ≡ leave_count w req times (
            outcome w req times
              (entered_state s bytes)
              rows
              (length bytes)
              none
              inflight_wire_budget
              (rejection (over_budget err)))
  unfolding apply_wire_batch
  apply_wire_batch_over s rows bytes err small room over = ground (arith, small, room, over)
