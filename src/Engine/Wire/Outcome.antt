-- ===== src/Engine/Wire/Outcome.antt =====
-- What apply_wire_batch of native/sync/src/sync_engine.cpp lets into the journal.
use tightrope.Prelude.{
  ℕ, ◌≤◌, ◌≡◌, ◌≢◌, ◌⊎◌, refl, sym, subst, true, false, ltb, Option, none, some, length, arith, inl,
  inr, Bool-cases, Option-cases,
}
use tightrope.Wire.{Bytes}
use tightrope.Protocol.Batch.{JournalBatchFrame, decode_journal_batch}
use tightrope.Protocol.Handshake.{
  accepted, negotiated, validate_handshake_auth, validate_handshake_schema_version,
}
use tightrope.Engine.Store.{Rows}
use tightrope.Engine.Apply.{ApplyBatchResult, apply_batch}
use tightrope.Engine.Apply.Entry.{AllStored, Extends}
use tightrope.Engine.Apply.Atomic.{apply_batch-IsApplied}
use tightrope.Engine.Budget.{BudgetError, acquire}
use tightrope.Engine.RateLimit.{RateError, consume_peer_rate_limit_tokens}
use tightrope.Engine.Wire.{
  ApplyWireBatchRequest, WireError, too_large, too_many_batches, over_budget, auth_rejected,
  schema_rejected, invalid_batch, too_many_entries, limited, WireResult, IngressState, Times,
  Surroundings, rejection, of_applied, outcome, apply_decoded, apply_validated, apply_wire_batch,
}
use tightrope.Engine.Wire.Steps.{
  AuthResult-cases, SchemaResult-cases, apply_validated_decoded, entered_state,
  apply_wire_batch_entered,
}

of_applied_error : (r : ApplyBatchResult) → r.error ≢ none → (of_applied r).error ≢ none
of_applied_error r some_error h = elim (Option-cases r.error) [
  | inl nothing ↦ some_error nothing
  | inr (err, e) ↦ ground (arith, e, h)
]

module _ {D : Type 0} (w : Surroundings D) (req : ApplyWireBatchRequest) (times : Times) where
  -- What a batch from the wire has passed.
  abbrev pub IsLetIn : Bytes → JournalBatchFrame → Type 0
  IsLetIn bytes batch =
      (length bytes ≤ w.limits.max_wire_batch_bytes)
      × (validate_handshake_auth w.sodium req.remote_handshake req.cluster_shared_secret
            req.require_handshake_auth
          ≡ accepted)
      × ((version : ℕ) × (validate_handshake_schema_version req.remote_handshake
              req.local_schema_version req.allow_schema_downgrade req.min_supported_schema_version
            ≡ negotiated version))
      × (decode_journal_batch w.lz4 bytes ≡ some batch)
      × (length batch.entries ≤ w.limits.max_wire_batch_entries)

  -- An error that leaves the journal alone.
  abbrev Refuses : Rows → IngressState D × Rows × WireResult → Type 0
  Refuses rows end = (err : WireError) × (end.1 ≡ rows) × (end.2 ≡ rejection err)

  -- The outcome of apply_batch.
  abbrev Applies : Rows → JournalBatchFrame → IngressState D × Rows × WireResult → Type 0
  Applies rows batch end =
      (end.1 ≡ (apply_batch w.outside req.applied_value rows batch).0)
      × (end.2 ≡ of_applied (apply_batch w.outside req.applied_value rows batch).1)

  -- One or the other, for a batch that passes what comes before.
  abbrev Ends : Rows → Bytes → Type 0 → IngressState D × Rows × WireResult → Type 0
  Ends rows bytes before end =
      Refuses rows end
      ⊎ ((batch : JournalBatchFrame) × (before → IsLetIn bytes batch) × Applies rows batch end)

  apply_decoded-cases :
      (s : IngressState D) (rows : Rows) (wire_bytes : ℕ) (batch : JournalBatchFrame)
      → Refuses rows (apply_decoded w req times s rows wire_bytes batch)
        ⊎ ((length batch.entries ≤ w.limits.max_wire_batch_entries)
            × Applies rows batch (apply_decoded w req times s rows wire_bytes batch))
  unfolding apply_decoded outcome
  apply_decoded-cases s rows wire_bytes batch =
      let refusal : Option RateError =
        (consume_peer_rate_limit_tokens w.doubles w.steady w.rate_limits times.steady_now
          req.remote_handshake.site_id (length batch.entries) s.buckets).1 in
      elim (Bool-cases (ltb w.limits.max_wire_batch_entries (length batch.entries))) [
        | inl many ↦
            inl
              (too_many_entries (length batch.entries), ground (arith, many), ground (arith, many))
        | inr fits ↦ elim (Option-cases refusal) [
          | inl granted ↦
              inr (
                ground (arith, fits),
                (ground (arith, fits, granted), ground (arith, fits, granted)),
              )
          | inr (err, refused) ↦
              inl (limited err, ground (arith, fits, refused), ground (arith, fits, refused))
        ]
      ]

  apply_validated-cases :
      (s : IngressState D) (rows : Rows) (bytes : Bytes)
      → Ends rows bytes
          (length bytes ≤ w.limits.max_wire_batch_bytes)
          (apply_validated w req times s rows bytes)
  unfolding apply_validated outcome
  apply_validated-cases s rows bytes =
      elim (AuthResult-cases (
        validate_handshake_auth w.sodium req.remote_handshake req.cluster_shared_secret
          req.require_handshake_auth)) [
            | inr (err, failed) ↦
                inl (auth_rejected err, ground (arith, failed), ground (arith, failed))
            | inl authentic ↦
                elim (SchemaResult-cases (
                  validate_handshake_schema_version req.remote_handshake req.local_schema_version
                    req.allow_schema_downgrade req.min_supported_schema_version)) [
                      | inr (err, failed) ↦ inl (
                        schema_rejected err,
                        ground (arith, authentic, failed),
                        ground (arith, authentic, failed),
                      )
                      | inl (version, agreed) ↦
                          elim (Option-cases (decode_journal_batch w.lz4 bytes)) [
                            | inl failed ↦ inl (
                              invalid_batch,
                              ground (arith, authentic, agreed, failed),
                              ground (arith, authentic, agreed, failed),
                            )
                            | inr (batch, decoded) ↦
                                subst
                                  (Ends rows bytes (length bytes ≤ w.limits.max_wire_batch_bytes))
                                  (sym (
                                    apply_validated_decoded w req times s rows bytes batch version
                                      authentic agreed decoded))
                                  (elim (apply_decoded-cases s rows (length bytes) batch) [
                                    | inl refuses ↦ inl refuses
                                    | inr (fits, applies) ↦ inr (
                                      batch,
                                      (λ small.
                                          (small, authentic, (version, agreed), decoded, fits)),
                                      applies,
                                    )
                                  ])
                          ]
                    ]
          ]

  apply_wire_batch-cases :
      (s : IngressState D) (rows : Rows) (bytes : Bytes)
      → Ends rows bytes (Unit {0}) (apply_wire_batch w req times s rows bytes)
  unfolding apply_wire_batch outcome
  apply_wire_batch-cases s rows bytes =
      let refusal : Option BudgetError =
        (acquire w.limits req.remote_handshake.site_id (length bytes) s.budget).1 in
      elim (Bool-cases (ltb w.limits.max_wire_batch_bytes (length bytes))) [
        | inl large ↦ inl (too_large (length bytes), ground (arith, large), ground (arith, large))
        | inr small ↦ elim (Bool-cases (ltb s.inflight w.limits.max_inflight_wire_batches)) [
          | inr full ↦
              inl (too_many_batches, ground (arith, small, full), ground (arith, small, full))
          | inl room ↦ elim (Option-cases refusal) [
            | inr (err, over) ↦ inl (
              over_budget err,
              ground (arith, small, room, over),
              ground (arith, small, room, over),
            )
            | inl entered ↦
                subst (Ends rows bytes (Unit {0}))
                  (sym (apply_wire_batch_entered w req times s rows bytes small room entered))
                  (elim (apply_validated-cases (entered_state w req times s bytes) rows bytes) [
                    | inl refuses ↦ inl refuses
                    | inr (batch, passed, applies) ↦
                        inr (batch, (λ u. passed (ground (arith, small))), applies)
                  ])
          ]
        ]
      ]

  -- Whatever the state of the limits and whatever statements fail: a batch from the wire succeeds
  -- only if its size is within the limit, the handshake is authentic and its schema version is
  -- agreed on, and it decodes to a batch within the limit of entries, of which then every entry is
  -- checked and stored and no row has changed; else there is an error, and the journal is as it was.
  pub apply_wire_batch-IsLetIn :
      (s : IngressState D) (rows : Rows) (bytes : Bytes)
      → (((apply_wire_batch w req times s rows bytes).2.success ≡ true)
          × ((batch : JournalBatchFrame) × IsLetIn bytes batch
              × AllStored w.outside (apply_wire_batch w req times s rows bytes).1 batch.entries
              × Extends rows (apply_wire_batch w req times s rows bytes).1))
        ⊎ (((apply_wire_batch w req times s rows bytes).2.success ≡ false)
            × ((apply_wire_batch w req times s rows bytes).2.error ≢ none)
            × ((apply_wire_batch w req times s rows bytes).1 ≡ rows))
  apply_wire_batch-IsLetIn s rows bytes = elim (apply_wire_batch-cases s rows bytes) [
    | inl (err, same, result) ↦ rw (same, result) (inr (refl, (λ h. cc), refl))
    | inr (batch, let_in, (same, result)) ↦
        rw (same, result)
          (elim (apply_batch-IsApplied w.outside req.applied_value rows batch) [
            | inl (ok, applied) ↦ inl (ok, (batch, let_in tt, applied.all_stored, applied.extends))
            | inr (failed, some_error, kept) ↦ inr (
              failed,
              of_applied_error (apply_batch w.outside req.applied_value rows batch).1 some_error,
              kept,
            )
          ])
  ]
