-- ===== src/Engine/Wire/Guarded.antt =====
-- What apply_wire_batch of native/sync/src/sync_engine.cpp leaves behind: no guard, and one record.
use tightrope.Prelude.{
  ℕ, ◌≡◌, refl, ap, sym, subst, ltb, Option, none, some, length, arith, inl, inr, Bool-cases,
  Option-cases,
}
use tightrope.Prelude.Maps.{nat_ordered, key_eq-eq, insert}
use tightrope.Wire.{Bytes}
use tightrope.Engine.Store.{Rows}
use tightrope.Engine.Budget.{
  InflightWire, BudgetError, acquire, release, peer_state, add_size, charged,
}
use tightrope.Engine.Budget.Guards.{
  IsSized, acquire-entered, acquire-refused, peer_state-insert, peer_state-insert_self,
  peer_state-release, release_total,
}
use tightrope.Engine.Telemetry.{
  PeerIngressRejectionReason, batch_too_large, backpressure, inflight_wire_budget, IngressResult,
  record_peer_ingress_result,
}
use tightrope.Engine.Wire.{
  too_large, too_many_batches, over_budget, rejection, leave_count, ApplyWireBatchRequest,
  WireError, WireResult, IngressState, Times, Surroundings, outcome, apply_validated,
  apply_wire_batch, leave,
}
use tightrope.Engine.Wire.Steps.{
  entered_state, apply_wire_batch_entered, apply_wire_batch_large, apply_wire_batch_full,
  apply_wire_batch_over,
}
use tightrope.Engine.Wire.Recorded.{IsOutcome, apply_validated-IsOutcome}

-- The same bytes and batches in flight, in all and for each peer.
abbrev pub IsSameLoad : InflightWire → InflightWire → Type 0
IsSameLoad a b =
    (a.total_bytes ≡ b.total_bytes)
    × ((k : ℕ) → (peer_state k a.by_peer).batches ≡ (peer_state k b.by_peer).batches)
    × ((k : ℕ) → (peer_state k a.by_peer).bytes ≡ (peer_state k b.by_peer).bytes)

module _ {D : Type 0} (w : Surroundings D) (req : ApplyWireBatchRequest) (times : Times) where
  -- The destructor undoes the constructor.
  release-acquire :
      (site wire_bytes : ℕ) (s : InflightWire)
      → IsSized w.limits
      → (acquire w.limits site wire_bytes s).1 ≡ none
      → IsSameLoad (release site wire_bytes (acquire w.limits site wire_bytes s).0) s
  release-acquire site wire_bytes s sized h =
      let (t, n, p, e) = acquire-entered w.limits site wire_bytes s h in
      let charge : InflightWire = record {
        total_bytes = add_size s.total_bytes wire_bytes;
        by_peer = insert site (charged wire_bytes (peer_state site s.by_peer)) s.by_peer;
      } in
      subst (λ x. IsSameLoad (release site wire_bytes x) s) (sym e)
        (
          ground (arith, release_total site wire_bytes charge, t, sized.0),
          (λ k. ground (
            arith,
            peer_state-release k site wire_bytes charge,
            peer_state-insert k site (charged wire_bytes (peer_state site s.by_peer)) s.by_peer,
            key_eq-eq site k,
            n,
            sized.2,
          )),
          (λ k. ground (
            arith,
            peer_state-release k site wire_bytes charge,
            peer_state-insert k site (charged wire_bytes (peer_state site s.by_peer)) s.by_peer,
            key_eq-eq site k,
            p,
            sized.1,
          )),
        )

  -- One record, of the result that is given back.
  abbrev pub IsRecorded : IngressState D → Bytes → IngressState D × Rows × WireResult → Type 0
  IsRecorded s bytes end =
      (r : IngressResult WireError) × (end.0.telemetry
        ≡ record_peer_ingress_result w.doubles req.remote_handshake.site_id r s.telemetry)
      × (r.success ≡ end.2.success)
      × (r.error ≡ end.2.error)
      × (r.applied_up_to ≡ end.2.applied_up_to_seq)
      × (r.wire_bytes ≡ length bytes)
      × (r.last_recv_seq ≡ req.remote_handshake.last_recv_seq_from_peer)

  -- The state after a call: nothing in flight but what was, and one record.
  abbrev pub IsSettled : IngressState D → Bytes → IngressState D × Rows × WireResult → Type 0
  IsSettled s bytes end =
      (end.0.inflight ≡ s.inflight) × IsSameLoad end.0.budget s.budget × IsRecorded s bytes end

  outcome-IsRecorded :
      (s s' : IngressState D) (bytes : Bytes) (rows : Rows) (latency : Option ℕ)
      (reason : PeerIngressRejectionReason) (result : WireResult)
      → s'.telemetry ≡ s.telemetry
      → IsRecorded s bytes (outcome w req times s' rows (length bytes) latency reason result)
  unfolding outcome
  outcome-IsRecorded s s' bytes rows latency reason result same = (
    _,
    ap (record_peer_ingress_result w.doubles req.remote_handshake.site_id _) same,
    refl,
    refl,
    refl,
    refl,
    refl,
  )

  unguarded-IsSettled :
      (s : IngressState D) (bytes : Bytes) (rows : Rows) (reason : PeerIngressRejectionReason)
      (err : WireError)
      → IsSettled s bytes (outcome w req times s rows (length bytes) none reason (rejection err))
  unfolding outcome
  unguarded-IsSettled s bytes rows reason err = (
    refl,
    (refl, (λ k. refl), (λ k. refl)),
    outcome-IsRecorded s s bytes rows none reason (rejection err) refl,
  )

  leave-IsSettled :
      (s : IngressState D) (bytes : Bytes) (end : IngressState D × Rows × WireResult)
      → IsSized w.limits
      → (acquire w.limits req.remote_handshake.site_id (length bytes) s.budget).1 ≡ none
      → IsOutcome w req times (entered_state w req times s bytes) (length bytes) end
      → IsSettled s bytes (leave w req times (length bytes) end)
  unfolding outcome
  leave-IsSettled s bytes end sized entered
        (s', rows, latency, reason, result, e, same, count, budget) =
      subst (λ x. IsSettled s bytes (leave w req times (length bytes) x)) (sym e)
        (
          omega (arith, count),
          subst (λ x. IsSameLoad (release req.remote_handshake.site_id (length bytes) x) s.budget)
              (sym budget)
              (release-acquire req.remote_handshake.site_id (length bytes) s.budget sized entered),
          outcome-IsRecorded s s' bytes rows latency reason result same,
        )

  seen-IsSameLoad :
      (site wire_bytes : ℕ) (err : BudgetError) (s : InflightWire)
      → (acquire w.limits site wire_bytes s).1 ≡ some err
      → IsSameLoad (acquire w.limits site wire_bytes s).0 s
  seen-IsSameLoad site wire_bytes err s h =
      subst (λ x. IsSameLoad x s) (sym (acquire-refused w.limits site wire_bytes err s h))
        (
          refl,
          (λ k. ground (arith, peer_state-insert_self k site s.by_peer)),
          (λ k. ground (arith, peer_state-insert_self k site s.by_peer)),
        )

  over-IsSettled :
      (s : IngressState D) (bytes : Bytes) (rows : Rows) (err : BudgetError)
      → (acquire w.limits req.remote_handshake.site_id (length bytes) s.budget).1 ≡ some err
      → IsSettled s bytes (
          leave_count w req times (
            outcome w req times
              (entered_state w req times s bytes)
              rows
              (length bytes)
              none
              inflight_wire_budget
              (rejection (over_budget err))))
  unfolding outcome
  over-IsSettled s bytes rows err over = (
    omega arith,
    seen-IsSameLoad req.remote_handshake.site_id (length bytes) err s.budget over,
    outcome-IsRecorded s (entered_state w req times s bytes) bytes rows none inflight_wire_budget
        (rejection (over_budget err)) refl,
  )

  -- However a call ends, with limits that std::size_t holds: no guard stays behind, so that the
  -- batches in flight, the bytes and those of each peer are as before; and the telemetry has one
  -- record more, of the result that is given back.
  pub apply_wire_batch-IsSettled :
      (s : IngressState D) (rows : Rows) (bytes : Bytes)
      → IsSized w.limits
      → IsSettled s bytes (apply_wire_batch w req times s rows bytes)
  unfolding apply_wire_batch
  apply_wire_batch-IsSettled s rows bytes sized =
      let (budget, refusal) =
        acquire w.limits req.remote_handshake.site_id (length bytes) s.budget in
      elim (Bool-cases (ltb w.limits.max_wire_batch_bytes (length bytes))) [
        | inl large ↦
            subst (IsSettled s bytes) (sym (apply_wire_batch_large w req times s rows bytes large))
              (unguarded-IsSettled s bytes rows batch_too_large (too_large (length bytes)))
        | inr small ↦ elim (Bool-cases (ltb s.inflight w.limits.max_inflight_wire_batches)) [
          | inr full ↦
              subst (IsSettled s bytes)
                (sym (apply_wire_batch_full w req times s rows bytes small full))
                (unguarded-IsSettled s bytes rows backpressure too_many_batches)
          | inl room ↦ elim (Option-cases refusal) [
            | inr (err, over) ↦
                subst (IsSettled s bytes)
                  (sym (apply_wire_batch_over w req times s rows bytes err small room over))
                  (over-IsSettled s bytes rows err over)
            | inl entered ↦
                subst (IsSettled s bytes)
                  (sym (apply_wire_batch_entered w req times s rows bytes small room entered))
                  (leave-IsSettled s bytes
                    (apply_validated w req times (entered_state w req times s bytes) rows bytes)
                    sized entered
                    (apply_validated-IsOutcome w req times (entered_state w req times s bytes) rows
                      bytes))
          ]
        ]
      ]
