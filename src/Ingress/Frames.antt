-- ===== src/Ingress/Frames.antt =====
-- What one frame does in native/sync/src/transport/replication_ingress.cpp.
use tightrope.Prelude.{
  ℕ, suc, ◌≡◌, ◌⊎◌, refl, sym, subst, ◌∙◌, true, false, ◌==◌, List, [], ◌∷◌, none, some, length,
  arith, inl, inr, Bool-cases, Option-cases,
}
use tightrope.Wire.{Bytes}
use tightrope.Rpc.Frame.{RpcFrame}
use tightrope.Rpc.Queue.{IngressQueue, pop_front, drain_decoded_frames}
use tightrope.Rpc.Queue.Settled.{drain-settles}
use tightrope.Rpc.Queue
use tightrope.Protocol.Handshake.{
  accepted, negotiated, decode_handshake, validate_handshake_auth,
  validate_handshake_schema_version,
}
use tightrope.Engine.Telemetry.{handshake_auth, handshake_schema, ingress_protocol}
use tightrope.Engine.Wire.{
  ApplyWireBatchRequest, auth_rejected, schema_rejected, unexpected_before_handshake,
  unexpected_channel, invalid_handshake, Times, Surroundings, apply_wire_batch,
}
use tightrope.Engine.Wire.Steps.{AuthResult-cases, SchemaResult-cases}
use tightrope.Engine.Wire.Outcome.{apply_wire_batch-IsLetIn}
use tightrope.Ingress.{
  Node, FrameResult, failed, handshaken, ignored, applied, note_rejection, on_handshake,
  with_handshake, of_wire, on_frame,
}

frames-cases :
    (fs : List RpcFrame) → (fs ≡ []) ⊎ ((f : RpcFrame) × (rest : List RpcFrame) × (fs ≡ f ∷ rest))
frames-cases [] = inl refl
frames-cases (f ∷ rest) = inr (f, rest, refl)

-- pop never runs out of fuel.
pub pop-settles :
    (q : IngressQueue)
    → (Queue.pop q ≡ some (none, q))
      ⊎ ((frame : RpcFrame) × (q' : IngressQueue) × (Queue.pop q ≡ some (some frame, q')))
unfolding Queue.pop drain_decoded_frames
pop-settles q = elim (frames-cases q.queue) [
  | inl nothing ↦ inl (rw nothing refl)
  | inr (frame, rest, queued) ↦
      let (q', ok, run, settled) =
        drain-settles (suc (length (pop_front q frame rest).input_buffer)) (pop_front q frame rest)
          (omega arith) in
      inr (frame, q', ground (arith, queued, run))
]

module _ {D : Type 0} (w : Surroundings D) where
  -- A request whose handshake has been checked.
  abbrev pub IsAuthentic : ApplyWireBatchRequest → Type 0
  IsAuthentic r =
      (validate_handshake_auth w.sodium r.remote_handshake r.cluster_shared_secret
          r.require_handshake_auth
        ≡ accepted)
      × ((version : ℕ) × (validate_handshake_schema_version r.remote_handshake
              r.local_schema_version r.allow_schema_downgrade r.min_supported_schema_version
            ≡ negotiated version))

  -- What holds after a frame, by what the frame came to.
  abbrev pub Holds : Node D → FrameResult D → Type 0
  Holds n (failed after err) =
      (after.rows ≡ n.rows)
      × (after.session.handshake_complete ≡ n.session.handshake_complete)
      × (n.session.handshake_complete ≡ true → after.session.request ≡ n.session.request)
      × (after.session.config ≡ n.session.config)
  Holds n (handshaken after) =
      (n.session.handshake_complete ≡ false)
      × (after.session.handshake_complete ≡ true)
      × (after.rows ≡ n.rows)
      × IsAuthentic after.session.request
      × (after.session.config ≡ n.session.config)
  Holds n (ignored after) = after ≡ n
  Holds n (applied after entries) =
      (n.session.handshake_complete ≡ true) × (after.session ≡ n.session)

  of_wire-Holds :
      (times : Times) (n : Node D) (bytes : Bytes)
      → n.session.handshake_complete ≡ true
      → Holds n (of_wire w n (apply_wire_batch w n.session.request times n.shared n.rows bytes))
  of_wire-Holds times n bytes complete =
      elim (apply_wire_batch-IsLetIn w n.session.request times n.shared n.rows bytes) [
        | inl (ok, let_in) ↦ rw ok (complete, refl)
        | inr (bad, some_error, kept) ↦ rw bad (kept, refl, (λ h. refl), refl)
      ]

  on_handshake-Holds :
      (times : Times) (n before : Node D) (bytes : ℕ)
      → before.session.handshake_complete ≡ false
      → n.session.handshake_complete ≡ false
      → n.rows ≡ before.rows
      → n.session.config ≡ before.session.config
      → Holds before (on_handshake w times n bytes)
  unfolding on_handshake note_rejection
  on_handshake-Holds times n before bytes early waits rows config =
      let r : ApplyWireBatchRequest = n.session.request in
      elim (AuthResult-cases (
        validate_handshake_auth w.sodium r.remote_handshake r.cluster_shared_secret
          r.require_handshake_auth)) [
            | inr (err, bad) ↦
                let e : on_handshake w times n bytes
                    ≡ failed (note_rejection w times n bytes handshake_auth (auth_rejected err))
                        (some (auth_rejected err)) =
                  ground (arith, bad) in
                subst (Holds before) (sym e)
                  (rows, waits ∙ sym early, (λ h. absurd (ground (arith, h, early))), config)
            | inl authentic ↦
                elim (SchemaResult-cases (
                  validate_handshake_schema_version r.remote_handshake r.local_schema_version
                    r.allow_schema_downgrade r.min_supported_schema_version)) [
                      | inr (err, bad) ↦
                          let e : on_handshake w times n bytes
                              ≡ failed
                                  (note_rejection w times n bytes handshake_schema
                                    (schema_rejected err))
                                  (some (schema_rejected err)) =
                            ground (arith, authentic, bad) in
                          subst (Holds before) (sym e) (
                            rows,
                            waits ∙ sym early,
                            (λ h. absurd (ground (arith, h, early))),
                            config,
                          )
                      | inl (version, agreed) ↦
                          let e : on_handshake w times n bytes
                              ≡ handshaken (record n {
                                session = record n.session { handshake_complete = true };
                              }) =
                            ground (arith, authentic, agreed) in
                          subst (Holds before) (sym e)
                            (early, refl, rows, (authentic, (version, agreed)), config)
                    ]
          ]

  -- A frame keeps the configuration, takes back no handshake, changes the journal only behind one,
  -- and completes one only if it is checked.
  pub on_frame-Holds :
      (times : Times) (n : Node D) (frame : RpcFrame) → Holds n (on_frame w times n frame)
  unfolding on_frame
  on_frame-Holds times n frame = elim (Bool-cases n.session.handshake_complete) [
    | inr early ↦ elim (Bool-cases (frame.channel == n.session.config.handshake_channel)) [
      | inr other ↦
          let e : on_frame w times n frame
              ≡ failed n (some (unexpected_before_handshake frame.channel)) =
            ground (arith, early, other) in
          subst (Holds n) (sym e) (refl, refl, (λ h. refl), refl)
      | inl expected ↦ elim (Option-cases (decode_handshake frame.payload)) [
        | inl bad ↦
            let e : on_frame w times n frame ≡ failed n (some invalid_handshake) =
              ground (arith, early, expected, bad) in
            subst (Holds n) (sym e) (refl, refl, (λ h. refl), refl)
        | inr (remote, decoded) ↦
            let e : on_frame w times n frame
                ≡ on_handshake w times (with_handshake w n remote) (length frame.payload) =
              ground (arith, early, expected, decoded) in
            subst (Holds n) (sym e) (
              on_handshake-Holds times (with_handshake w n remote) n (length frame.payload) early
                early refl refl)
      ]
    ]
    | inl complete ↦ elim (Bool-cases (frame.channel == n.session.config.replication_channel)) [
      | inl expected ↦
          let e : on_frame w times n frame
              ≡ of_wire w n
                  (apply_wire_batch w n.session.request times n.shared n.rows frame.payload) =
            ground (arith, complete, expected) in
          subst (Holds n) (sym e) (of_wire-Holds times n frame.payload complete)
      | inr other ↦ elim (Bool-cases n.session.config.reject_unknown_channels) [
        | inl rejects ↦
            let e : on_frame w times n frame
                ≡ failed
                    (note_rejection w times n (length frame.payload) ingress_protocol
                      (unexpected_channel frame.channel))
                    (some (unexpected_channel frame.channel)) =
              ground (arith, complete, other, rejects) in
            subst (Holds n) (sym e) (unfold note_rejection in (refl, refl, (λ h. refl), refl))
        | inr ignores ↦
            let e : on_frame w times n frame ≡ ignored n =
              ground (arith, complete, other, ignores) in
            subst (Holds n) (sym e) refl
      ]
    ]
  ]
