-- ===== src/Ingress/Stream.antt =====
-- A whole session of native/sync/src/transport/replication_ingress.cpp: bytes in any pieces, from the
-- constructor on.
use tightrope.Prelude.{
  ℕ, ◌≤◌, ◌≡◌, ◌⊎◌, refl, ap, ◌∙◌, true, false, if◌then◌else◌, ◌==◌, List, [], ◌∷◌, Option, none,
  some, length, arith, inl, inr, Bool-cases,
}
use tightrope.Wire.{Bytes}
use tightrope.Rpc.Queue.Settled.{ingest-settles}
use tightrope.Engine.Store.{Rows}
use tightrope.Engine.Wire.{ApplyWireBatchRequest, bad_stream, IngressState, Times, Surroundings}
use tightrope.Ingress.{
  ReplicationIngressConfig, ReplicationIngressOutcome, Node, new_session, no_outcome, with_session,
  note_rejection, with_queue, consume_frames, on_bad_stream, ingest, drain,
}
use tightrope.Ingress.Frames.{IsAuthentic}
use tightrope.Ingress.Trust.{
  IsTallied, Follows, Follows-refl, Follows-trans, with_queue-Follows, consume-Consumes,
}

module _ {D : Type 0} (w : Surroundings D) where
  -- Pieces of the stream, one call of ingest for each.
  unfoldable pub receive : (ℕ → Times) → List Bytes → Node D → Option (Node D)
  receive times [] n = some n
  receive times (bytes ∷ more) n = elim (ingest w times n bytes) [
    | none ↦ none
    | some (n', outcome) ↦ receive times more n'
  ]

  on_bad_stream-Follows :
      (times : Times) (n : Node D) (bytes : ℕ) → Follows w n (on_bad_stream w times n bytes)
  unfolding note_rejection
  on_bad_stream-Follows times n bytes =
      elim (Bool-cases (n.session.request.remote_handshake.site_id == 0)) [
        | inl unnamed ↦ rw unnamed (Follows-refl w n)
        | inr named ↦
            rw named
              (record { trusted = λ t. t; complete = λ c. c; untouched = λ u. refl; config = refl })
      ]

  -- drain always ends, and takes at most the configured number of frames, or one if that is 0; each
  -- frame that it takes is counted once, as ignored, as an applied batch, as the handshake or as the
  -- one that failed.
  pub drain-IsTallied :
      (times : ℕ → Times) (n : Node D)
      → (n' : Node D) × (out : ReplicationIngressOutcome) × (drain w times n ≡ some (n', out))
        × IsTallied out
        × (out.consumed_frames ≤ (
            if n.session.config.max_frames_per_ingest == 0
            then 1
            else n.session.config.max_frames_per_ingest))
        × (out.handshake_complete ≡ n'.session.handshake_complete)
  unfolding drain consume_frames
  drain-IsTallied times n =
      let budget : ℕ = n.session.config.max_frames_per_ingest in
      let (n', out, e, follows, tally, count, complete) =
        consume-Consumes w times (if budget == 0 then 1 else budget) n no_outcome
          (refl, refl, λ h. cc) in
      (n', out, e, tally, omega (arith, count), complete)

  ingest-Follows :
      (times : ℕ → Times) (n : Node D) (bytes : Bytes)
      → (n' : Node D) × (out : ReplicationIngressOutcome) × (ingest w times n bytes
          ≡ some (n', out))
        × Follows w n n'
  unfolding ingest consume_frames
  ingest-Follows times n bytes =
      let (q, ok, taken, settled) = ingest-settles n.session.ingress_queue bytes in
      elim (Bool-cases ok) [
        | inl good ↦
            let budget : ℕ = n.session.config.max_frames_per_ingest in
            let (n', out, e, follows, tally, count, complete) =
              consume-Consumes w times (if budget == 0 then 1 else budget) (with_queue w n q)
                no_outcome (refl, refl, λ h. cc) in
            (
              n',
              out,
              ground (arith, taken, good, e),
              Follows-trans w n (with_queue w n q) n' (with_queue-Follows w n q) follows,
            )
        | inr bad ↦
            let after : Node D = on_bad_stream w (times 0) (with_queue w n q) (length bytes) in
            (
              after,
              with_session after.session
                  (record no_outcome { ok = false; error = some bad_stream }),
              ground (arith, taken, bad),
              Follows-trans w n (with_queue w n q) after (with_queue-Follows w n q)
                  (on_bad_stream-Follows (times 0) (with_queue w n q) (length bytes)),
            )
      ]

  receive-Follows :
      (times : ℕ → Times) (pieces : List Bytes) (n : Node D)
      → (n' : Node D) × (receive times pieces n ≡ some n') × Follows w n n'
  unfolding receive
  receive-Follows times [] n = (n, refl, Follows-refl w n)
  receive-Follows times (bytes ∷ more) n =
      let (mid, out, e, follows) = ingest-Follows times n bytes in
      let (n', rest, after) = receive-Follows times more mid in
      (n', ground (arith, e, rest), Follows-trans w n mid n' follows after)

  -- Whatever bytes a peer sends to a new session, in whatever pieces: every call ends, and if the
  -- session requires a handshake, then the journal is as it was, or a handshake is complete whose
  -- signature and schema version have been accepted.
  pub receive-IsTrusted :
      (times : ℕ → Times) (request : ApplyWireBatchRequest) (config : ReplicationIngressConfig)
      (shared : IngressState D) (rows : Rows) (pieces : List Bytes)
      → config.require_initial_handshake ≡ true
      → (n : Node D) × (receive times pieces
            (record { session = new_session request config; shared = shared; rows = rows })
          ≡ some n)
        × ((n.rows ≡ rows)
            ⊎ ((n.session.handshake_complete ≡ true) × IsAuthentic w n.session.request))
  unfolding new_session
  receive-IsTrusted times request config shared rows pieces required =
      let start : Node D = record {
        session = new_session request config;
        shared = shared;
        rows = rows;
      } in
      let (n, e, follows) = receive-Follows times pieces start in
      (
        n,
        e,
        elim (Bool-cases n.session.handshake_complete) [
          | inl complete ↦ inr (
            complete,
            follows.trusted (λ r done. absurd (ground (arith, required, done)))
                (ap (λ c. c.require_initial_handshake) follows.config ∙ required) complete,
          )
          | inr waits ↦ inl (follows.untouched waits)
        ],
      )
