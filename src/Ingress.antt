-- ===== src/Ingress.antt =====
-- ReplicationIngressSession of native/sync/src/transport/replication_ingress.cpp: frames from a peer
-- go through the handshake to the sync engine. The events that it emits are left out.
pub mod Frames
pub mod Trust
pub mod Stream
mod Tests
use tightrope.Prelude.{
  ℕ, zero, suc, ◌+◌, Bool, true, false, not, if◌then◌else◌, ◌==◌, List, [], ◌∷◌, Option, none, some,
  length,
}
use tightrope.Wire.{Bytes}
use tightrope.Rpc.Frame.{RpcFrame}
use tightrope.Rpc.Queue.{IngressQueue, Limits, init, should_pause_reads, should_resume_reads}
use tightrope.Rpc.Queue
use tightrope.Protocol.Handshake.{
  HandshakeFrame, AuthResult, accepted, rejected, SchemaResult, negotiated, incompatible,
  decode_handshake, validate_handshake_auth, validate_handshake_schema_version,
}
use tightrope.Engine.Store.{Rows}
use tightrope.Engine.Telemetry.{
  PeerIngressRejectionReason, handshake_auth, handshake_schema, ingress_protocol,
  record_peer_ingress_rejection,
}
use tightrope.Engine.Wire.{
  ApplyWireBatchRequest, WireError, auth_rejected, schema_rejected, unexpected_before_handshake,
  unexpected_channel, invalid_handshake, bad_stream, WireResult, IngressState, Times, Surroundings,
  apply_wire_batch,
}

pub record ReplicationIngressConfig : Type 0 where
  pub rpc_limits : Limits
  pub handshake_channel : ℕ
  pub replication_channel : ℕ
  pub require_initial_handshake : Bool
  pub reject_unknown_channels : Bool
  pub max_frames_per_ingest : ℕ

pub record ReplicationIngressOutcome : Type 0 where
  pub ok : Bool
  pub error : Option WireError
  pub handshake_complete : Bool
  pub handshake_accepted : Bool
  pub consumed_frames : ℕ
  pub ignored_frames : ℕ
  pub applied_batches : ℕ
  pub applied_entries : ℕ
  pub pause_reads : Bool
  pub resume_reads : Bool

pub record Session : Type 0 where
  pub request : ApplyWireBatchRequest
  pub config : ReplicationIngressConfig
  pub ingress_queue : IngressQueue
  pub handshake_complete : Bool

-- A session with what it shares with others: the engine's variables and the journal.
pub record Node (D : Type 0) : Type 0 where
  pub session : Session
  pub shared : IngressState D
  pub rows : Rows

-- The constructor of the class.
unfoldable pub new_session : ApplyWireBatchRequest → ReplicationIngressConfig → Session
new_session request config = record {
  request = request;
  config = config;
  ingress_queue = init config.rpc_limits;
  handshake_complete = not config.require_initial_handshake;
}

abbrev pub no_outcome : ReplicationIngressOutcome
no_outcome = record {
  ok = true;
  error = none;
  handshake_complete = false;
  handshake_accepted = false;
  consumed_frames = 0;
  ignored_frames = 0;
  applied_batches = 0;
  applied_entries = 0;
  pause_reads = false;
  resume_reads = false;
}

-- The three fields that every return sets.
unfoldable pub with_session : Session → ReplicationIngressOutcome → ReplicationIngressOutcome
with_session s outcome = record outcome {
  handshake_complete = s.handshake_complete;
  pause_reads = should_pause_reads s.ingress_queue;
  resume_reads = should_resume_reads s.ingress_queue;
}

-- What a frame comes to: an error ends the call, else the loop goes on.
pub data FrameResult (D : Type 0) : Type 0 where
  failed : Node D → Option WireError → FrameResult D
  handshaken : Node D → FrameResult D
  ignored : Node D → FrameResult D
  applied : Node D → ℕ → FrameResult D

module _ {D : Type 0} (w : Surroundings D) where
  unfoldable pub note_rejection :
      Times → Node D → ℕ → PeerIngressRejectionReason → WireError → Node D
  note_rejection times n bytes reason err = record n {
    shared = record n.shared {
      telemetry =
          record_peer_ingress_rejection w.doubles times.recorded_ms
            n.session.request.remote_handshake.site_id bytes reason (some err) n.shared.telemetry;
    };
  }

  -- With the frame's handshake in the request.
  unfoldable pub on_handshake : Times → Node D → ℕ → FrameResult D
  unfolding note_rejection
  on_handshake times n bytes =
      let r = n.session.request in
      elim (validate_handshake_auth w.sodium r.remote_handshake r.cluster_shared_secret
        r.require_handshake_auth) [
          | rejected err ↦
              failed (note_rejection times n bytes handshake_auth (auth_rejected err))
                (some (auth_rejected err))
          | accepted ↦
              elim (validate_handshake_schema_version r.remote_handshake r.local_schema_version
                r.allow_schema_downgrade r.min_supported_schema_version) [
                  | incompatible err ↦
                      failed (note_rejection times n bytes handshake_schema (schema_rejected err))
                        (some (schema_rejected err))
                  | negotiated version ↦
                      handshaken
                        (record n { session = record n.session { handshake_complete = true } })
                ]
        ]

  abbrev pub with_handshake : Node D → HandshakeFrame → Node D
  with_handshake n frame = record n {
    session = record n.session { request = record n.session.request { remote_handshake = frame } };
  }

  abbrev pub of_wire : Node D → IngressState D × Rows × WireResult → FrameResult D
  of_wire n (shared, rows, result) =
      let after : Node D = record n { shared = shared; rows = rows } in
      if result.success then applied after result.applied_count else failed after result.error

  unfoldable pub on_frame : Times → Node D → RpcFrame → FrameResult D
  unfolding on_handshake note_rejection
  on_frame times n frame =
      let config = n.session.config in
      let size = length frame.payload in
      if not n.session.handshake_complete
      then (if not (frame.channel == config.handshake_channel)
          then failed n (some (unexpected_before_handshake frame.channel))
          else elim (decode_handshake frame.payload) [
            | none ↦ failed n (some invalid_handshake)
            | some remote ↦ on_handshake times (with_handshake n remote) size
          ])
      else if not (frame.channel == config.replication_channel)
      then (if config.reject_unknown_channels
          then failed
              (note_rejection times n size ingress_protocol (unexpected_channel frame.channel))
              (some (unexpected_channel frame.channel))
          else ignored n)
      else of_wire n (apply_wire_batch w n.session.request times n.shared n.rows frame.payload)

  abbrev pub counted : ReplicationIngressOutcome → ReplicationIngressOutcome
  counted outcome = record outcome { consumed_frames = outcome.consumed_frames + 1 }

  abbrev pub with_queue : Node D → IngressQueue → Node D
  with_queue n q = record n { session = record n.session { ingress_queue = q } }

  -- The loop, with the number of frames that may still be processed; `times` are the clocks by that
  -- number. `none` means that the fuel of a drain ran out.
  unfoldable pub consume :
      (ℕ → Times)
      → ℕ
      → Node D
      → ReplicationIngressOutcome
      → Option (Node D × ReplicationIngressOutcome)
  consume times zero n outcome = some (n, with_session n.session outcome)
  consume times (suc left) n outcome = elim (Queue.pop n.session.ingress_queue) [
    | none ↦ none
    | some (none, q) ↦ some (n, with_session n.session outcome)
    | some (some frame, q) ↦ elim (on_frame (times left) (with_queue n q) frame) [
      | failed after err ↦
          some (
            after,
            with_session after.session (record (counted outcome) { ok = false; error = err }),
          )
      | handshaken after ↦
          consume times left after (record (counted outcome) { handshake_accepted = true })
      | ignored after ↦
          consume times left after
            (record (counted outcome) { ignored_frames = outcome.ignored_frames + 1 })
      | applied after entries ↦ consume times left after (record (counted outcome) {
        applied_batches = outcome.applied_batches + 1;
        applied_entries = outcome.applied_entries + entries;
      })
    ]
  ]

  unfoldable pub consume_frames :
      (ℕ → Times) → Node D → ℕ → Option (Node D × ReplicationIngressOutcome)
  consume_frames times n frame_budget =
      consume times (if frame_budget == 0 then 1 else frame_budget) n no_outcome

  abbrev pub on_bad_stream : Times → Node D → ℕ → Node D
  on_bad_stream times n bytes =
      if n.session.request.remote_handshake.site_id == 0
      then n
      else note_rejection times n bytes ingress_protocol bad_stream

  unfoldable pub ingest : (ℕ → Times) → Node D → Bytes → Option (Node D × ReplicationIngressOutcome)
  unfolding note_rejection
  ingest times n bytes = elim (Queue.ingest n.session.ingress_queue bytes) [
    | none ↦ none
    | some (q, true) ↦ consume_frames times (with_queue n q) n.session.config.max_frames_per_ingest
    | some (q, false) ↦
        let after = on_bad_stream (times 0) (with_queue n q) (length bytes) in
        some (
          after,
          with_session after.session (record no_outcome { ok = false; error = some bad_stream }),
        )
  ]

  unfoldable pub drain : (ℕ → Times) → Node D → Option (Node D × ReplicationIngressOutcome)
  unfolding consume_frames
  drain times n = consume_frames times n n.session.config.max_frames_per_ingest
