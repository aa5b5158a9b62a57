-- ===== src/Ingress/Tests.antt =====
-- Runs of a session (native/sync/src/transport/replication_ingress.cpp) with the toys of the engine.
use tightrope.Prelude.{
  ℕ, ◌≤◌, ◌≡◌, ◌⊎◌, refl, ◌==◌, if◌then◌else◌, true, false, [], ◌∷◌, List, some,
}
use tightrope.Wire.{Bytes}
use tightrope.Protocol.Handshake.{encode_handshake}
use tightrope.Rpc.Frame.{encode}
use tightrope.Rpc.Queue.{Limits, init}
use tightrope.Engine.Wire.Tests.{request, surroundings, state, times}
use tightrope.Ingress.{
  drain, ReplicationIngressOutcome, ReplicationIngressConfig, Node, new_session,
}
use tightrope.Ingress.Frames.{IsAuthentic}
use tightrope.Ingress.Trust.{IsTallied}
use tightrope.Ingress.Stream.{drain-IsTallied, receive, receive-IsTrusted}

abbrev limits : Limits
limits = record {
  max_buffered_bytes = 1000;
  pause_buffered_bytes = 800;
  resume_buffered_bytes = 400;
  max_queued_frames = 10;
  max_queued_payload_bytes = 1000;
  max_frame_payload_bytes = 500;
}

abbrev config : ReplicationIngressConfig
config = record {
  rpc_limits = limits;
  handshake_channel = 1;
  replication_channel = 2;
  require_initial_handshake = true;
  reject_unknown_channels = false;
  max_frames_per_ingest = 4;
}

-- The handshake, and a part of a frame.
abbrev pieces : List Bytes
pieces =
    encode (record { channel = 1; payload = encode_handshake request.remote_handshake })
    ∷ (2 ∷ 0 ∷ 5 ∷ [])
    ∷ []

receive-IsTrusted_example :
    (n : Node ℕ) × (receive surroundings
        (λ k. times)
        pieces
        (record { session = new_session request config; shared = state; rows = [] })
      ≡ some n)
    × ((n.rows ≡ [])
        ⊎ ((n.session.handshake_complete ≡ true) × IsAuthentic surroundings n.session.request))
receive-IsTrusted_example =
    receive-IsTrusted surroundings (λ k. times) request config state [] pieces refl

-- A session with a handshake in its queue.
abbrev waiting : Node ℕ
waiting = record {
  session = record (new_session request config) {
    ingress_queue = record (init limits) {
      queue = record { channel = 1; payload = encode_handshake request.remote_handshake } ∷ [];
      queued_payload_bytes = 16;
    };
  };
  shared = state;
  rows = [];
}

drain-IsTallied_example :
    (n : Node ℕ) × (out : ReplicationIngressOutcome) × (drain surroundings (λ k. times) waiting
      ≡ some (n, out))
    × IsTallied out
    × (out.consumed_frames
        ≤ (if config.max_frames_per_ingest == 0 then 1 else config.max_frames_per_ingest))
    × (out.handshake_complete ≡ n.session.handshake_complete)
unfolding new_session
drain-IsTallied_example = drain-IsTallied surroundings (λ k. times) waiting
