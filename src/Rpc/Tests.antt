-- ===== src/Rpc/Tests.antt =====
-- Runs of the framed channel (native/sync/src/transport/rpc_channel.cpp) at concrete buffers.
use tightrope.Prelude.{
  ℕ, ◌+◌, ◌≤◌, ◌<◌, ◌≡◌, refl, ◌⊎◌, Bool, true, false, ◌&&◌, [], ◌∷◌, ◌++◌, some, arith,
}
use tightrope.Wire.{Bytes, AreBytes, write_le, read_le}
use tightrope.Rpc.Frame.{RpcFrame, encode, try_decode, try_decode-encode}
use tightrope.Rpc.Queue.{
  Limits, IngressQueue, ingest, pop, drain_round, drain, drain_decoded_frames, enqueue,
  should_pause_reads, should_resume_reads, clamp_limits,
}
use tightrope.Rpc.Queue.Exits.{Waits, IsOversize, ingest-exits}
use tightrope.Rpc.Queue.Stream.{pending, ingest-pending}
use tightrope.Rpc.Queue.Bounds.{
  IsBounded, IsRoomy, ingest-IsBounded, pop-IsBounded, budget_overrun, pause_and_resume,
  payload_sum,
}

abbrev hello : RpcFrame
hello = record { channel = 2; payload = 7 ∷ 8 ∷ [] }

abbrev hello_bytes : Bytes
hello_bytes = 2 ∷ 0 ∷ 2 ∷ 0 ∷ 0 ∷ 0 ∷ 7 ∷ 8 ∷ []

hello_encoded : encode hello ≡ hello_bytes
unfolding encode write_le
hello_encoded = refl

hello_decoded : try_decode (hello_bytes ++ 9 ∷ []) ≡ some (hello, 9 ∷ [])
unfolding try_decode read_le
hello_decoded = refl

try_decode-encode_example : try_decode (encode hello ++ 9 ∷ []) ≡ some (hello, 9 ∷ [])
try_decode-encode_example = try_decode-encode hello (9 ∷ []) (omega arith)

abbrev small : Limits
small = record {
  max_buffered_bytes = 64;
  pause_buffered_bytes = 32;
  resume_buffered_bytes = 16;
  max_queued_frames = 4;
  max_queued_payload_bytes = 20;
  max_frame_payload_bytes = 10;
}

abbrev idle : IngressQueue
idle = record { limits = small; input_buffer = []; queue = []; queued_payload_bytes = 0 }

abbrev holding : IngressQueue
holding = record idle { queue = hello ∷ []; queued_payload_bytes = 2 }

idle-ingest : ingest idle hello_bytes ≡ some (holding, true)
unfolding ingest drain_decoded_frames drain drain_round try_decode read_le
idle-ingest = refl

idle-IsBounded : IsBounded idle
unfolding payload_sum
idle-IsBounded = omega arith

small-IsRoomy : IsRoomy small
small-IsRoomy = omega arith

ingest-exits_example :
    (q' : IngressQueue) × (ok : Bool) × (ingest idle hello_bytes ≡ some (q', ok))
    × (((q' ≡ idle) × (ok ≡ false) × (idle.max_buffered_bytes < 0 + 8))
        ⊎ ((pending q' ≡ pending idle ++ hello_bytes)
            × (q'.limits ≡ idle.limits)
            × ((◌≡◌ {A = ℕ} 8 0) ⊎ (0 + 8 ≤ idle.max_buffered_bytes))
            × (((ok ≡ true) × Waits q') ⊎ ((ok ≡ false) × IsOversize q'))))
ingest-exits_example = ingest-exits idle hello_bytes tt (omega arith) (omega arith)

ingest-pending_example :
    (q' : IngressQueue) × (ok : Bool) × (ingest idle hello_bytes ≡ some (q', ok))
    × (((pending q' ≡ pending idle ++ hello_bytes) × AreBytes q'.input_buffer)
        ⊎ ((q' ≡ idle) × (ok ≡ false)))
ingest-pending_example = ingest-pending idle hello_bytes tt (omega arith)

ingest-IsBounded_example : IsBounded holding
ingest-IsBounded_example =
    ingest-IsBounded idle holding hello_bytes true small-IsRoomy idle-IsBounded idle-ingest

holding-pop : pop holding ≡ some (some hello, idle)
unfolding pop drain_decoded_frames drain drain_round
holding-pop = refl

pop-IsBounded_example : IsBounded idle
pop-IsBounded_example =
    pop-IsBounded holding idle (some hello) small-IsRoomy ingest-IsBounded_lem holding-pop
  where
    ingest-IsBounded_lem : IsBounded holding
    ingest-IsBounded_lem = unfold payload_sum in omega arith

-- Frames of up to 10 bytes under a budget of 1 queued byte.
abbrev tight : IngressQueue
tight = record {
  limits = record small { max_queued_payload_bytes = 1 };
  input_buffer = hello_bytes;
  queue = [];
  queued_payload_bytes = 0;
}

tight_decoded : try_decode tight.input_buffer ≡ some (hello, [])
unfolding try_decode read_le
tight_decoded = refl

budget_overrun_example : 1 < (enqueue tight hello []).queued_payload_bytes
budget_overrun_example =
    (budget_overrun tight hello [] tight_decoded (omega arith) (omega arith) (omega arith)
      (omega arith) (omega arith)).1

small_clamped : idle.limits ≡ clamp_limits small
unfolding clamp_limits
small_clamped = refl

pause_and_resume_example : should_pause_reads idle && should_resume_reads idle ≡ false
pause_and_resume_example = (pause_and_resume small idle small_clamped (omega arith)).3
