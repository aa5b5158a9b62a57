-- ===== src/Rpc/Queue.antt =====
-- RpcIngressQueue of native/sync/src/transport/rpc_channel.cpp: bytes come in, whole frames are
-- queued within budgets. The loop of drain_decoded_frames takes fuel, one unit for each byte that
-- is buffered, and every round takes at least a header off the buffer. The error texts are left
-- out; a sum of sizes that are all in memory does not wrap.
pub mod Settled
pub mod Stream
pub mod Bounds
pub mod Exits
use tightrope.Prelude.{
  ℕ, zero, suc, ◌+◌, ◌-◌, ◌%◌, min, Bool, true, false, not, ◌&&◌, ◌||◌, if◌then◌else◌, ltb, leb,
  List, [], ◌∷◌, ◌++◌, Option, none, some, length, drop,
}
use tightrope.Wire.{Bytes, read_le}
use tightrope.Rpc.Frame.{RpcFrame, header_size, try_decode}

pub record Limits : Type 0 where
  pub max_buffered_bytes : ℕ
  pub pause_buffered_bytes : ℕ
  pub resume_buffered_bytes : ℕ
  pub max_queued_frames : ℕ
  pub max_queued_payload_bytes : ℕ
  pub max_frame_payload_bytes : ℕ

pub record IngressQueue : Type 0 where
  pub limits : Limits
  pub open limits use *
  pub input_buffer : Bytes
  pub queue : List RpcFrame
  pub queued_payload_bytes : ℕ

abbrev clamp_min : ℕ → ℕ → ℕ
clamp_min value least = if ltb value least then least else value

unfoldable pub clamp_limits : Limits → Limits
clamp_limits l =
    let buffered : ℕ = clamp_min l.max_buffered_bytes header_size in
    let pause : ℕ = min l.pause_buffered_bytes buffered in
    record {
      max_buffered_bytes = buffered;
      pause_buffered_bytes = pause;
      resume_buffered_bytes = min l.resume_buffered_bytes pause;
      max_queued_frames = clamp_min l.max_queued_frames 1;
      max_queued_payload_bytes = clamp_min l.max_queued_payload_bytes 1;
      max_frame_payload_bytes = clamp_min l.max_frame_payload_bytes 1;
    }

unfoldable pub init : Limits → IngressQueue
unfolding clamp_limits
init l = record { limits = clamp_limits l; input_buffer = []; queue = []; queued_payload_bytes = 0 }

abbrev pub u64_mod : ℕ
u64_mod = 18446744073709551616

-- a - b on size_t.
abbrev pub sub_size : ℕ → ℕ → ℕ
sub_size a b = (a + u64_mod - b) % u64_mod

-- The size field of the header at the front of the buffer.
unfoldable pub payload_size_at : Bytes → ℕ
payload_size_at buffer = elim (read_le 4 (drop 2 buffer)) [ none ↦ 0 | some (n, rest) ↦ n ]

-- What one round of the loop comes to: leave it with a result, or go on.
pub data Round : Type 0 where
  stop : Bool → Round
  again : IngressQueue → Round

unfoldable pub enqueue : IngressQueue → RpcFrame → Bytes → IngressQueue
enqueue q frame rest = record q {
  input_buffer = rest;
  queue = q.queue ++ frame ∷ [];
  queued_payload_bytes = q.queued_payload_bytes + length frame.payload;
}

unfoldable pub take_frame : IngressQueue → Option (RpcFrame × Bytes) → Round
unfolding enqueue
take_frame q none = stop true
take_frame q (some (frame, rest)) = again (enqueue q frame rest)

unfoldable pub drain_round : IngressQueue → Round
unfolding take_frame payload_size_at
drain_round q =
    let buffered = length q.input_buffer in
    let payload_size = payload_size_at q.input_buffer in
    if leb buffered 0
    then stop true
    else if leb q.max_queued_frames (length q.queue)
    then stop true
    else if ltb buffered header_size
    then stop true
    else if ltb q.max_frame_payload_bytes payload_size
    then stop false
    else if ltb q.max_buffered_bytes (header_size + payload_size)
    then stop false
    else if ltb buffered (header_size + payload_size)
    then stop true
    else if ltb (sub_size q.max_queued_payload_bytes payload_size) q.queued_payload_bytes
    then stop true
    else take_frame q (try_decode q.input_buffer)

-- `none` means that the fuel ran out.
unfoldable pub drain : ℕ → IngressQueue → Option (IngressQueue × Bool)
drain zero q = none
drain (suc fuel) q = elim (drain_round q) [ stop ok ↦ some (q, ok) | again q' ↦ drain fuel q' ]

unfoldable pub drain_decoded_frames : IngressQueue → Option (IngressQueue × Bool)
drain_decoded_frames q = drain (suc (length q.input_buffer)) q

unfoldable pub ingest : IngressQueue → Bytes → Option (IngressQueue × Bool)
ingest q bytes =
    if ltb (q.max_buffered_bytes - min (length q.input_buffer) q.max_buffered_bytes) (length bytes)
    then some (q, false)
    else drain_decoded_frames (record q { input_buffer = q.input_buffer ++ bytes })

unfoldable pub pop_front : IngressQueue → RpcFrame → List RpcFrame → IngressQueue
pop_front q frame rest = record q {
  queue = rest;
  queued_payload_bytes =
      if leb (length frame.payload) q.queued_payload_bytes
      then q.queued_payload_bytes - length frame.payload
      else 0;
}

-- The frame, and the queue after it; the result of the drain is not looked at.
unfoldable pub pop : IngressQueue → Option (Option RpcFrame × IngressQueue)
unfolding pop_front
pop q = elim q.queue [
  | [] ↦ some (none, q)
  | frame ∷ rest ↦ elim (drain_decoded_frames (pop_front q frame rest)) [
    | none ↦ none
    | some (q', ok) ↦ some (some frame, q')
  ]
]

unfoldable pub should_pause_reads : IngressQueue → Bool
should_pause_reads q =
    leb q.pause_buffered_bytes (length q.input_buffer)
    || leb q.max_queued_frames (length q.queue)
    || leb q.max_queued_payload_bytes q.queued_payload_bytes

unfoldable pub should_resume_reads : IngressQueue → Bool
should_resume_reads q =
    leb (length q.input_buffer) q.resume_buffered_bytes
    && ltb (length q.queue) q.max_queued_frames
    && ltb q.queued_payload_bytes q.max_queued_payload_bytes
