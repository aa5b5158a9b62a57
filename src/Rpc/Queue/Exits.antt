-- ===== src/Rpc/Queue/Exits.antt =====
-- Why the decoding loop of native/sync/src/transport/rpc_channel.cpp ends, and what ingest leaves.
use tightrope.Prelude.{
  ℕ, zero, suc, ◌+◌, ◌-◌, ◌*◌, take, ◌<◌, ◌≤◌, ◌≡◌, refl, ap, sym, ◌∙◌, ◌⊎◌, inl, inr, Bool, true,
  false, ltb, leb, [], ◌∷◌, ◌++◌, some, arith, length, drop, min, length-drop, Bool-cases, subst,
}
use tightrope.Wire.{Bytes, AreBytes, read_le, read_u8}
use tightrope.Rpc.Frame.{RpcFrame, try_decode}
use tightrope.Rpc.Queue.{
  IngressQueue, Limits, u64_mod, stop, again, drain_round, take_frame, payload_size_at, enqueue,
  drain_decoded_frames, ingest,
}
use tightrope.Rpc.Queue.Settled.{drain_round-again, drain-settles, drain-keeps}
use tightrope.Rpc.Queue.Stream.{pending, Holds, drain_round-Holds, grown-Holds}

read_le_total :
    (k : ℕ) (bytes : Bytes)
    → k ≤ length bytes
    → (v : ℕ) × (read_le k bytes ≡ some (v, drop k bytes))
unfolding read_le read_u8
read_le_total zero bytes h = (0, refl)
read_le_total (suc k) [] h = absurd (omega arith)
read_le_total (suc k) (x ∷ bytes) h =
    let (v, e) = read_le_total k bytes (ground (arith, h)) in (x + 256 * v, ground (arith, e))

-- A frame that is there in full is decoded.
try_decode_total :
    (buffer : Bytes)
    → 6 + payload_size_at buffer ≤ length buffer
    → (f : RpcFrame) × (rest : Bytes) × (try_decode buffer ≡ some (f, rest))
unfolding try_decode payload_size_at
try_decode_total buffer h =
    let (channel, c) = read_le_total 2 buffer (omega (arith, h)) in
    let (n, e) = read_le_total 4 (drop 2 buffer) (omega (arith, h, length-drop 2 buffer)) in
    (
      record { channel = channel; payload = take n (drop 4 (drop 2 buffer)) },
      drop n (drop 4 (drop 2 buffer)),
      ground (arith, h, c, e),
    )

-- The queue is full, the bytes are not a whole frame, or the frame is over the payload budget.
abbrev pub Waits : IngressQueue → Type 0
Waits q =
    (q.max_queued_frames ≤ length q.queue)
    ⊎ (length q.input_buffer < 6 + payload_size_at q.input_buffer)
    ⊎ (q.max_queued_payload_bytes < q.queued_payload_bytes + payload_size_at q.input_buffer)

-- There is room for a frame, and the header at the front of the buffer asks for too much.
abbrev pub IsOversize : IngressQueue → Type 0
IsOversize q =
    (length q.queue < q.max_queued_frames)
    × (6 ≤ length q.input_buffer)
    × ((q.max_frame_payload_bytes < payload_size_at q.input_buffer)
        ⊎ (q.max_buffered_bytes < 6 + payload_size_at q.input_buffer))

-- A frame that is in the buffer in full, under the frame limits, with room in the queue.
stop-whole :
    (q : IngressQueue) (ok : Bool)
    → q.max_queued_payload_bytes < u64_mod
    → drain_round q ≡ stop ok
    → length q.queue < q.max_queued_frames
    → 6 + payload_size_at q.input_buffer ≤ length q.input_buffer
    → payload_size_at q.input_buffer ≤ q.max_frame_payload_bytes
    → 6 + payload_size_at q.input_buffer ≤ q.max_buffered_bytes
    → (ok ≡ true)
      × (q.max_queued_payload_bytes < q.queued_payload_bytes + payload_size_at q.input_buffer)
unfolding drain_round take_frame
stop-whole q ok fits h room whole small bounded =
    let (f, rest, e) = try_decode_total q.input_buffer whole in
    (
      ground (arith, h, room, whole, small, bounded, e),
      ground (arith, h, room, whole, small, bounded, e, fits),
    )

stop-reasons :
    (q : IngressQueue) (ok : Bool)
    → q.max_queued_payload_bytes < u64_mod
    → drain_round q ≡ stop ok
    → ((ok ≡ true) × Waits q) ⊎ ((ok ≡ false) × IsOversize q)
unfolding drain_round
stop-reasons q ok fits h =
    let n = length q.input_buffer in
    let size = payload_size_at q.input_buffer in
    elim (Bool-cases (leb q.max_queued_frames (length q.queue))) [
      | inl full ↦ inl (ground (arith, h, full), inl (ground (arith, full)))
      | inr room ↦ elim (Bool-cases (ltb n 6)) [
        | inl short ↦ inl (ground (arith, h, room, short), inr (inl (ground (arith, short))))
        | inr header ↦ elim (Bool-cases (ltb q.max_frame_payload_bytes size)) [
          | inl large ↦ inr (
            ground (arith, h, room, header, large),
            (ground (arith, room), ground (arith, header), inl (ground (arith, large))),
          )
          | inr small ↦ elim (Bool-cases (ltb q.max_buffered_bytes (6 + size))) [
            | inl large ↦ inr (
              ground (arith, h, room, header, small, large),
              (ground (arith, room), ground (arith, header), inr (ground (arith, large))),
            )
            | inr bounded ↦ elim (Bool-cases (ltb n (6 + size))) [
              | inl short ↦ inl (
                ground (arith, h, room, header, small, bounded, short),
                inr (inl (ground (arith, short))),
              )
              | inr whole ↦
                  let (is_true, over) =
                    stop-whole q ok fits h (ground (arith, room)) (ground (arith, whole))
                      (ground (arith, small)) (ground (arith, bounded)) in
                  inl (is_true, inr (inr over))
            ]
          ]
        ]
      ]
    ]

drain_round-limits :
    (l : Limits) (q q' : IngressQueue) → drain_round q ≡ again q' → q.limits ≡ l → q'.limits ≡ l
unfolding enqueue
drain_round-limits l q q' h same =
    let (f, rest, e, g) = drain_round-again q q' h in ap (λ r. r.limits) g ∙ same

-- With bytes below 256 and a payload budget that fits a size_t, ingest always ends. It refuses all
-- the bytes and changes nothing if they do not fit the buffer. Else it takes them all in, and it
-- succeeds only when the queue is full, no whole frame is left in the buffer, or the next frame is
-- over the payload budget; it fails only when there is room in the queue and the next header asks
-- for more than a frame or the buffer may hold.
pub ingest-exits :
    (q : IngressQueue) (bytes : Bytes)
    → AreBytes q.input_buffer
    → AreBytes bytes
    → q.max_queued_payload_bytes < u64_mod
    → (q' : IngressQueue) × (ok : Bool) × (ingest q bytes ≡ some (q', ok))
      × (((q' ≡ q) × (ok ≡ false) × (q.max_buffered_bytes < length q.input_buffer + length bytes))
          ⊎ ((pending q' ≡ pending q ++ bytes)
              × (q'.limits ≡ q.limits)
              × ((length bytes ≡ 0) ⊎ (length q.input_buffer + length bytes ≤ q.max_buffered_bytes))
              × (((ok ≡ true) × Waits q') ⊎ ((ok ≡ false) × IsOversize q'))))
unfolding ingest drain_decoded_frames
ingest-exits q bytes b c fits =
    elim (Bool-cases (
      ltb (q.max_buffered_bytes - min (length q.input_buffer) q.max_buffered_bytes)
        (length bytes))) [
          | inl full ↦ (q, false, rw full refl, inl (refl, refl, ground (arith, full)))
          | inr room ↦
              let grown : IngressQueue = record q { input_buffer = q.input_buffer ++ bytes } in
              let n = suc (length grown.input_buffer) in
              let (q', ok, run, settled) = drain-settles n grown (omega arith) in
              let holds =
                drain-keeps (Holds (pending q ++ bytes)) (drain_round-Holds (pending q ++ bytes)) n
                  grown q' ok (grown-Holds q bytes b c) run in
              let same =
                drain-keeps (λ r. r.limits ≡ q.limits) (drain_round-limits q.limits) n grown q' ok
                  refl run in
              (
                q',
                ok,
                rw room run,
                inr (
                  holds.0,
                  same,
                  ground (arith, room),
                  stop-reasons q' ok
                      (subst (λ l. l.max_queued_payload_bytes < u64_mod) (sym same) fits) settled,
                ),
              )
        ]
