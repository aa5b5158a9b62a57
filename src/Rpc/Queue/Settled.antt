-- ===== src/Rpc/Queue/Settled.antt =====
-- The decoding loop of native/sync/src/transport/rpc_channel.cpp ends by its own exits.
use tightrope.Prelude.{
  ℕ, zero, suc, ◌+◌, ◌<◌, ◌≡◌, refl, ◌⊎◌, inl, inr, Bool, false, ltb, [], ◌∷◌, ◌++◌, some, arith,
  length, Option-cases, length-drop, Bool-cases, ◌-◌, min, subst,
}
use tightrope.Wire.{Bytes, read_le, read_u8}
use tightrope.Rpc.Frame.{RpcFrame, try_decode}
use tightrope.Rpc.Queue.{
  IngressQueue, Round, stop, again, drain_round, take_frame, enqueue, drain, drain_decoded_frames,
  ingest,
}

pub read_le-shrinks :
    (k : ℕ) (bytes rest : Bytes) (v : ℕ)
    → read_le k bytes ≡ some (v, rest)
    → length bytes ≡ k + length rest
unfolding read_le read_u8
read_le-shrinks zero bytes rest v h = ground arith
read_le-shrinks (suc k) [] rest v h = cc
read_le-shrinks (suc k) (x ∷ bytes) rest v h = elim (Option-cases (read_le k bytes)) [
  | inl e ↦ ground arith
  | inr ((high, r), e) ↦ ground (arith, read_le-shrinks k bytes r high e)
]

-- Decoding takes at least a byte off the buffer.
pub try_decode-shrinks :
    (buffer rest : Bytes) (f : RpcFrame)
    → try_decode buffer ≡ some (f, rest)
    → length rest < length buffer
unfolding try_decode
try_decode-shrinks buffer rest f h = elim (Option-cases (read_le 2 buffer)) [
  | inl e ↦ ground arith
  | inr ((channel, after), e) ↦ elim (Option-cases (read_le 4 after)) [
    | inl g ↦ ground arith
    | inr ((n, body), g) ↦ ground (
      arith,
      read_le-shrinks 2 buffer after channel e,
      read_le-shrinks 4 after body n g,
      length-drop n body,
    )
  ]
]

-- A round that goes on has queued the frame at the front of the buffer.
pub drain_round-again :
    (q q' : IngressQueue)
    → drain_round q ≡ again q'
    → (f : RpcFrame) × (rest : Bytes) × (try_decode q.input_buffer ≡ some (f, rest))
      × (q' ≡ enqueue q f rest)
unfolding drain_round take_frame
drain_round-again q q' h = elim (Option-cases (try_decode q.input_buffer)) [
  | inl e ↦ absurd (ground arith)
  | inr ((f, rest), e) ↦ (f, rest, e, ground arith)
]

drain_round-shrinks :
    (q q' : IngressQueue)
    → drain_round q ≡ again q'
    → length q'.input_buffer < length q.input_buffer
drain_round-shrinks q q' h =
    let (f, rest, e, g) = drain_round-again q q' h in
    ground (arith, try_decode-shrinks q.input_buffer rest f e, buffer_of q f rest)
  where
    buffer_of :
        (p : IngressQueue) (f : RpcFrame) (rest : Bytes) → (enqueue p f rest).input_buffer ≡ rest
    buffer_of p f rest = unfold enqueue in refl

Round-cases : (r : Round) → ((b : Bool) × (r ≡ stop b)) ⊎ ((q : IngressQueue) × (r ≡ again q))
Round-cases (stop b) = inl (b, refl)
Round-cases (again q) = inr (q, refl)

-- With more fuel than buffered bytes the loop stops by one of its exits.
pub drain-settles :
    (fuel : ℕ) (q : IngressQueue)
    → length q.input_buffer < fuel
    → (q' : IngressQueue) × (ok : Bool) × (drain fuel q ≡ some (q', ok))
      × (drain_round q' ≡ stop ok)
unfolding drain
drain-settles zero q h = absurd (omega arith)
drain-settles (suc fuel) q h = elim (Round-cases (drain_round q)) [
  | inl (b, e) ↦ (q, b, rw (e, drain) refl, e)
  | inr (p, e) ↦
      let (q', ok, run, settled) =
        drain-settles fuel p (omega (arith, drain_round-shrinks q p e)) in
      (q', ok, rw (e, drain) run, settled)
]

-- A rule of induction over the loop: what every round that goes on keeps, the loop keeps.
pub drain-keeps {ℓ} :
    (P : IngressQueue → Type ℓ)
    → ((q q' : IngressQueue) → drain_round q ≡ again q' → P q → P q')
    → (fuel : ℕ) (q q' : IngressQueue) (ok : Bool) → P q
    → drain fuel q ≡ some (q', ok)
    → P q'
unfolding drain
drain-keeps P keep zero q q' ok p h = cc
drain-keeps P keep (suc fuel) q q' ok p h = elim (Round-cases (drain_round q)) [
  | inl (b, e) ↦ subst P (ground arith) p
  | inr (r, e) ↦ drain-keeps P keep fuel r q' ok (keep q r e p) (ground arith)
]

-- Taking in bytes always ends: the bytes are refused and nothing changes, or the frames are
-- decoded until the queue is full, a budget is met, the next frame is incomplete, or the next
-- header is refused.
pub ingest-settles :
    (q : IngressQueue) (bytes : Bytes)
    → (q' : IngressQueue) × (ok : Bool) × (ingest q bytes ≡ some (q', ok))
      × (((q' ≡ q) × (ok ≡ false)) ⊎ (drain_round q' ≡ stop ok))
unfolding ingest drain_decoded_frames
ingest-settles q bytes =
    elim (Bool-cases (
      ltb (q.max_buffered_bytes - min (length q.input_buffer) q.max_buffered_bytes)
        (length bytes))) [
          | inl full ↦ (q, false, rw full refl, inl (refl, refl))
          | inr fits ↦
              let grown : IngressQueue = record q { input_buffer = q.input_buffer ++ bytes } in
              let (q', ok, run, settled) =
                drain-settles (suc (length grown.input_buffer)) grown (omega arith) in
              (q', ok, rw fits run, inr settled)
        ]
