-- ===== src/Rpc/Queue/Bounds.antt =====
-- The budgets of the ingress queue (native/sync/src/transport/rpc_channel.cpp), and where the
-- budget of queued bytes fails.
use tightrope.Prelude.{
  ℕ, zero, suc, ◌+◌, ◌-◌, ◌≤◌, ◌<◌, min, max, ◌≡◌, refl, sym, subst, inl, inr, Bool, false, ◌&&◌,
  ltb, List, [], ◌∷◌, ◌++◌, Option, some, arith, length, drop, length-append, Bool-cases,
  Option-cases, length-take,
}
use tightrope.Wire.{Bytes, read_le, read_u8}
use tightrope.Rpc.Frame.{RpcFrame, header_size, try_decode}
use tightrope.Rpc.Queue.{
  Limits, IngressQueue, again, drain_round, take_frame, enqueue, drain_decoded_frames, ingest, pop,
  pop_front, payload_size_at, clamp_limits, should_pause_reads, should_resume_reads, u64_mod,
}
use tightrope.Rpc.Queue.Settled.{
  drain_round-again, drain-keeps, try_decode-shrinks, read_le-shrinks,
}

read_le-drop :
    (k : ℕ) (bytes rest : Bytes) (v : ℕ) → read_le k bytes ≡ some (v, rest) → rest ≡ drop k bytes
unfolding read_le read_u8
read_le-drop zero bytes rest v h = ground arith
read_le-drop (suc k) [] rest v h = cc
read_le-drop (suc k) (x ∷ bytes) rest v h = elim (Option-cases (read_le k bytes)) [
  | inl e ↦ ground arith
  | inr ((high, r), e) ↦ ground (arith, read_le-drop k bytes r high e)
]

-- The payload that is decoded has the size that the header announces.
decoded-size :
    (buffer rest : Bytes) (f : RpcFrame)
    → try_decode buffer ≡ some (f, rest)
    → (length f.payload ≡ payload_size_at buffer)
      × (header_size + payload_size_at buffer ≤ length buffer)
unfolding try_decode payload_size_at
decoded-size buffer rest f h = elim (Option-cases (read_le 2 buffer)) [
  | inl e ↦ absurd (ground arith)
  | inr ((channel, after), e) ↦ elim (Option-cases (read_le 4 after)) [
    | inl g ↦ absurd (ground arith)
    | inr ((n, body), g) ↦ ground (
      arith,
      read_le-drop 2 buffer after channel e,
      read_le-shrinks 2 buffer after channel e,
      read_le-shrinks 4 after body n g,
      length-take n body,
    )
  ]
]

unfoldable pub payload_sum : List RpcFrame → ℕ
payload_sum [] = 0
payload_sum (f ∷ fs) = length f.payload + payload_sum fs

payload_sum-append :
    (fs gs : List RpcFrame) → payload_sum (fs ++ gs) ≡ payload_sum fs + payload_sum gs
unfolding payload_sum
payload_sum-append [] gs = omega arith
payload_sum-append (f ∷ fs) gs = omega (arith, payload_sum-append fs gs)

pub record IsBounded (q : IngressQueue) : Type 0 where
  pub buffered : length q.input_buffer ≤ q.max_buffered_bytes
  pub frames : length q.queue ≤ q.max_queued_frames
  pub counted : q.queued_payload_bytes ≡ payload_sum q.queue
  pub budget : q.queued_payload_bytes ≤ q.max_queued_payload_bytes

-- No single frame may exceed the budget of queued bytes, and the budgets fit a size_t.
pub record IsRoomy (l : Limits) : Type 0 where
  pub frame_fits : l.max_frame_payload_bytes ≤ l.max_queued_payload_bytes
  pub word_fits : l.max_queued_payload_bytes < u64_mod

abbrev Within : Limits → IngressQueue → Type 0
Within l q = (q.limits ≡ l) × IsBounded q

enqueue-IsBounded :
    (q : IngressQueue) (f : RpcFrame) (rest : Bytes)
    → IsRoomy q.limits
    → IsBounded q
    → drain_round q ≡ again (enqueue q f rest)
    → try_decode q.input_buffer ≡ some (f, rest)
    → IsBounded (enqueue q f rest)
unfolding drain_round take_frame enqueue payload_sum
enqueue-IsBounded q f rest r v h e = ground (
  arith,
  decoded-size q.input_buffer rest f e,
  try_decode-shrinks q.input_buffer rest f e,
  payload_sum-append q.queue (f ∷ []),
  length-append q.queue (f ∷ []),
)

drain_round-Within :
    (l : Limits)
    → IsRoomy l
    → (q q' : IngressQueue) → drain_round q ≡ again q'
    → Within l q
    → Within l q'
drain_round-Within l r q q' h v =
    let (f, rest, e, g) = drain_round-again q q' h in
    subst (Within l) (sym g) (
      limits_kept f rest,
      enqueue-IsBounded q f rest (subst IsRoomy (sym v.0) r) v.1
          (subst (λ p. drain_round q ≡ again p) g h) e,
    )
  where
    limits_kept : (f : RpcFrame) (rest : Bytes) → (enqueue q f rest).limits ≡ l
    limits_kept f rest = unfold enqueue in v.0

drained-IsBounded :
    (l : Limits) (p q' : IngressQueue) (ok : Bool)
    → IsRoomy l
    → Within l p
    → drain_decoded_frames p ≡ some (q', ok)
    → IsBounded q'
unfolding drain_decoded_frames
drained-IsBounded l p q' ok r w h =
    (drain-keeps (Within l) (drain_round-Within l r) (suc (length p.input_buffer)) p q' ok w h).1

-- Taking in bytes keeps the buffer, the number of queued frames and the queued bytes within their
-- budgets and the count of queued bytes exact, if no single frame may exceed the budget of queued
-- bytes.
pub ingest-IsBounded :
    (q q' : IngressQueue) (bytes : Bytes) (ok : Bool)
    → IsRoomy q.limits
    → IsBounded q
    → ingest q bytes ≡ some (q', ok)
    → IsBounded q'
unfolding ingest
ingest-IsBounded q q' bytes ok r v h =
    elim (Bool-cases (
      ltb (q.max_buffered_bytes - min (length q.input_buffer) q.max_buffered_bytes)
        (length bytes))) [
          | inl full ↦ subst IsBounded (ground arith) v
          | inr fits ↦
              drained-IsBounded q.limits (record q { input_buffer = q.input_buffer ++ bytes }) q' ok
                r (refl, grown fits) (rw fits at h)
        ]
  where
    grown :
        ltb (q.max_buffered_bytes - min (length q.input_buffer) q.max_buffered_bytes) (length bytes)
          ≡ false
        → IsBounded (record q { input_buffer = q.input_buffer ++ bytes })
    grown fits = ground (arith, length-append q.input_buffer bytes)

-- So does popping.
pub pop-IsBounded :
    (q q' : IngressQueue) (f : Option RpcFrame)
    → IsRoomy q.limits
    → IsBounded q
    → pop q ≡ some (f, q')
    → IsBounded q'
unfolding pop
pop-IsBounded q q' f r v h = by_queue q.queue refl
  where
    by_queue : (fs : List RpcFrame) → q.queue ≡ fs → IsBounded q'
    by_queue [] e = subst IsBounded (ground arith) v
    by_queue (g ∷ rest) e = elim (Option-cases (drain_decoded_frames (pop_front q g rest))) [
      | inl n ↦ absurd (ground arith)
      | inr ((p, ok), n) ↦ subst IsBounded (ground arith) (
          drained-IsBounded q.limits (pop_front q g rest) p ok r
            (unfold pop_front in refl, unfold pop_front payload_sum in ground arith) n)
    ]

-- Where a frame may exceed the budget of queued bytes, the unsigned subtraction of the check
-- wraps: a complete frame larger than the whole budget is queued, and the budget is overrun.
pub budget_overrun :
    (q : IngressQueue) (f : RpcFrame) (rest : Bytes)
    → try_decode q.input_buffer ≡ some (f, rest)
    → length q.input_buffer ≤ q.max_buffered_bytes
    → length q.queue < q.max_queued_frames
    → length f.payload ≤ q.max_frame_payload_bytes
    → q.max_queued_payload_bytes < length f.payload
    → length f.payload + q.queued_payload_bytes < u64_mod
    → (drain_round q ≡ again (enqueue q f rest))
      × (q.max_queued_payload_bytes < (enqueue q f rest).queued_payload_bytes)
unfolding drain_round take_frame enqueue
budget_overrun q f rest e a b c d g = ground (arith, decoded-size q.input_buffer rest f e)

-- Constructed limits are ordered and leave room for a frame; and where the resume mark stays
-- below the pause mark, a queue never asks to pause and to resume at once.
pub pause_and_resume :
    (l : Limits) (q : IngressQueue)
    → q.limits ≡ clamp_limits l
    → min l.resume_buffered_bytes
        (min l.pause_buffered_bytes (max l.max_buffered_bytes header_size))
      < min l.pause_buffered_bytes (max l.max_buffered_bytes header_size)
    → (header_size ≤ q.max_buffered_bytes)
      × (q.pause_buffered_bytes ≤ q.max_buffered_bytes)
      × (0 < q.max_queued_frames)
      × (should_pause_reads q && should_resume_reads q ≡ false)
unfolding clamp_limits should_pause_reads should_resume_reads
pause_and_resume l q e h = (ground arith, ground arith, ground arith, ground arith)
