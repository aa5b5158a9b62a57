-- ===== src/Rpc/Queue/Stream.antt =====
-- The ingress queue (native/sync/src/transport/rpc_channel.cpp) neither loses, repeats nor
-- reorders a byte of the stream.
use tightrope.Prelude.{
  suc, ◌-◌, min, ◌≡◌, refl, ap, sym, ◌∙◌, subst, ◌⊎◌, inl, inr, Bool, false, ltb, List, [], ◌∷◌,
  ◌++◌, none, some, arith, length, append_assoc, append-nil, Bool-cases,
}
use tightrope.Wire.{Bytes, AreBytes}
use tightrope.Wire.RoundTrip.{AreBytes-append}
use tightrope.Rpc.Frame.{RpcFrame, encode, encode-try_decode}
use tightrope.Rpc.Queue.{
  IngressQueue, again, drain_round, enqueue, drain_decoded_frames, ingest, pop, pop_front,
}
use tightrope.Rpc.Queue.Settled.{drain_round-again, drain-keeps, drain-settles, ingest-settles}

unfoldable pub encode_all : List RpcFrame → Bytes
encode_all [] = []
encode_all (f ∷ fs) = encode f ++ encode_all fs

-- The part of the stream that the queue still holds: the queued frames, then the raw bytes.
unfoldable pub pending : IngressQueue → Bytes
pending q = encode_all q.queue ++ q.input_buffer

encode_all-append : (fs gs : List RpcFrame) → encode_all (fs ++ gs) ≡ encode_all fs ++ encode_all gs
unfolding encode_all
encode_all-append [] gs = refl
encode_all-append (f ∷ fs) gs =
    ap (λ t. encode f ++ t) (encode_all-append fs gs)
    ∙ sym (append_assoc (encode f) (encode_all fs) (encode_all gs))

abbrev pub Holds : Bytes → IngressQueue → Type 0
Holds stream q = (pending q ≡ stream) × AreBytes q.input_buffer

enqueue-pending :
    (q : IngressQueue) (f : RpcFrame) (rest : Bytes)
    → encode f ++ rest ≡ q.input_buffer
    → pending (enqueue q f rest) ≡ pending q
unfolding pending enqueue encode_all
enqueue-pending q f rest h =
    rw (encode_all-append q.queue (f ∷ [])) (simp (append_assoc, append-nil, h))

enqueue-buffer :
    (q : IngressQueue) (f : RpcFrame) (rest : Bytes) → (enqueue q f rest).input_buffer ≡ rest
unfolding enqueue
enqueue-buffer q f rest = refl

pub drain_round-Holds :
    (stream : Bytes) (q q' : IngressQueue)
    → drain_round q ≡ again q'
    → Holds stream q
    → Holds stream q'
drain_round-Holds stream q q' h p =
    let (f, rest, e, g) = drain_round-again q q' h in
    let d = encode-try_decode q.input_buffer f rest p.1 e in
    (
      ap pending g ∙ enqueue-pending q f rest d.0 ∙ p.0,
      subst (λ r. AreBytes r.input_buffer) (sym g)
          (subst AreBytes (sym (enqueue-buffer q f rest)) d.2),
    )

pub grown-Holds :
    (q : IngressQueue) (bytes : Bytes)
    → AreBytes q.input_buffer
    → AreBytes bytes
    → Holds (pending q ++ bytes) (record q { input_buffer = q.input_buffer ++ bytes })
unfolding pending
grown-Holds q bytes b c = (
  sym (append_assoc (encode_all q.queue) q.input_buffer bytes),
  AreBytes-append q.input_buffer bytes b c,
)

ingested-pending :
    (q q' : IngressQueue) (bytes : Bytes) (ok : Bool)
    → AreBytes q.input_buffer
    → AreBytes bytes
    → ingest q bytes ≡ some (q', ok)
    → ((pending q' ≡ pending q ++ bytes) × AreBytes q'.input_buffer) ⊎ ((q' ≡ q) × (ok ≡ false))
unfolding ingest drain_decoded_frames
ingested-pending q q' bytes ok b c h =
    elim (Bool-cases (
      ltb (q.max_buffered_bytes - min (length q.input_buffer) q.max_buffered_bytes)
        (length bytes))) [
          | inl full ↦ inr (ground arith, ground arith)
          | inr fits ↦
              let grown : IngressQueue = record q { input_buffer = q.input_buffer ++ bytes } in
              inl (
                drain-keeps (Holds (pending q ++ bytes)) (drain_round-Holds (pending q ++ bytes))
                  (suc (length grown.input_buffer)) grown q' ok (grown-Holds q bytes b c)
                  (rw fits at h))
        ]

-- With bytes below 256, taking them in always ends: it appends them to the pending stream, or
-- refuses them all and changes nothing.
pub ingest-pending :
    (q : IngressQueue) (bytes : Bytes)
    → AreBytes q.input_buffer
    → AreBytes bytes
    → (q' : IngressQueue) × (ok : Bool) × (ingest q bytes ≡ some (q', ok))
      × (((pending q' ≡ pending q ++ bytes) × AreBytes q'.input_buffer) ⊎ ((q' ≡ q) × (ok ≡ false)))
ingest-pending q bytes b c =
    let (q', ok, run, settled) = ingest-settles q bytes in
    (q', ok, run, ingested-pending q q' bytes ok b c run)

-- With bytes below 256 in the buffer, popping always ends: it gives none and changes nothing when
-- no frame is queued, and else the frame at the front of the pending stream, leaving the rest of
-- the stream.
pub pop-pending :
    (q : IngressQueue)
    → AreBytes q.input_buffer
    → ((q.queue ≡ []) × (pop q ≡ some (none, q)))
      ⊎ ((f : RpcFrame) × (q' : IngressQueue) × (pop q ≡ some (some f, q'))
          × (encode f ++ pending q' ≡ pending q)
          × AreBytes q'.input_buffer)
unfolding pop drain_decoded_frames
pop-pending q b = by_queue q.queue refl
  where
    front :
        (f : RpcFrame) (rest : List RpcFrame)
        → encode f ++ pending (pop_front q f rest) ≡ encode_all (f ∷ rest) ++ q.input_buffer
    front f rest =
        unfold pending pop_front encode_all in
        sym (append_assoc (encode f) (encode_all rest) q.input_buffer)

    buffer_kept :
        (f : RpcFrame) (rest : List RpcFrame) → (pop_front q f rest).input_buffer ≡ q.input_buffer
    buffer_kept f rest = unfold pop_front in refl

    popped :
        (f : RpcFrame) (rest : List RpcFrame) (q' : IngressQueue) (ok : Bool)
        → q.queue ≡ f ∷ rest
        → drain_decoded_frames (pop_front q f rest) ≡ some (q', ok)
        → pop q ≡ some (some f, q')
    popped f rest q' ok e run = ground arith

    by_queue :
        (fs : List RpcFrame)
        → q.queue ≡ fs
        → ((q.queue ≡ []) × (pop q ≡ some (none, q)))
          ⊎ ((f : RpcFrame) × (q' : IngressQueue) × (pop q ≡ some (some f, q'))
              × (encode f ++ pending q' ≡ pending q)
              × AreBytes q'.input_buffer)
    by_queue [] e = inl (e, ground arith)
    by_queue (f ∷ rest) e =
        let p : IngressQueue = pop_front q f rest in
        let (q', ok, run, settled) = drain-settles (suc (length p.input_buffer)) p (omega arith) in
        let kept =
          drain-keeps (Holds (pending p)) (drain_round-Holds (pending p))
            (suc (length p.input_buffer)) p q' ok
            (refl, subst AreBytes (sym (buffer_kept f rest)) b) run in
        inr (
          f,
          q',
          popped f rest q' ok e run,
          ap (λ t. encode f ++ t) kept.0
              ∙ front f rest
              ∙ unfold pending in ap (λ t. encode_all t ++ q.input_buffer) (sym e),
          kept.1,
        )
