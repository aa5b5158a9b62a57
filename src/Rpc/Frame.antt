-- ===== src/Rpc/Frame.antt =====
-- RpcChannel of native/sync/src/transport/rpc_channel.cpp: a frame is a 16-bit channel, a 32-bit
-- payload size, both low byte first, and the payload.
use tightrope.Prelude.{
  ℕ, zero, suc, ◌+◌, ◌%◌, ◌<◌, ◌≤◌, ◌≡◌, ap, if◌then◌else◌, ltb, [], ◌∷◌, ◌++◌, Option, none, some,
  arith, length, take, drop, append_assoc, length-append, inl, inr, Option-cases, take-append-drop,
  length-take,
}
use tightrope.Wire.{Bytes, AreBytes, ◌>>=◌, write_le, read_le}
use tightrope.Wire.RoundTrip.{
  read-write_le, write-read_le, length-write_le, take-append, drop-append,
}

pub record RpcFrame : Type 0 where
  pub channel : ℕ
  pub payload : Bytes

abbrev pub header_size : ℕ
header_size = 6

abbrev pub u32_mod : ℕ
u32_mod = 4294967296

unfoldable pub encode : RpcFrame → Bytes
encode frame =
    write_le 2 frame.channel ++ write_le 4 (length frame.payload % u32_mod) ++ frame.payload

-- The frame at the front of the buffer, and the buffer without it.
unfoldable pub try_decode : Bytes → Option (RpcFrame × Bytes)
try_decode buffer = if ltb (length buffer) header_size then none else do
  (channel, after) ← read_le 2 buffer
  (payload_size, body) ← read_le 4 after
  let frame : RpcFrame = record { channel = channel; payload = take payload_size body }
  if ltb (length buffer) (header_size + payload_size)
      then none
      else some (frame, drop payload_size body)

pub record IsWire (frame : RpcFrame) : Type 0 where
  pub channel_fits : frame.channel < 65536
  pub payload_fits : length frame.payload < u32_mod

pub length-encode : (f : RpcFrame) → length (encode f) ≡ header_size + length f.payload
unfolding encode
length-encode f = omega (
  arith,
  length-append (write_le 2 f.channel ++ write_le 4 (length f.payload % u32_mod)) f.payload,
  length-append (write_le 2 f.channel) (write_le 4 (length f.payload % u32_mod)),
  length-write_le 2 f.channel,
  length-write_le 4 (length f.payload % u32_mod),
)

-- A frame that fits its header fields is decoded from the front of any buffer that starts with
-- its encoding, and the rest of the buffer is left.
pub try_decode-encode :
    (f : RpcFrame) (rest : Bytes) → IsWire f → try_decode (encode f ++ rest) ≡ some (f, rest)
unfolding try_decode
try_decode-encode f rest w = ground (
  arith,
  length-append (encode f) rest,
  length-encode f,
  regroup,
  read-write_le 2 f.channel (write_le 4 (length f.payload % u32_mod) ++ (f.payload ++ rest)),
  read-write_le 4 (length f.payload % u32_mod) (f.payload ++ rest),
  take-append f.payload rest,
  drop-append f.payload rest,
)
  where
    regroup :
        encode f ++ rest
        ≡ write_le 2 f.channel ++ (write_le 4 (length f.payload % u32_mod) ++ (f.payload ++ rest))
    regroup = unfold encode in simp append_assoc

AreBytes-drop : (n : ℕ) (bytes : Bytes) → AreBytes bytes → AreBytes (drop n bytes)
AreBytes-drop zero bytes b = b
AreBytes-drop (suc n) [] b = tt
AreBytes-drop (suc n) (x ∷ bytes) b = AreBytes-drop n bytes b.1

-- The encoding of a frame cut out of the bytes behind a header.
cut :
    (channel n : ℕ) (body : Bytes)
    → n ≤ length body
    → n < u32_mod
    → encode (record { channel = channel; payload = take n body }) ++ drop n body
      ≡ write_le 2 channel ++ (write_le 4 n ++ body)
unfolding encode
cut channel n body h k =
    simp (append_assoc, take-append-drop)
      (ap (λ m. write_le 2 channel ++ (write_le 4 m ++ body)) (omega (arith, length-take n body)))

behind :
    (buffer after body : Bytes) (channel n : ℕ)
    → write_le 2 channel ++ after ≡ buffer
    → write_le 4 n ++ body ≡ after
    → length buffer ≡ header_size + length body
behind buffer after body channel n h k = omega (
  arith,
  ap length h,
  ap length k,
  length-append (write_le 2 channel) after,
  length-append (write_le 4 n) body,
  length-write_le 2 channel,
  length-write_le 4 n,
)

-- Decoding takes exactly a frame's encoding off the buffer, and the frame fits its fields.
pub encode-try_decode :
    (buffer : Bytes) (f : RpcFrame) (rest : Bytes)
    → AreBytes buffer
    → try_decode buffer ≡ some (f, rest)
    → (encode f ++ rest ≡ buffer) × IsWire f × AreBytes rest
unfolding try_decode
encode-try_decode buffer f rest b h = elim (Option-cases (read_le 2 buffer)) [
  | inl e ↦ ground arith
  | inr ((channel, after), e) ↦ elim (Option-cases (read_le 4 after)) [
    | inl g ↦ ground arith
    | inr ((n, body), g) ↦
        let first = write-read_le 2 buffer after channel b e in
        let second = write-read_le 4 after body n first.2 g in
        let size = behind buffer after body channel n first.1 second.1 in
        ground (arith, cut channel n body, length-take n body, AreBytes-drop n body second.2)
  ]
]
