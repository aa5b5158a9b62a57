-- ===== src/Text/Hex/RoundTrip.antt =====
-- Decoding inverts encoding, and encoding gives back what was decoded, in lower case
-- (native/core/text/src/hex_codec.cpp).
use tightrope.Prelude.{
  ℕ, zero, suc, ◌+◌, ◌*◌, ◌/◌, ◌%◌, ◌<◌, ◌≡◌, refl, ◌≢◌, if◌then◌else◌, leb, List, [], ◌∷◌, some,
  arith, length, map, inl, inr, Option-cases,
}
use tightrope.Wire.{Bytes, AreBytes}
use tightrope.Text.Ascii.{to_lower, to_lower_ascii}
use tightrope.Text.Hex.{
  hex_nibble, hex_digit, hex_encode, decode_pairs, hex_decode_into, hex_decode,
}

pub digit_below : (n : ℕ) → n < 16 → hex_digit n ≡ (if leb n 9 then 48 + n else 87 + n)
unfolding hex_digit
digit_below n h = ground arith

nibble-digit : (n : ℕ) → n < 16 → hex_nibble (hex_digit n) ≡ some n
unfolding hex_nibble
nibble-digit n h = ground (arith, digit_below n h)

digit-nibble : (c n : ℕ) → hex_nibble c ≡ some n → (n < 16) × (hex_digit n ≡ to_lower c)
unfolding hex_nibble to_lower
digit-nibble c n h = ground (arith, digit_below n)

pub length-hex_encode : (bytes : Bytes) → length (hex_encode bytes) ≡ length bytes * 2
unfolding hex_encode
length-hex_encode [] = refl
length-hex_encode (b ∷ bytes) = omega (arith, length-hex_encode bytes)

decode_pairs-encode :
    (bytes : Bytes) → AreBytes bytes → decode_pairs (length bytes) (hex_encode bytes) ≡ some bytes
unfolding decode_pairs hex_encode
decode_pairs-encode [] h = refl
decode_pairs-encode (b ∷ bytes) h =
    ground (arith, nibble-digit (b / 16 % 16), nibble-digit (b % 16), decode_pairs-encode bytes h.1)

pub hex_decode_into-encode :
    (bytes : Bytes)
    → AreBytes bytes
    → hex_decode_into (length bytes) (hex_encode bytes) ≡ some bytes
unfolding hex_decode_into
hex_decode_into-encode bytes h =
    ground (arith, length-hex_encode bytes, decode_pairs-encode bytes h)

-- Decoding the encoding of a non-empty byte string gives it back.
pub hex_decode-encode :
    (bytes : Bytes) → AreBytes bytes → bytes ≢ [] → hex_decode (hex_encode bytes) ≡ some bytes
unfolding hex_decode hex_encode
hex_decode-encode [] h ne = absurd (ne refl)
hex_decode-encode (b ∷ bytes) h ne =
    ground (arith, length-hex_encode (b ∷ bytes), hex_decode_into-encode (b ∷ bytes) h)

encode-decode_pairs :
    (size : ℕ) (hex : List ℕ) (bytes : Bytes)
    → length hex ≡ size * 2
    → decode_pairs size hex ≡ some bytes
    → (length bytes ≡ size) × AreBytes bytes × (hex_encode bytes ≡ map to_lower hex)
unfolding decode_pairs hex_encode
encode-decode_pairs zero [] bytes l h = ground arith
encode-decode_pairs zero (c ∷ hex) bytes l h = absurd (omega arith)
encode-decode_pairs (suc size) [] bytes l h = cc
encode-decode_pairs (suc size) (c ∷ []) bytes l h = cc
encode-decode_pairs (suc size) (c ∷ d ∷ hex) bytes l h = elim (Option-cases (hex_nibble c)) [
  | inl e ↦ ground arith
  | inr (hi, e) ↦ elim (Option-cases (hex_nibble d)) [
    | inl f ↦ ground arith
    | inr (lo, f) ↦ elim (Option-cases (decode_pairs size hex)) [
      | inl g ↦ ground arith
      | inr (out, g) ↦ ground (
        arith,
        digit-nibble c hi e,
        digit-nibble d lo f,
        encode-decode_pairs size hex out (omega arith) g,
      )
    ]
  ]
]

-- What decodes into a span of some size is that many numbers below 256, and their encoding is the
-- text in lower case.
pub hex_encode-decode_into :
    (size : ℕ) (hex : List ℕ) (bytes : Bytes)
    → hex_decode_into size hex ≡ some bytes
    → (length bytes ≡ size) × AreBytes bytes × (hex_encode bytes ≡ to_lower_ascii hex)
unfolding hex_decode_into to_lower_ascii
hex_encode-decode_into size hex bytes h = ground (arith, encode-decode_pairs size hex bytes)
