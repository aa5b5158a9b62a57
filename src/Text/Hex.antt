-- ===== src/Text/Hex.antt =====
-- Hexadecimal coding: native/core/text/src/hex_codec.cpp.
pub mod RoundTrip
use tightrope.Prelude.{
  ℕ, zero, suc, ◌+◌, ◌-◌, ◌*◌, ◌/◌, ◌%◌, Bool, true, false, not, ◌&&◌, ◌||◌, if◌then◌else◌, leb,
  ◌==◌, List, [], ◌∷◌, Option, none, some, length, get_or,
}
use tightrope.Wire.{Bytes, ◌>>=◌}
use tightrope.Text.Ascii.{codes}

unfoldable pub hex_nibble : ℕ → Option ℕ
hex_nibble c =
    if leb b'0' c && leb c b'9'
    then some (c - b'0')
    else if leb b'a' c && leb c b'f'
    then some (10 + (c - b'a'))
    else if leb b'A' c && leb c b'F'
    then some (10 + (c - b'A'))
    else none

abbrev pub hex_table : List ℕ
hex_table = codes "0123456789abcdef"

unfoldable pub hex_digit : ℕ → ℕ
hex_digit n = get_or hex_table n 0

unfoldable pub hex_encode : Bytes → List ℕ
hex_encode [] = []
hex_encode (value ∷ bytes) = hex_digit (value / 16 % 16) ∷ hex_digit (value % 16) ∷ hex_encode bytes

-- The loop of hex_decode, over the pairs that fill `size` bytes.
unfoldable pub decode_pairs : ℕ → List ℕ → Option Bytes
decode_pairs zero hex = some []
decode_pairs (suc size) [] = none
decode_pairs (suc size) (high ∷ []) = none
decode_pairs (suc size) (high ∷ low ∷ hex) = do
  hi ← hex_nibble high
  lo ← hex_nibble low
  out ← decode_pairs size hex
  some ((hi * 16 + lo) ∷ out)

-- hex_decode into a span of `size` bytes; on failure the span is not used by any caller.
unfoldable pub hex_decode_into : ℕ → List ℕ → Option Bytes
unfolding decode_pairs
hex_decode_into size hex = if not (length hex == size * 2) then none else decode_pairs size hex

unfoldable pub hex_decode : List ℕ → Option Bytes
unfolding hex_decode_into
hex_decode hex =
    if length hex == 0 || not (length hex % 2 == 0)
    then none
    else hex_decode_into (length hex / 2) hex
