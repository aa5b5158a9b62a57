-- ===== src/Text/Json/Laws.antt =====
-- Escaped text (native/core/text/src/json_escape.cpp) reads back by the rules of RFC 8259, and
-- the repair of serialized JSON leaves well-formed text alone.
use tightrope.Prelude.{
  ℕ, zero, suc, ◌+◌, ◌*◌, ◌/◌, ◌%◌, ◌<◌, ◌≡◌, refl, false, ◌||◌, if◌then◌else◌, ltb, ◌==◌, List, [],
  ◌∷◌, ◌++◌, Option, none, some, arith, length, append_assoc, Bool-cases, inl, inr,
}
use tightrope.Wire.{◌>>=◌}
use tightrope.Text.Hex.{hex_nibble}
use tightrope.Text.Json.{
  hex_digit, quote_mark, backslash, append_escaped_control, escape_byte, escape_json_string,
  quote_json_string, Scan, outside, inside, escaped, scan_next, scan_emit, sanitize_from,
  sanitize_serialized_json, after_inside,
}

-- RFC 8259, section 7, for the characters up to U+007F that one byte stands for: \u and four
-- hexadecimal digits.
unescape_hex : List ℕ → Option (ℕ × List ℕ)
unescape_hex (a ∷ b ∷ c ∷ d ∷ s) = do
  w ← hex_nibble a
  x ← hex_nibble b
  y ← hex_nibble c
  z ← hex_nibble d
  let value = ((w * 16 + x) * 16 + y) * 16 + z
  if ltb value 128 then some (value, s) else none
unescape_hex _ = none

-- What may follow a backslash.
unescape_after : List ℕ → Option (ℕ × List ℕ)
unescape_after [] = none
unescape_after (c ∷ s) =
    if c == quote_mark
    then some (quote_mark, s)
    else if c == backslash
    then some (backslash, s)
    else if c == b'/'
    then some (b'/', s)
    else if c == b'b'
    then some (8, s)
    else if c == b'f'
    then some (12, s)
    else if c == b'n'
    then some (10, s)
    else if c == b'r'
    then some (13, s)
    else if c == b't'
    then some (9, s)
    else if c == b'u'
    then unescape_hex s
    else none

-- One character of a string's inside: no quote, and no control character, may stand there bare.
unescape_char : List ℕ → Option (ℕ × List ℕ)
unescape_char [] = none
unescape_char (c ∷ s) =
    if c == backslash
    then unescape_after s
    else if c == quote_mark || ltb c 32
    then none
    else some (c, s)

-- A text of exactly n characters.
pub unescape : ℕ → List ℕ → Option (List ℕ)
unescape zero [] = some []
unescape zero (c ∷ s) = none
unescape (suc n) s = do (c, rest) ← unescape_char s; out ← unescape n rest; some (c ∷ out)

nibble-hex_digit : (n : ℕ) → n < 16 → hex_nibble (hex_digit n) ≡ some n
unfolding hex_nibble hex_digit
nibble-hex_digit n h = ground arith

zero_nibble : hex_nibble b'0' ≡ some 0
unfolding hex_nibble
zero_nibble = refl

unescape-control :
    (ch : ℕ) (s : List ℕ) → ch < 32 → unescape_char (append_escaped_control ch ++ s) ≡ some (ch, s)
unfolding unescape_char unescape_after unescape_hex append_escaped_control
unescape-control ch s h =
    ground (arith, nibble-hex_digit (ch / 16 % 16), nibble-hex_digit (ch % 16), zero_nibble)

unescape-escape_byte : (ch : ℕ) (s : List ℕ) → unescape_char (escape_byte ch ++ s) ≡ some (ch, s)
unfolding escape_byte unescape_char unescape_after
unescape-escape_byte ch s = elim (Bool-cases (ltb ch 32)) [
  | inl low ↦ ground (arith, unescape-control ch s)
  | inr high ↦ ground arith
]

-- A reader of JSON strings gets back exactly the text that was escaped, whatever its bytes.
pub unescape-escape_json_string :
    (value : List ℕ) → unescape (length value) (escape_json_string value) ≡ some value
unfolding unescape escape_json_string
unescape-escape_json_string [] = refl
unescape-escape_json_string (ch ∷ value) =
    ground
      (arith, unescape-escape_byte ch (escape_json_string value), unescape-escape_json_string value)

hex_digit-plain :
    (n : ℕ) → n < 16 → (after_inside (hex_digit n) ≡ inside) × (ltb (hex_digit n) 32 ≡ false)
unfolding hex_digit
hex_digit-plain n h = (ground arith, ground arith)

-- Repair leaves the escape of a control byte alone.
sanitize-control :
    (ch : ℕ) (s : List ℕ)
    → ch < 32
    → sanitize_from inside (append_escaped_control ch ++ s)
      ≡ append_escaped_control ch ++ sanitize_from inside s
unfolding sanitize_from scan_emit scan_next append_escaped_control
sanitize-control ch s h = ground (arith, hex_digit-plain (ch / 16 % 16), hex_digit-plain (ch % 16))

sanitize-escape_byte :
    (ch : ℕ) (s : List ℕ)
    → sanitize_from inside (escape_byte ch ++ s) ≡ escape_byte ch ++ sanitize_from inside s
unfolding escape_byte sanitize_from scan_emit scan_next
sanitize-escape_byte ch s = elim (Bool-cases (ltb ch 32)) [
  | inl low ↦ ground (arith, sanitize-control ch s)
  | inr high ↦ ground arith
]

sanitize-escape_json_string :
    (value s : List ℕ)
    → sanitize_from inside (escape_json_string value ++ s)
      ≡ escape_json_string value ++ sanitize_from inside s
unfolding escape_json_string
sanitize-escape_json_string [] s = refl
sanitize-escape_json_string (ch ∷ value) s = cc (
  append_assoc (escape_byte ch) (escape_json_string value) s,
  append_assoc (escape_byte ch) (escape_json_string value) (sanitize_from inside s),
  sanitize-escape_byte ch (escape_json_string value ++ s),
  sanitize-escape_json_string value s,
)

-- Repair copies a quoted string unchanged and goes on behind it, outside of strings.
pub sanitize-quote_json_string :
    (value s : List ℕ)
    → sanitize_serialized_json (quote_json_string value ++ s)
      ≡ quote_json_string value ++ sanitize_serialized_json s
unfolding sanitize_serialized_json quote_json_string sanitize_from scan_emit scan_next
sanitize-quote_json_string value s = cc (
  append_assoc (escape_json_string value) (quote_mark ∷ []) s,
  append_assoc (escape_json_string value) (quote_mark ∷ []) (sanitize_from outside s),
  sanitize-escape_json_string value (quote_mark ∷ s),
)

sanitize_from_idem :
    (state : Scan) (json : List ℕ)
    → sanitize_from state (sanitize_from state json) ≡ sanitize_from state json
unfolding sanitize_from scan_emit scan_next
sanitize_from_idem state [] = refl
sanitize_from_idem outside (ch ∷ json) =
    ground (arith, sanitize_from_idem (scan_next outside ch) json)
sanitize_from_idem escaped (ch ∷ json) = ground (arith, sanitize_from_idem inside json)
sanitize_from_idem inside (ch ∷ json) = elim (Bool-cases (ltb ch 32)) [
  | inl low ↦
      ground
        (arith, sanitize-control ch (sanitize_from inside json), sanitize_from_idem inside json)
  | inr high ↦ ground (
    arith,
    sanitize_from_idem inside json,
    sanitize_from_idem escaped json,
    sanitize_from_idem outside json,
  )
]

-- Repairing twice is repairing once.
pub sanitize_idem :
    (json : List ℕ)
    → sanitize_serialized_json (sanitize_serialized_json json) ≡ sanitize_serialized_json json
unfolding sanitize_serialized_json
sanitize_idem json = sanitize_from_idem outside json
