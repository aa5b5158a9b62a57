-- ===== src/Text/Tests.antt =====
-- Runs of the text helpers (native/core/text) at concrete texts.
use tightrope.Prelude.{ℕ, ◌≡◌, refl, List, [], ◌∷◌, ◌++◌, some, none, arith}
use tightrope.Text.Ascii.{codes, trim_ascii, is_space}
use tightrope.Text.Hex.{hex_encode, hex_decode, hex_decode_into, hex_nibble, hex_digit}
use tightrope.Text.Hex.RoundTrip.{hex_decode-encode}
use tightrope.Text.Json.{
  escape_json_string, escape_byte, quote_json_string, sanitize_serialized_json,
}
use tightrope.Text.Json.Laws.{sanitize-quote_json_string, sanitize_idem}

abbrev sample : List ℕ
sample = 0 ∷ 255 ∷ 74 ∷ []

sample_hex : hex_encode sample ≡ codes "00ff4a"
unfolding hex_encode hex_digit
sample_hex = refl

mixed_case : hex_decode_into 2 (codes "Ff4A") ≡ some (255 ∷ 74 ∷ [])
unfolding hex_decode_into hex_nibble
mixed_case = refl

bad_digit : hex_decode (codes "0g") ≡ none
unfolding hex_decode hex_nibble
bad_digit = refl

trimmed : trim_ascii (codes " a b ") ≡ codes "a b"
unfolding trim_ascii is_space
trimmed = refl

hex_decode-encode_example : hex_decode (hex_encode sample) ≡ some sample
hex_decode-encode_example = hex_decode-encode sample (omega arith) (λ e. cc)

escaped_quote : quote_json_string (codes "a" ++ 10 ∷ 34 ∷ []) ≡ codes "\"a\\n\\\"\""
unfolding quote_json_string escape_json_string escape_byte
escaped_quote = refl

sanitize-quote_json_string_example :
    sanitize_serialized_json (quote_json_string (10 ∷ []) ++ 44 ∷ [])
    ≡ quote_json_string (10 ∷ []) ++ sanitize_serialized_json (44 ∷ [])
sanitize-quote_json_string_example = sanitize-quote_json_string (10 ∷ []) (44 ∷ [])

sanitize_idem_example :
    sanitize_serialized_json (sanitize_serialized_json (34 ∷ 10 ∷ 34 ∷ []))
    ≡ sanitize_serialized_json (34 ∷ 10 ∷ 34 ∷ [])
sanitize_idem_example = sanitize_idem (34 ∷ 10 ∷ 34 ∷ [])
