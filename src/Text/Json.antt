-- ===== src/Text/Json.antt =====
-- JSON string escaping and the repair of serialized JSON: native/core/text/src/json_escape.cpp.
pub mod Laws
use tightrope.Prelude.{
  ℕ, ◌+◌, ◌-◌, ◌/◌, ◌%◌, Bool, true, false, if◌then◌else◌, ltb, ◌==◌, List, [], ◌∷◌, ◌++◌,
}

unfoldable pub hex_digit : ℕ → ℕ
hex_digit value = if ltb value 10 then 48 + value else 97 + (value - 10)

abbrev pub quote_mark : ℕ
quote_mark = 34

abbrev pub backslash : ℕ
backslash = 92

abbrev pub escape_pair : ℕ → List ℕ
escape_pair c = backslash ∷ c ∷ []

unfoldable pub append_escaped_control : ℕ → List ℕ
unfolding hex_digit
append_escaped_control ch =
    if ch == 8
    then escape_pair b'b'
    else if ch == 12
    then escape_pair b'f'
    else if ch == 10
    then escape_pair b'n'
    else if ch == 13
    then escape_pair b'r'
    else if ch == 9
    then escape_pair b't'
    else (backslash ∷ b'u' ∷ b'0' ∷ b'0' ∷ hex_digit (ch / 16 % 16) ∷ hex_digit (ch % 16) ∷ [])

-- One round of the loop of escape_json_string: what it appends for a byte.
unfoldable pub escape_byte : ℕ → List ℕ
unfolding append_escaped_control
escape_byte ch =
    if ch == quote_mark
    then escape_pair quote_mark
    else if ch == backslash
    then escape_pair backslash
    else if ch == 10
    then escape_pair b'n'
    else if ch == 13
    then escape_pair b'r'
    else if ch == 9
    then escape_pair b't'
    else if ltb ch 32
    then append_escaped_control ch
    else ch ∷ []

unfoldable pub escape_json_string : List ℕ → List ℕ
escape_json_string [] = []
escape_json_string (ch ∷ value) = escape_byte ch ++ escape_json_string value

unfoldable pub quote_json_string : List ℕ → List ℕ
quote_json_string value = quote_mark ∷ (escape_json_string value ++ quote_mark ∷ [])

-- The two flags of the loop: outside a string, inside one, behind a backslash inside one.
pub data Scan : Type 0 where
  outside inside escaped : Scan

abbrev pub after_inside : ℕ → Scan
after_inside ch = if ch == backslash then escaped else if ch == quote_mark then outside else inside

unfoldable pub scan_next : Scan → ℕ → Scan
scan_next outside ch = if ch == quote_mark then inside else outside
scan_next inside ch = after_inside ch
scan_next escaped ch = inside

unfoldable pub scan_emit : Scan → ℕ → List ℕ
unfolding append_escaped_control
scan_emit outside ch = ch ∷ []
scan_emit inside ch = if ltb ch 32 then append_escaped_control ch else ch ∷ []
scan_emit escaped ch = ch ∷ []

unfoldable pub sanitize_from : Scan → List ℕ → List ℕ
sanitize_from state [] = []
sanitize_from state (ch ∷ json) = scan_emit state ch ++ sanitize_from (scan_next state ch) json

unfoldable pub sanitize_serialized_json : List ℕ → List ℕ
sanitize_serialized_json json = sanitize_from outside json
