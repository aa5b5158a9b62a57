-- ===== src/Protocol/Text.antt =====
-- write_string and read_string of native/sync/src/sync_protocol.cpp: a 32-bit size, low byte
-- first, and the bytes.
use tightrope.Prelude.{
  ℕ, ◌<◌, ◌≡◌, if◌then◌else◌, ltb, ◌++◌, Option, none, some, arith, length, append_assoc,
}
use tightrope.Wire.{Bytes, Reader, ◌>>=◌, write_le, read_le, read_bytes}
use tightrope.Wire.RoundTrip.{read-write_le, read_bytes-append}

abbrev pub u32_max : ℕ
u32_max = 4294967295

-- What is appended to the output; `none` is the source's false, with nothing appended.
unfoldable pub write_string : Bytes → Option Bytes
write_string value =
    if ltb u32_max (length value) then none else some (write_le 4 (length value) ++ value)

unfoldable pub read_string : Reader Bytes
read_string bytes = do (size, body) ← read_le 4 bytes; read_bytes size body

-- The text fits its size field.
abbrev pub Fits : Bytes → Type 0
Fits value = length value < 4294967296

-- The bytes of a text that fits.
abbrev pub string_bytes : Bytes → Bytes
string_bytes value = write_le 4 (length value) ++ value

pub write_string-Fits :
    (value : Bytes) → Fits value → write_string value ≡ some (string_bytes value)
unfolding write_string
write_string-Fits value h = ground arith

pub read-write_string :
    (value rest : Bytes)
    → Fits value
    → read_string (string_bytes value ++ rest) ≡ some (value, rest)
unfolding read_string
read-write_string value rest h = ground (
  arith,
  append_assoc (write_le 4 (length value)) value rest,
  read-write_le 4 (length value) (value ++ rest),
  read_bytes-append value rest,
)
