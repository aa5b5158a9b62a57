-- ===== src/Protocol/Handshake/RoundTrip.antt =====
-- The wire form of the handshake (native/sync/src/sync_protocol.cpp) read back.
use tightrope.Prelude.{◌<◌, ◌≡◌, refl, false, [], ◌++◌, some, arith, append_assoc, append-nil}
use tightrope.Wire.{Bytes, write_le, read_le}
use tightrope.Wire.RoundTrip.{read-write_le}
use tightrope.Protocol.Text.{Fits, write_string-Fits, read-write_string, string_bytes}
use tightrope.Protocol.Handshake.{
  HandshakeFrame, encode_handshake, decode_handshake, fixed_fields, empty,
}

-- Every field fits its place in the frame.
pub record IsWire (f : HandshakeFrame) : Type 0 where
  pub site_fits : f.site_id < 4294967296
  pub schema_fits : f.schema_version < 4294967296
  pub seq_fits : f.last_recv_seq_from_peer < 18446744073709551616
  pub key_fits : Fits f.auth_key_id
  pub hmac_fits : Fits f.auth_hmac_hex

empty-string_bytes : (value rest : Bytes) → empty (string_bytes value ++ rest) ≡ false
unfolding write_le
empty-string_bytes value rest = refl

module _ (f : HandshakeFrame) (w : IsWire f) where
  read_site : (rest : Bytes) → read_le 4 (write_le 4 f.site_id ++ rest) ≡ some (f.site_id, rest)
  read_site rest = read-write_le 4 f.site_id rest w.site_fits

  read_schema :
      (rest : Bytes)
      → read_le 4 (write_le 4 f.schema_version ++ rest) ≡ some (f.schema_version, rest)
  read_schema rest = read-write_le 4 f.schema_version rest w.schema_fits

  read_seq :
      (rest : Bytes)
      → read_le 8 (write_le 8 f.last_recv_seq_from_peer ++ rest)
        ≡ some (f.last_recv_seq_from_peer, rest)
  read_seq rest = read-write_le 8 f.last_recv_seq_from_peer rest w.seq_fits

  fixed_fields-append :
      (rest : Bytes)
      → fixed_fields f ++ rest
        ≡ write_le 4 f.site_id
          ++ (write_le 4 f.schema_version ++ (write_le 8 f.last_recv_seq_from_peer ++ rest))
  fixed_fields-append rest = simp append_assoc

  -- The two auth fields as they are written.
  abbrev auth : Bytes
  auth = string_bytes f.auth_key_id ++ string_bytes f.auth_hmac_hex

  decode_with_auth : decode_handshake (fixed_fields f ++ auth) ≡ some f
  unfolding decode_handshake
  decode_with_auth = ground (
    arith,
    fixed_fields-append auth,
    read_site (write_le 4 f.schema_version ++ (write_le 8 f.last_recv_seq_from_peer ++ auth)),
    read_schema (write_le 8 f.last_recv_seq_from_peer ++ auth),
    read_seq auth,
    empty-string_bytes f.auth_key_id (string_bytes f.auth_hmac_hex),
    read-write_string f.auth_key_id (string_bytes f.auth_hmac_hex),
    read-write_string f.auth_hmac_hex [],
    append-nil (string_bytes f.auth_hmac_hex),
  )

  decode_without_auth :
      f.auth_key_id ≡ [] → f.auth_hmac_hex ≡ [] → decode_handshake (fixed_fields f) ≡ some f
  unfolding decode_handshake
  decode_without_auth h k = ground (
    arith,
    fixed_fields-append [],
    append-nil (fixed_fields f),
    read_site (write_le 4 f.schema_version ++ (write_le 8 f.last_recv_seq_from_peer ++ [])),
    read_schema (write_le 8 f.last_recv_seq_from_peer ++ []),
    read_seq [],
  )

-- A frame whose fields fit is decoded from its encoding, signed or not.
pub decode-encode_handshake :
    (f : HandshakeFrame) → IsWire f → decode_handshake (encode_handshake f) ≡ some f
unfolding encode_handshake
decode-encode_handshake f w = ground (
  arith,
  write_string-Fits f.auth_key_id w.key_fits,
  write_string-Fits f.auth_hmac_hex w.hmac_fits,
  decode_with_auth f w,
  decode_without_auth f w,
)
