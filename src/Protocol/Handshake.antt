-- ===== src/Protocol/Handshake.antt =====
-- The handshake of native/sync/src/sync_protocol.cpp: its wire form, its signature and its
-- validation. HMAC-SHA256 and the constant-time comparison are libsodium's and enter as a record.
pub mod RoundTrip
pub mod Auth
pub mod Schema
use Prim.Native.Nat.{min}
use tightrope.Prelude.{
  ℕ, zero, suc, ◌≡◌, ◌↔◌, Bool, true, false, not, ◌||◌, ◌&&◌, if◌then◌else◌, ltb, ◌==◌, List, [],
  ◌∷◌, ◌++◌, Option, none, some, length,
}
use tightrope.Wire.{Bytes, AreBytes, ◌>>=◌, write_le, read_le}
use tightrope.Text.Hex.{hex_encode, hex_decode_into}
use tightrope.Protocol.Text.{write_string, read_string}

pub record HandshakeFrame : Type 0 where
  pub site_id : ℕ
  pub schema_version : ℕ
  pub last_recv_seq_from_peer : ℕ
  pub auth_key_id : Bytes
  pub auth_hmac_hex : Bytes

abbrev pub empty : Bytes → Bool
empty [] = true
empty (b ∷ bytes) = false

abbrev pub fixed_fields : HandshakeFrame → Bytes
fixed_fields frame =
    write_le 4 frame.site_id
    ++ (write_le 4 frame.schema_version ++ write_le 8 frame.last_recv_seq_from_peer)

abbrev both : Option Bytes → Option Bytes → Option Bytes
both x y = do a ← x; b ← y; some (a ++ b)

abbrev or_nothing : Option Bytes → Bytes
or_nothing none = []
or_nothing (some bytes) = bytes

-- An auth field that is too large makes the whole encoding empty.
unfoldable pub encode_handshake : HandshakeFrame → Bytes
encode_handshake frame =
    if not (empty frame.auth_key_id) || not (empty frame.auth_hmac_hex)
    then or_nothing (do
      auth ← both (write_string frame.auth_key_id) (write_string frame.auth_hmac_hex)
      some (fixed_fields frame ++ auth))
    else fixed_fields frame

-- The auth fields are read if bytes are left, and then nothing may be left behind them.
abbrev pub decode_auth : ℕ → ℕ → ℕ → Bytes → Option HandshakeFrame
decode_auth site schema seq rest =
    if empty rest
    then some (record {
      site_id = site;
      schema_version = schema;
      last_recv_seq_from_peer = seq;
      auth_key_id = [];
      auth_hmac_hex = [];
    })
    else do
      (key_id, after) ← read_string rest
      (hmac_hex, left) ← read_string after
      let frame : HandshakeFrame = record {
        site_id = site;
        schema_version = schema;
        last_recv_seq_from_peer = seq;
        auth_key_id = key_id;
        auth_hmac_hex = hmac_hex;
      }
      if empty left then some frame else none

unfoldable pub decode_handshake : Bytes → Option HandshakeFrame
decode_handshake bytes = do
  (site, a) ← read_le 4 bytes
  (schema, b) ← read_le 4 a
  (seq, rest) ← read_le 8 b
  decode_auth site schema seq rest

-- The result of write_string is not looked at here: a key id that is too large is left out.
unfoldable pub handshake_auth_payload : HandshakeFrame → Bytes
handshake_auth_payload frame = fixed_fields frame ++ or_nothing (write_string frame.auth_key_id)

-- crypto_auth_hmacsha256_* (key, message) and crypto_verify_32, with what libsodium documents.
pub record Sodium : Type 0 where
  pub hmac_sha256 : Bytes → Bytes → Bytes
  pub verify_32 : Bytes → Bytes → Bool
  pub hmac_size : (key message : Bytes) → length (hmac_sha256 key message) ≡ 32
  pub hmac_bytes : (key message : Bytes) → AreBytes (hmac_sha256 key message)
  pub verify_iff : (a b : Bytes) → (verify_32 a b ≡ true) ↔ (a ≡ b)

pub data AuthError : Type 0 where
  missing_hmac no_secret malformed_hmac not_computed invalid_digest hmac_mismatch : AuthError

pub data AuthResult : Type 0 where
  accepted : AuthResult
  rejected : AuthError → AuthResult

module _ (sodium : Sodium) where
  unfoldable pub compute_handshake_hmac_hex : HandshakeFrame → Bytes → Option Bytes
  compute_handshake_hmac_hex frame secret =
      if empty secret
      then none
      else some (hex_encode (sodium.hmac_sha256 secret (handshake_auth_payload frame)))

  unfoldable pub sign_handshake : HandshakeFrame → Bytes → HandshakeFrame
  unfolding compute_handshake_hmac_hex
  sign_handshake frame secret = elim (compute_handshake_hmac_hex frame secret) [
    | some signature ↦ record frame { auth_hmac_hex = signature }
    | none ↦ record frame { auth_hmac_hex = [] }
  ]

  abbrev check_digest : Bytes → Option Bytes → AuthResult
  check_digest provided none = rejected not_computed
  check_digest provided (some expected_hex) = elim (hex_decode_into 32 expected_hex) [
    | none ↦ rejected invalid_digest
    | some expected ↦
        if sodium.verify_32 provided expected then accepted else rejected hmac_mismatch
  ]

  unfoldable pub validate_handshake_auth : HandshakeFrame → Bytes → Bool → AuthResult
  unfolding compute_handshake_hmac_hex
  validate_handshake_auth remote secret require_auth =
      if empty remote.auth_hmac_hex
      then (if require_auth then rejected missing_hmac else accepted)
      else if empty secret
      then rejected no_secret
      else elim (hex_decode_into 32 remote.auth_hmac_hex) [
        | none ↦ rejected malformed_hmac
        | some provided ↦ check_digest provided (compute_handshake_hmac_hex remote secret)
      ]

pub data SchemaError : Type 0 where
  no_minimum local_too_old peer_too_old mismatch no_compatible : SchemaError

pub data SchemaResult : Type 0 where
  negotiated : ℕ → SchemaResult
  incompatible : SchemaError → SchemaResult

unfoldable pub validate_handshake_schema_version : HandshakeFrame → ℕ → Bool → ℕ → SchemaResult
validate_handshake_schema_version remote local allow_downgrade min_supported =
    if min_supported == 0
    then incompatible no_minimum
    else if ltb local min_supported
    then incompatible local_too_old
    else if ltb remote.schema_version min_supported
    then incompatible peer_too_old
    else if remote.schema_version == local
    then negotiated local
    else if not allow_downgrade
    then incompatible mismatch
    else if ltb (min local remote.schema_version) min_supported
    then incompatible no_compatible
    else negotiated (min local remote.schema_version)
