-- ===== src/Protocol/Tests.antt =====
-- Runs of the replication protocol (native/sync/src/sync_protocol.cpp) at concrete frames, with a
-- toy digest and a toy compressor in the place of libsodium and LZ4.
use tightrope.Prelude.{
  ℕ, zero, suc, ◌<◌, ◌≤◌, ◌≡◌, ◌≢◌, refl, ◌↔◌, ◌⊎◌, true, false, [], ◌∷◌, ◌++◌, some, arith, length,
  if◌then◌else◌, subst, ltb, ◌==◌, leb, take, ap,
}
use tightrope.Prelude.Int.{ℤ, pos, negsuc}
use tightrope.Prelude.Maps.{key_eq, key_eq-eq, key_eq_refl, bytes_ordered}
use tightrope.Wire.{Bytes, AreBytes, write_le}
use tightrope.Protocol.Text.{write_string}
use tightrope.Protocol.Handshake.{
  HandshakeFrame, Sodium, encode_handshake, decode_handshake, sign_handshake,
  validate_handshake_auth, accepted, negotiated, validate_handshake_schema_version,
}
use tightrope.Protocol.Handshake.RoundTrip.{IsWire, decode-encode_handshake}
use tightrope.Protocol.Handshake.Auth.{validate_auth_iff, validate-sign_handshake, digest}
use tightrope.Text
use tightrope.Protocol.Handshake.Schema.{validate_schema_iff}
use tightrope.Protocol.Batch.{
  JournalBatchFrame, Lz4, encode_journal_batch, decode_journal_batch, batch_payload, write_entries,
}
use tightrope.Protocol.Batch.Entry.{
  JournalWireEntry, write_entry, read_entry, read-write_entry, append_string,
}
use tightrope.Protocol.Batch.RoundTrip.{decode-encode_journal_batch}
use tightrope.Protocol.Batch.RoundTrip

abbrev peer : HandshakeFrame
peer = record {
  site_id = 7;
  schema_version = 3;
  last_recv_seq_from_peer = 41;
  auth_key_id = 107 ∷ [];
  auth_hmac_hex = [];
}

peer-IsWire : IsWire peer
peer-IsWire = omega arith

decode-encode_handshake_example : decode_handshake (encode_handshake peer) ≡ some peer
decode-encode_handshake_example = decode-encode_handshake peer peer-IsWire

-- 32 bytes that depend on the size of the message only.
abbrev filled : ℕ → ℕ → Bytes
filled zero b = []
filled (suc n) b = b ∷ filled n b

abbrev toy_digest : Bytes → Bytes → Bytes
toy_digest key message = filled 32 5

verify_correct : (a b : Bytes) → (key_eq a b ≡ true) ↔ (a ≡ b)
verify_correct a b = (key_eq-eq a b, λ e. subst (λ c. key_eq a c ≡ true) e (key_eq_refl a))

toy_size : (key message : Bytes) → length (toy_digest key message) ≡ 32
toy_size key message = refl

toy_bytes : (key message : Bytes) → AreBytes (toy_digest key message)
toy_bytes key message = omega arith

pub toy_sodium : Sodium
toy_sodium = record {
  hmac_sha256 = toy_digest;
  verify_32 = key_eq;
  hmac_size = toy_size;
  hmac_bytes = toy_bytes;
  verify_iff = verify_correct;
}

secret : Bytes
secret = 115 ∷ []

secret-ne : secret ≢ []
unfolding secret
secret-ne e = cc

validate-sign_handshake_example :
    validate_handshake_auth toy_sodium (sign_handshake toy_sodium peer secret) secret true
    ≡ accepted
validate-sign_handshake_example = validate-sign_handshake toy_sodium peer secret true secret-ne

validate_auth_iff_example : (validate_handshake_auth toy_sodium peer secret false ≡ accepted) ↔ (
    ((peer.auth_hmac_hex ≡ []) × (false ≡ false))
    ⊎ ((peer.auth_hmac_hex ≢ [])
        × (secret ≢ [])
        × (Text.Hex.hex_decode_into 32 peer.auth_hmac_hex ≡ some (digest toy_sodium peer secret))))
validate_auth_iff_example = validate_auth_iff toy_sodium peer secret false

newer_peer : validate_handshake_schema_version peer 2 true 1 ≡ negotiated 2
unfolding validate_handshake_schema_version
newer_peer = refl

validate_schema_iff_example :
    (validate_handshake_schema_version peer 2 true 1 ≡ negotiated 2)
    ↔ ((0 < 1) × (1 ≤ 2) × (1 ≤ 3) × ((◌≡◌ {A = ℕ} 3 2) ⊎ (true ≡ true)) × (◌≡◌ {A = ℕ} 2 2))
validate_schema_iff_example = (validate_schema_iff peer 2 1 2 true).0

abbrev entry : JournalWireEntry
entry = record {
  seq = 9;
  hlc_wall = 1000;
  hlc_counter = 1;
  site_id = 7;
  table_name = 116 ∷ [];
  row_pk = 49 ∷ [];
  op = 85 ∷ [];
  old_values = [];
  new_values = 120 ∷ [];
  checksum = 99 ∷ [];
  applied = negsuc 0;
  batch_id = [];
}

abbrev batch : JournalBatchFrame
batch = record { from_seq = 256; to_seq = 9; entries = entry ∷ [] }

batch-IsWire : RoundTrip.IsWire batch
unfolding batch_payload write_entries write_entry append_string write_string write_le
batch-IsWire = record {
  from_fits = omega arith;
  to_fits = omega arith;
  count_fits = omega arith;
  size_fits = omega arith;
  entries_fit = omega arith;
}

-- A compressor that leaves out a leading zero.
abbrev strip : Bytes → Bytes
strip [] = []
strip (b ∷ bytes) = if b == 0 then bytes else b ∷ bytes

abbrev unstrip : Bytes → ℕ → Bytes
unstrip packed size = if ltb (length packed) size then 0 ∷ packed else packed

abbrev toy_bound : ℤ → ℤ
toy_bound (negsuc n) = pos 0
toy_bound (pos n) = if leb n 2113929216 then pos (suc n) else pos 0

abbrev toy_compress : Bytes → ℤ → ℤ → ℤ × Bytes
toy_compress source size capacity = (pos (length (strip source)), strip source)

abbrev toy_decompress : Bytes → ℤ → ℤ → ℤ × Bytes
toy_decompress packed size (negsuc n) = (negsuc 0, [])
toy_decompress packed size (pos capacity) =
    (pos (length (unstrip packed capacity)), unstrip packed capacity)

pub toy_bound_range :
    (size : ℤ) (b : ℕ) → toy_bound size ≡ pos (suc b) → (n : ℕ) × (size ≡ pos n) × (n ≤ 2113929216)
toy_bound_range (negsuc n) b h = absurd (ground arith)
toy_bound_range (pos n) b h = (n, refl, ground arith)

pub unstrip-strip : (source : Bytes) → unstrip (strip source) (length source) ≡ source
unstrip-strip [] = refl
unstrip-strip (b ∷ bytes) = ground arith

take_all : (bytes : Bytes) → take (length bytes) bytes ≡ bytes
take_all [] = refl
take_all (b ∷ bytes) = ap (λ t. b ∷ t) (take_all bytes)

pub toy_within :
    (source out : Bytes) (size capacity : ℤ) (n : ℕ)
    → toy_compress source size capacity ≡ (pos n, out)
    → n ≤ length out
toy_within source out size capacity n h = ground (arith, h)

pub toy_back :
    (source out : Bytes) (capacity n : ℕ)
    → length source ≤ 2113929216
    → toy_compress source (pos (length source)) (pos capacity) ≡ (pos (suc n), out)
    → toy_decompress (take (suc n) out) (pos (suc n)) (pos (length source))
      ≡ (pos (length source), source)
toy_back source out capacity n fits h =
    let all : take (suc n) out ≡ strip source = ground (arith, h, take_all (strip source)) in
    rw all (rw (unstrip-strip source) refl)

abbrev pub toy_lz4 : Lz4
toy_lz4 = record {
  compress_bound = toy_bound;
  compress_default = toy_compress;
  decompress_safe = toy_decompress;
  bound_range = toy_bound_range;
  written_within = toy_within;
  decompress-compress = toy_back;
}

read-write_entry_example : read_entry (write_entry entry ++ 1 ∷ []) ≡ some (entry, 1 ∷ [])
read-write_entry_example = read-write_entry entry (1 ∷ []) (omega arith)

decode-encode_journal_batch_example :
    decode_journal_batch toy_lz4 (encode_journal_batch toy_lz4 batch) ≡ some batch
decode-encode_journal_batch_example = decode-encode_journal_batch toy_lz4 batch batch-IsWire
