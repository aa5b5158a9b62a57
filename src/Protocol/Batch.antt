-- ===== src/Protocol/Batch.antt =====
-- Journal batches on the wire: native/sync/src/sync_protocol.cpp. The LZ4 library is a record of
-- its three calls and what its documentation promises.
pub mod Entry
pub mod RoundTrip
use tightrope.Prelude.{
  ℕ, zero, suc, ◌%◌, ◌≤◌, ◌≡◌, take, Bool, true, false, not, ◌&&◌, if◌then◌else◌, ltb, ◌==◌, List,
  [], ◌∷◌, ◌++◌, Option, none, some, length,
}
use tightrope.Prelude.Int.{ℤ, pos, negsuc}
use tightrope.Wire.{Bytes, Reader, ◌>>=◌, write_le, read_le, read_u8}
use tightrope.Protocol.Handshake.{empty}
use Entry.{JournalWireEntry, to_i32, write_entry, read_entry}

pub record JournalBatchFrame : Type 0 where
  pub from_seq : ℕ
  pub to_seq : ℕ
  pub entries : List JournalWireEntry

-- The calls of LZ4, with the sizes as ints: the bound on the compressed size, and the return value
-- of a call with what the destination holds after it. The laws are lz4.h's: there is no bound for a
-- size that is negative or above LZ4_MAX_INPUT_SIZE, what is written is in the destination, and
-- what was compressed is decompressed to the source.
pub record Lz4 : Type 0 where
  pub compress_bound : ℤ → ℤ
  pub compress_default : Bytes → ℤ → ℤ → ℤ × Bytes
  pub decompress_safe : Bytes → ℤ → ℤ → ℤ × Bytes
  pub bound_range :
      (size : ℤ) (b : ℕ)
      → compress_bound size ≡ pos (suc b)
      → (n : ℕ) × (size ≡ pos n) × (n ≤ 2113929216)
  pub written_within :
      (source out : Bytes) (size capacity : ℤ) (n : ℕ)
      → compress_default source size capacity ≡ (pos n, out)
      → n ≤ length out
  pub decompress-compress :
      (source out : Bytes) (capacity n : ℕ)
      → length source ≤ 2113929216
      → compress_default source (pos (length source)) (pos capacity) ≡ (pos (suc n), out)
      → decompress_safe (take (suc n) out) (pos (suc n)) (pos (length source))
        ≡ (pos (length source), source)

abbrev pub compressed_flag : ℕ
compressed_flag = 1

abbrev pub u32_mod : ℕ
u32_mod = 4294967296

unfoldable pub write_entries : List JournalWireEntry → Bytes
write_entries [] = []
write_entries (entry ∷ entries) = write_entry entry ++ write_entries entries

unfoldable pub batch_payload : JournalBatchFrame → Bytes
batch_payload frame =
    write_le 8 frame.from_seq
    ++ (write_le 8 frame.to_seq
        ++ (write_le 4 (length frame.entries % u32_mod) ++ write_entries frame.entries))

unfoldable pub wire_form : ℕ → Bytes → Bytes → Bytes
wire_form flags payload wire_payload =
    flags
    ∷ (write_le 4 (length payload % u32_mod)
        ++ (write_le 4 (length wire_payload % u32_mod) ++ wire_payload))

-- The compressed form is used if there is one and it is shorter.
abbrev pub choose_form : Bytes → Option Bytes → Bytes
choose_form payload none = wire_form 0 payload payload
choose_form payload (some packed) =
    if ltb (length packed) (length payload)
    then wire_form compressed_flag payload packed
    else wire_form 0 payload payload

unfoldable pub read_entries : ℕ → Reader (List JournalWireEntry)
read_entries zero bytes = some ([], bytes)
read_entries (suc count) bytes = do
  (entry, after) ← read_entry bytes
  (entries, rest) ← read_entries count after
  some (entry ∷ entries, rest)

unfoldable pub parse_payload : Bytes → Option JournalBatchFrame
parse_payload payload = do
  (from, a) ← read_le 8 payload
  (to, b) ← read_le 8 a
  (count, c) ← read_le 4 b
  (entries, rest) ← read_entries count c
  let batch : JournalBatchFrame = record { from_seq = from; to_seq = to; entries = entries }
  if empty rest then some batch else none

-- static_cast<int> of a size.
unfoldable pub as_int : ℕ → ℤ
as_int size = to_i32 (size % u32_mod)

-- out.resize(written), which is not above the size of `out`.
unfoldable pub resized : ℤ × Bytes → Option Bytes
resized (negsuc n, out) = none
resized (pos zero, out) = none
resized (pos (suc n), out) = some (take (suc n) out)

unfoldable pub of_size : ℕ → ℤ × Bytes → Option Bytes
of_size uncompressed_size (negsuc n, out) = none
of_size uncompressed_size (pos written, out) =
    if written == uncompressed_size then some out else none

module _ (lz4 : Lz4) where
  unfoldable pub compress_into : Bytes → ℤ → Option Bytes
  compress_into payload (negsuc n) = none
  compress_into payload (pos zero) = none
  compress_into payload (pos (suc n)) =
      resized (lz4.compress_default payload (as_int (length payload)) (pos (suc n)))

  unfoldable pub compress_lz4 : Bytes → Option Bytes
  compress_lz4 payload = compress_into payload (lz4.compress_bound (as_int (length payload)))

  unfoldable pub decompress_lz4 : Bytes → ℕ → Option Bytes
  decompress_lz4 payload uncompressed_size =
      of_size uncompressed_size
        (lz4.decompress_safe payload (as_int (length payload)) (as_int uncompressed_size))

  unfoldable pub encode_journal_batch : JournalBatchFrame → Bytes
  encode_journal_batch frame =
      choose_form (batch_payload frame) (compress_lz4 (batch_payload frame))

  -- flags & kCompressedFlag
  unfoldable pub unpack : ℕ → ℕ → Bytes → Option Bytes
  unpack flags uncompressed_size payload =
      if not (flags % 2 == 0) then decompress_lz4 payload uncompressed_size else some payload

  unfoldable pub decode_journal_batch : Bytes → Option JournalBatchFrame
  unfolding unpack
  decode_journal_batch bytes = do
    (flags, a) ← read_u8 bytes
    (uncompressed_size, b) ← read_le 4 a
    (payload_size, wire_payload) ← read_le 4 b
    payload ←
        (if payload_size == length wire_payload
          then unpack flags uncompressed_size wire_payload
          else none)
    parse_payload payload
