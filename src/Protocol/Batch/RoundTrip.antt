-- ===== src/Protocol/Batch/RoundTrip.antt =====
-- A journal batch (native/sync/src/sync_protocol.cpp) is read back from its wire form.
use tightrope.Prelude.{
  ℕ, zero, suc, ◌%◌, ◌<◌, ◌≤◌, take, length-take, ap, sym, ◌∙◌, ◌≡◌, refl, List, [], ◌∷◌, ◌++◌,
  some, arith, length, append_assoc, append-nil, inl, inr, Option-cases,
}
use tightrope.Prelude.Int.{ℤ, pos, negsuc}
use tightrope.Wire.{Bytes, ◌>>=◌, write_le, read_le, read_u8}
use tightrope.Wire.RoundTrip.{read-write_le}
use tightrope.Protocol.Batch.{
  JournalBatchFrame, Lz4, write_entries, batch_payload, wire_form, read_entries, parse_payload,
  encode_journal_batch, decode_journal_batch, unpack, compressed_flag, as_int, resized, of_size,
  compress_into, compress_lz4, decompress_lz4,
}
use tightrope.Protocol.Batch.Entry
use tightrope.Protocol.Batch.Entry.{
  JournalWireEntry, to_i32, write_entry, read_entry, read-write_entry,
}

abbrev pub AllWire : List JournalWireEntry → Type 0
AllWire [] = Unit {0}
AllWire (e ∷ es) = Entry.IsWire e × AllWire es

-- Every field fits, and the payload's size fits its 32-bit field.
pub record IsWire (f : JournalBatchFrame) : Type 0 where
  pub from_fits : f.from_seq < 18446744073709551616
  pub to_fits : f.to_seq < 18446744073709551616
  pub count_fits : length f.entries < 4294967296
  pub size_fits : length (batch_payload f) < 4294967296
  pub entries_fit : AllWire f.entries

read-write_entries :
    (es : List JournalWireEntry) (rest : Bytes)
    → AllWire es
    → read_entries (length es) (write_entries es ++ rest) ≡ some (es, rest)
unfolding read_entries write_entries
read-write_entries [] rest w = refl
read-write_entries (e ∷ es) rest w = ground (
  arith,
  append_assoc (write_entry e) (write_entries es) rest,
  read-write_entry e (write_entries es ++ rest) w.0,
  read-write_entries es rest w.1,
)

module _ (f : JournalBatchFrame) (w : IsWire f) where
  read_from : (r : Bytes) → read_le 8 (write_le 8 f.from_seq ++ r) ≡ some (f.from_seq, r)
  read_from r = read-write_le 8 f.from_seq r w.from_fits

  read_to : (r : Bytes) → read_le 8 (write_le 8 f.to_seq ++ r) ≡ some (f.to_seq, r)
  read_to r = read-write_le 8 f.to_seq r w.to_fits

  parse-batch_payload : parse_payload (batch_payload f) ≡ some f
  unfolding parse_payload batch_payload
  parse-batch_payload = ground (
    arith,
    read_from (
        write_le 8 f.to_seq
        ++ (write_le 4 (length f.entries % 4294967296) ++ write_entries f.entries)),
    read_to (write_le 4 (length f.entries % 4294967296) ++ write_entries f.entries),
    w.count_fits,
    read-write_le 4 (length f.entries % 4294967296) (write_entries f.entries),
    append-nil (write_entries f.entries),
    read-write_entries f.entries [] w.entries_fit,
  )

-- A wire form is taken apart into its flags, sizes and payload.
decode-wire_form :
    (lz4 : Lz4) (flags : ℕ) (payload wire : Bytes)
    → length payload < 4294967296
    → length wire < 4294967296
    → decode_journal_batch lz4 (wire_form flags payload wire)
      ≡ (unpack lz4 flags (length payload) wire >>= parse_payload)
unfolding decode_journal_batch wire_form read_u8
decode-wire_form lz4 flags payload wire h k = ground (
  arith,
  read-write_le 4 (length payload % 4294967296) (write_le 4 (length wire % 4294967296) ++ wire),
  read-write_le 4 (length wire % 4294967296) wire,
)

resized-some :
    (r : ℤ × Bytes) (packed : Bytes)
    → resized r ≡ some packed
    → (n : ℕ) × (out : Bytes) × (r ≡ (pos (suc n), out)) × (packed ≡ take (suc n) out)
unfolding resized
resized-some (negsuc n, out) packed h = absurd (ground arith)
resized-some (pos zero, out) packed h = absurd (ground arith)
resized-some (pos (suc n), out) packed h = (n, out, refl, ground arith)

compress_into-some :
    (lz4 : Lz4) (payload packed : Bytes) (size : ℤ)
    → compress_into lz4 payload size ≡ some packed
    → (b : ℕ) × (size ≡ pos (suc b))
      × (resized (lz4.compress_default payload (as_int (length payload)) (pos (suc b)))
          ≡ some packed)
unfolding compress_into
compress_into-some lz4 payload packed (negsuc n) h = absurd (ground arith)
compress_into-some lz4 payload packed (pos zero) h = absurd (ground arith)
compress_into-some lz4 payload packed (pos (suc n)) h = (n, refl, h)

as_int-pos : (size : ℕ) → size < 2147483648 → as_int size ≡ pos size
unfolding as_int to_i32
as_int-pos size h = ground (arith, h)

-- A size of 32 bits that is cast to an int in LZ4's range is that int.
as_int-range :
    (size n : ℕ) → size < 4294967296 → as_int size ≡ pos n → n ≤ 2113929216 → size ≤ 2113929216
unfolding as_int to_i32
as_int-range size n h e k = ground (arith, h, e, k)

-- What compress_lz4 makes shorter, decompress_lz4 gives back.
decompress-compress_lz4 :
    (lz4 : Lz4) (payload packed : Bytes)
    → length payload < 4294967296
    → length packed < length payload
    → compress_lz4 lz4 payload ≡ some packed
    → decompress_lz4 lz4 packed (length payload) ≡ some payload
unfolding compress_lz4 decompress_lz4 of_size
decompress-compress_lz4 lz4 payload packed h shorter e =
    let (b, bound, into) =
      compress_into-some lz4 payload packed (lz4.compress_bound (as_int (length payload))) e in
    let (m, is_m, m_fits) = lz4.bound_range (as_int (length payload)) b bound in
    let fits = as_int-range (length payload) m h is_m m_fits in
    let size : as_int (length payload) ≡ pos (length payload) =
      as_int-pos (length payload) (omega (arith, fits)) in
    let (n, out, written, is_packed) =
      resized-some (lz4.compress_default payload (as_int (length payload)) (pos (suc b))) packed
        into in
    let within =
      lz4.written_within payload out (as_int (length payload)) (pos (suc b)) (suc n) written in
    let whole : length packed ≡ suc n =
      ap length is_packed ∙ (omega (arith, length-take (suc n) out, within)) in
    let packed_size : as_int (length packed) ≡ pos (suc n) =
      as_int-pos (length packed) (omega (arith, fits, shorter)) ∙ ap pos whole in
    let back =
      lz4.decompress-compress payload out (suc b) n fits
        (sym (ap (λ z. lz4.compress_default payload z (pos (suc b))) size) ∙ written) in
    let decompressed : lz4.decompress_safe packed (as_int (length packed)) (as_int (length payload))
        ≡ (pos (length payload), payload) =
      rw (packed_size, size, is_packed) back in
    rw decompressed (ground arith)

-- With an LZ4 that decompresses what it compressed, a batch whose fields fit is decoded from its
-- encoding, compressed or not.
pub decode-encode_journal_batch :
    (lz4 : Lz4) (f : JournalBatchFrame)
    → IsWire f
    → decode_journal_batch lz4 (encode_journal_batch lz4 f) ≡ some f
unfolding encode_journal_batch unpack
decode-encode_journal_batch lz4 f w = elim (Option-cases (compress_lz4 lz4 (batch_payload f))) [
  | inl e ↦ ground (
    arith,
    w.size_fits,
    decode-wire_form lz4 0 (batch_payload f) (batch_payload f),
    parse-batch_payload f w,
  )
  | inr (packed, e) ↦ ground (
    arith,
    w.size_fits,
    decode-wire_form lz4 0 (batch_payload f) (batch_payload f),
    decode-wire_form lz4 compressed_flag (batch_payload f) packed,
    decompress-compress_lz4 lz4 (batch_payload f) packed,
    parse-batch_payload f w,
  )
]
