-- ===== src/Protocol/Batch/Entry.antt =====
-- One journal entry on the wire (native/sync/src/sync_protocol.cpp). The int `applied` travels as
-- its 32-bit two's complement.
use tightrope.Prelude.{
  ℕ, ◌-◌, ◌%◌, ◌<◌, ◌≤◌, ◌≡◌, if◌then◌else◌, ltb, [], ◌++◌, none, some, arith, append_assoc,
}
use tightrope.Prelude.Int.{ℤ, pos, negsuc, pos_part, neg_part}
use tightrope.Wire.{Bytes, Reader, ◌>>=◌, write_le, read_le}
use tightrope.Wire.RoundTrip.{read-write_le}
use tightrope.Protocol.Text.{Fits, write_string, read_string, write_string-Fits, read-write_string}

pub record JournalWireEntry : Type 0 where
  pub seq : ℕ
  pub hlc_wall : ℕ
  pub hlc_counter : ℕ
  pub site_id : ℕ
  pub table_name : Bytes
  pub row_pk : Bytes
  pub op : Bytes
  pub old_values : Bytes
  pub new_values : Bytes
  pub checksum : Bytes
  pub applied : ℤ
  pub batch_id : Bytes

-- static_cast between int32 and uint32.
unfoldable pub to_u32 : ℤ → ℕ
to_u32 (pos n) = n % 4294967296
to_u32 (negsuc n) = 4294967295 - n % 4294967296

unfoldable pub to_i32 : ℕ → ℤ
to_i32 raw = if ltb raw 2147483648 then pos raw else negsuc (4294967295 - raw)

-- write_string whose result is not looked at.
unfoldable pub append_string : Bytes → Bytes
append_string value = elim (write_string value) [ none ↦ [] | some bytes ↦ bytes ]

unfoldable pub write_entry : JournalWireEntry → Bytes
unfolding to_u32 append_string
write_entry e =
    write_le 8 e.seq
    ++ (write_le 8 e.hlc_wall
        ++ (write_le 4 e.hlc_counter
            ++ (write_le 4 e.site_id
                ++ (append_string e.table_name
                    ++ (append_string e.row_pk
                        ++ (append_string e.op
                            ++ (append_string e.old_values
                                ++ (append_string e.new_values
                                    ++ (append_string e.checksum
                                        ++ (write_le 4 (to_u32 e.applied)
                                            ++ append_string e.batch_id))))))))))

unfoldable pub read_entry : Reader JournalWireEntry
unfolding to_i32
read_entry bytes = do
  (seq, a) ← read_le 8 bytes
  (wall, b) ← read_le 8 a
  (counter, c) ← read_le 4 b
  (site, d) ← read_le 4 c
  (table, e) ← read_string d
  (pk, f) ← read_string e
  (op, g) ← read_string f
  (old, h) ← read_string g
  (new, i) ← read_string h
  (sum, j) ← read_string i
  (raw, k) ← read_le 4 j
  (batch, rest) ← read_string k
  let entry : JournalWireEntry = record {
    seq = seq;
    hlc_wall = wall;
    hlc_counter = counter;
    site_id = site;
    table_name = table;
    row_pk = pk;
    op = op;
    old_values = old;
    new_values = new;
    checksum = sum;
    applied = to_i32 raw;
    batch_id = batch;
  }
  some (entry, rest)

-- Every field fits its place on the wire.
pub record IsWire (e : JournalWireEntry) : Type 0 where
  pub seq_fits : e.seq < 18446744073709551616
  pub wall_fits : e.hlc_wall < 18446744073709551616
  pub counter_fits : e.hlc_counter < 4294967296
  pub site_fits : e.site_id < 4294967296
  pub table_fits : Fits e.table_name
  pub pk_fits : Fits e.row_pk
  pub op_fits : Fits e.op
  pub old_fits : Fits e.old_values
  pub new_fits : Fits e.new_values
  pub checksum_fits : Fits e.checksum
  pub applied_fits : (pos_part e.applied < 2147483648) × (neg_part e.applied ≤ 2147483648)
  pub batch_fits : Fits e.batch_id

to_i32-to_u32 :
    (a : ℤ)
    → (pos_part a < 2147483648) × (neg_part a ≤ 2147483648)
    → (to_i32 (to_u32 a) ≡ a) × (to_u32 a < 4294967296)
unfolding to_i32 to_u32
to_i32-to_u32 (pos n) h = ground arith
to_i32-to_u32 (negsuc n) h = ground arith

read-append_string :
    (value rest : Bytes)
    → Fits value
    → read_string (append_string value ++ rest) ≡ some (value, rest)
unfolding append_string
read-append_string value rest h =
    ground (arith, write_string-Fits value h, read-write_string value rest h)

module _ (e : JournalWireEntry) (w : IsWire e) where
  read_seq : (r : Bytes) → read_le 8 (write_le 8 e.seq ++ r) ≡ some (e.seq, r)
  read_seq r = read-write_le 8 e.seq r w.seq_fits

  read_wall : (r : Bytes) → read_le 8 (write_le 8 e.hlc_wall ++ r) ≡ some (e.hlc_wall, r)
  read_wall r = read-write_le 8 e.hlc_wall r w.wall_fits

  read_counter : (r : Bytes) → read_le 4 (write_le 4 e.hlc_counter ++ r) ≡ some (e.hlc_counter, r)
  read_counter r = read-write_le 4 e.hlc_counter r w.counter_fits

  read_site : (r : Bytes) → read_le 4 (write_le 4 e.site_id ++ r) ≡ some (e.site_id, r)
  read_site r = read-write_le 4 e.site_id r w.site_fits

  read_table : (r : Bytes) → read_string (append_string e.table_name ++ r) ≡ some (e.table_name, r)
  read_table r = read-append_string e.table_name r w.table_fits

  read_pk : (r : Bytes) → read_string (append_string e.row_pk ++ r) ≡ some (e.row_pk, r)
  read_pk r = read-append_string e.row_pk r w.pk_fits

  read_op : (r : Bytes) → read_string (append_string e.op ++ r) ≡ some (e.op, r)
  read_op r = read-append_string e.op r w.op_fits

  read_old : (r : Bytes) → read_string (append_string e.old_values ++ r) ≡ some (e.old_values, r)
  read_old r = read-append_string e.old_values r w.old_fits

  read_new : (r : Bytes) → read_string (append_string e.new_values ++ r) ≡ some (e.new_values, r)
  read_new r = read-append_string e.new_values r w.new_fits

  read_checksum : (r : Bytes) → read_string (append_string e.checksum ++ r) ≡ some (e.checksum, r)
  read_checksum r = read-append_string e.checksum r w.checksum_fits

  read_applied :
      (r : Bytes) → read_le 4 (write_le 4 (to_u32 e.applied) ++ r) ≡ some (to_u32 e.applied, r)
  read_applied r = read-write_le 4 (to_u32 e.applied) r (to_i32-to_u32 e.applied w.applied_fits).1

  read_batch : (r : Bytes) → read_string (append_string e.batch_id ++ r) ≡ some (e.batch_id, r)
  read_batch r = read-append_string e.batch_id r w.batch_fits

-- The bytes of an entry with what follows, bracketed as the reader takes them.
abbrev entry_before : JournalWireEntry → Bytes → Bytes
entry_before e rest =
    write_le 8 e.seq
    ++ (write_le 8 e.hlc_wall
        ++ (write_le 4 e.hlc_counter
            ++ (write_le 4 e.site_id
                ++ (append_string e.table_name
                    ++ (append_string e.row_pk
                        ++ (append_string e.op
                            ++ (append_string e.old_values
                                ++ (append_string e.new_values
                                    ++ (append_string e.checksum
                                        ++ (write_le 4 (to_u32 e.applied)
                                            ++ (append_string e.batch_id ++ rest)))))))))))

write_entry-append :
    (e : JournalWireEntry) (rest : Bytes) → write_entry e ++ rest ≡ entry_before e rest
unfolding write_entry
write_entry-append e rest = simp append_assoc

-- An entry whose fields fit is read back from its bytes, and what follows is left.
pub read-write_entry :
    (e : JournalWireEntry) (rest : Bytes)
    → IsWire e
    → read_entry (write_entry e ++ rest) ≡ some (e, rest)
unfolding read_entry
read-write_entry e rest w = rw (write_entry-append e rest) (
    simp
      (
        read_seq e w,
        read_wall e w,
        read_counter e w,
        read_site e w,
        read_table e w,
        read_pk e w,
        read_op e w,
        read_old e w,
        read_new e w,
        read_checksum e w,
        read_applied e w,
        read_batch e w,
      )
      (rw (to_i32-to_u32 e.applied w.applied_fits).0))
