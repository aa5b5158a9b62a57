-- ===== src/Engine/Apply/Entry.antt =====
-- What apply_batch of native/sync/src/sync_engine.cpp does with one entry: nothing is stored that was
-- not checked, and no row is lost.
use tightrope.Prelude.{
  ℕ, suc, ◌/◌, ◌%◌, ◌≡◌, ◌⊎◌, refl, true, List, [], ◌∷◌, none, some, arith, length, inl, inr,
  Option-cases,
}
use tightrope.Prelude.Int.{ℤ}
use tightrope.Prelude.Maps.{
  nat_ordered, bytes_ordered, key_eq-eq, key_eq_refl, lookup, insert, lookup-insert,
  lookup-insert_self,
}
use tightrope.Wire.{Bytes}
use tightrope.Text.Hex.{hex_encode}
use tightrope.Text.Hex.RoundTrip.{digit_below, length-hex_encode}
use tightrope.Journal.{journal_checksum, journal_payload}
use tightrope.Protocol.Batch.Entry.{JournalWireEntry}
use tightrope.Engine.Store.{Rows, row_of, existing_checksum, is_replicated_name, c_text}
use tightrope.Engine.Apply.{
  ApplyError, Outside, EntryOutcome, refused, inserted, present, expected_checksum, apply_entry,
}

-- An entry that passes the checks on itself.
abbrev pub IsSound : Outside → JournalWireEntry → Type 0
IsSound o e = (is_replicated_name e.table_name ≡ true) × (e.checksum ≡ expected_checksum o e)

-- A row with the entry's number has the entry's checksum.
abbrev pub IsStored : Rows → JournalWireEntry → Type 0
IsStored rows e =
    (row : JournalWireEntry) × (lookup e.seq rows ≡ some row) × (row.checksum ≡ e.checksum)

abbrev pub AllStored : Outside → Rows → List JournalWireEntry → Type 0
AllStored o rows [] = Unit {0}
AllStored o rows (e ∷ es) = IsSound o e × IsStored rows e × AllStored o rows es

-- Every row of the one is in the other, unchanged.
abbrev pub Extends : Rows → Rows → Type 0
Extends before after =
    (k : ℕ) (row : JournalWireEntry) → lookup k before ≡ some row → lookup k after ≡ some row

pub EntryOutcome-cases :
    (x : EntryOutcome)
    → ((err : ApplyError) × (x ≡ refused err))
      ⊎ ((rows : Rows) × (x ≡ inserted rows))
      ⊎ (x ≡ present)
EntryOutcome-cases (refused err) = inl (err, refl)
EntryOutcome-cases (inserted rows) = inr (inl (rows, refl))
EntryOutcome-cases present = inr (inr refl)

c_text-hex_encode : (bytes : Bytes) → c_text (hex_encode bytes) ≡ hex_encode bytes
unfolding c_text hex_encode
c_text-hex_encode [] = refl
c_text-hex_encode (b ∷ bytes) =
    ground (arith, digit_below (b / 16 % 16), digit_below (b % 16), c_text-hex_encode bytes)

-- What an inserted entry passed, and the row that it became.
pub apply_entry-inserted :
    (o : Outside) (v : ℤ) (rows rows' : Rows) (e : JournalWireEntry)
    → apply_entry o v rows e ≡ inserted rows'
    → IsSound o e
      × (lookup e.seq rows ≡ none)
      × (rows' ≡ insert e.seq (row_of o.new_batch_id v e) rows)
unfolding apply_entry
apply_entry-inserted o v rows rows' e h = elim (Option-cases (lookup e.seq rows)) [
  | inl absent ↦ ground (arith, h, absent, key_eq-eq (expected_checksum o e) e.checksum)
  | inr (row, found) ↦ ground (arith, h, found)
]

length-expected : (o : Outside) (e : JournalWireEntry) → length (expected_checksum o e) ≡ 64
unfolding expected_checksum journal_checksum
length-expected o e = ground (
  arith,
  length-hex_encode
      (o.sha256 (journal_payload e.table_name e.row_pk e.op e.old_values e.new_values)),
  o.sha256_size (journal_payload e.table_name e.row_pk e.op e.old_values e.new_values),
)

c_text-expected :
    (o : Outside) (e : JournalWireEntry) → c_text (expected_checksum o e) ≡ expected_checksum o e
unfolding expected_checksum journal_checksum
c_text-expected o e =
    c_text-hex_encode
      (o.sha256 (journal_payload e.table_name e.row_pk e.op e.old_values e.new_values))

pub apply_entry-present :
    (o : Outside) (v : ℤ) (rows : Rows) (e : JournalWireEntry)
    → apply_entry o v rows e ≡ present
    → IsSound o e × IsStored rows e
unfolding apply_entry existing_checksum
apply_entry-present o v rows e h = elim (Option-cases (lookup e.seq rows)) [
  | inl absent ↦ ground (arith, h, absent)
  | inr (row, found) ↦ (
    ground (arith, h, found, key_eq-eq (expected_checksum o e) e.checksum),
    (row, found, same_checksum row found),
  )
]
  where
    same_checksum :
        (row : JournalWireEntry) → lookup e.seq rows ≡ some row → row.checksum ≡ e.checksum
    same_checksum row found = ground (
      arith,
      h,
      found,
      key_eq-eq (existing_checksum o.fails rows e.seq) e.checksum,
      key_eq-eq (expected_checksum o e) e.checksum,
      length-expected o e,
    )

-- An entry that is inserted is stored, and every row is still there.
pub inserted-IsStored :
    (o : Outside) (v : ℤ) (rows : Rows) (e : JournalWireEntry)
    → IsSound o e
    → IsStored (insert e.seq (row_of o.new_batch_id v e) rows) e
unfolding row_of
inserted-IsStored o v rows e s = (
  row_of o.new_batch_id v e,
  lookup-insert_self e.seq (row_of o.new_batch_id v e) rows,
  rw s.1 (c_text-expected o e),
)

pub insert-Extends :
    (rows : Rows) (seq : ℕ) (row : JournalWireEntry)
    → lookup seq rows ≡ none
    → Extends rows (insert seq row rows)
insert-Extends rows seq row absent k other found =
    ground (arith, lookup-insert k seq row rows, key_eq-eq seq k, found, absent)

pub length-insert :
    (rows : Rows) (seq : ℕ) (row : JournalWireEntry)
    → lookup seq rows ≡ none
    → length (insert seq row rows) ≡ suc (length rows)
unfolding insert lookup
length-insert [] seq row absent = refl
length-insert ((k, other) ∷ rows) seq row absent =
    ground (arith, length-insert rows seq row, key_eq_refl seq)

pub IsStored-Extends :
    (before after : Rows) (e : JournalWireEntry)
    → Extends before after
    → IsStored before e
    → IsStored after e
IsStored-Extends before after e x (row, found, same) = (row, x e.seq row found, same)
