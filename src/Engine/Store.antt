-- ===== src/Engine/Store.antt =====
-- The table _sync_journal as the statements of native/sync/src/sync_engine.cpp see it: rows by
-- their primary key seq. A statement that fails is SQLite's choice and a parameter. Sequence numbers
-- are below 2^63, where the order of SQLite's signed integers is theirs.
use tightrope.Prelude.{
  ℕ, ◌%◌, Bool, true, false, not, ◌&&◌, ◌||◌, if◌then◌else◌, ltb, ◌==◌, max, List, [], ◌∷◌, none,
  some, take,
}
use tightrope.Prelude.Int.{ℤ, pos, negsuc}
use tightrope.Prelude.Maps.{nat_ordered, bytes_ordered, key_eq, lookup}
use tightrope.Wire.{Bytes}
use tightrope.Protocol.Handshake.{empty}
use tightrope.Protocol.Batch.{JournalBatchFrame}
use tightrope.Protocol.Batch.Entry.{JournalWireEntry, to_i32}
use tightrope.Conflict.{TableRule, table_rules}
use tightrope.Text.Ascii.{codes}

abbrev pub Rows : Type 0
Rows = List (ℕ × JournalWireEntry)

pub data Statement : Type 0 where
  begin prepare commit : Statement
  insert_row : ℕ → Statement
  select_checksum : ℕ → Statement

-- sqlite3_bind_text from c_str() with size -1: the text ends at its first NUL.
unfoldable pub c_text : Bytes → Bytes
c_text [] = []
c_text (b ∷ bytes) = let rest = c_text bytes in if b == 0 then [] else b ∷ rest

-- The row of an entry, with the bound value of `applied` and the batch id.
unfoldable pub row_of : (ℕ → Bytes) → ℤ → JournalWireEntry → JournalWireEntry
row_of new_batch_id applied_value entry = record entry {
  table_name = c_text entry.table_name;
  row_pk = c_text entry.row_pk;
  op = c_text entry.op;
  old_values = c_text entry.old_values;
  new_values = c_text entry.new_values;
  checksum = c_text entry.checksum;
  applied = applied_value;
  batch_id = c_text (if empty entry.batch_id then new_batch_id entry.seq else entry.batch_id);
}

-- existing_checksum_for_seq: no row, or a failing statement, gives the empty text.
unfoldable pub existing_checksum : (Statement → Bool) → Rows → ℕ → Bytes
existing_checksum fails rows seq =
    if fails (select_checksum seq)
    then []
    else elim (lookup seq rows) [ none ↦ [] | some row ↦ row.checksum ]

abbrev starts_with : Bytes → Bytes → Bool
starts_with name [] = true
starts_with [] (p ∷ prefix) = false
starts_with (c ∷ name) (p ∷ prefix) = c == p && starts_with name prefix

-- is_table_replicated (native/sync/src/conflict_resolver.cpp) on the bytes of a name.
unfoldable pub replicated_by : List TableRule → Bytes → Bool
replicated_by [] name = not (starts_with name (codes "_sync_") || starts_with name (codes "_raft_"))
replicated_by (r ∷ rs) name =
    let rest = replicated_by rs name in if key_eq (codes r.table) name then r.replicated else rest

unfoldable pub is_replicated_name : Bytes → Bool
is_replicated_name name = replicated_by table_rules name

-- WHERE seq > ?1, in the order of seq.
unfoldable pub rows_after : Rows → ℕ → List JournalWireEntry
rows_after [] after_seq = []
rows_after ((seq, row) ∷ rows) after_seq =
    let rest = rows_after rows after_seq in if ltb after_seq seq then row ∷ rest else rest

-- LIMIT ?2 with static_cast<int>(limit): a negative limit is none.
unfoldable pub limited : ℕ → List JournalWireEntry → List JournalWireEntry
limited limit entries = elim (to_i32 (limit % 4294967296)) [
  | pos n ↦ take n entries
  | negsuc n ↦ entries
]

unfoldable pub max_seq : ℕ → List JournalWireEntry → ℕ
max_seq start [] = start
max_seq start (e ∷ es) = max_seq (max start e.seq) es

-- build_batch; a SELECT that cannot be prepared gives the empty frame.
unfoldable pub build_batch : (Statement → Bool) → Rows → ℕ → ℕ → JournalBatchFrame
build_batch fails rows after_seq limit =
    let entries = limited limit (rows_after rows after_seq) in
    if fails prepare
    then record { from_seq = after_seq; to_seq = after_seq; entries = [] }
    else record { from_seq = after_seq; to_seq = max_seq after_seq entries; entries = entries }
