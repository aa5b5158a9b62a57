-- ===== src/Journal.antt =====
-- The in-memory journal: native/sync/src/journal.cpp, with the checksum of
-- native/sync/src/checksum.cpp. SHA-256 is libsodium's and a parameter, and so is the id that
-- generate_batch_id would make up (Boost's random UUIDs); the emitted event is left out.
pub mod Laws
mod Tests
use tightrope.Prelude.{
  ℕ, ◌+◌, ◌-◌, ◌%◌, Bool, true, false, not, ◌&&◌, if◌then◌else◌, ltb, leb, ◌==◌, List, [], ◌∷◌,
  ◌++◌, length,
}
use tightrope.Prelude.Int.{ℤ}
use tightrope.Clock.{Hlc}
use tightrope.Wire.{Bytes, same_bytes}
use tightrope.Protocol.Handshake.{empty}
use tightrope.Text.Hex.{hex_encode}

pub record PendingJournalEntry : Type 0 where
  pub hlc : Hlc
  pub table_name : Bytes
  pub row_pk : Bytes
  pub op : Bytes
  pub old_values : Bytes
  pub new_values : Bytes
  pub applied : ℤ
  pub batch_id : Bytes

pub record JournalEntry : Type 0 where
  pub seq : ℕ
  pub hlc : Hlc
  pub table_name : Bytes
  pub row_pk : Bytes
  pub op : Bytes
  pub old_values : Bytes
  pub new_values : Bytes
  pub checksum : Bytes
  pub applied : ℤ
  pub batch_id : Bytes

pub record Journal : Type 0 where
  pub next_seq : ℕ
  pub entries : List JournalEntry

abbrev pub u64_mod : ℕ
u64_mod = 18446744073709551616

-- The parts with a unit separator between them.
unfoldable pub journal_payload : Bytes → Bytes → Bytes → Bytes → Bytes → Bytes
journal_payload table_name row_pk op old_values new_values =
    table_name ++ (31 ∷ row_pk) ++ (31 ∷ op) ++ (31 ∷ old_values) ++ (31 ∷ new_values)

unfoldable pub journal_checksum : (Bytes → Bytes) → Bytes → Bytes → Bytes → Bytes → Bytes → Bytes
journal_checksum sha256 table_name row_pk op old_values new_values =
    hex_encode (sha256 (journal_payload table_name row_pk op old_values new_values))

-- The entry that is made, and the journal after it.
unfoldable pub append :
    (Bytes → Bytes) → Bytes → Journal → PendingJournalEntry → Journal × JournalEntry
append sha256 new_id journal p =
    let created : JournalEntry = record {
      seq = journal.next_seq;
      hlc = p.hlc;
      table_name = p.table_name;
      row_pk = p.row_pk;
      op = p.op;
      old_values = p.old_values;
      new_values = p.new_values;
      checksum = journal_checksum sha256 p.table_name p.row_pk p.op p.old_values p.new_values;
      applied = p.applied;
      batch_id = if empty p.batch_id then new_id else p.batch_id;
    } in
    (
      record {
        next_seq = (journal.next_seq + 1) % u64_mod;
        entries = journal.entries ++ created ∷ [];
      },
      created,
    )

unfoldable pub after : List JournalEntry → ℕ → List JournalEntry
after [] seq = []
after (e ∷ es) seq = let rest = after es seq in if ltb seq e.seq then e ∷ rest else rest

unfoldable pub entries_after : Journal → ℕ → List JournalEntry
entries_after journal seq = after journal.entries seq

-- The loop of rollback_batch: what it removes and what stays.
unfoldable pub in_batch : Bytes → List JournalEntry → List JournalEntry
in_batch batch_id [] = []
in_batch batch_id (e ∷ es) =
    let rest = in_batch batch_id es in if same_bytes e.batch_id batch_id then e ∷ rest else rest

unfoldable pub out_of_batch : Bytes → List JournalEntry → List JournalEntry
out_of_batch batch_id [] = []
out_of_batch batch_id (e ∷ es) =
    let rest = out_of_batch batch_id es in if same_bytes e.batch_id batch_id then rest else e ∷ rest

-- std::sort with the greater sequence number first.
unfoldable pub insert_newest_first : JournalEntry → List JournalEntry → List JournalEntry
insert_newest_first e [] = e ∷ []
insert_newest_first e (x ∷ xs) =
    let rest = insert_newest_first e xs in if ltb x.seq e.seq then e ∷ x ∷ xs else x ∷ rest

unfoldable pub newest_first : List JournalEntry → List JournalEntry
newest_first [] = []
newest_first (e ∷ es) = insert_newest_first e (newest_first es)

unfoldable pub rollback_batch : Journal → Bytes → Journal × List JournalEntry
rollback_batch journal batch_id = (
  record { next_seq = journal.next_seq; entries = out_of_batch batch_id journal.entries },
  newest_first (in_batch batch_id journal.entries),
)

unfoldable pub mark_entries : List JournalEntry → ℕ → ℤ → List JournalEntry × Bool
mark_entries [] seq applied_value = ([], false)
mark_entries (e ∷ es) seq applied_value =
    let rest = mark_entries es seq applied_value in
    if e.seq == seq then (record e { applied = applied_value } ∷ es, true) else (e ∷ rest.0, rest.1)

unfoldable pub mark_applied : Journal → ℕ → ℤ → Journal × Bool
mark_applied journal seq applied_value =
    let marked = mark_entries journal.entries seq applied_value in
    (record { next_seq = journal.next_seq; entries = marked.0 }, marked.1)

unfoldable pub keep : List JournalEntry → ℕ → ℕ → List JournalEntry
keep [] cutoff_wall max_ack_seq = []
keep (e ∷ es) cutoff_wall max_ack_seq =
    let rest = keep es cutoff_wall max_ack_seq in
    if ltb e.hlc.wall cutoff_wall && leb e.seq max_ack_seq then rest else e ∷ rest

unfoldable pub compact : Journal → ℕ → ℕ → Journal × ℕ
compact journal cutoff_wall max_ack_seq =
    let kept = keep journal.entries cutoff_wall max_ack_seq in
    (record { next_seq = journal.next_seq; entries = kept }, length journal.entries - length kept)
