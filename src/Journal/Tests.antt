-- ===== src/Journal/Tests.antt =====
-- Runs of the model of native/sync/src/journal.cpp on small inputs.
use tightrope.Prelude.{ℕ, ◌+◌, ◌≡◌, refl, [], ◌∷◌, length, arith}
use tightrope.Prelude.Int.{pos}
use tightrope.Wire.{Bytes}
use tightrope.Journal.{
  Journal, JournalEntry, PendingJournalEntry, append, entries_after, rollback_batch, mark_applied,
  compact, in_batch, out_of_batch, newest_first, insert_newest_first,
}
use tightrope.Journal.Laws.{IsOrdered, Journal-IsOrdered, entries_after-compact}

abbrev no_hash : Bytes → Bytes
no_hash input = []

abbrev entry : ℕ → ℕ → Bytes → JournalEntry
entry n wall batch = record {
  seq = n;
  hlc = record { wall = wall; counter = 0; site_id = 1 };
  table_name = 116 ∷ [];
  row_pk = [];
  op = [];
  old_values = [];
  new_values = [];
  checksum = [];
  applied = pos 1;
  batch_id = batch;
}

abbrev pending : PendingJournalEntry
pending = record {
  hlc = record { wall = 40; counter = 0; site_id = 1 };
  table_name = 116 ∷ [];
  row_pk = [];
  op = [];
  old_values = [];
  new_values = [];
  applied = pos 1;
  batch_id = 98 ∷ [];
}

abbrev journal : Journal
journal = record {
  next_seq = 4;
  entries = entry 1 10 (97 ∷ []) ∷ entry 2 20 (98 ∷ []) ∷ entry 3 30 (98 ∷ []) ∷ [];
}

journal-IsOrdered : IsOrdered journal
journal-IsOrdered = (omega arith, (omega arith, (omega arith, omega arith)))

rollback_batch-run : rollback_batch journal (98 ∷ []) ≡ (
  record { next_seq = 4; entries = entry 1 10 (97 ∷ []) ∷ [] },
  entry 3 30 (98 ∷ []) ∷ entry 2 20 (98 ∷ []) ∷ [],
)
unfolding rollback_batch in_batch out_of_batch newest_first insert_newest_first
rollback_batch-run = refl

Journal-IsOrdered_example :
    IsOrdered (append no_hash (99 ∷ []) journal pending).0
    × IsOrdered (rollback_batch journal (98 ∷ [])).0
    × IsOrdered (mark_applied journal 2 (pos 2)).0
    × IsOrdered (compact journal 25 1).0
Journal-IsOrdered_example =
    Journal-IsOrdered no_hash (99 ∷ []) journal pending (98 ∷ []) 2 25 1 (pos 2) journal-IsOrdered
      (omega arith)

entries_after-compact_example :
    (entries_after (compact journal 25 1).0 2 ≡ entries_after journal 2)
    × (length (compact journal 25 1).0.entries + (compact journal 25 1).1 ≡ 3)
entries_after-compact_example = entries_after-compact journal 2 25 1 (omega arith)
