-- ===== src/Engine/Apply/Again.antt =====
-- When apply_batch of native/sync/src/sync_engine.cpp succeeds: on a batch that agrees with the
-- journal, and again on a batch that it has applied.
use tightrope.Prelude.{
  ℕ, suc, ◌≤◌, ◌<◌, ◌≡◌, ◌⊎◌, refl, sym, subst, ◌∙◌, true, false, List, [], ◌∷◌, none, arith, inl,
  inr,
}
use tightrope.Prelude.Int.{ℤ}
use tightrope.Prelude.Maps.{
  nat_ordered, bytes_ordered, key_eq, key_eq-eq, key_eq_refl, lookup, insert, lookup-insert,
}
use tightrope.Protocol.Batch.{JournalBatchFrame}
use tightrope.Protocol.Batch.Entry.{JournalWireEntry}
use tightrope.Engine.Store.{
  Rows, Statement, begin, prepare, commit, insert_row, select_checksum, row_of, existing_checksum,
  max_seq,
}
use tightrope.Engine.Apply.{
  ApplyBatchResult, Outside, inserted, present, expected_checksum, apply_entry, apply_entries,
  no_result, apply_batch,
}
use tightrope.Engine.Apply.Entry.{IsSound, IsStored, AllStored}
use tightrope.Engine.Apply.Atomic.{
  apply_batch-IsApplied, apply_entries-inserted, apply_entries-present, seen, added, finish_kept,
}

-- No statement fails.
abbrev pub IsWorking : Outside → Type 0
IsWorking o = (s : Statement) → o.fails s ≡ false

-- The journal has no row of that number, or one with the entry's checksum.
abbrev pub IsOpen : Rows → JournalWireEntry → Type 0
IsOpen rows e = (lookup e.seq rows ≡ none) ⊎ IsStored rows e

-- Entries that pass the checks, in strictly rising order, for which the journal is open.
abbrev pub AllOpen : Outside → Rows → ℕ → List JournalWireEntry → Type 0
AllOpen o rows low [] = Unit {0}
AllOpen o rows low (e ∷ es) =
    (low ≤ e.seq) × IsSound o e × IsOpen rows e × AllOpen o rows (suc e.seq) es

module _ (o : Outside) (v : ℤ) (works : IsWorking o) where
  checks_pass :
      (e : JournalWireEntry) → IsSound o e → key_eq (expected_checksum o e) e.checksum ≡ true
  checks_pass e s =
      subst (λ c. key_eq (expected_checksum o e) c ≡ true) (sym s.1)
        (key_eq_refl (expected_checksum o e))

  apply_entry-stored :
      (rows : Rows) (e : JournalWireEntry)
      → IsSound o e
      → IsStored rows e
      → apply_entry o v rows e ≡ present
  unfolding apply_entry existing_checksum
  apply_entry-stored rows e s (row, found, same) = ground (
    arith,
    s.0,
    checks_pass e s,
    works (insert_row e.seq),
    works (select_checksum e.seq),
    found,
    subst (λ c. key_eq c e.checksum ≡ true) (sym same) (key_eq_refl e.checksum),
  )

  apply_entry-new :
      (rows : Rows) (e : JournalWireEntry)
      → IsSound o e
      → lookup e.seq rows ≡ none
      → apply_entry o v rows e ≡ inserted (insert e.seq (row_of o.new_batch_id v e) rows)
  unfolding apply_entry
  apply_entry-new rows e s absent =
      ground (arith, s.0, checks_pass e s, works (insert_row e.seq), absent)

  apply_entries-again :
      (rows : Rows) (r : ApplyBatchResult) (es : List JournalWireEntry)
      → AllStored o rows es
      → apply_entries o v rows r es
        ≡ (rows, record r { applied_up_to_seq = max_seq r.applied_up_to_seq es })
  unfolding apply_entries max_seq
  apply_entries-again rows r [] h = refl
  apply_entries-again rows r (e ∷ es) (sound, stored, more) =
      apply_entries-present o v rows r e es (apply_entry-stored rows e sound stored)
      ∙ apply_entries-again rows (seen r e) es more

  AllOpen-insert :
      (rows : Rows) (low seq : ℕ) (row : JournalWireEntry) (es : List JournalWireEntry)
      → seq < low
      → AllOpen o rows low es
      → AllOpen o (insert seq row rows) low es
  AllOpen-insert rows low seq row [] h a = tt
  AllOpen-insert rows low seq row (e ∷ es) h (rises, sound, is_open, more) = (
    rises,
    sound,
    elim is_open [
      | inl absent ↦ inl (other ∙ absent)
      | inr (old, found, same) ↦ inr (old, other ∙ found, same)
    ],
    AllOpen-insert rows (suc e.seq) seq row es (omega arith) more,
  )
    where
      other : lookup e.seq (insert seq row rows) ≡ lookup e.seq rows
      other = ground (arith, lookup-insert e.seq seq row rows, key_eq-eq seq e.seq)

  apply_entries-open :
      (rows : Rows) (low : ℕ) (r : ApplyBatchResult) (es : List JournalWireEntry)
      → r.error ≡ none
      → AllOpen o rows low es
      → (apply_entries o v rows r es).1.error ≡ none
  unfolding apply_entries
  apply_entries-open rows low r [] h a = h
  apply_entries-open rows low r (e ∷ es) h (rises, sound, inl absent, more) =
      let row : JournalWireEntry = row_of o.new_batch_id v e in
      rw
        (apply_entries-inserted o v rows (insert e.seq row rows) r e es
          (apply_entry-new rows e sound absent))
        (apply_entries-open (insert e.seq row rows) (suc e.seq) (added r e) es h
          (AllOpen-insert rows (suc e.seq) e.seq row es (omega arith) more))
  apply_entries-open rows low r (e ∷ es) h (rises, sound, inr stored, more) =
      rw (apply_entries-present o v rows r e es (apply_entry-stored rows e sound stored))
        (apply_entries-open rows (suc e.seq) (seen r e) es h more)

  -- While statements work, a batch in rising order whose entries pass the checks and agree with the
  -- journal is applied.
  pub apply_batch_succeeds :
      (rows : Rows) (batch : JournalBatchFrame)
      → AllOpen o rows 0 batch.entries
      → (apply_batch o v rows batch).1.success ≡ true
  unfolding apply_batch
  apply_batch_succeeds rows batch a = ground (
    arith,
    works begin,
    works prepare,
    finish_kept o rows (apply_entries o v rows no_result batch.entries).0
        (apply_entries o v rows no_result batch.entries).1 (works commit)
        (apply_entries-open rows 0 no_result batch.entries refl a),
  )

  apply_batch-stored :
      (rows : Rows) (batch : JournalBatchFrame)
      → AllStored o rows batch.entries
      → apply_batch o v rows batch
        ≡ (rows, record no_result { success = true; applied_up_to_seq = max_seq 0 batch.entries })
  unfolding apply_batch
  apply_batch-stored rows batch a = ground (
    arith,
    works begin,
    works prepare,
    apply_entries-again rows no_result batch.entries a,
    finish_kept o rows rows (record no_result { applied_up_to_seq = max_seq 0 batch.entries })
        (works commit) refl,
  )

  -- Applying a batch a second time changes nothing: once it has been applied, with whatever value
  -- of `applied`, and while statements work, it succeeds, adds no row and gives the same greatest
  -- number.
  pub apply_batch-again :
      (before : ℤ) (rows : Rows) (batch : JournalBatchFrame)
      → (apply_batch o before rows batch).1.success ≡ true
      → apply_batch o v (apply_batch o before rows batch).0 batch ≡ (
        (apply_batch o before rows batch).0,
        record no_result {
          success = true;
          applied_up_to_seq = (apply_batch o before rows batch).1.applied_up_to_seq;
        },
      )
  apply_batch-again before rows batch h = elim (apply_batch-IsApplied o before rows batch) [
    | inl (ok, applied) ↦
        apply_batch-stored (apply_batch o before rows batch).0 batch applied.all_stored
        ∙ rw applied.up_to refl
    | inr (failed, no_error, kept) ↦ absurd (ground (arith, h, failed))
  ]
