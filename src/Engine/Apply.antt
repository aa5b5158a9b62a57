-- ===== src/Engine/Apply.antt =====
-- SyncEngine::apply_batch of native/sync/src/sync_engine.cpp, one transaction over the journal.
-- SHA-256, the statements that fail and the ids that generate_batch_id makes up are parameters.
pub mod Entry
pub mod Atomic
pub mod Again
use tightrope.Prelude.{
  ℕ, ◌+◌, Bool, true, false, not, if◌then◌else◌, max, List, [], ◌∷◌, Option, none, some, length,
  ◌≡◌,
}
use tightrope.Prelude.Int.{ℤ}
use tightrope.Prelude.Maps.{Ordered, nat_ordered, bytes_ordered, key_eq, lookup, insert}
use tightrope.Wire.{Bytes}
use tightrope.Journal.{journal_checksum}
use tightrope.Protocol.Batch.{JournalBatchFrame}
use tightrope.Protocol.Batch.Entry.{JournalWireEntry}
use tightrope.Engine.Store.{
  Rows, Statement, begin, prepare, commit, insert_row, row_of, existing_checksum,
  is_replicated_name,
}

pub data ApplyError : Type 0 where
  begin_failed prepare_failed commit_failed : ApplyError
  not_replicated : Bytes → ApplyError
  checksum_mismatch insert_failed existing_checksum_mismatch : ℕ → ApplyError

pub record ApplyBatchResult : Type 0 where
  pub success : Bool
  pub applied_up_to_seq : ℕ
  pub applied_count : ℕ
  pub error : Option ApplyError

-- What the engine gets from outside.
pub record Outside : Type 0 where
  pub sha256 : Bytes → Bytes
  pub sha256_size : (message : Bytes) → length (sha256 message) ≡ 32
  pub fails : Statement → Bool
  pub new_batch_id : ℕ → Bytes

-- What one entry comes to.
pub data EntryOutcome : Type 0 where
  refused : ApplyError → EntryOutcome
  inserted : Rows → EntryOutcome
  present : EntryOutcome

unfoldable pub expected_checksum : Outside → JournalWireEntry → Bytes
expected_checksum o e =
    journal_checksum o.sha256 e.table_name e.row_pk e.op e.old_values e.new_values

unfoldable pub apply_entry : Outside → ℤ → Rows → JournalWireEntry → EntryOutcome
unfolding expected_checksum
apply_entry o applied_value rows e =
    if not (is_replicated_name e.table_name)
    then refused (not_replicated e.table_name)
    else if not (key_eq (expected_checksum o e) e.checksum)
    then refused (checksum_mismatch e.seq)
    else if o.fails (insert_row e.seq)
    then refused (insert_failed e.seq)
    else elim (lookup e.seq rows) [
      | none ↦ inserted (insert e.seq (row_of o.new_batch_id applied_value e) rows)
      | some row ↦
          if not (key_eq (existing_checksum o.fails rows e.seq) e.checksum)
          then refused (existing_checksum_mismatch e.seq)
          else present
    ]

-- The loop: the rows, and the result so far.
unfoldable pub apply_entries :
    Outside → ℤ → Rows → ApplyBatchResult → List JournalWireEntry → Rows × ApplyBatchResult
apply_entries o v rows result [] = (rows, result)
apply_entries o v rows result (e ∷ es) = elim (apply_entry o v rows e) [
  | refused err ↦ (rows, record result { error = some err })
  | inserted rows' ↦
      apply_entries o v rows'
        (record result {
          applied_up_to_seq = max result.applied_up_to_seq e.seq;
          applied_count = result.applied_count + 1;
        })
        es
  | present ↦
      apply_entries o v rows
        (record result { applied_up_to_seq = max result.applied_up_to_seq e.seq }) es
]

abbrev pub no_result : ApplyBatchResult
no_result = record { success = false; applied_up_to_seq = 0; applied_count = 0; error = none }

-- COMMIT, or ROLLBACK to the rows before.
unfoldable pub finish : Outside → Rows → Rows × ApplyBatchResult → Rows × ApplyBatchResult
finish o before (after, result) = elim result.error [
  | some err ↦ (before, result)
  | none ↦
      if o.fails commit
      then (before, record result { error = some commit_failed })
      else (after, record result { success = true })
]

unfoldable pub apply_batch : Outside → ℤ → Rows → JournalBatchFrame → Rows × ApplyBatchResult
unfolding finish
apply_batch o applied_value rows batch =
    if o.fails begin
    then (rows, record no_result { error = some begin_failed })
    else if o.fails prepare
    then (rows, record no_result { error = some prepare_failed })
    else finish o rows (apply_entries o applied_value rows no_result batch.entries)
