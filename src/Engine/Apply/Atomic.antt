-- ===== src/Engine/Apply/Atomic.antt =====
-- apply_batch of native/sync/src/sync_engine.cpp is one transaction: all of a batch is in the
-- journal afterwards, or the journal is as it was.
use tightrope.Prelude.{
  ◌+◌, ◌≡◌, ◌⊎◌, ◌≢◌, refl, ap, sym, subst, ◌∙◌, true, false, max, List, [], ◌∷◌, none, some, arith,
  length, inl, inr, Bool-cases, Option-cases,
}
use tightrope.Prelude.Int.{ℤ}
use tightrope.Prelude.Maps.{nat_ordered}
use tightrope.Protocol.Batch.{JournalBatchFrame}
use tightrope.Protocol.Batch.Entry.{JournalWireEntry}
use tightrope.Engine.Store.{Rows, begin, prepare, commit, row_of, max_seq}
use tightrope.Engine.Apply.{
  ApplyError, commit_failed, ApplyBatchResult, Outside, refused, inserted, present, apply_entry,
  apply_entries, no_result, finish, apply_batch,
}
use tightrope.Engine.Apply.Entry.{
  IsSound, IsStored, AllStored, Extends, EntryOutcome-cases, apply_entry-inserted,
  apply_entry-present, inserted-IsStored, insert-Extends, length-insert, IsStored-Extends,
}

-- What a run of the loop over the entries comes to when it reaches its end.
pub record IsApplied (o : Outside) (rows : Rows) (r : ApplyBatchResult) (es : List JournalWireEntry)
    (rows' : Rows) (r' : ApplyBatchResult) : Type 0 where
  pub all_stored : AllStored o rows' es
  pub extends : Extends rows rows'
  pub counted : length rows' + r.applied_count ≡ length rows + r'.applied_count
  pub up_to : r'.applied_up_to_seq ≡ max_seq r.applied_up_to_seq es

Extends-trans : (a b c : Rows) → Extends a b → Extends b c → Extends a c
Extends-trans a b c x y k row found = y k row (x k row found)

IsApplied-step :
    (o : Outside) (rows mid rows' : Rows) (r m r' : ApplyBatchResult) (e : JournalWireEntry)
    (es : List JournalWireEntry)
    → IsSound o e
    → IsStored mid e
    → Extends rows mid
    → length mid + r.applied_count ≡ length rows + m.applied_count
    → m.applied_up_to_seq ≡ max r.applied_up_to_seq e.seq
    → IsApplied o mid m es rows' r'
    → IsApplied o rows r (e ∷ es) rows' r'
unfolding max_seq
IsApplied-step o rows mid rows' r m r' e es sound stored x l u rest = record {
  all_stored = (sound, IsStored-Extends mid rows' e rest.extends stored, rest.all_stored);
  extends = Extends-trans rows mid rows' x rest.extends;
  counted = omega (arith, rest.counted);
  up_to = rest.up_to ∙ ap (λ start. max_seq start es) u;
}

abbrev pub seen : ApplyBatchResult → JournalWireEntry → ApplyBatchResult
seen r e = record r { applied_up_to_seq = max r.applied_up_to_seq e.seq }

abbrev pub added : ApplyBatchResult → JournalWireEntry → ApplyBatchResult
added r e = record r {
  applied_up_to_seq = max r.applied_up_to_seq e.seq;
  applied_count = r.applied_count + 1;
}

-- The three ways of one round of the loop.
pub apply_entries-refused :
    (o : Outside) (v : ℤ) (rows : Rows) (r : ApplyBatchResult) (e : JournalWireEntry)
    (es : List JournalWireEntry) (err : ApplyError)
    → apply_entry o v rows e ≡ refused err
    → apply_entries o v rows r (e ∷ es) ≡ (rows, record r { error = some err })
unfolding apply_entries
apply_entries-refused o v rows r e es err h = rw (h, apply_entries) refl

pub apply_entries-inserted :
    (o : Outside) (v : ℤ) (rows mid : Rows) (r : ApplyBatchResult) (e : JournalWireEntry)
    (es : List JournalWireEntry)
    → apply_entry o v rows e ≡ inserted mid
    → apply_entries o v rows r (e ∷ es) ≡ apply_entries o v mid (added r e) es
unfolding apply_entries
apply_entries-inserted o v rows mid r e es h = rw (h, apply_entries) refl

pub apply_entries-present :
    (o : Outside) (v : ℤ) (rows : Rows) (r : ApplyBatchResult) (e : JournalWireEntry)
    (es : List JournalWireEntry)
    → apply_entry o v rows e ≡ present
    → apply_entries o v rows r (e ∷ es) ≡ apply_entries o v rows (seen r e) es
unfolding apply_entries
apply_entries-present o v rows r e es h = rw (h, apply_entries) refl

abbrev Ends :
    Outside → Rows → ApplyBatchResult → List JournalWireEntry → Rows × ApplyBatchResult → Type 0
Ends o rows r es end = end.1.error ≡ none → IsApplied o rows r es end.0 end.1

pub apply_entries-IsApplied :
    (o : Outside) (v : ℤ) (rows : Rows) (r : ApplyBatchResult) (es : List JournalWireEntry)
    → Ends o rows r es (apply_entries o v rows r es)
unfolding apply_entries max_seq
apply_entries-IsApplied o v rows r [] =
    λ h. record { all_stored = tt; extends = λ k row found. found; counted = refl; up_to = refl }
apply_entries-IsApplied o v rows r (e ∷ es) = elim (EntryOutcome-cases (apply_entry o v rows e)) [
  | inl (err, k) ↦
      subst (Ends o rows r (e ∷ es)) (sym (apply_entries-refused o v rows r e es err k)) (λ h. cc)
  | inr (inl (mid, k)) ↦
      let (sound, absent, is_mid) = apply_entry-inserted o v rows mid e k in
      subst (Ends o rows r (e ∷ es)) (sym (apply_entries-inserted o v rows mid r e es k)) (λ h.
        IsApplied-step o rows mid (apply_entries o v mid (added r e) es).0 r (added r e)
          (apply_entries o v mid (added r e) es).1 e es sound
          (subst (λ x. IsStored x e) (sym is_mid) (inserted-IsStored o v rows e sound))
          (subst (Extends rows) (sym is_mid)
            (insert-Extends rows e.seq (row_of o.new_batch_id v e) absent))
          (omega
            (arith, ap length is_mid, length-insert rows e.seq (row_of o.new_batch_id v e) absent))
          refl (apply_entries-IsApplied o v mid (added r e) es h))
  | inr (inr k) ↦
      let (sound, stored) = apply_entry-present o v rows e k in
      subst (Ends o rows r (e ∷ es)) (sym (apply_entries-present o v rows r e es k)) (λ h.
        IsApplied-step o rows rows (apply_entries o v rows (seen r e) es).0 r (seen r e)
          (apply_entries o v rows (seen r e) es).1 e es sound stored (λ n row found. found) refl
          refl (apply_entries-IsApplied o v rows (seen r e) es h))
]

apply_entries_success :
    (o : Outside) (v : ℤ) (rows : Rows) (r : ApplyBatchResult) (es : List JournalWireEntry)
    → r.success ≡ false
    → (apply_entries o v rows r es).1.success ≡ false
unfolding apply_entries
apply_entries_success o v rows r [] h = h
apply_entries_success o v rows r (e ∷ es) h = elim (EntryOutcome-cases (apply_entry o v rows e)) [
  | inl (err, k) ↦ rw (apply_entries-refused o v rows r e es err k) h
  | inr (inl (mid, k)) ↦
      rw (apply_entries-inserted o v rows mid r e es k)
        (apply_entries_success o v mid (added r e) es h)
  | inr (inr k) ↦
      rw (apply_entries-present o v rows r e es k) (apply_entries_success o v rows (seen r e) es h)
]

-- What the transaction comes to.
abbrev pub IsTransaction : Outside → Rows → List JournalWireEntry → Rows × ApplyBatchResult → Type 0
IsTransaction o rows es end =
    ((end.1.success ≡ true) × IsApplied o rows no_result es end.0 end.1)
    ⊎ ((end.1.success ≡ false) × (end.1.error ≢ none) × (end.0 ≡ rows))

finish_error :
    (o : Outside) (rows after : Rows) (r : ApplyBatchResult) (err : ApplyError)
    → r.error ≡ some err
    → finish o rows (after, r) ≡ (rows, r)
unfolding finish
finish_error o rows after r err e = ground (arith, e)

finish_lost :
    (o : Outside) (rows after : Rows) (r : ApplyBatchResult)
    → o.fails commit ≡ true
    → r.error ≡ none
    → finish o rows (after, r) ≡ (rows, record r { error = some commit_failed })
unfolding finish
finish_lost o rows after r lost fine = ground (arith, fine, lost)

pub finish_kept :
    (o : Outside) (rows after : Rows) (r : ApplyBatchResult)
    → o.fails commit ≡ false
    → r.error ≡ none
    → finish o rows (after, r) ≡ (after, record r { success = true })
unfolding finish
finish_kept o rows after r kept fine = ground (arith, fine, kept)

finish-IsTransaction :
    (o : Outside) (rows after : Rows) (r : ApplyBatchResult) (es : List JournalWireEntry)
    → r.success ≡ false
    → (r.error ≡ none → IsApplied o rows no_result es after r)
    → IsTransaction o rows es (finish o rows (after, r))
finish-IsTransaction o rows after r es f h = elim (Option-cases r.error) [
  | inl fine ↦
      let applied = h fine in
      elim (Bool-cases (o.fails commit)) [
        | inl lost ↦
            rw (finish_lost o rows after r lost fine) (inr (f, some_ne commit_failed, refl))
        | inr kept ↦ rw (finish_kept o rows after r kept fine) (
            inl (
              refl,
              record {
                all_stored = applied.all_stored;
                extends = applied.extends;
                counted = applied.counted;
                up_to = applied.up_to;
              },
            ))
      ]
  | inr (err, e) ↦
      rw (finish_error o rows after r err e)
        (inr (f, subst (λ x. x ≢ none) (sym e) (some_ne err), refl))
]
  where
    some_ne : (err : ApplyError) → some err ≢ none
    some_ne err = λ h. cc

-- Applying a batch, whatever statements fail: it succeeds, every entry is of a replicated table and
-- has its checksum, a row with that number and checksum is in the journal, no row that was there has
-- changed, the count is of the rows that are new, and the number given back is the greatest; or it
-- gives an error, and the journal is as it was.
pub apply_batch-IsApplied :
    (o : Outside) (v : ℤ) (rows : Rows) (batch : JournalBatchFrame)
    → IsTransaction o rows batch.entries (apply_batch o v rows batch)
unfolding apply_batch
apply_batch-IsApplied o v rows batch = elim (Bool-cases (o.fails begin)) [
  | inl no_begin ↦ rw no_begin (inr (refl, (λ h. cc), refl))
  | inr began ↦ elim (Bool-cases (o.fails prepare)) [
    | inl no_statement ↦ rw (began, no_statement) (inr (refl, (λ h. cc), refl))
    | inr prepared ↦
        rw (began, prepared)
          (finish-IsTransaction o rows (apply_entries o v rows no_result batch.entries).0
            (apply_entries o v rows no_result batch.entries).1 batch.entries
            (apply_entries_success o v rows no_result batch.entries refl)
            (apply_entries-IsApplied o v rows no_result batch.entries))
  ]
]
