-- ===== src/Journal/Laws.antt =====
-- What the journal of native/sync/src/journal.cpp keeps through its operations.
use tightrope.Prelude.{
  ℕ, suc, ◌+◌, ◌≤◌, ◌<◌, ◌≡◌, refl, ap, ltb, List, [], ◌∷◌, ◌++◌, length, arith, Bool-cases, inl,
  inr, subst,
}
use tightrope.Prelude.Int.{ℤ}
use tightrope.Wire.{Bytes}
use tightrope.Journal.{
  Journal, JournalEntry, PendingJournalEntry, append, after, entries_after, out_of_batch,
  rollback_batch, mark_entries, mark_applied, keep, compact, u64_mod,
}

-- Sequence numbers increase strictly from above the bound, and stay below the limit.
abbrev pub IsRising : ℕ → ℕ → List JournalEntry → Type 0
IsRising low high [] = low ≤ high
IsRising low high (e ∷ es) = (low ≤ e.seq) × IsRising (suc e.seq) high es

abbrev pub IsOrdered : Journal → Type 0
IsOrdered j = IsRising 0 j.next_seq j.entries

-- Entries up to a position.
abbrev pub AllUpTo : ℕ → List JournalEntry → Type 0
AllUpTo s [] = Unit {0}
AllUpTo s (e ∷ es) = (e.seq ≤ s) × AllUpTo s es

IsRising-lower :
    (low k high : ℕ) (es : List JournalEntry) → low ≤ k → IsRising k high es → IsRising low high es
IsRising-lower low k high [] h r = omega arith
IsRising-lower low k high (e ∷ es) h r = (omega arith, r.1)

IsRising-append :
    (low high : ℕ) (es : List JournalEntry) (e : JournalEntry)
    → e.seq ≡ high
    → IsRising low high es
    → IsRising low (suc high) (es ++ e ∷ [])
IsRising-append low high [] e h r = (omega arith, omega arith)
IsRising-append low high (x ∷ es) e h r = (r.0, IsRising-append (suc x.seq) high es e h r.1)

out_of_batch-IsRising :
    (b : Bytes) (low high : ℕ) (es : List JournalEntry)
    → IsRising low high es
    → IsRising low high (out_of_batch b es)
unfolding out_of_batch
out_of_batch-IsRising b low high [] r = r
out_of_batch-IsRising b low high (e ∷ es) r = ground (
  arith,
  out_of_batch-IsRising b (suc e.seq) high es r.1,
  IsRising-lower low (suc e.seq) high (out_of_batch b es),
)

keep-IsRising :
    (c a low high : ℕ) (es : List JournalEntry)
    → IsRising low high es
    → IsRising low high (keep es c a)
unfolding keep
keep-IsRising c a low high [] r = r
keep-IsRising c a low high (e ∷ es) r = ground (
  arith,
  keep-IsRising c a (suc e.seq) high es r.1,
  IsRising-lower low (suc e.seq) high (keep es c a),
)

mark-IsRising :
    (s : ℕ) (v : ℤ) (low high : ℕ) (es : List JournalEntry)
    → IsRising low high es
    → IsRising low high (mark_entries es s v).0
unfolding mark_entries
mark-IsRising s v low high [] r = r
mark-IsRising s v low high (e ∷ es) r = ground (arith, mark-IsRising s v (suc e.seq) high es r.1)

append-IsOrdered :
    (sha256 : Bytes → Bytes) (new_id : Bytes) (j : Journal) (p : PendingJournalEntry)
    → IsOrdered j
    → suc j.next_seq < u64_mod
    → IsOrdered (append sha256 new_id j p).0
unfolding append
append-IsOrdered sha256 new_id j p r room =
    subst (λ n. IsRising 0 n (append sha256 new_id j p).0.entries) (omega arith)
      (IsRising-append 0 j.next_seq j.entries (append sha256 new_id j p).1 refl r)

-- The entries of a journal have strictly increasing sequence numbers below the next one, and
-- append, while the numbers last, rollback_batch, mark_applied and compact keep that.
pub Journal-IsOrdered :
    (sha256 : Bytes → Bytes) (new_id : Bytes) (j : Journal) (p : PendingJournalEntry)
    (batch_id : Bytes) (seq cutoff_wall max_ack_seq : ℕ) (applied_value : ℤ)
    → IsOrdered j
    → suc j.next_seq < u64_mod
    → IsOrdered (append sha256 new_id j p).0
      × IsOrdered (rollback_batch j batch_id).0
      × IsOrdered (mark_applied j seq applied_value).0
      × IsOrdered (compact j cutoff_wall max_ack_seq).0
unfolding append rollback_batch mark_applied compact
Journal-IsOrdered sha256 new_id j p batch_id seq cutoff_wall max_ack_seq applied_value r room = (
  append-IsOrdered sha256 new_id j p r room,
  out_of_batch-IsRising batch_id 0 j.next_seq j.entries r,
  mark-IsRising seq applied_value 0 j.next_seq j.entries r,
  keep-IsRising cutoff_wall max_ack_seq 0 j.next_seq j.entries r,
)

after-all :
    (s low high : ℕ) (es : List JournalEntry) → s < low → IsRising low high es → after es s ≡ es
unfolding after
after-all s low high [] h r = refl
after-all s low high (e ∷ es) h r =
    ground (arith, after-all s (suc e.seq) high es (omega arith) r.1)

after-append :
    (es : List JournalEntry) (e : JournalEntry) (s : ℕ)
    → s < e.seq
    → after (es ++ e ∷ []) s ≡ after es s ++ e ∷ []
unfolding after
after-append [] e s h = ground arith
after-append (x ∷ es) e s h = ground (arith, after-append es e s h)

after-keep : (es : List JournalEntry) (s c a : ℕ) → a ≤ s → after (keep es c a) s ≡ after es s
unfolding after keep
after-keep [] s c a h = refl
after-keep (e ∷ es) s c a h = ground (arith, after-keep es s c a h)

length-keep : (es : List JournalEntry) (c a : ℕ) → length (keep es c a) ≤ length es
unfolding keep
length-keep [] c a = omega arith
length-keep (e ∷ es) c a = ground (arith, length-keep es c a)

-- The entries up to a position come first, and those after it are the rest of the list.
after-split :
    (s low high : ℕ) (es : List JournalEntry)
    → IsRising low high es
    → (before : List JournalEntry) × (before ++ after es s ≡ es) × AllUpTo s before
unfolding after
after-split s low high [] r = ([], refl, tt)
after-split s low high (e ∷ es) r = elim (Bool-cases (ltb s e.seq)) [
  | inl later ↦
      ([], rw later (ap (λ xs. e ∷ xs) (after-all s (suc e.seq) high es (ground arith) r.1)), tt)
  | inr up_to ↦
      let (before, parts, low_enough) = after-split s (suc e.seq) high es r.1 in
      (e ∷ before, rw up_to (ap (λ xs. e ∷ xs) parts), (ground arith, low_enough))
]

-- A peer at a position that the journal has passed gets the rest of the journal, in order and
-- without a gap: the entries before it all have numbers up to the position; and after one append,
-- which has the next number, it gets the same entries and then the new one.
pub entries_after-append :
    (sha256 : Bytes → Bytes) (new_id : Bytes) (j : Journal) (p : PendingJournalEntry) (seq : ℕ)
    → IsOrdered j
    → seq < j.next_seq
    → ((before : List JournalEntry) × (before ++ entries_after j seq ≡ j.entries)
        × AllUpTo seq before)
      × ((append sha256 new_id j p).1.seq ≡ j.next_seq)
      × (entries_after (append sha256 new_id j p).0 seq
          ≡ entries_after j seq ++ (append sha256 new_id j p).1 ∷ [])
unfolding append entries_after
entries_after-append sha256 new_id j p seq r h = (
  after-split seq 0 j.next_seq j.entries r,
  refl,
  after-append j.entries (append sha256 new_id j p).1 seq h,
)

-- Compaction never takes from a peer what it has not acknowledged: a peer that has acknowledged at
-- least max_ack_seq gets the same entries after its position as before, and the number given back
-- is the number of entries that are gone.
pub entries_after-compact :
    (j : Journal) (seq cutoff_wall max_ack_seq : ℕ)
    → max_ack_seq ≤ seq
    → (entries_after (compact j cutoff_wall max_ack_seq).0 seq ≡ entries_after j seq)
      × (length (compact j cutoff_wall max_ack_seq).0.entries
            + (compact j cutoff_wall max_ack_seq).1
          ≡ length j.entries)
unfolding compact entries_after
entries_after-compact j seq cutoff_wall max_ack_seq h = (
  after-keep j.entries seq cutoff_wall max_ack_seq h,
  omega (arith, length-keep j.entries cutoff_wall max_ack_seq),
)
