-- ===== src/Engine/CatchUp.antt =====
-- One exchange of native/sync/src/sync_engine.cpp: a batch that build_batch reads from one journal
-- and apply_batch puts into another.
use tightrope.Prelude.{
  ℕ, zero, suc, ◌%◌, ◌≤◌, ◌<◌, ◌≡◌, ◌⊎◌, refl, ap, sym, subst, Bool, true, false, max, List, [],
  ◌∷◌, arith, length, ltb, inl, inr, Bool-cases, take,
}
use tightrope.Prelude.Int.{ℤ, pos, negsuc}
use tightrope.Prelude.Maps.{nat_ordered}
use tightrope.Protocol.Batch.{JournalBatchFrame}
use tightrope.Protocol.Batch.Entry.{JournalWireEntry, to_i32}
use tightrope.Engine.Store.{Rows, Statement, prepare, rows_after, limited, max_seq, build_batch}
use tightrope.Engine.Apply.{Outside, apply_batch}
use tightrope.Engine.Apply.Entry.{IsSound, IsStored, AllStored}
use tightrope.Engine.Apply.Atomic.{apply_batch-IsApplied}
use tightrope.Engine.Apply.Again.{IsWorking, IsOpen, AllOpen, apply_batch_succeeds}

-- Rows under their own numbers, rising from a bound, all of which pass the checks.
abbrev pub IsJournal : Outside → ℕ → Rows → Type 0
IsJournal o low [] = Unit {0}
IsJournal o low ((seq, row) ∷ rows) =
    (low ≤ seq) × (row.seq ≡ seq) × IsSound o row × IsJournal o (suc seq) rows

-- No row of the peer contradicts a row of the journal.
abbrev pub Agrees : Rows → Rows → Type 0
Agrees [] peer = Unit {0}
Agrees ((seq, row) ∷ rows) peer = IsOpen peer row × Agrees rows peer

-- Every row after one position, up to another, is stored in the peer.
abbrev pub HasAll : ℕ → ℕ → Rows → Rows → Type 0
HasAll after upto [] peer = Unit {0}
HasAll after upto ((seq, row) ∷ rows) peer =
    ((seq ≤ after) ⊎ (upto < seq) ⊎ IsStored peer row) × HasAll after upto rows peer

AllOpen-lower :
    (o : Outside) (peer : Rows) (low k : ℕ) (es : List JournalWireEntry)
    → low ≤ k
    → AllOpen o peer k es
    → AllOpen o peer low es
AllOpen-lower o peer low k [] h a = tt
AllOpen-lower o peer low k (e ∷ es) h a = (omega arith, a.1, a.2, a.3)

AllOpen-take :
    (o : Outside) (peer : Rows) (low n : ℕ) (es : List JournalWireEntry)
    → AllOpen o peer low es
    → AllOpen o peer low (take n es)
AllOpen-take o peer low zero es a = tt
AllOpen-take o peer low (suc n) [] a = tt
AllOpen-take o peer low (suc n) (e ∷ es) a =
    (a.0, a.1, a.2, AllOpen-take o peer (suc e.seq) n es a.3)

rows_after_skip :
    (seq after : ℕ) (row : JournalWireEntry) (rows : Rows)
    → ltb after seq ≡ false
    → rows_after ((seq, row) ∷ rows) after ≡ rows_after rows after
unfolding rows_after
rows_after_skip seq after row rows h = ground (arith, h)

rows_after_take :
    (seq after : ℕ) (row : JournalWireEntry) (rows : Rows)
    → ltb after seq ≡ true
    → rows_after ((seq, row) ∷ rows) after ≡ row ∷ rows_after rows after
unfolding rows_after
rows_after_take seq after row rows h = ground (arith, h)

after-cases :
    (after seq : ℕ)
    → ((ltb after seq ≡ true) × (after < seq)) ⊎ ((ltb after seq ≡ false) × (seq ≤ after))
after-cases after seq = elim (Bool-cases (ltb after seq)) [
  | inl later ↦ inl (later, ground (arith, later))
  | inr earlier ↦ inr (earlier, ground (arith, earlier))
]

rows_after-AllOpen :
    (o : Outside) (low after : ℕ) (rows peer : Rows)
    → IsJournal o low rows
    → Agrees rows peer
    → AllOpen o peer low (rows_after rows after)
unfolding rows_after
rows_after-AllOpen o low after [] peer j a = tt
rows_after-AllOpen o low after ((seq, row) ∷ rows) peer (rises, own, sound, more)
      (is_open, others) =
    let rest = rows_after-AllOpen o (suc seq) after rows peer more others in
    elim (Bool-cases (ltb after seq)) [
      | inl taken ↦ rw (rows_after_take seq after row rows taken) (
        omega arith,
        sound,
        is_open,
        subst (λ k. AllOpen o peer (suc k) (rows_after rows after)) (sym own) rest,
      )
      | inr skipped ↦
          rw (rows_after_skip seq after row rows skipped)
            (AllOpen-lower o peer low (suc seq) (rows_after rows after) (omega arith) rest)
    ]

take_all : (es : List JournalWireEntry) → es ≡ take (length es) es
take_all [] = refl
take_all (e ∷ es) = ap (λ rest. e ∷ rest) (take_all es)

limited-take : (limit : ℕ) (es : List JournalWireEntry) → (n : ℕ) × (limited limit es ≡ take n es)
unfolding limited
limited-take limit es =
    elim (to_i32 (limit % 4294967296))
      as (λ x. (n : ℕ) × ((elim x [ pos n ↦ take n es | negsuc n ↦ es ]) ≡ take n es)) [
        | pos n ↦ (n, refl)
        | negsuc n ↦ (length es, take_all es)
      ]

-- A list that ends early ends below every row that it leaves out.
HasAll-none :
    (o : Outside) (low after start : ℕ) (rows peer : Rows)
    → (start ≤ after) ⊎ (start < low)
    → IsJournal o low rows
    → HasAll after start rows peer
HasAll-none o low after start [] peer h j = tt
HasAll-none o low after start ((seq, row) ∷ rows) peer h (rises, own, sound, more) = (
  elim (after-cases after seq) [
    | inl (taken, later) ↦
        inr (inl (elim h [ inl low_start ↦ omega arith | inr low_start ↦ omega arith ]))
    | inr (skipped, earlier) ↦ inl earlier
  ],
  HasAll-none o (suc seq) after start rows peer
      (elim h [ inl low_start ↦ inl low_start | inr low_start ↦ inr (omega arith) ]) more,
)

abbrev TakenHas : Outside → ℕ → ℕ → ℕ → Rows → Rows → List JournalWireEntry → Type 0
TakenHas o after start n rows peer es =
    AllStored o peer (take n es) → HasAll after (max_seq start (take n es)) rows peer

HasAll-taken :
    (o : Outside) (low after start n : ℕ) (rows peer : Rows)
    → (start ≤ after) ⊎ (start < low)
    → IsJournal o low rows
    → AllStored o peer (take n (rows_after rows after))
    → HasAll after (max_seq start (take n (rows_after rows after))) rows peer
unfolding max_seq
HasAll-taken o low after start zero rows peer h j = λ a. HasAll-none o low after start rows peer h j
HasAll-taken o low after start (suc n) [] peer h j = λ a. tt
HasAll-taken o low after start (suc n) ((seq, row) ∷ rows) peer h (rises, own, sound, more) =
    let motive : List JournalWireEntry → Type 0 =
      TakenHas o after start (suc n) ((seq, row) ∷ rows) peer in
    elim (after-cases after seq) [
      | inl (taken, later) ↦ subst motive (sym (rows_after_take seq after row rows taken)) (λ a. (
        inr (inr a.1),
        HasAll-taken o (suc seq) after (max start row.seq) n rows peer
            (inr (elim h [
              | inl low_start ↦ ground (arith, own)
              | inr low_start ↦ ground (arith, own)
            ]))
            more a.2,
      ))
      | inr (skipped, earlier) ↦
          subst motive (sym (rows_after_skip seq after row rows skipped)) (λ a. (
            inl earlier,
            HasAll-taken o (suc seq) after start (suc n) rows peer
                (elim h [ inl low_start ↦ inl low_start | inr low_start ↦ inr (omega arith) ]) more
                a,
          ))
    ]

build_batch-entries :
    (fails : Statement → Bool) (rows : Rows) (after limit : ℕ)
    → fails prepare ≡ false
    → (n : ℕ) × ((build_batch fails rows after limit).entries ≡ take n (rows_after rows after))
      × ((build_batch fails rows after limit).to_seq
          ≡ max_seq after (take n (rows_after rows after)))
unfolding build_batch
build_batch-entries fails rows after limit h =
    let (n, e) = limited-take limit (rows_after rows after) in
    (n, ground (arith, h, e), ground (arith, h, e))

-- A batch that is built from a journal whose rows pass the checks, and applied by a peer whose own
-- rows do not contradict it, while the statements of both work: the peer applies it and then has,
-- with their checksums, all rows of the journal from the one asked for up to the batch's last.
pub build_batch-apply_batch :
    (o : Outside) (v : ℤ) (fails : Statement → Bool) (rows peer : Rows) (after limit : ℕ)
    → IsWorking o
    → fails prepare ≡ false
    → IsJournal o 0 rows
    → Agrees rows peer
    → ((apply_batch o v peer (build_batch fails rows after limit)).1.success ≡ true)
      × HasAll after
          (build_batch fails rows after limit).to_seq
          rows
          (apply_batch o v peer (build_batch fails rows after limit)).0
build_batch-apply_batch o v fails rows peer after limit works prepared journal agrees =
    let batch : JournalBatchFrame = build_batch fails rows after limit in
    let (n, entries, upto) = build_batch-entries fails rows after limit prepared in
    let ok : (apply_batch o v peer batch).1.success ≡ true =
      apply_batch_succeeds o v works peer batch (
        subst (AllOpen o peer 0) (sym entries) (
          AllOpen-take o peer 0 n (rows_after rows after)
            (rows_after-AllOpen o 0 after rows peer journal agrees))) in
    (
      ok,
      elim (apply_batch-IsApplied o v peer batch) [
        | inl (done, applied) ↦
            subst (λ u. HasAll after u rows (apply_batch o v peer batch).0) (sym upto)
              (HasAll-taken o 0 after after n rows (apply_batch o v peer batch).0
                (inl (omega arith)) journal
                (subst (AllStored o (apply_batch o v peer batch).0) entries applied.all_stored))
        | inr (failed, no_error, kept) ↦ absurd (ground (arith, ok, failed))
      ],
    )
