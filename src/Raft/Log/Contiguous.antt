-- ===== src/Raft/Log/Contiguous.antt =====
-- The log of native/sync/src/consensus/raft_log.cpp keeps the entry of index i at position i - 1,
-- whatever the operations are given.
use tightrope.Prelude.{
  ℕ, zero, suc, ◌+◌, ◌-◌, ◌≤◌, ◌<◌, ◌≡◌, refl, ap, ◌∙◌, subst, List, [], ◌∷◌, ◌++◌, none, some,
  arith, length, get_elem?, take, drop, length-append, length-take,
}
use tightrope.Raft.Log.{
  LogEntry, back, last_index, append, entry_at, truncate_suffix, entries_from, take_entry,
  take_entries, append_entries, u64_mod,
}

-- The entries of a list are numbered k + 1, k + 2, …
abbrev pub IsContiguous : ℕ → List LogEntry → Type 0
IsContiguous k [] = Unit {0}
IsContiguous k (e ∷ es) = (e.index ≡ suc k) × IsContiguous (suc k) es

last_from : (k : ℕ) (log : List LogEntry) → ℕ
last_from k log = elim (back log) [ none ↦ k | some e ↦ e.index ]

last_from-length :
    (k : ℕ) (log : List LogEntry) → IsContiguous k log → last_from k log ≡ k + length log
unfolding last_from back
last_from-length k [] c = omega arith
last_from-length k (e ∷ es) c = ground (arith, last_from-length (suc k) es c.1)

-- The last index of such a log is its length.
pub last_index-length : (log : List LogEntry) → IsContiguous 0 log → last_index log ≡ length log
unfolding last_index last_from
last_index-length log c = omega (arith, last_from-length 0 log c)

pub IsContiguous-append :
    (k : ℕ) (xs ys : List LogEntry)
    → IsContiguous k xs
    → IsContiguous (k + length xs) ys
    → IsContiguous k (xs ++ ys)
IsContiguous-append k [] ys c d = subst (λ n. IsContiguous n ys) (omega arith) d
IsContiguous-append k (x ∷ xs) ys c d =
    (c.0, IsContiguous-append (suc k) xs ys c.1 (subst (λ n. IsContiguous n ys) (omega arith) d))

pub IsContiguous-take :
    (k n : ℕ) (log : List LogEntry) → IsContiguous k log → IsContiguous k (take n log)
IsContiguous-take k zero log c = tt
IsContiguous-take k (suc n) [] c = tt
IsContiguous-take k (suc n) (e ∷ log) c = (c.0, IsContiguous-take (suc k) n log c.1)

-- Cutting by index is cutting by position.
truncate-take :
    (k i : ℕ) (log : List LogEntry) → IsContiguous k log → truncate_suffix log i ≡ take (i - k) log
unfolding truncate_suffix
truncate-take k i [] c = empty_take (i - k)
  where
    empty_take : (n : ℕ) → ◌≡◌ {A = List LogEntry} [] (take n [])
    empty_take zero = refl
    empty_take (suc n) = refl
truncate-take k i (e ∷ log) c = by_distance (truncate-take (suc k) i log c.1) (i - k) refl
  where
    by_distance :
        truncate_suffix log i ≡ take (i - suc k) log
        → (d : ℕ) → i - k ≡ d
        → truncate_suffix (e ∷ log) i ≡ take d (e ∷ log)
    by_distance ih zero h = ground (arith, ap (λ n. take n log) none_left)
      where
        none_left : i - suc k ≡ 0
        none_left = omega arith
    by_distance ih (suc d) h = ground (arith, ap (λ n. take n log) one_less)
      where
        one_less : i - suc k ≡ d
        one_less = omega arith

pub truncate_suffix-take :
    (i : ℕ) (log : List LogEntry) → IsContiguous 0 log → truncate_suffix log i ≡ take i log
truncate_suffix-take i log c = truncate-take 0 i log c ∙ ap (λ n. take n log) (omega arith)

-- The entry of index i stands at position i - 1, and the last index is a 64-bit number.
abbrev pub IsNumbered : List LogEntry → Type 0
IsNumbered log = IsContiguous 0 log × (length log < u64_mod)

pub append-IsNumbered :
    (log : List LogEntry) (e : LogEntry) → IsNumbered log → IsNumbered (append log e).0
unfolding append
append-IsNumbered log e c = ground (
  arith,
  last_index-length log c.0,
  IsContiguous-append 0 log (e ∷ []) c.0,
  length-append log (e ∷ []),
)

pub truncate_suffix-IsNumbered :
    (log : List LogEntry) (i : ℕ) → IsNumbered log → IsNumbered (truncate_suffix log i)
truncate_suffix-IsNumbered log i c =
    rw (truncate_suffix-take i log c.0)
      (IsContiguous-take 0 i log c.0, omega (arith, length-take i log))

take_entry-IsNumbered :
    (log : List LogEntry) (e : LogEntry) → IsNumbered log → IsNumbered (take_entry log e).0
unfolding take_entry
take_entry-IsNumbered log e c = ground (
  arith,
  append-IsNumbered log e c,
  append-IsNumbered (truncate_suffix log (e.index - 1)) e
      (truncate_suffix-IsNumbered log (e.index - 1) c),
)

take_entries-IsNumbered :
    (log es : List LogEntry) → IsNumbered log → IsNumbered (take_entries log es).0
unfolding take_entries
take_entries-IsNumbered log [] c = c
take_entries-IsNumbered log (e ∷ es) c = ground (
  arith,
  take_entry-IsNumbered log e c,
  take_entries-IsNumbered (take_entry log e).0 es (take_entry-IsNumbered log e c),
)

-- Appending one entry, appending entries from a leader, and truncating keep the numbering of a
-- log, whether they succeed or fail and whatever entries they are given.
pub RaftLog-IsNumbered :
    (log es : List LogEntry) (e : LogEntry) (prev_index prev_term i : ℕ)
    → IsNumbered log
    → IsNumbered (append log e).0
      × IsNumbered (append_entries log prev_index prev_term es).0
      × IsNumbered (truncate_suffix log i)
unfolding append_entries
RaftLog-IsNumbered log es e prev_index prev_term i c = (
  append-IsNumbered log e c,
  ground (arith, take_entries-IsNumbered log es c),
  truncate_suffix-IsNumbered log i c,
)

pub get_elem?-drop :
    (log : List LogEntry) (n : ℕ)
    → n < length log
    → (e : LogEntry) × (get_elem? log n ≡ some e) × (drop n log ≡ e ∷ drop (suc n) log)
get_elem?-drop [] n h = absurd (omega arith)
get_elem?-drop (x ∷ log) zero h = (x, refl, refl)
get_elem?-drop (x ∷ log) (suc n) h = get_elem?-drop log n (omega arith)

index_at :
    (k n : ℕ) (log : List LogEntry) (e : LogEntry)
    → IsContiguous k log
    → get_elem? log n ≡ some e
    → e.index ≡ k + suc n
index_at k n [] e c h = cc
index_at k zero (x ∷ log) e c h = ground arith
index_at k (suc n) (x ∷ log) e c h = omega (arith, index_at (suc k) n log e c.1 h)

-- Reading a numbered log by index: at every index from 1 to the last an entry is found, it has that
-- index, and the entries from there on are this entry and the entries from the next index on.
pub entry_at-index :
    (log : List LogEntry) (i : ℕ)
    → IsContiguous 0 log
    → 0 < i
    → i ≤ last_index log
    → (e : LogEntry) × (entry_at log i ≡ some e)
      × (e.index ≡ i)
      × (entries_from log i ≡ e ∷ entries_from log (suc i))
unfolding entry_at entries_from
entry_at-index log i c p h =
    let (e, found, rest) = get_elem?-drop log (i - 1) (omega (arith, last_index-length log c)) in
    (
      e,
      ground arith,
      omega (arith, index_at 0 (i - 1) log e c found),
      ground (arith, last_index-length log c, nothing_behind),
    )
  where
    nothing_behind : length log ≡ i → drop i log ≡ []
    nothing_behind k = subst (λ n. drop n log ≡ []) k (drop_all log)
      where
        drop_all : (xs : List LogEntry) → drop (length xs) xs ≡ []
        drop_all [] = refl
        drop_all (x ∷ xs) = drop_all xs
