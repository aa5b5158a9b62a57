-- ===== src/Raft/Log/Append.antt =====
-- What append_entries of native/sync/src/consensus/raft_log.cpp makes of a log: against a
-- description that compares old and new entries side by side.
use tightrope.Prelude.{
  ℕ, zero, suc, ◌+◌, ◌≤◌, ◌<◌, ◌≡◌, refl, ap, ◌∙◌, Bool, true, false, if◌then◌else◌, ltb, ◌==◌,
  List, [], ◌∷◌, ◌++◌, some, arith, length, get_elem?, take, drop, take-append-drop, length-append,
  inl, inr, Bool-cases, length-take, append_assoc, append-nil, subst, sym,
}
use tightrope.Raft.Log.{
  LogEntry, append, entry_at, take_entry, take_entries, append_entries, prev_matches, u64_mod,
}
use tightrope.Raft.Log.Contiguous.{
  IsContiguous, IsContiguous-append, IsContiguous-take, last_index-length, truncate_suffix-take,
  get_elem?-drop,
}

-- Old entries stay as long as their terms agree with the new ones; from the first that disagrees
-- the new entries replace the rest; old entries behind the last new one stay.
unfoldable pub reconcile : List LogEntry → List LogEntry → List LogEntry
reconcile old [] = old
reconcile [] (e ∷ es) = e ∷ es
reconcile (o ∷ old) (e ∷ es) =
    let rest = reconcile old es in if o.term == e.term then o ∷ rest else e ∷ es

append-end :
    (log : List LogEntry) (e : LogEntry)
    → IsContiguous 0 log
    → e.index ≡ suc (length log)
    → suc (length log) < u64_mod
    → append log e ≡ (log ++ e ∷ [], true)
unfolding append
append-end log e c i b = ground (arith, last_index-length log c)

take_entry-end :
    (log : List LogEntry) (e : LogEntry)
    → IsContiguous 0 log
    → e.index ≡ suc (length log)
    → suc (length log) < u64_mod
    → take_entry log e ≡ (log ++ e ∷ [], true)
unfolding take_entry entry_at
take_entry-end log e c i b = ground (arith, last_index-length log c, append-end log e c i b)

take_entries-end :
    (log es : List LogEntry)
    → IsContiguous 0 log
    → IsContiguous (length log) es
    → length log + length es < u64_mod
    → take_entries log es ≡ (log ++ es, true)
unfolding take_entries
take_entries-end log [] c d b = rw (append-nil log) refl
take_entries-end log (e ∷ es) c d b = rw (take_entry-end log e c d.0 (omega arith)) (
    take_entries-end (log ++ e ∷ []) es (IsContiguous-append 0 log (e ∷ []) c (omega arith, tt))
      (subst (λ n. IsContiguous n es) (sym longer) d.1) (omega (arith, longer))
    ∙ simp append_assoc)
  where
    longer : length (log ++ e ∷ []) ≡ suc (length log)
    longer = omega (arith, length-append log (e ∷ []))

take-full : (k : ℕ) (log : List LogEntry) → length log ≤ k → (take k log ≡ log) × (drop k log ≡ [])
take-full zero [] h = (refl, refl)
take-full (suc k) [] h = (refl, refl)
take-full zero (x ∷ log) h = absurd (omega arith)
take-full (suc k) (x ∷ log) h = ground (arith, take-full k log (omega arith))

take-suc :
    (k : ℕ) (log : List LogEntry) (o : LogEntry)
    → get_elem? log k ≡ some o
    → take (suc k) log ≡ take k log ++ o ∷ []
take-suc k [] o h = cc
take-suc zero (x ∷ log) o h = ground arith
take-suc (suc k) (x ∷ log) o h = ap (λ xs. x ∷ xs) (take-suc k log o h)

-- An entry whose index the log has: kept when the terms agree, else the log is cut before it.
take_entry-inside :
    (log : List LogEntry) (e o : LogEntry) (k : ℕ)
    → IsContiguous 0 log
    → e.index ≡ suc k
    → k < length log
    → length log < u64_mod
    → get_elem? log k ≡ some o
    → take_entry log e ≡ (if o.term == e.term then (log, true) else (take k log ++ e ∷ [], true))
unfolding take_entry entry_at
take_entry-inside log e o k c i h b g = ground (
  arith,
  last_index-length log c,
  truncate_suffix-take k log c,
  length-take k log,
  append-end (take k log) e (IsContiguous-take 0 k log c),
)

reconcile-nothing : (es : List LogEntry) → reconcile [] es ≡ es
unfolding reconcile
reconcile-nothing [] = refl
reconcile-nothing (e ∷ es) = refl

abbrev merged : ℕ → List LogEntry → List LogEntry → List LogEntry × Bool
merged k log es = (take k log ++ reconcile (drop k log) es, true)

-- The old log ends before the next entry: all new entries are appended.
merge_outside :
    (k : ℕ) (log es : List LogEntry)
    → IsContiguous 0 log
    → IsContiguous k es
    → k ≡ length log
    → k + length es < u64_mod
    → take_entries log es ≡ merged k log es
merge_outside k log es c d h r =
    take_entries-end log es c (subst (λ n. IsContiguous n es) h d) (omega arith)
    ∙ rw (taken.0) (rw (taken.1) (rw (reconcile-nothing es) refl))
  where
    taken : (take k log ≡ log) × (drop k log ≡ [])
    taken = take-full k log (omega arith)

-- The old log has an entry of another term there: it is cut, and the new entries follow.
merge_conflict :
    (k : ℕ) (log es : List LogEntry) (e o : LogEntry)
    → IsContiguous 0 log
    → IsContiguous k (e ∷ es)
    → k < length log
    → length log < u64_mod
    → k + suc (length es) < u64_mod
    → get_elem? log k ≡ some o
    → (o.term == e.term) ≡ false
    → take_entries log (e ∷ es) ≡ (take k log ++ e ∷ es, true)
unfolding take_entries
merge_conflict k log es e o c d h b r g t = rw (take_entry-inside log e o k c d.0 h b g) (
    rw t (
      take_entries-end (take k log ++ e ∷ []) es
        (IsContiguous-append 0 (take k log) (e ∷ []) (IsContiguous-take 0 k log c)
          (omega (arith, length-take k log), tt))
        (subst (λ n. IsContiguous n es) (sym longer) d.1) (omega (arith, longer))
      ∙ simp append_assoc))
  where
    longer : length (take k log ++ e ∷ []) ≡ suc k
    longer = omega (arith, length-append (take k log) (e ∷ []), length-take k log)

merge_inside :
    (k : ℕ) (log es : List LogEntry) (e : LogEntry)
    → IsContiguous 0 log
    → IsContiguous k (e ∷ es)
    → k < length log
    → length log < u64_mod
    → k + suc (length es) < u64_mod
    → (suc k ≤ length log → take_entries log es ≡ merged (suc k) log es)
    → take_entries log (e ∷ es) ≡ merged k log (e ∷ es)
unfolding reconcile take_entries
merge_inside k log es e c d h b r ih =
    let (o, found, behind) = get_elem?-drop log k h in
    elim (Bool-cases (o.term == e.term)) [
      | inl same ↦ ground (
        arith,
        take_entry-inside log e o k c d.0 h b found,
        ih (omega arith),
        take-suc k log o found,
        append_assoc (take k log) (o ∷ []) (reconcile (drop (suc k) log) es),
      )
      | inr differ ↦ merge_conflict k log es e o c d h b r found differ ∙ ground (arith, behind)
    ]

take_entries-reconcile :
    (k : ℕ) (log es : List LogEntry)
    → IsContiguous 0 log
    → IsContiguous k es
    → k ≤ length log
    → length log < u64_mod
    → k + length es < u64_mod
    → take_entries log es ≡ merged k log es
unfolding reconcile take_entries
take_entries-reconcile k log [] c d h b r =
    rw (reconcile_nothing_new (drop k log)) (rw (take-append-drop k log) refl)
  where
    reconcile_nothing_new : (old : List LogEntry) → reconcile old [] ≡ old
    reconcile_nothing_new [] = refl
    reconcile_nothing_new (o ∷ old) = refl
take_entries-reconcile k log (e ∷ es) c d h b r = elim (Bool-cases (ltb k (length log))) [
  | inl inside ↦
      merge_inside k log es e c d (ground arith) b r
        (λ later. take_entries-reconcile (suc k) log es c d.1 later b (omega arith))
  | inr outside ↦ merge_outside k log (e ∷ es) c d (ground arith) r
]

prev_matches-within :
    (log : List LogEntry) (i t : ℕ)
    → IsContiguous 0 log
    → prev_matches log i t ≡ true
    → i ≤ length log
unfolding prev_matches
prev_matches-within log i t c h = ground (arith, last_index-length log c)

-- A leader's entries numbered from prev_index + 1, given to a numbered log that stays within 64
-- bits: when the entry before them matches, the call succeeds and the log is the part up to
-- prev_index followed by the rest of the log reconciled with the new entries; when it does not
-- match, the call fails and the log is as it was.
pub append_entries-reconcile :
    (log es : List LogEntry) (prev_index prev_term : ℕ)
    → IsContiguous 0 log
    → IsContiguous prev_index es
    → length log < u64_mod
    → prev_index + length es < u64_mod
    → append_entries log prev_index prev_term es ≡ (
        if prev_matches log prev_index prev_term
        then (take prev_index log ++ reconcile (drop prev_index log) es, true)
        else (log, false))
unfolding append_entries
append_entries-reconcile log es prev_index prev_term c d b r =
    elim (Bool-cases (prev_matches log prev_index prev_term)) [
      | inl fits ↦ rw fits (take_entries-reconcile prev_index log es c d (within fits) b r)
      | inr misfits ↦ rw misfits refl
    ]
  where
    within : prev_matches log prev_index prev_term ≡ true → prev_index ≤ length log
    within fits = prev_matches-within log prev_index prev_term c fits
