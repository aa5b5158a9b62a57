-- ===== src/Raft/Log.antt =====
-- The in-memory Raft log: native/sync/src/consensus/raft_log.cpp. A vector is a list, oldest
-- entry first; logging is left out.
pub mod Contiguous
pub mod Append
use tightrope.Prelude.{
  ℕ, zero, suc, ◌+◌, ◌-◌, ◌%◌, Bool, true, false, not, ◌&&◌, ◌||◌, if◌then◌else◌, ltb, leb, ◌==◌,
  List, [], ◌∷◌, ◌++◌, Option, none, some, get_elem?, drop,
}

pub record LogEntry : Type 0 where
  pub term : ℕ
  pub index : ℕ
  pub table_name : List ℕ
  pub row_pk : List ℕ
  pub op : List ℕ
  pub values : List ℕ
  pub checksum : List ℕ

abbrev pub u64_mod : ℕ
u64_mod = 18446744073709551616

-- entries_.back()
unfoldable pub back : List LogEntry → Option LogEntry
back [] = none
back (e ∷ es) = elim (back es) [ none ↦ some e | some last ↦ some last ]

unfoldable pub last_index : List LogEntry → ℕ
unfolding back
last_index log = elim (back log) [ none ↦ 0 | some e ↦ e.index ]

unfoldable pub last_term : List LogEntry → ℕ
unfolding back
last_term log = elim (back log) [ none ↦ 0 | some e ↦ e.term ]

-- Each operation gives the log after it and the source's result.
unfoldable pub append : List LogEntry → LogEntry → List LogEntry × Bool
append log entry =
    if not (entry.index == (last_index log + 1) % u64_mod) || entry.index == 0
    then (log, false)
    else (log ++ entry ∷ [], true)

unfoldable pub entry_at : List LogEntry → ℕ → Option LogEntry
entry_at log index =
    if index == 0 || ltb (last_index log) index then none else get_elem? log (index - 1)

unfoldable pub truncate_suffix : List LogEntry → ℕ → List LogEntry
truncate_suffix [] index = []
truncate_suffix (e ∷ log) index =
    if ltb index e.index then truncate_suffix log index else e ∷ truncate_suffix log index

unfoldable pub entries_from : List LogEntry → ℕ → List LogEntry
entries_from log index =
    if index == 0 then log else if ltb (last_index log) index then [] else drop (index - 1) log

-- One round of the loop of append_entries, for an incoming entry.
abbrev take_over : List LogEntry → LogEntry → Option LogEntry → List LogEntry × Bool
take_over log incoming none = append log incoming
take_over log incoming (some existing) =
    if not (existing.term == incoming.term)
    then append (truncate_suffix log (incoming.index - 1)) incoming
    else (log, true)

unfoldable pub take_entry : List LogEntry → LogEntry → List LogEntry × Bool
take_entry log incoming =
    if incoming.index == 0
    then (log, false)
    else take_over log incoming (entry_at log incoming.index)

unfoldable pub take_entries : List LogEntry → List LogEntry → List LogEntry × Bool
take_entries log [] = (log, true)
take_entries log (e ∷ es) =
    let taken = take_entry log e in
    let rest = take_entries taken.0 es in if taken.1 then rest else (taken.0, false)

-- The check of the entry before the new ones.
unfoldable pub prev_matches : List LogEntry → ℕ → ℕ → Bool
prev_matches log prev_index prev_term =
    if ltb (last_index log) prev_index
    then false
    else if ltb 0 prev_index
    then elim (entry_at log prev_index) [ none ↦ false | some e ↦ e.term == prev_term ]
    else true

unfoldable pub append_entries : List LogEntry → ℕ → ℕ → List LogEntry → List LogEntry × Bool
unfolding prev_matches
append_entries log prev_index prev_term entries =
    if prev_matches log prev_index prev_term then take_entries log entries else (log, false)
