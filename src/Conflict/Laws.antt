-- ===== src/Conflict/Laws.antt =====
-- The resolver of native/sync/src/conflict_resolver.cpp picks one winner on every replica.
use Prim.Native.String.{String}
use tightrope.Prelude.{
  ◌≡◌, ◌<◌, ◌↔◌, refl, ◌⊎◌, true, false, List, [], ◌∷◌, Option, none, some, arith, ◌≢◌,
}
use tightrope.Clock.{Hlc, compare_hlc}
use tightrope.Conflict.{
  Resolution, lww, site_priority, field_merge, keep_local, apply_remote, local_only, TableRule,
  find_rule, find_in_rules, parse_runtime_conflict_resolution, runtime_conflict_resolution_name,
  resolve_lww, conflict_strategy_for_table, is_table_replicated, table_requires_raft,
  resolve_table_conflict, table_rules,
}

-- Reading the name of a mode back gives the mode.
pub parse-runtime_conflict_resolution_name :
    (m : Resolution) → parse_runtime_conflict_resolution (runtime_conflict_resolution_name m) ≡ m
unfolding parse_runtime_conflict_resolution runtime_conflict_resolution_name
parse-runtime_conflict_resolution_name lww = refl
parse-runtime_conflict_resolution_name site_priority = refl
parse-runtime_conflict_resolution_name field_merge = refl

-- In every mode "the remote stamp wins" is a strict order: of two replicas at most one takes the
-- other's row, and the order in which stamps meet does not matter.
pub resolve_lww-strict :
    (m : Resolution) (a b c : Hlc)
    → resolve_lww m a b ≡ apply_remote
    → resolve_lww m b c ≡ apply_remote
    → (resolve_lww m b a ≡ keep_local) × (resolve_lww m a c ≡ apply_remote)
unfolding resolve_lww compare_hlc
resolve_lww-strict lww a b c h k = (ground arith, ground arith)
resolve_lww-strict site_priority a b c h k = (ground arith, ground arith)
resolve_lww-strict field_merge a b c h k = (ground arith, ground arith)

-- Stamps by wall time, then counter, then site.
abbrev pub IsLater : Hlc → Hlc → Type 0
IsLater a b =
    (b.wall < a.wall)
    ⊎ ((a.wall ≡ b.wall) × (b.counter < a.counter))
    ⊎ ((a.wall ≡ b.wall) × (a.counter ≡ b.counter) × (b.site_id < a.site_id))

-- Which remote stamps win: the later one, the one of the higher site, or the later one without
-- regard to sites.
abbrev pub Wins : Resolution → Hlc → Hlc → Type 0
Wins lww a b = IsLater a b
Wins site_priority a b = (b.site_id < a.site_id) ⊎ ((a.site_id ≡ b.site_id) × IsLater a b)
Wins field_merge a b = (b.wall < a.wall) ⊎ ((a.wall ≡ b.wall) × (b.counter < a.counter))

-- The remote row is taken exactly if its stamp wins: in mode lww by the later wall time, then the
-- higher counter, then the higher site; in mode site_priority by the higher site, then as in lww;
-- in mode field_merge by the later wall time, then the higher counter. In the first two modes one of
-- two different stamps always replaces the other.
pub resolve_lww-decides :
    (m : Resolution) (a b : Hlc)
    → ((resolve_lww m a b ≡ apply_remote) ↔ Wins m a b)
      × (m ≢ field_merge
          → a ≢ b
          → (resolve_lww m a b ≡ apply_remote) ⊎ (resolve_lww m b a ≡ apply_remote))
unfolding resolve_lww compare_hlc
resolve_lww-decides lww a b = (((λ h. ground arith), (λ w. ground arith)), (λ h d. ground arith))
resolve_lww-decides site_priority a b =
    (((λ h. ground arith), (λ w. ground arith)), (λ h d. ground arith))
resolve_lww-decides field_merge a b =
    (((λ h. ground arith), (λ w. ground arith)), (λ h d. absurd (h refl)))

-- In the mode field_merge two stamps with the same wall time and counter have no winner,
-- whatever their sites: each replica keeps its own row.
pub field_merge_undecided :
    (a b : Hlc)
    → a.wall ≡ b.wall
    → a.counter ≡ b.counter
    → (resolve_lww field_merge a b ≡ keep_local) × (resolve_lww field_merge b a ≡ keep_local)
unfolding resolve_lww
field_merge_undecided a b h k = (ground arith, ground arith)

-- A rule is local exactly if its table is not replicated.
abbrev LocalIffPrivate : Option TableRule → Type 0
LocalIffPrivate none = Unit {0}
LocalIffPrivate (some r) =
    ((r.strategy ≡ local_only) → r.replicated ≡ false)
    × ((r.strategy ≢ local_only) → r.replicated ≡ true)

abbrev AllAgree : List TableRule → Type 0
AllAgree [] = Unit {0}
AllAgree (r ∷ rs) = LocalIffPrivate (some r) × AllAgree rs

find_in_rules-agree :
    (rs : List TableRule) (name : String) → AllAgree rs → LocalIffPrivate (find_in_rules rs name)
unfolding find_in_rules
find_in_rules-agree [] name h = ground arith
find_in_rules-agree (r ∷ rs) name h = ground (arith, find_in_rules-agree rs name h.1)

table_rules-agree : AllAgree table_rules
table_rules-agree = ground arith

find_rule-agree : (name : String) → LocalIffPrivate (find_rule name)
unfolding find_rule
find_rule-agree name = find_in_rules-agree table_rules name table_rules-agree

-- A remote write is taken only for a table that is replicated and not owned by Raft, and only when
-- the last write wins in its favour.
pub resolve_table_conflict-apply :
    (m : Resolution) (name : String) (remote local : Hlc)
    → resolve_table_conflict m name remote local ≡ apply_remote
    → (is_table_replicated name ≡ true)
      × (table_requires_raft name ≡ false)
      × (resolve_lww m remote local ≡ apply_remote)
unfolding resolve_table_conflict is_table_replicated table_requires_raft conflict_strategy_for_table
resolve_table_conflict-apply m name remote local h = ground (arith, find_rule-agree name)
