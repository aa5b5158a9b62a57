-- ===== src/Conflict.antt =====
-- Conflict rules of replicated tables: native/sync/src/conflict_resolver.cpp. The process-wide
-- resolution mode is an argument of the functions that read it.
pub mod Laws
mod Tests
use Prim.Native.String.{String}
use text.Mathlib.Text.{◌==◌ as str_eq, starts_with}
use tightrope.Prelude.{
  ℕ, Bool, true, false, not, ◌||◌, if◌then◌else◌, ltb, ◌==◌, List, [], ◌∷◌, Option, none, some,
}
use tightrope.Clock.{Hlc, compare_hlc, is_positive}

-- RuntimeConflictResolution.
pub data Resolution : Type 0 where
  lww site_priority field_merge : Resolution

pub data ConflictStrategy : Type 0 where
  raft_linearizable lww_by_hlc crdt_pn_counter_merge crdt_or_set_add_wins local_only :
      ConflictStrategy

pub data ConflictDecision : Type 0 where
  keep_local apply_remote : ConflictDecision

unfoldable pub parse_runtime_conflict_resolution : String → Resolution
parse_runtime_conflict_resolution strategy =
    if str_eq strategy "site_priority"
    then site_priority
    else if str_eq strategy "field_merge"
    then field_merge
    else lww

unfoldable pub runtime_conflict_resolution_name : Resolution → String
runtime_conflict_resolution_name lww = "lww"
runtime_conflict_resolution_name site_priority = "site_priority"
runtime_conflict_resolution_name field_merge = "field_merge"

pub record TableRule : Type 0 where
  pub table : String
  pub strategy : ConflictStrategy
  pub replicated : Bool

abbrev rule : String → ConflictStrategy → Bool → TableRule
rule t s r = record { table = t; strategy = s; replicated = r }

abbrev pub table_rules : List TableRule
table_rules =
    rule "accounts" raft_linearizable true
    ∷ rule "dashboard_settings" raft_linearizable true
    ∷ rule "api_keys" raft_linearizable true
    ∷ rule "api_key_limits" raft_linearizable true
    ∷ rule "ip_allowlist" crdt_or_set_add_wins true
    ∷ rule "usage_history" crdt_pn_counter_merge true
    ∷ rule "sticky_sessions" lww_by_hlc true
    ∷ rule "request_logs" local_only false
    ∷ rule "_sync_journal" local_only false
    ∷ rule "_sync_meta" local_only false
    ∷ rule "_sync_last_seen" local_only false
    ∷ []

abbrev pub local_prefix_rule : TableRule
local_prefix_rule = rule "" local_only false

unfoldable pub find_in_rules : List TableRule → String → Option TableRule
find_in_rules [] name =
    if starts_with name "_sync_" || starts_with name "_raft_" then some local_prefix_rule else none
find_in_rules (r ∷ rs) name = if str_eq r.table name then some r else find_in_rules rs name

unfoldable pub find_rule : String → Option TableRule
find_rule name = find_in_rules table_rules name

abbrev pub apply_if : Bool → ConflictDecision
apply_if b = if b then apply_remote else keep_local

unfoldable pub resolve_lww : Resolution → Hlc → Hlc → ConflictDecision
resolve_lww site_priority remote local =
    if not (remote.site_id == local.site_id)
    then apply_if (ltb local.site_id remote.site_id)
    else apply_if (is_positive (compare_hlc remote local))
resolve_lww field_merge remote local =
    if not (remote.wall == local.wall)
    then apply_if (ltb local.wall remote.wall)
    else if not (remote.counter == local.counter)
    then apply_if (ltb local.counter remote.counter)
    else keep_local
resolve_lww lww remote local = apply_if (is_positive (compare_hlc remote local))

unfoldable pub conflict_strategy_for_table : String → ConflictStrategy
conflict_strategy_for_table name = elim (find_rule name) [ some r ↦ r.strategy | none ↦ lww_by_hlc ]

unfoldable pub is_table_replicated : String → Bool
is_table_replicated name = elim (find_rule name) [ some r ↦ r.replicated | none ↦ true ]

unfoldable pub names_of_replicated : List TableRule → List String
names_of_replicated [] = []
names_of_replicated (r ∷ rs) =
    if r.replicated then r.table ∷ names_of_replicated rs else names_of_replicated rs

unfoldable pub replicated_table_names : List String
unfolding names_of_replicated
replicated_table_names = names_of_replicated table_rules

abbrev is_raft : ConflictStrategy → Bool
is_raft raft_linearizable = true
is_raft _ = false

unfoldable pub table_requires_raft : String → Bool
table_requires_raft name = is_raft (conflict_strategy_for_table name)

unfoldable pub resolve_by_strategy : ConflictStrategy → Resolution → Hlc → Hlc → ConflictDecision
resolve_by_strategy local_only mode remote local = keep_local
resolve_by_strategy raft_linearizable mode remote local = keep_local
resolve_by_strategy lww_by_hlc mode remote local = resolve_lww mode remote local
resolve_by_strategy crdt_pn_counter_merge mode remote local = resolve_lww mode remote local
resolve_by_strategy crdt_or_set_add_wins mode remote local = resolve_lww mode remote local

unfoldable pub resolve_table_conflict : Resolution → String → Hlc → Hlc → ConflictDecision
unfolding resolve_by_strategy
resolve_table_conflict mode name remote local =
    resolve_by_strategy (conflict_strategy_for_table name) mode remote local
