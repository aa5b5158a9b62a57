-- ===== src/Conflict/Tests.antt =====
-- Runs of the resolver (native/sync/src/conflict_resolver.cpp) at concrete tables and stamps.
use tightrope.Prelude.{◌≡◌, refl, true, ◌⊎◌, ◌↔◌, ◌≢◌, ◌∷◌, []}
use tightrope.Clock.{Hlc, compare_hlc}
use tightrope.Conflict.{
  lww, site_priority, field_merge, keep_local, apply_remote, resolve_lww, find_rule, find_in_rules,
  conflict_strategy_for_table, resolve_table_conflict, is_table_replicated,
  parse_runtime_conflict_resolution, runtime_conflict_resolution_name, replicated_table_names,
}
use tightrope.Conflict.Laws.{
  Wins, resolve_lww-strict, resolve_lww-decides, field_merge_undecided,
  resolve_table_conflict-apply, parse-runtime_conflict_resolution_name,
}

abbrev old : Hlc
old = record { wall = 10; counter = 1; site_id = 2 }

abbrev new : Hlc
new = record { wall = 11; counter = 0; site_id = 1 }

abbrev twin : Hlc
twin = record { wall = 10; counter = 1; site_id = 3 }

raft_table_private : resolve_table_conflict lww "accounts" new old ≡ keep_local
unfolding resolve_table_conflict conflict_strategy_for_table find_rule find_in_rules
raft_table_private = refl

replicated_names :
    replicated_table_names
    ≡ "accounts" ∷ "dashboard_settings" ∷ "api_keys" ∷ "api_key_limits" ∷ "ip_allowlist"
      ∷ "usage_history" ∷ "sticky_sessions" ∷ []
unfolding replicated_table_names
replicated_names = refl

sticky_newer : resolve_table_conflict lww "sticky_sessions" new old ≡ apply_remote
unfolding resolve_table_conflict conflict_strategy_for_table find_rule find_in_rules resolve_lww
    compare_hlc
sticky_newer = refl

newer_wins : resolve_lww lww new old ≡ apply_remote
unfolding resolve_lww compare_hlc
newer_wins = refl

parse-runtime_conflict_resolution_name_example :
    parse_runtime_conflict_resolution (runtime_conflict_resolution_name field_merge) ≡ field_merge
parse-runtime_conflict_resolution_name_example = parse-runtime_conflict_resolution_name field_merge

abbrev newest : Hlc
newest = record { wall = 12; counter = 0; site_id = 2 }

newest_wins : resolve_lww lww newest new ≡ apply_remote
unfolding resolve_lww compare_hlc
newest_wins = refl

resolve_lww-strict_example : resolve_lww lww newest old ≡ apply_remote
resolve_lww-strict_example = (resolve_lww-strict lww newest new old newest_wins newer_wins).1

resolve_lww-decides_example :
    ((resolve_lww site_priority old new ≡ apply_remote) ↔ Wins site_priority old new)
    × (site_priority ≢ field_merge
        → old ≢ new
        → (resolve_lww site_priority old new ≡ apply_remote)
          ⊎ (resolve_lww site_priority new old ≡ apply_remote))
resolve_lww-decides_example = resolve_lww-decides site_priority old new

field_merge_undecided_example :
    (resolve_lww field_merge old twin ≡ keep_local)
    × (resolve_lww field_merge twin old ≡ keep_local)
field_merge_undecided_example = field_merge_undecided old twin refl refl

resolve_table_conflict-apply_example : is_table_replicated "sticky_sessions" ≡ true
resolve_table_conflict-apply_example =
    (resolve_table_conflict-apply lww "sticky_sessions" new old sticky_newer).0
