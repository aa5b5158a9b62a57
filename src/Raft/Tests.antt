-- ===== src/Raft/Tests.antt =====
-- Runs of the models of native/sync/src/consensus/ on small inputs.
use tightrope.Prelude.{
  ℕ, ◌≡◌, ◌≢◌, ◌⊎◌, refl, true, false, List, [], ◌∷◌, ◌++◌, none, arith, inr, if◌then◌else◌, take,
  drop,
}
use tightrope.Raft.Log.{
  LogEntry, append, append_entries, truncate_suffix, entry_at, last_index, prev_matches, back,
  take_entries, take_entry,
}
use tightrope.Raft.Log.Contiguous.{IsContiguous, IsNumbered, RaftLog-IsNumbered}
use tightrope.Raft.Log.Append.{reconcile, append_entries-reconcile}
use tightrope.Raft.Membership.{
  Membership, init, contains, normalize, has_majority, has_joint_majority, has_majority_for,
  begin_joint_consensus, commit_joint_consensus, reset_members, remove_zero, sort, insert_sorted,
  unique, unique_after, required_quorum, granted, in_joint_consensus,
}
use tightrope.Raft.Membership.Normal.{IsNormal, Membership-IsNormal}
use tightrope.Raft.Membership.Quorum.{
  SharedVoter, SharedNode, has_majority_for-SharedVoter, joint_majority-overlaps,
}
use tightrope.Raft.Node.{
  is_log_up_to_date, is_log_up_to_date-linear, RaftRole, LeaderProxyAction, LeaderProxyContext,
  resolve_leader_proxy, resolve_leader_proxy-local,
}

abbrev entry : ℕ → ℕ → LogEntry
entry t i = record {
  term = t;
  index = i;
  table_name = [];
  row_pk = [];
  op = [];
  values = i ∷ [];
  checksum = [];
}

abbrev old_log : List LogEntry
old_log = entry 1 1 ∷ entry 1 2 ∷ entry 2 3 ∷ []

abbrev new_entries : List LogEntry
new_entries = entry 1 2 ∷ entry 3 3 ∷ entry 3 4 ∷ []

append_entries-run :
    append_entries old_log 1 1 new_entries
    ≡ (entry 1 1 ∷ entry 1 2 ∷ entry 3 3 ∷ entry 3 4 ∷ [], true)
unfolding append_entries prev_matches take_entries take_entry append entry_at truncate_suffix
    last_index back
append_entries-run = refl

old-IsContiguous : IsContiguous 0 old_log
old-IsContiguous = (refl, (refl, (refl, tt)))

new-IsContiguous : IsContiguous 1 new_entries
new-IsContiguous = (refl, (refl, (refl, tt)))

last_index_three : last_index old_log ≡ 3
unfolding last_index back
last_index_three = refl

append_entries-reconcile_example : append_entries old_log 1 1 new_entries ≡ (
    if prev_matches old_log 1 1
    then (take 1 old_log ++ reconcile (drop 1 old_log) new_entries, true)
    else (old_log, false))
append_entries-reconcile_example =
    append_entries-reconcile old_log new_entries 1 1 old-IsContiguous new-IsContiguous (omega arith)
      (omega arith)

RaftLog-IsNumbered_example :
    IsNumbered (append old_log (entry 2 4)).0
    × IsNumbered (append_entries old_log 1 1 new_entries).0
    × IsNumbered (truncate_suffix old_log 1)
RaftLog-IsNumbered_example =
    RaftLog-IsNumbered old_log new_entries (entry 2 4) 1 1 1 (old-IsContiguous, omega arith)

abbrev members : List ℕ
members = 3 ∷ 0 ∷ 1 ∷ 3 ∷ 2 ∷ []

abbrev three : Membership
three = record { members = 1 ∷ 2 ∷ 3 ∷ []; joint_members = none }

init-run : init members ≡ three
unfolding init normalize remove_zero sort insert_sorted unique unique_after
init-run = refl

three-IsNormal : IsNormal three
three-IsNormal = ((omega arith, (omega arith, (omega arith, tt))), tt)

Membership-IsNormal_example :
    IsNormal (init members)
    × IsNormal (begin_joint_consensus three members).0
    × IsNormal (commit_joint_consensus three).0
    × IsNormal (reset_members three members)
Membership-IsNormal_example = Membership-IsNormal three members three-IsNormal

has_majority_for-SharedVoter_example : SharedVoter (1 ∷ 2 ∷ 3 ∷ []) (1 ∷ 2 ∷ []) (9 ∷ 3 ∷ 2 ∷ [])
unfolding has_majority_for required_quorum granted contains
has_majority_for-SharedVoter_example =
    has_majority_for-SharedVoter (1 ∷ 2 ∷ 3 ∷ []) (1 ∷ 2 ∷ []) (9 ∷ 3 ∷ 2 ∷ []) (omega arith) refl
      refl

joint_majority-overlaps_example : SharedNode (1 ∷ 2 ∷ 4 ∷ []) (4 ∷ 5 ∷ [])
unfolding begin_joint_consensus commit_joint_consensus has_joint_majority has_majority
    has_majority_for required_quorum granted contains in_joint_consensus normalize remove_zero sort
    insert_sorted unique unique_after
joint_majority-overlaps_example =
    joint_majority-overlaps three (5 ∷ 4 ∷ 1 ∷ []) (1 ∷ 2 ∷ 4 ∷ []) (4 ∷ 5 ∷ []) (omega arith) refl
      refl (inr refl)

is_log_up_to_date-linear_example :
    ((is_log_up_to_date 2 5 3 4 ≡ true) ⊎ (is_log_up_to_date 3 4 2 5 ≡ true))
    × ((is_log_up_to_date 2 5 3 4 ≡ false)
        ⊎ (is_log_up_to_date 3 4 2 5 ≡ false)
        ⊎ (◌≡◌ {A = ℕ} 2 3 × ◌≡◌ {A = ℕ} 5 4))
    × ((is_log_up_to_date 2 5 3 4 ≡ false)
        ⊎ (is_log_up_to_date 3 4 1 7 ≡ false)
        ⊎ (is_log_up_to_date 2 5 1 7 ≡ true))
is_log_up_to_date-linear_example = is_log_up_to_date-linear 2 5 3 4 1 7

abbrev follower_of_two : LeaderProxyContext
follower_of_two = record {
  local_node_id = 1;
  leader_id = 2;
  local_role = RaftRole.follower;
  has_quorum = true;
}

resolve_leader_proxy-local_example :
    ((resolve_leader_proxy follower_of_two
        ≡ record { action = LeaderProxyAction.handle_locally; target_leader_id = 1 })
      × (follower_of_two.has_quorum ≡ true)
      × ((follower_of_two.local_role ≡ RaftRole.leader) ⊎ ◌≡◌ {A = ℕ} 1 2))
    ⊎ (((resolve_leader_proxy follower_of_two).action ≢ LeaderProxyAction.handle_locally)
        × ((follower_of_two.has_quorum ≡ false)
            ⊎ ((follower_of_two.local_role ≢ RaftRole.leader) × ◌≢◌ {A = ℕ} 1 2))
        × (((resolve_leader_proxy follower_of_two).target_leader_id ≡ 0)
            ⊎ (((resolve_leader_proxy follower_of_two).target_leader_id ≡ 2) × ◌≢◌ {A = ℕ} 2 1)))
resolve_leader_proxy-local_example = resolve_leader_proxy-local follower_of_two
