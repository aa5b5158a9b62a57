-- ===== src/Raft/Node.antt =====
-- The decisions of a node: native/sync/src/consensus/raft_rpc.cpp (which log is fresher) and
-- native/sync/src/consensus/leader_proxy.cpp (where a write goes).
use tightrope.Prelude.{
  ℕ, ◌≡◌, ◌≢◌, ◌⊎◌, Bool, true, false, not, ◌||◌, if◌then◌else◌, ltb, leb, ◌==◌, arith,
}

unfoldable pub is_log_up_to_date : ℕ → ℕ → ℕ → ℕ → Bool
is_log_up_to_date candidate_last_term candidate_last_index local_last_term local_last_index =
    if not (candidate_last_term == local_last_term)
    then ltb local_last_term candidate_last_term
    else leb local_last_index candidate_last_index

pub data RaftRole : Type 0 where
  follower : RaftRole
  candidate : RaftRole
  leader : RaftRole

pub data LeaderProxyAction : Type 0 where
  handle_locally : LeaderProxyAction
  reject_forwarding_unavailable : LeaderProxyAction
  reject_no_quorum : LeaderProxyAction
  reject_leader_unknown : LeaderProxyAction

pub record LeaderProxyContext : Type 0 where
  pub local_node_id : ℕ
  pub leader_id : ℕ
  pub local_role : RaftRole
  pub has_quorum : Bool

pub record LeaderProxyDecision : Type 0 where
  pub action : LeaderProxyAction
  pub target_leader_id : ℕ

abbrev is_leader : RaftRole → Bool
is_leader follower = false
is_leader candidate = false
is_leader leader = true

unfoldable pub resolve_leader_proxy : LeaderProxyContext → LeaderProxyDecision
resolve_leader_proxy c =
    if not c.has_quorum
    then record { action = LeaderProxyAction.reject_no_quorum; target_leader_id = 0 }
    else if is_leader c.local_role || c.local_node_id == c.leader_id
    then record { action = LeaderProxyAction.handle_locally; target_leader_id = c.local_node_id }
    else if c.leader_id == 0
    then record { action = LeaderProxyAction.reject_leader_unknown; target_leader_id = 0 }
    else record {
      action = LeaderProxyAction.reject_forwarding_unavailable;
      target_leader_id = c.leader_id;
    }

-- Of three logs given by last term and last index: one of any two is as fresh as the other, both
-- are so of each other only when term and index agree, and the relation is transitive.
pub is_log_up_to_date-linear :
    (t i u j v k : ℕ)
    → ((is_log_up_to_date t i u j ≡ true) ⊎ (is_log_up_to_date u j t i ≡ true))
      × ((is_log_up_to_date t i u j ≡ false)
          ⊎ (is_log_up_to_date u j t i ≡ false)
          ⊎ ((t ≡ u) × (i ≡ j)))
      × ((is_log_up_to_date t i u j ≡ false)
          ⊎ (is_log_up_to_date u j v k ≡ false)
          ⊎ (is_log_up_to_date t i v k ≡ true))
unfolding is_log_up_to_date
is_log_up_to_date-linear t i u j v k = (ground arith, ground arith, ground arith)

-- A write is handled locally, and only then without a rejection, exactly when there is a quorum
-- and the node leads, by its role or by being the known leader; a rejection that names a leader
-- names the known one, which is not this node.
pub resolve_leader_proxy-local :
    (c : LeaderProxyContext)
    → ((resolve_leader_proxy c ≡ record {
      action = LeaderProxyAction.handle_locally;
      target_leader_id = c.local_node_id;
    })
        × (c.has_quorum ≡ true)
        × ((c.local_role ≡ RaftRole.leader) ⊎ (c.local_node_id ≡ c.leader_id)))
      ⊎ (((resolve_leader_proxy c).action ≢ LeaderProxyAction.handle_locally)
          × ((c.has_quorum ≡ false)
              ⊎ ((c.local_role ≢ RaftRole.leader) × (c.local_node_id ≢ c.leader_id)))
          × (((resolve_leader_proxy c).target_leader_id ≡ 0)
              ⊎ (((resolve_leader_proxy c).target_leader_id ≡ c.leader_id)
                  × (c.leader_id ≢ c.local_node_id))))
unfolding resolve_leader_proxy
resolve_leader_proxy-local c = ground arith
