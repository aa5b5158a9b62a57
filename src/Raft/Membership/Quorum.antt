-- ===== src/Raft/Membership/Quorum.antt =====
-- Majorities of native/sync/src/consensus/membership.cpp overlap.
use tightrope.Prelude.{
  ℕ, suc, ◌+◌, ◌≤◌, ◌<◌, ◌≡◌, ◌⊎◌, true, ◌&&◌, if◌then◌else◌, List, [], ◌∷◌, some, arith, length,
  inl, inr, Bool-cases,
}
use tightrope.Raft.Membership.Normal.{nonempty}
use tightrope.Raft.Membership.{
  required_quorum, contains, granted, has_majority_for, has_majority, has_joint_majority,
  Membership, begin_joint_consensus, commit_joint_consensus, normalize,
}

-- A member that both voter lists have.
abbrev pub SharedVoter : List ℕ → List ℕ → List ℕ → Type 0
SharedVoter members a b =
    (n : ℕ) × (contains members n ≡ true) × (contains a n ≡ true) × (contains b n ≡ true)

-- Members that both lists have.
both : List ℕ → List ℕ → List ℕ → ℕ
both [] a b = 0
both (m ∷ ms) a b =
    let rest = both ms a b in if contains a m && contains b m then suc rest else rest

granted-both : (ms a b : List ℕ) → granted ms a + granted ms b ≤ length ms + both ms a b
unfolding granted both
granted-both [] a b = ground arith
granted-both (m ∷ ms) a b = ground (arith, granted-both ms a b)

both-SharedVoter : (ms a b : List ℕ) → 0 < both ms a b → SharedVoter ms a b
unfolding both contains
both-SharedVoter [] a b h = absurd (omega arith)
both-SharedVoter (m ∷ ms) a b h = elim (Bool-cases (contains a m && contains b m)) [
  | inl shared ↦ (m, ground arith, ground arith, ground arith)
  | inr other ↦
      let (n, member, left, right) = both-SharedVoter ms a b (ground arith) in
      (n, ground arith, left, right)
]

-- Any two majorities of the same non-empty list of members have a member in common, also when the
-- votes name nodes that are no members.
pub has_majority_for-SharedVoter :
    (members a b : List ℕ)
    → 0 < length members
    → has_majority_for members a ≡ true
    → has_majority_for members b ≡ true
    → SharedVoter members a b
unfolding has_majority_for required_quorum
has_majority_for-SharedVoter members a b p h g =
    both-SharedVoter members a b (ground (arith, granted-both members a b))

-- A node that voted in both lists.
abbrev pub SharedNode : List ℕ → List ℕ → Type 0
SharedNode a b = (n : ℕ) × (contains a n ≡ true) × (contains b n ≡ true)

begun :
    (m : Membership) (ms : List ℕ)
    → (begin_joint_consensus m ms).1 ≡ true
    → ((begin_joint_consensus m ms).0
        ≡ record { members = m.members; joint_members = some (normalize ms) })
      × (0 < length (normalize ms))
unfolding begin_joint_consensus
begun m ms h = ground (arith, nonempty (normalize ms))

SharedVoter-node : (ms a b : List ℕ) → SharedVoter ms a b → SharedNode a b
SharedVoter-node ms a b (n, member, left, right) = (n, left, right)

-- A change of the members, from a membership that is not empty: as soon as begin_joint_consensus
-- accepts the next members, votes that count as a joint majority share a node with every majority
-- of the members before, and with every majority of the members after commit_joint_consensus.
pub joint_majority-overlaps :
    (m : Membership) (next_members a b : List ℕ)
    → 0 < length m.members
    → (begin_joint_consensus m next_members).1 ≡ true
    → has_joint_majority (begin_joint_consensus m next_members).0 a ≡ true
    → (has_majority m b ≡ true)
      ⊎ (has_majority (commit_joint_consensus (begin_joint_consensus m next_members).0).0 b ≡ true)
    → SharedNode a b
unfolding has_majority has_joint_majority commit_joint_consensus
joint_majority-overlaps m next_members a b p accepted joint (inl old) =
    SharedVoter-node m.members a b (
      has_majority_for-SharedVoter m.members a b p (ground (arith, begun m next_members accepted))
        old)
joint_majority-overlaps m next_members a b p accepted joint (inr new) =
    SharedVoter-node (normalize next_members) a b (
      has_majority_for-SharedVoter (normalize next_members) a b (begun m next_members accepted).1
        (ground (arith, begun m next_members accepted))
        (ground (arith, begun m next_members accepted)))
