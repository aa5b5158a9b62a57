-- ===== src/Raft/Membership.antt =====
-- Who votes: native/sync/src/consensus/membership.cpp with include/consensus/quorum.h. A vector and
-- an unordered set of node ids are lists; logging is left out.
pub mod Normal
pub mod Quorum
use tightrope.Prelude.{
  ℕ, zero, suc, ◌+◌, ◌/◌, ◌≤◌, ◌<◌, Bool, true, false, not, ◌&&◌, if◌then◌else◌, ltb, leb, ◌==◌,
  List, [], ◌∷◌, Option, none, some, length,
}

unfoldable pub required_quorum : ℕ → ℕ
required_quorum members = if members == 0 then 0 else members / 2 + 1

unfoldable pub contains : List ℕ → ℕ → Bool
contains [] n = false
contains (m ∷ ms) n = if m == n then true else contains ms n

-- The three passes of normalize: std::remove of 0, std::sort, and std::unique, which drops an
-- element equal to the one kept before it.
unfoldable pub remove_zero : List ℕ → List ℕ
remove_zero [] = []
remove_zero (m ∷ ms) = if m == 0 then remove_zero ms else m ∷ remove_zero ms

unfoldable pub insert_sorted : ℕ → List ℕ → List ℕ
insert_sorted n [] = n ∷ []
insert_sorted n (m ∷ ms) = let rest = insert_sorted n ms in if leb n m then n ∷ m ∷ ms else m ∷ rest

unfoldable pub sort : List ℕ → List ℕ
sort [] = []
sort (m ∷ ms) = insert_sorted m (sort ms)

unfoldable pub unique_after : ℕ → List ℕ → List ℕ
unique_after kept [] = []
unique_after kept (m ∷ ms) = if m == kept then unique_after kept ms else m ∷ unique_after m ms

unfoldable pub unique : List ℕ → List ℕ
unique [] = []
unique (m ∷ ms) = m ∷ unique_after m ms

unfoldable pub normalize : List ℕ → List ℕ
normalize members = unique (sort (remove_zero members))

-- The loop of has_majority_for.
unfoldable pub granted : List ℕ → List ℕ → ℕ
granted [] votes = 0
granted (m ∷ ms) votes = let rest = granted ms votes in if contains votes m then suc rest else rest

unfoldable pub has_majority_for : List ℕ → List ℕ → Bool
has_majority_for members votes = leb (required_quorum (length members)) (granted members votes)

pub record Membership : Type 0 where
  pub members : List ℕ
  pub joint_members : Option (List ℕ)

unfoldable pub init : List ℕ → Membership
init members = record { members = normalize members; joint_members = none }

unfoldable pub quorum_size : Membership → ℕ
quorum_size m = required_quorum (length m.members)

unfoldable pub has_majority : Membership → List ℕ → Bool
has_majority m votes = has_majority_for m.members votes

unfoldable pub has_joint_majority : Membership → List ℕ → Bool
has_joint_majority m votes = elim m.joint_members [
  | none ↦ has_majority m votes
  | some next ↦ has_majority_for m.members votes && has_majority_for next votes
]

unfoldable pub in_joint_consensus : Membership → Bool
in_joint_consensus m = elim m.joint_members [ none ↦ false | some next ↦ true ]

abbrev is_empty : List ℕ → Bool
is_empty [] = true
is_empty (m ∷ ms) = false

-- Each gives the membership after it and the source's result.
unfoldable pub begin_joint_consensus : Membership → List ℕ → Membership × Bool
begin_joint_consensus m next_members =
    let normalized = normalize next_members in
    if in_joint_consensus m
    then (m, false)
    else if is_empty normalized
    then (m, false)
    else (record { members = m.members; joint_members = some normalized }, true)

unfoldable pub commit_joint_consensus : Membership → Membership × Bool
commit_joint_consensus m = elim m.joint_members [
  | none ↦ (m, false)
  | some next ↦ (record { members = next; joint_members = none }, true)
]

unfoldable pub reset_members : Membership → List ℕ → Membership
reset_members m members =
    let normalized = normalize members in
    if is_empty normalized then m else record { members = normalized; joint_members = none }
