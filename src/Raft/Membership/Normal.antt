-- ===== src/Raft/Membership/Normal.antt =====
-- What normalize of native/sync/src/consensus/membership.cpp makes of a list, and that the lists of
-- a membership stay in that form.
use tightrope.Prelude.{
  ℕ, ◌≤◌, ◌<◌, ◌≡◌, refl, ◌∙◌, false, not, ◌&&◌, ◌==◌, List, [], ◌∷◌, Option, none, some, arith,
  length, inl, inr, Option-cases, subst,
}
use tightrope.Raft.Membership.{
  contains, remove_zero, insert_sorted, sort, unique_after, unique, normalize, Membership, init,
  begin_joint_consensus, commit_joint_consensus, reset_members, is_empty,
}

-- Strictly increasing, every element above the bound: no zero, no duplicate.
abbrev pub IsAbove : ℕ → List ℕ → Type 0
IsAbove k [] = Unit {0}
IsAbove k (m ∷ ms) = (k < m) × IsAbove m ms

abbrev IsAscending : ℕ → List ℕ → Type 0
IsAscending k [] = Unit {0}
IsAscending k (m ∷ ms) = (k ≤ m) × IsAscending m ms

contains-remove_zero :
    (ms : List ℕ) (n : ℕ) → contains (remove_zero ms) n ≡ not (n == 0) && contains ms n
unfolding contains remove_zero
contains-remove_zero [] n = ground arith
contains-remove_zero (m ∷ ms) n = ground (arith, contains-remove_zero ms n)

contains-insert_sorted :
    (k n : ℕ) (ms : List ℕ) → contains (insert_sorted k ms) n ≡ contains (k ∷ ms) n
unfolding contains insert_sorted
contains-insert_sorted k n [] = ground arith
contains-insert_sorted k n (m ∷ ms) = ground (arith, contains-insert_sorted k n ms)

contains-sort : (ms : List ℕ) (n : ℕ) → contains (sort ms) n ≡ contains ms n
unfolding contains sort
contains-sort [] n = refl
contains-sort (m ∷ ms) n = ground (arith, contains-insert_sorted m n (sort ms), contains-sort ms n)

contains-unique_after :
    (k n : ℕ) (ms : List ℕ) → contains (k ∷ unique_after k ms) n ≡ contains (k ∷ ms) n
unfolding contains unique_after
contains-unique_after k n [] = ground arith
contains-unique_after k n (m ∷ ms) =
    ground (arith, contains-unique_after k n ms, contains-unique_after m n ms)

contains-unique : (ms : List ℕ) (n : ℕ) → contains (unique ms) n ≡ contains ms n
unfolding unique
contains-unique [] n = refl
contains-unique (m ∷ ms) n = contains-unique_after m n ms

IsAscending-insert_sorted :
    (k n : ℕ) (ms : List ℕ) → k ≤ n → IsAscending k ms → IsAscending k (insert_sorted n ms)
unfolding insert_sorted
IsAscending-insert_sorted k n [] h s = (h, tt)
IsAscending-insert_sorted k n (m ∷ ms) h s =
    ground (arith, λ (g : m ≤ n). IsAscending-insert_sorted m n ms g s.1)

-- All elements of the list are positive.
AllPositive : List ℕ → Type 0
AllPositive [] = Unit {0}
AllPositive (m ∷ ms) = (1 ≤ m) × AllPositive ms

AllPositive-remove_zero : (ms : List ℕ) → AllPositive (remove_zero ms)
unfolding remove_zero AllPositive
AllPositive-remove_zero [] = tt
AllPositive-remove_zero (m ∷ ms) = ground (arith, AllPositive-remove_zero ms)

IsAscending-sort : (ms : List ℕ) → AllPositive ms → IsAscending 1 (sort ms)
unfolding sort AllPositive
IsAscending-sort [] p = tt
IsAscending-sort (m ∷ ms) p = IsAscending-insert_sorted 1 m (sort ms) p.0 (IsAscending-sort ms p.1)

IsAbove-unique_after : (k : ℕ) (ms : List ℕ) → IsAscending k ms → IsAbove k (unique_after k ms)
unfolding unique_after
IsAbove-unique_after k [] s = tt
IsAbove-unique_after k (m ∷ ms) s = ground (arith, IsAbove-unique_after m ms s.1)

IsAbove-unique : (ms : List ℕ) → IsAscending 1 ms → IsAbove 0 (unique ms)
unfolding unique
IsAbove-unique [] s = tt
IsAbove-unique (m ∷ ms) s = (omega arith, IsAbove-unique_after m ms s.1)

normalize-IsAbove : (ms : List ℕ) → IsAbove 0 (normalize ms)
unfolding normalize
normalize-IsAbove ms =
    IsAbove-unique (sort (remove_zero ms))
      (IsAscending-sort (remove_zero ms) (AllPositive-remove_zero ms))

normalize_members :
    (ms : List ℕ) (n : ℕ) → contains (normalize ms) n ≡ not (n == 0) && contains ms n
unfolding normalize
normalize_members ms n =
    contains-unique (sort (remove_zero ms)) n
    ∙ contains-sort (remove_zero ms) n
    ∙ contains-remove_zero ms n

-- Whatever ids it is given, normalize gives a strictly increasing list of positive ids, and a node
-- is in it exactly when its id is not 0 and it was in the list given.
pub normalize-contains :
    (ms : List ℕ) (n : ℕ)
    → IsAbove 0 (normalize ms) × (contains (normalize ms) n ≡ not (n == 0) && contains ms n)
normalize-contains ms n = (normalize-IsAbove ms, normalize_members ms n)

-- Both configurations are strictly increasing lists of positive ids, and the next one is not empty.
abbrev IsNextNormal : Option (List ℕ) → Type 0
IsNextNormal none = Unit {0}
IsNextNormal (some next) = IsAbove 0 next × (0 < length next)

abbrev pub IsNormal : Membership → Type 0
IsNormal m = IsAbove 0 m.members × IsNextNormal m.joint_members

pub nonempty : (ms : List ℕ) → is_empty ms ≡ false → 0 < length ms
nonempty [] h = cc
nonempty (m ∷ ms) h = omega arith

init-IsNormal : (ms : List ℕ) → IsNormal (init ms)
unfolding init
init-IsNormal ms = (normalize-IsAbove ms, tt)

begin-IsNormal :
    (m : Membership) (ms : List ℕ) → IsNormal m → IsNormal (begin_joint_consensus m ms).0
unfolding begin_joint_consensus
begin-IsNormal m ms v = ground (arith, normalize-IsAbove ms, nonempty (normalize ms))

commit-IsNormal : (m : Membership) → IsNormal m → IsNormal (commit_joint_consensus m).0
unfolding commit_joint_consensus
commit-IsNormal m v = elim (Option-cases m.joint_members) [
  | inl e ↦ ground (arith, e)
  | inr (next, e) ↦ ground (arith, e, subst IsNextNormal e v.1)
]

reset-IsNormal : (m : Membership) (ms : List ℕ) → IsNormal m → IsNormal (reset_members m ms)
unfolding reset_members
reset-IsNormal m ms v = ground (arith, normalize-IsAbove ms)

-- A membership starts with its ids normalized, and starting, committing or skipping a change of
-- the members and resetting them keep that, also for refused calls; a pending next configuration
-- is never empty.
pub Membership-IsNormal :
    (m : Membership) (ms : List ℕ)
    → IsNormal m
    → IsNormal (init ms)
      × IsNormal (begin_joint_consensus m ms).0
      × IsNormal (commit_joint_consensus m).0
      × IsNormal (reset_members m ms)
Membership-IsNormal m ms v =
    (init-IsNormal ms, begin-IsNormal m ms v, commit-IsNormal m v, reset-IsNormal m ms v)
