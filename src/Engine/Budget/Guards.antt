-- ===== src/Engine/Budget/Guards.antt =====
-- The guards of native/sync/src/sync_engine.cpp that are held, and the steps of their constructors
-- and destructors.
use tightrope.Prelude.{
  ℕ, ◌+◌, ◌-◌, ◌≤◌, ◌<◌, ◌≡◌, refl, if◌then◌else◌, List, [], ◌∷◌, none, some, arith, inl, inr,
  Option-cases,
}
use tightrope.Prelude.Maps.{nat_ordered, key_eq, key_eq-eq, lookup, insert, lookup-insert}
use tightrope.Engine.Budget.{
  IngressLimits, InflightWirePeerState, InflightWire, BudgetError, peer_state, add_size, charged,
  acquire, release,
}

-- A guard that is held: its peer and its bytes.
abbrev pub Guard : Type 0
Guard = ℕ × ℕ

abbrev pub held_bytes : List Guard → ℕ
held_bytes [] = 0
held_bytes (g ∷ gs) = g.1 + held_bytes gs

unfoldable pub peer_batches : ℕ → List Guard → ℕ
peer_batches site [] = 0
peer_batches site (g ∷ gs) = (if key_eq g.0 site then 1 else 0) + peer_batches site gs

unfoldable pub peer_bytes : ℕ → List Guard → ℕ
peer_bytes site [] = 0
peer_bytes site (g ∷ gs) = (if key_eq g.0 site then g.1 else 0) + peer_bytes site gs

-- One guard of a list, and the others.
pub data Picks (g : Guard) : List Guard → List Guard → Type 0 where
  here : {gs : List Guard} → Picks g (g ∷ gs) gs
  there :
      {other : Guard} {gs rest : List Guard} → Picks g gs rest → Picks g (other ∷ gs) (other ∷ rest)

-- The state and the guards that are held, after one constructor or destructor.
pub data Reached (limits : IngressLimits) : InflightWire → List Guard → Type 0 where
  started : Reached limits (record { total_bytes = 0; by_peer = [] }) []
  entered :
      (site wire_bytes : ℕ) {s : InflightWire} {held : List Guard}
      → (acquire limits site wire_bytes s).1 ≡ none
      → Reached limits s held
      → Reached limits (acquire limits site wire_bytes s).0 ((site, wire_bytes) ∷ held)
  refused :
      (site wire_bytes : ℕ) (err : BudgetError) {s : InflightWire} {held : List Guard}
      → (acquire limits site wire_bytes s).1 ≡ some err
      → Reached limits s held
      → Reached limits (acquire limits site wire_bytes s).0 held
  left :
      (g : Guard) {s : InflightWire} {held rest : List Guard}
      → Picks g held rest
      → Reached limits s held
      → Reached limits (release g.0 g.1 s) rest

-- Limits that std::size_t holds.
abbrev pub IsSized : IngressLimits → Type 0
IsSized limits =
    (limits.max_inflight_wire_bytes < 18446744073709551616)
    × (limits.max_inflight_wire_bytes_per_peer < 18446744073709551616)
    × (limits.max_inflight_wire_batches_per_peer < 18446744073709551616)

-- The books agree with the guards that are held, and keep the limits.
pub record IsBalanced (limits : IngressLimits) (s : InflightWire) (held : List Guard) : Type 0 where
  pub total : s.total_bytes ≡ held_bytes held
  pub total_limit : s.total_bytes ≤ limits.max_inflight_wire_bytes
  pub batches : (site : ℕ) → (peer_state site s.by_peer).batches ≡ peer_batches site held
  pub bytes : (site : ℕ) → (peer_state site s.by_peer).bytes ≡ peer_bytes site held
  pub batches_limit :
      (site : ℕ) → (peer_state site s.by_peer).batches ≤ limits.max_inflight_wire_batches_per_peer
  pub bytes_limit :
      (site : ℕ) → (peer_state site s.by_peer).bytes ≤ limits.max_inflight_wire_bytes_per_peer

pub held_bytes-Picks :
    (g : Guard) (held rest : List Guard)
    → Picks g held rest
    → held_bytes held ≡ g.1 + held_bytes rest
held_bytes-Picks g _ _ here = refl
held_bytes-Picks g _ _ (there {other} {gs} {rest} p) = omega (arith, held_bytes-Picks g gs rest p)

pub peer_batches-Picks :
    (site : ℕ) (g : Guard) (held rest : List Guard)
    → Picks g held rest
    → peer_batches site held ≡ (if key_eq g.0 site then 1 else 0) + peer_batches site rest
unfolding peer_batches
peer_batches-Picks site g _ _ here = refl
peer_batches-Picks site g _ _ (there {other} {gs} {rest} p) =
    ground (arith, peer_batches-Picks site g gs rest p)

pub peer_bytes-Picks :
    (site : ℕ) (g : Guard) (held rest : List Guard)
    → Picks g held rest
    → peer_bytes site held ≡ (if key_eq g.0 site then g.1 else 0) + peer_bytes site rest
unfolding peer_bytes
peer_bytes-Picks site g _ _ here = refl
peer_bytes-Picks site g _ _ (there {other} {gs} {rest} p) =
    ground (arith, peer_bytes-Picks site g gs rest p)

pub peer_state-insert :
    (k site : ℕ) (peer : InflightWirePeerState) (m : List (ℕ × InflightWirePeerState))
    → peer_state k (insert site peer m) ≡ (if key_eq site k then peer else peer_state k m)
unfolding peer_state
peer_state-insert k site peer m = ground (arith, lookup-insert k site peer m)

pub peer_state-insert_self :
    (k site : ℕ) (m : List (ℕ × InflightWirePeerState))
    → peer_state k (insert site (peer_state site m) m) ≡ peer_state k m
peer_state-insert_self k site m =
    ground (arith, peer_state-insert k site (peer_state site m) m, key_eq-eq site k)

pub acquire-entered :
    (limits : IngressLimits) (site wire_bytes : ℕ) (s : InflightWire)
    → (acquire limits site wire_bytes s).1 ≡ none
    → (s.total_bytes + wire_bytes ≤ limits.max_inflight_wire_bytes)
      × ((peer_state site s.by_peer).batches < limits.max_inflight_wire_batches_per_peer)
      × ((peer_state site s.by_peer).bytes + wire_bytes ≤ limits.max_inflight_wire_bytes_per_peer)
      × ((acquire limits site wire_bytes s).0 ≡ record {
        total_bytes = add_size s.total_bytes wire_bytes;
        by_peer = insert site (charged wire_bytes (peer_state site s.by_peer)) s.by_peer;
      })
unfolding acquire
acquire-entered limits site wire_bytes s h =
    (ground (arith, h), ground (arith, h), ground (arith, h), ground (arith, h))

pub acquire-refused :
    (limits : IngressLimits) (site wire_bytes : ℕ) (err : BudgetError) (s : InflightWire)
    → (acquire limits site wire_bytes s).1 ≡ some err
    → (acquire limits site wire_bytes s).0
      ≡ record s { by_peer = insert site (peer_state site s.by_peer) s.by_peer }
unfolding acquire
acquire-refused limits site wire_bytes err s h = ground (arith, h)

pub peer_state-release :
    (k site wire_bytes : ℕ) (s : InflightWire)
    → peer_state k (release site wire_bytes s).by_peer ≡ (
        if key_eq site k
        then (record (peer_state k s.by_peer) {
          batches = (peer_state k s.by_peer).batches - 1;
          bytes = (peer_state k s.by_peer).bytes - wire_bytes;
        })
        else peer_state k s.by_peer)
unfolding peer_state release
peer_state-release k site wire_bytes s = elim (Option-cases (lookup site s.by_peer)) [
  | inl absent ↦ ground (arith, absent, key_eq-eq site k)
  | inr (peer, found) ↦ ground (
    arith,
    found,
    key_eq-eq site k,
    lookup-insert k site
        (record peer { batches = peer.batches - 1; bytes = peer.bytes - wire_bytes }) s.by_peer,
  )
]

pub release_total :
    (site wire_bytes : ℕ) (s : InflightWire)
    → (release site wire_bytes s).total_bytes ≡ s.total_bytes - wire_bytes
unfolding release
release_total site wire_bytes s = elim (Option-cases (lookup site s.by_peer)) [
  | inl absent ↦ ground (arith, absent)
  | inr (peer, found) ↦ ground (arith, found)
]
