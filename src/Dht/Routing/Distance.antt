-- ===== src/Dht/Routing/Distance.antt =====
-- The contacts that nearest of native/p2p/src/dht/routing_table.cpp gives, by the XOR distance of
-- their ids to the target, stated byte by byte and apart from the comparison the code sorts by.
use Prim.Native.Nat.{Ordering, bit_xor}
use tightrope.Prelude.{ℕ, ◌<◌, ◌≡◌, ◌⊎◌, inl, inr, true, List, [], ◌∷◌, ◌++◌, arith, length, min}
use tightrope.Prelude.Maps.{lex}
use tightrope.Wire.{Bytes}
use tightrope.Dht.Routing.{NodeContact, RoutingTable, xor_distance, all_contacts}
use tightrope.Dht.Routing.Buckets.{count}
use tightrope.Dht.Routing.Nearest.{
  distance_less, is_nearer, nearest, NoneNearer, IsInOrder, nearest-IsInOrder,
}

-- At the first byte where the XOR distances of two ids to the target differ, the first is smaller.
abbrev pub Closer : Bytes → Bytes → Bytes → Type 0
Closer (t ∷ target) (a ∷ us) (b ∷ vs) =
    (bit_xor a t < bit_xor b t) ⊎ ((bit_xor a t ≡ bit_xor b t) × Closer target us vs)
Closer [] us vs = ⊥
Closer (t ∷ target) [] vs = ⊥
Closer (t ∷ target) (a ∷ us) [] = ⊥

abbrev pub NoneCloser : Bytes → NodeContact → List NodeContact → Type 0
NoneCloser target c [] = Unit {0}
NoneCloser target c (x ∷ xs) = (¬ Closer target x.id c.id) × NoneCloser target c xs

-- No contact of a list is closer than one before it.
abbrev pub IsByDistance : Bytes → List NodeContact → Type 0
IsByDistance target [] = Unit {0}
IsByDistance target (x ∷ xs) = NoneCloser target x xs × IsByDistance target xs

lex-Closer :
    (target a b : Bytes)
    → Closer target a b
    → lex (xor_distance a target) (xor_distance b target) ≡ Ordering.lt
unfolding lex xor_distance
lex-Closer [] us vs h = absurd h
lex-Closer (t ∷ target) [] vs h = absurd h
lex-Closer (t ∷ target) (a ∷ us) [] h = absurd h
lex-Closer (t ∷ target) (a ∷ us) (b ∷ vs) (inl below) = ground (arith, below)
lex-Closer (t ∷ target) (a ∷ us) (b ∷ vs) (inr (same, h)) =
    ground (arith, same, lex-Closer target us vs h)

is_nearer-Closer :
    (target : Bytes) (a b : NodeContact) → Closer target a.id b.id → is_nearer target a b ≡ true
unfolding is_nearer distance_less
is_nearer-Closer target a b h = ground (arith, lex-Closer target a.id b.id h)

NoneNearer-NoneCloser :
    (target : Bytes) (c : NodeContact) (xs : List NodeContact)
    → NoneNearer target c xs
    → NoneCloser target c xs
NoneNearer-NoneCloser target c [] n = tt
NoneNearer-NoneCloser target c (x ∷ xs) (first, n) = (
  (λ h. ground (arith, first, is_nearer-Closer target x c h)),
  NoneNearer-NoneCloser target c xs n,
)

IsInOrder-IsByDistance :
    (target : Bytes) (xs : List NodeContact) → IsInOrder target xs → IsByDistance target xs
IsInOrder-IsByDistance target [] o = tt
IsInOrder-IsByDistance target (x ∷ xs) (n, o) =
    (NoneNearer-NoneCloser target x xs n, IsInOrder-IsByDistance target xs o)

-- The contacts given are as many as asked for, or all; none that comes later, or is left out, has a
-- smaller XOR distance to the target than one that comes earlier; and with those left out each id
-- is there as often as in the table.
pub nearest-IsByDistance :
    (t : RoutingTable) (target : Bytes) (limit : ℕ)
    → (length (nearest t target limit) ≡ min limit (length (all_contacts t.buckets)))
      × ((left_out : List NodeContact) × IsByDistance target (nearest t target limit ++ left_out)
          × ((id : Bytes)
              → count id (nearest t target limit ++ left_out) ≡ count id (all_contacts t.buckets)))
nearest-IsByDistance t target limit =
    let (size, (left_out, ordered, counted)) = nearest-IsInOrder t target limit in
    (
      size,
      (
        left_out,
        IsInOrder-IsByDistance target (nearest t target limit ++ left_out) ordered,
        counted,
      ),
    )
