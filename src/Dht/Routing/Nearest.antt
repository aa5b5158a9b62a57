-- ===== src/Dht/Routing/Nearest.antt =====
-- RoutingTable::nearest of native/p2p/src/dht/routing_table.cpp. Contacts of a table differ in their
-- ids, so that the comparison ties for no two of them and std::sort has one outcome.
use Prim.Native.Nat.{Ordering}
use tightrope.Prelude.{
  ℕ, zero, suc, ◌+◌, ◌≡◌, refl, ap, sym, subst, ◌∙◌, Bool, true, false, if◌then◌else◌, ltb, ◌==◌,
  List, [], ◌∷◌, ◌++◌, arith, inl, inr, Bool-cases, length, take, drop, take-append-drop,
  length-take, min,
}
use tightrope.Prelude.Maps.{bytes_ordered, key_eq, lex, lex_refl, lex_eq, lex_gt, lex_trans}
use tightrope.Wire.{Bytes}
use tightrope.Dht.Routing.{NodeContact, RoutingTable, xor_distance, all_contacts}
use tightrope.Dht.Routing.Buckets.{count}

abbrev is_less : Ordering → Bool
is_less Ordering.lt = true
is_less Ordering.eq = false
is_less Ordering.gt = false

-- std::lexicographical_compare of the bytes.
unfoldable pub distance_less : Bytes → Bytes → Bool
distance_less a b = is_less (lex a b)

unfoldable pub is_nearer : Bytes → NodeContact → NodeContact → Bool
is_nearer target a b =
    let da = xor_distance a.id target in
    let db = xor_distance b.id target in
    if distance_less da db
    then true
    else if distance_less db da
    then false
    else ltb b.last_seen_unix_ms a.last_seen_unix_ms

unfoldable pub insert_near : Bytes → NodeContact → List NodeContact → List NodeContact
insert_near target c [] = c ∷ []
insert_near target c (x ∷ xs) =
    let rest = insert_near target c xs in if is_nearer target c x then c ∷ x ∷ xs else x ∷ rest

unfoldable pub sort_near : Bytes → List NodeContact → List NodeContact
sort_near target [] = []
sort_near target (x ∷ xs) = insert_near target x (sort_near target xs)

unfoldable pub nearest : RoutingTable → Bytes → ℕ → List NodeContact
nearest t target limit =
    if limit == 0 then [] else take limit (sort_near target (all_contacts t.buckets))

nearer_trans :
    (target : Bytes) (a b c : NodeContact)
    → is_nearer target a b ≡ true
    → is_nearer target b c ≡ true
    → is_nearer target a c ≡ true
unfolding is_nearer distance_less
nearer_trans target a b c h k =
    let da : Bytes = xor_distance a.id target in
    let db : Bytes = xor_distance b.id target in
    let dc : Bytes = xor_distance c.id target in
    ground (
      arith,
      h,
      k,
      lex_trans da db dc,
      lex_eq da db,
      lex_eq db dc,
      lex_gt da db,
      lex_gt db dc,
      lex_gt da dc,
      lex_refl da,
    )

nearer_asym :
    (target : Bytes) (a b : NodeContact)
    → is_nearer target a b ≡ true
    → is_nearer target b a ≡ false
unfolding is_nearer distance_less
nearer_asym target a b h =
    let da : Bytes = xor_distance a.id target in
    let db : Bytes = xor_distance b.id target in
    ground (arith, h, lex_gt da db, lex_gt db da, lex_trans da db da, lex_refl da)

-- No contact of a list is nearer than one before it.
abbrev pub NoneNearer : Bytes → NodeContact → List NodeContact → Type 0
NoneNearer target c [] = Unit {0}
NoneNearer target c (x ∷ xs) = (is_nearer target x c ≡ false) × NoneNearer target c xs

abbrev pub IsInOrder : Bytes → List NodeContact → Type 0
IsInOrder target [] = Unit {0}
IsInOrder target (x ∷ xs) = NoneNearer target x xs × IsInOrder target xs

NoneNearer-before :
    (target : Bytes) (c y : NodeContact) (ys : List NodeContact)
    → is_nearer target c y ≡ true
    → NoneNearer target y ys
    → NoneNearer target c ys
NoneNearer-before target c y [] h n = tt
NoneNearer-before target c y (z ∷ zs) h (first, n) =
    (ground (arith, h, first, nearer_trans target z c y), NoneNearer-before target c y zs h n)

NoneNearer-insert :
    (target : Bytes) (y c : NodeContact) (ys : List NodeContact)
    → is_nearer target c y ≡ false
    → NoneNearer target y ys
    → NoneNearer target y (insert_near target c ys)
unfolding insert_near
NoneNearer-insert target y c [] h n = (h, tt)
NoneNearer-insert target y c (z ∷ zs) h (first, n) = elim (Bool-cases (is_nearer target c z)) [
  | inl nearer ↦ rw nearer (h, (first, n))
  | inr farther ↦ rw farther (first, NoneNearer-insert target y c zs h n)
]

insert-IsInOrder :
    (target : Bytes) (c : NodeContact) (ys : List NodeContact)
    → IsInOrder target ys
    → IsInOrder target (insert_near target c ys)
unfolding insert_near
insert-IsInOrder target c [] o = (tt, tt)
insert-IsInOrder target c (y ∷ ys) (n, o) = elim (Bool-cases (is_nearer target c y)) [
  | inl nearer ↦
      rw nearer ((nearer_asym target c y nearer, NoneNearer-before target c y ys nearer n), (n, o))
  | inr farther ↦
      rw farther (NoneNearer-insert target y c ys farther n, insert-IsInOrder target c ys o)
]

sort-IsInOrder : (target : Bytes) (xs : List NodeContact) → IsInOrder target (sort_near target xs)
unfolding sort_near
sort-IsInOrder target [] = tt
sort-IsInOrder target (x ∷ xs) =
    insert-IsInOrder target x (sort_near target xs) (sort-IsInOrder target xs)

count-insert :
    (target id : Bytes) (c : NodeContact) (ys : List NodeContact)
    → count id (insert_near target c ys) ≡ (if key_eq c.id id then 1 else 0) + count id ys
unfolding insert_near count
count-insert target id c [] = refl
count-insert target id c (y ∷ ys) = elim (Bool-cases (is_nearer target c y)) [
  | inl nearer ↦ rw nearer refl
  | inr farther ↦ rw farther (omega (arith, count-insert target id c ys))
]

count-sort :
    (target id : Bytes) (xs : List NodeContact) → count id (sort_near target xs) ≡ count id xs
unfolding sort_near count
count-sort target id [] = refl
count-sort target id (x ∷ xs) =
    omega (arith, count-insert target id x (sort_near target xs), count-sort target id xs)

length-insert :
    (target : Bytes) (c : NodeContact) (ys : List NodeContact)
    → length (insert_near target c ys) ≡ suc (length ys)
unfolding insert_near
length-insert target c [] = refl
length-insert target c (y ∷ ys) = elim (Bool-cases (is_nearer target c y)) [
  | inl nearer ↦ rw nearer refl
  | inr farther ↦ rw farther (omega (arith, length-insert target c ys))
]

length-sort : (target : Bytes) (xs : List NodeContact) → length (sort_near target xs) ≡ length xs
unfolding sort_near
length-sort target [] = refl
length-sort target (x ∷ xs) =
    omega (arith, length-insert target x (sort_near target xs), length-sort target xs)

nearest-take :
    (t : RoutingTable) (target : Bytes) (limit : ℕ)
    → nearest t target limit ≡ take limit (sort_near target (all_contacts t.buckets))
unfolding nearest
nearest-take t target zero = refl
nearest-take t target (suc limit) = ground arith

-- The contacts given are a front part, of the size asked for, of the table's contacts in the order
-- of the comparison.
pub nearest-IsInOrder :
    (t : RoutingTable) (target : Bytes) (limit : ℕ)
    → (length (nearest t target limit) ≡ min limit (length (all_contacts t.buckets)))
      × ((left_out : List NodeContact) × IsInOrder target (nearest t target limit ++ left_out)
          × ((id : Bytes)
              → count id (nearest t target limit ++ left_out) ≡ count id (all_contacts t.buckets)))
nearest-IsInOrder t target limit =
    let sorted : List NodeContact = sort_near target (all_contacts t.buckets) in
    let whole : nearest t target limit ++ drop limit sorted ≡ sorted =
      ap (λ xs. xs ++ drop limit sorted) (nearest-take t target limit)
      ∙ take-append-drop limit sorted in
    (
      ap length (nearest-take t target limit)
          ∙ length-take limit sorted
          ∙ ap (min limit) (length-sort target (all_contacts t.buckets)),
      (
        drop limit sorted,
        subst (IsInOrder target) (sym whole) (sort-IsInOrder target (all_contacts t.buckets)),
        (λ id. ap (count id) whole ∙ count-sort target id (all_contacts t.buckets)),
      ),
    )
