-- ===== src/Prelude/Maps.antt =====
-- Ordered maps as association lists sorted by key (the flat_map and map of the C++ code), and
-- the order of their keys as an interface.
pub mod Sorted
pub mod Merge
use Prim.Native.Nat.{ℕ, compare, Ordering}
use mathlib.Core.Path.{◌≡◌, refl}
use mathlib.Core.List.{List, [], ◌∷◌}
use mathlib.Core.Option.{Option, none, some}
use mathlib.Core.Bool.{Bool, true, false}
use native.Mathlib.Omega.{arith}
use tightrope.Prelude.Tests.{if◌then◌else◌}

-- A linear order of keys, given by its three-way comparison.
pub record Ordered {ℓ} (K : Type ℓ) : Type ℓ where
  pub cmp : K → K → Ordering
  pub cmp_refl : (a : K) → cmp a a ≡ Ordering.eq
  pub cmp_eq : (a b : K) → cmp a b ≡ Ordering.eq → a ≡ b
  pub cmp_gt : (a b : K) → cmp a b ≡ Ordering.gt → cmp b a ≡ Ordering.lt
  pub cmp_trans :
      (a b c : K) → cmp a b ≡ Ordering.lt → cmp b c ≡ Ordering.lt → cmp a c ≡ Ordering.lt

pub nat_cmp_refl : (a : ℕ) → compare a a ≡ Ordering.eq
nat_cmp_refl a = ground arith

pub nat_cmp_eq : (a b : ℕ) → compare a b ≡ Ordering.eq → a ≡ b
nat_cmp_eq a b h = ground arith

pub nat_cmp_gt : (a b : ℕ) → compare a b ≡ Ordering.gt → compare b a ≡ Ordering.lt
nat_cmp_gt a b h = ground arith

pub nat_cmp_trans :
    (a b c : ℕ) → compare a b ≡ Ordering.lt → compare b c ≡ Ordering.lt → compare a c ≡ Ordering.lt
nat_cmp_trans a b c h k = ground arith

instance abbrev pub nat_ordered : Ordered ℕ
nat_ordered = record {
  cmp = compare;
  cmp_refl = nat_cmp_refl;
  cmp_eq = nat_cmp_eq;
  cmp_gt = nat_cmp_gt;
  cmp_trans = nat_cmp_trans;
}

-- Lexicographic comparison, the order of std::string and of byte arrays.
unfoldable pub lex : List ℕ → List ℕ → Ordering
lex [] [] = Ordering.eq
lex [] (y ∷ ys) = Ordering.lt
lex (x ∷ xs) [] = Ordering.gt
lex (x ∷ xs) (y ∷ ys) = elim (compare x y) [
  | Ordering.lt ↦ Ordering.lt
  | Ordering.eq ↦ lex xs ys
  | Ordering.gt ↦ Ordering.gt
]

pub lex_refl : (xs : List ℕ) → lex xs xs ≡ Ordering.eq
unfolding lex
lex_refl [] = refl
lex_refl (x ∷ xs) = ground (arith, lex_refl xs)

pub lex_eq : (xs ys : List ℕ) → lex xs ys ≡ Ordering.eq → xs ≡ ys
unfolding lex
lex_eq [] [] h = refl
lex_eq [] (y ∷ ys) h = cc
lex_eq (x ∷ xs) [] h = cc
lex_eq (x ∷ xs) (y ∷ ys) h = ground (arith, lex_eq xs ys)

pub lex_gt : (xs ys : List ℕ) → lex xs ys ≡ Ordering.gt → lex ys xs ≡ Ordering.lt
unfolding lex
lex_gt [] [] h = cc
lex_gt [] (y ∷ ys) h = cc
lex_gt (x ∷ xs) [] h = refl
lex_gt (x ∷ xs) (y ∷ ys) h = ground (arith, lex_gt xs ys)

pub lex_trans :
    (xs ys zs : List ℕ)
    → lex xs ys ≡ Ordering.lt
    → lex ys zs ≡ Ordering.lt
    → lex xs zs ≡ Ordering.lt
unfolding lex
lex_trans [] [] zs h k = cc
lex_trans [] (y ∷ ys) [] h k = cc
lex_trans [] (y ∷ ys) (z ∷ zs) h k = refl
lex_trans (x ∷ xs) [] zs h k = cc
lex_trans (x ∷ xs) (y ∷ ys) [] h k = cc
lex_trans (x ∷ xs) (y ∷ ys) (z ∷ zs) h k = ground (arith, lex_trans xs ys zs)

instance abbrev pub bytes_ordered : Ordered (List ℕ)
bytes_ordered = record {
  cmp = lex;
  cmp_refl = lex_refl;
  cmp_eq = lex_eq;
  cmp_gt = lex_gt;
  cmp_trans = lex_trans;
}

abbrev pub is_eq : Ordering → Bool
is_eq Ordering.lt = false
is_eq Ordering.eq = true
is_eq Ordering.gt = false

module _ {ℓ} {K : Type ℓ} ⦃o : Ordered K⦄ where
  -- operator== of the key type.
  unfoldable pub key_eq : K → K → Bool
  key_eq a b = is_eq (o.cmp a b)

  pub key_eq_refl : (a : K) → key_eq a a ≡ true
  unfolding key_eq
  key_eq_refl a = rw (o.cmp_refl a)

  pub key_eq-eq : (a b : K) → key_eq a b ≡ true → a ≡ b
  unfolding key_eq
  key_eq-eq a b h = ground (arith, o.cmp_eq a b)

  pub key_eq-cmp : (a b : K) → o.cmp a b ≡ Ordering.eq → key_eq a b ≡ true
  unfolding key_eq
  key_eq-cmp a b h = rw h

  pub key_eq-sym : (a b : K) → key_eq a b ≡ key_eq b a
  key_eq-sym a b = ground (arith, key_eq-eq a b, key_eq-eq b a, key_eq_refl a, key_eq_refl b)

module _ {ℓ κ} {K : Type ℓ} {V : Type κ} ⦃o : Ordered K⦄ where
  unfoldable pub lookup : K → List (K × V) → Option V
  lookup k [] = none
  lookup k ((j, v) ∷ m) = if key_eq j k then some v else lookup k m

  unfoldable pub insert : K → V → List (K × V) → List (K × V)
  insert k v [] = (k, v) ∷ []
  insert k v ((j, w) ∷ m) = elim (o.cmp k j) [
    | Ordering.lt ↦ (k, v) ∷ (j, w) ∷ m
    | Ordering.eq ↦ (k, v) ∷ m
    | Ordering.gt ↦ (j, w) ∷ insert k v m
  ]

  unfoldable pub erase : K → List (K × V) → List (K × V)
  erase k [] = []
  erase k ((j, v) ∷ m) = if key_eq j k then erase k m else (j, v) ∷ erase k m

  pub lookup-insert :
      (i k : K) (v : V) (m : List (K × V))
      → lookup i (insert k v m) ≡ (if key_eq k i then some v else lookup i m)
  unfolding lookup insert
  lookup-insert i k v [] = refl
  lookup-insert i k v ((j, w) ∷ m) = ground (
    arith,
    lookup-insert i k v m,
    o.cmp_eq k j,
    key_eq-eq k i,
    key_eq-eq j i,
    key_eq_refl i,
    o.cmp_refl i,
  )

  pub lookup-erase :
      (i k : K) (m : List (K × V))
      → lookup i (erase k m) ≡ (if key_eq k i then none else lookup i m)
  unfolding lookup erase
  lookup-erase i k [] = ground arith
  lookup-erase i k ((j, w) ∷ m) = ground (
    arith,
    lookup-erase i k m,
    key_eq-eq k i,
    key_eq-eq j i,
    key_eq-eq j k,
    key_eq_refl i,
    key_eq_refl k,
  )

  pub lookup-insert_self : (k : K) (v : V) (m : List (K × V)) → lookup k (insert k v m) ≡ some v
  lookup-insert_self k v m = rw (lookup-insert k k v m, key_eq_refl k)
