-- ===== src/Prelude/Maps/Sorted.antt =====
-- Maps whose keys rise strictly, and extensionality: such a map is determined by its lookups.
use Prim.Native.Nat.{Ordering}
use mathlib.Core.Path.{◌≡◌, refl, sym, subst}
use mathlib.Core.List.{List, [], ◌∷◌}
use mathlib.Core.Option.{none}
use mathlib.Core.Bool.{false}
use native.Mathlib.Omega.{arith}
use tightrope.Prelude.Maps.{
  Ordered, key_eq, key_eq_refl, key_eq-eq, key_eq-sym, lookup, insert, erase,
}

module _ {ℓ} {K : Type ℓ} ⦃o : Ordered K⦄ where
  pub key_eq-lt : (a b : K) → o.cmp a b ≡ Ordering.lt → key_eq a b ≡ false
  unfolding key_eq
  key_eq-lt a b h = rw h

module _ {ℓ κ} {K : Type ℓ} {V : Type κ} ⦃o : Ordered K⦄ where
  abbrev pub AllAfter : K → List (K × V) → Type 0
  AllAfter j [] = Unit {0}
  AllAfter j ((k, v) ∷ m) = (o.cmp j k ≡ Ordering.lt) × AllAfter j m

  abbrev pub IsSorted : List (K × V) → Type 0
  IsSorted [] = Unit {0}
  IsSorted ((k, v) ∷ m) = AllAfter k m × IsSorted m

  pub AllAfter-trans :
      (i j : K) (m : List (K × V)) → o.cmp i j ≡ Ordering.lt → AllAfter j m → AllAfter i m
  AllAfter-trans i j [] h a = tt
  AllAfter-trans i j ((k, v) ∷ m) h a = (o.cmp_trans i j k h a.0, AllAfter-trans i j m h a.1)

  AllAfter-insert :
      (j k : K) (v : V) (m : List (K × V))
      → o.cmp j k ≡ Ordering.lt
      → AllAfter j m
      → AllAfter j (insert k v m)
  unfolding insert
  AllAfter-insert j k v [] h a = (h, tt)
  AllAfter-insert j k v ((i, w) ∷ m) h a = ground (arith, AllAfter-insert j k v m)

  pub insert-IsSorted : (k : K) (v : V) (m : List (K × V)) → IsSorted m → IsSorted (insert k v m)
  unfolding insert
  insert-IsSorted k v [] s = (tt, tt)
  insert-IsSorted k v ((j, w) ∷ m) s = ground (
    arith,
    insert-IsSorted k v m s.1,
    AllAfter-insert j k v m,
    AllAfter-trans k j m,
    o.cmp_eq k j,
    o.cmp_gt k j,
  )

  AllAfter-erase : (j k : K) (m : List (K × V)) → AllAfter j m → AllAfter j (erase k m)
  unfolding erase
  AllAfter-erase j k [] a = tt
  AllAfter-erase j k ((i, w) ∷ m) a = ground (arith, AllAfter-erase j k m a.1)

  pub erase-IsSorted : (k : K) (m : List (K × V)) → IsSorted m → IsSorted (erase k m)
  unfolding erase
  erase-IsSorted k [] s = tt
  erase-IsSorted k ((j, w) ∷ m) s = ground (arith, erase-IsSorted k m s.1, AllAfter-erase j k m s.0)

  pub lookup-AllAfter : (k : K) (m : List (K × V)) → AllAfter k m → lookup k m ≡ none
  unfolding lookup
  lookup-AllAfter k [] a = refl
  lookup-AllAfter k ((j, v) ∷ m) a =
      ground (arith, lookup-AllAfter k m a.1, key_eq-lt k j a.0, key_eq-sym j k)

  lookup-tails :
      (j : K) (v w : V) (m n : List (K × V))
      → AllAfter j m
      → AllAfter j n
      → ((i : K) → lookup i ((j, v) ∷ m) ≡ lookup i ((j, w) ∷ n))
      → (i : K) → lookup i m ≡ lookup i n
  unfolding lookup
  lookup-tails j v w m n a b h i =
      ground
        (arith, h i, lookup-AllAfter j m a, lookup-AllAfter j n b, key_eq-eq j i, key_eq_refl j)

  -- The first keys of two maps with the same lookups agree, and so do their values.
  heads_agree :
      (j k : K) (v w : V) (m n : List (K × V))
      → IsSorted ((j, v) ∷ m)
      → IsSorted ((k, w) ∷ n)
      → ((i : K) → lookup i ((j, v) ∷ m) ≡ lookup i ((k, w) ∷ n))
      → (j ≡ k) × (v ≡ w)
  unfolding lookup
  heads_agree j k v w m n s t h = ground (
    arith,
    h j,
    h k,
    key_eq_refl j,
    key_eq_refl k,
    key_eq-eq j k,
    key_eq-eq k j,
    key_eq-sym j k,
    key_eq-lt j k,
    key_eq-lt k j,
    o.cmp_eq j k,
    o.cmp_gt j k,
    lookup-AllAfter j n,
    lookup-AllAfter k m,
    AllAfter-trans j k n,
    AllAfter-trans k j m,
  )

  cons_agree :
      (j k : K) (v w : V) (m n : List (K × V))
      → (j ≡ k) × (v ≡ w)
      → m ≡ n
      → ◌≡◌ {A = List (K × V)} ((j, v) ∷ m) ((k, w) ∷ n)
  cons_agree j k v w m n h e = cc

  pub sorted_ext :
      (m n : List (K × V)) → IsSorted m → IsSorted n → ((i : K) → lookup i m ≡ lookup i n) → m ≡ n
  unfolding lookup
  sorted_ext [] [] s t h = refl
  sorted_ext [] ((k, w) ∷ n) s t h = ground (arith, h k, key_eq_refl k)
  sorted_ext ((j, v) ∷ m) [] s t h = ground (arith, h j, key_eq_refl j)
  sorted_ext ((j, v) ∷ m) ((k, w) ∷ n) s t h =
      let e = heads_agree j k v w m n s t h in
      cons_agree j k v w m n e (
        sorted_ext m n s.1 t.1 (
          lookup-tails j v w m n s.0 (subst (λ x. AllAfter x n) (sym e.0) t.0)
            (subst (λ x. (i : K) → lookup i ((j, v) ∷ m) ≡ lookup i ((x, w) ∷ n)) (sym e.0) h)))
