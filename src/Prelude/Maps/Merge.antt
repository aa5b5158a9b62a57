-- ===== src/Prelude/Maps/Merge.antt =====
-- Merging one sorted map into another, entry by entry, and the laws it inherits from the values.
use mathlib.Core.Path.{◌≡◌, refl, sym, ◌∙◌}
use mathlib.Core.List.{List, [], ◌∷◌}
use mathlib.Core.Option.{Option, none, some}
use native.Mathlib.Omega.{arith}
use mathlib.Core.Logic.{inl, inr}
use tightrope.Prelude.Tests.{if◌then◌else◌, Option-cases}
use tightrope.Prelude.Maps.{Ordered, key_eq, key_eq-eq, lookup, insert, lookup-insert}
use tightrope.Prelude.Maps.Sorted.{IsSorted, insert-IsSorted, lookup-AllAfter, sorted_ext}

-- What two optional values become: the one that is there, or both combined.
abbrev pub join {κ} : {V : Type κ} → (V → V → V) → Option V → Option V → Option V
join f none y = y
join f (some x) none = some x
join f (some x) (some y) = some (f x y)

module _ {ℓ κ} {K : Type ℓ} {V : Type κ} ⦃o : Ordered K⦄ (f : V → V → V) where
  pub upsert : K → V → List (K × V) → List (K × V)
  upsert k v m = elim (lookup k m) [ none ↦ insert k v m | some w ↦ insert k (f w v) m ]

  unfoldable pub merge_with : List (K × V) → List (K × V) → List (K × V)
  unfolding upsert
  merge_with a [] = a
  merge_with a ((k, v) ∷ b) = merge_with (upsert k v a) b

  pub lookup-upsert :
      (i k : K) (v : V) (m : List (K × V))
      → lookup i (upsert k v m) ≡ (if key_eq k i then join f (lookup k m) (some v) else lookup i m)
  unfolding upsert
  lookup-upsert i k v m = elim (Option-cases (lookup k m)) [
    | inl e ↦ ground (arith, lookup-insert i k v m)
    | inr (w, e) ↦ ground (arith, lookup-insert i k (f w v) m)
  ]

  pub upsert-IsSorted : (k : K) (v : V) (m : List (K × V)) → IsSorted m → IsSorted (upsert k v m)
  unfolding upsert
  upsert-IsSorted k v m s = elim (Option-cases (lookup k m)) [
    | inl e ↦ ground (arith, insert-IsSorted k v m s)
    | inr (w, e) ↦ ground (arith, insert-IsSorted k (f w v) m s)
  ]

  pub merge_with-IsSorted : (a b : List (K × V)) → IsSorted a → IsSorted (merge_with a b)
  unfolding merge_with
  merge_with-IsSorted a [] s = s
  merge_with-IsSorted a ((k, v) ∷ b) s =
      merge_with-IsSorted (upsert k v a) b (upsert-IsSorted k v a s)

  -- A merge looks up as the join of its parts.
  pub lookup-merge_with :
      (i : K) (a b : List (K × V))
      → IsSorted b
      → lookup i (merge_with a b) ≡ join f (lookup i a) (lookup i b)
  unfolding merge_with lookup
  lookup-merge_with i a [] s = ground arith
  lookup-merge_with i a ((k, v) ∷ b) s = ground (
    arith,
    lookup-merge_with i (upsert k v a) b s.1,
    lookup-upsert i k v a,
    key_eq-eq k i,
    lookup-AllAfter k b s.0,
  )

  pub merge_with_comm :
      ((x y : V) → f x y ≡ f y x)
      → (a b : List (K × V)) → IsSorted a
      → IsSorted b
      → merge_with a b ≡ merge_with b a
  merge_with_comm c a b s t =
      sorted_ext _ _ (merge_with-IsSorted a b s) (merge_with-IsSorted b a t) λ i.
        lookup-merge_with i a b t
        ∙ join_comm (lookup i a) (lookup i b)
        ∙ sym (lookup-merge_with i b a s)
    where
      join_comm : (x y : Option V) → join f x y ≡ join f y x
      join_comm none none = refl
      join_comm none (some y) = refl
      join_comm (some x) none = refl
      join_comm (some x) (some y) = cc (c x y)

  pub merge_with_assoc :
      ((x y z : V) → f (f x y) z ≡ f x (f y z))
      → (a b c : List (K × V)) → IsSorted a
      → IsSorted b
      → IsSorted c
      → merge_with (merge_with a b) c ≡ merge_with a (merge_with b c)
  merge_with_assoc law a b c s t u =
      sorted_ext _ _ (merge_with-IsSorted _ c (merge_with-IsSorted a b s))
        (merge_with-IsSorted a _ s)
        λ i. cc (
          lookup-merge_with i (merge_with a b) c u,
          lookup-merge_with i a b t,
          lookup-merge_with i a (merge_with b c) (merge_with-IsSorted b c t),
          lookup-merge_with i b c u,
          join_assoc (lookup i a) (lookup i b) (lookup i c),
        )
    where
      join_assoc : (x y z : Option V) → join f (join f x y) z ≡ join f x (join f y z)
      join_assoc none y z = refl
      join_assoc (some x) none z = refl
      join_assoc (some x) (some y) none = refl
      join_assoc (some x) (some y) (some z) = cc (law x y z)

  pub merge_with_idem : ((x : V) → f x x ≡ x) → (a : List (K × V)) → IsSorted a → merge_with a a ≡ a
  merge_with_idem law a s =
      sorted_ext _ _ (merge_with-IsSorted a a s) s
        λ i. lookup-merge_with i a a s ∙ join_idem (lookup i a)
    where
      join_idem : (x : Option V) → join f x x ≡ x
      join_idem none = refl
      join_idem (some x) = cc (law x)
