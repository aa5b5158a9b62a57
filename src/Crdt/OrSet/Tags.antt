-- ===== src/Crdt/OrSet/Tags.antt =====
-- Tags and their order (ORSetTag of native/sync/include/crdt/or_set.h), and sets of tags.
use Prim.Native.Nat.{compare, Ordering}
use tightrope.Prelude.{ℕ, ◌≡◌, Bool, true, false, ◌||◌, List, [], ◌∷◌, Option, none, some, arith}
use tightrope.Prelude.Maps.{Ordered, lookup, insert, lookup-insert, key_eq}

pub record OrSetTag : Type 0 where
  pub site_id : ℕ
  pub counter : ℕ

-- By site, then by counter.
unfoldable pub compare_tag : OrSetTag → OrSetTag → Ordering
compare_tag a b = elim (compare a.site_id b.site_id) [
  | Ordering.lt ↦ Ordering.lt
  | Ordering.eq ↦ compare a.counter b.counter
  | Ordering.gt ↦ Ordering.gt
]

pub tag_refl : (a : OrSetTag) → compare_tag a a ≡ Ordering.eq
unfolding compare_tag
tag_refl a = ground arith

pub tag_eq : (a b : OrSetTag) → compare_tag a b ≡ Ordering.eq → a ≡ b
unfolding compare_tag
tag_eq a b h = ground arith

pub tag_gt : (a b : OrSetTag) → compare_tag a b ≡ Ordering.gt → compare_tag b a ≡ Ordering.lt
unfolding compare_tag
tag_gt a b h = ground arith

pub tag_trans :
    (a b c : OrSetTag)
    → compare_tag a b ≡ Ordering.lt
    → compare_tag b c ≡ Ordering.lt
    → compare_tag a c ≡ Ordering.lt
unfolding compare_tag
tag_trans a b c h k = ground arith

instance abbrev pub tag_ordered : Ordered OrSetTag
tag_ordered = record {
  cmp = compare_tag;
  cmp_refl = tag_refl;
  cmp_eq = tag_eq;
  cmp_gt = tag_gt;
  cmp_trans = tag_trans;
}

abbrev pub TagSet : Type 0
TagSet = List (OrSetTag × Unit {0})

-- flat_set::insert of a range.
unfoldable pub insert_all : TagSet → TagSet → TagSet
insert_all own [] = own
insert_all own ((t, u) ∷ tags) = insert_all (insert t tt own) tags

abbrev pub is_some {ℓ} : {A : Type ℓ} → Option A → Bool
is_some none = false
is_some (some a) = true

unfoldable pub has : OrSetTag → TagSet → Bool
has t ts = is_some (lookup t ts)

pub has-insert : (t u : OrSetTag) (ts : TagSet) → has t (insert u tt ts) ≡ key_eq u t || has t ts
unfolding has
has-insert t u ts = ground (arith, lookup-insert t u tt ts)

pub has-insert_all :
    (t : OrSetTag) (own tags : TagSet) → has t (insert_all own tags) ≡ has t own || has t tags
unfolding insert_all has lookup
has-insert_all t own [] = ground arith
has-insert_all t own ((u, w) ∷ tags) =
    ground (arith, has-insert_all t (insert u tt own) tags, has-insert t u own)
