-- ===== src/Dht/Routing/Lookup.antt =====
-- Which contacts native/p2p/src/dht/routing_table.cpp finds again.
use tightrope.Prelude.{
  ℕ, zero, suc, ◌+◌, ◌≤◌, ◌<◌, ◌≡◌, refl, sym, subst, Bool, true, false, ◌||◌, ltb, List, [], ◌∷◌,
  ◌++◌, some, length, set, arith, inl, inr, Bool-cases, Option-cases,
}
use tightrope.Prelude.Maps.{nat_ordered, bytes_ordered, key_eq, key_eq_refl, insert}
use tightrope.Wire.{Bytes}
use tightrope.Dht.Message.{is_valid_endpoint}
use tightrope.Dht.Routing.{
  NodeContact, RoutingTable, bucket_index, seen_again, is_worse, touch_existing, least_at,
  replace_least, bucket_at, touch_bucket, touch, has_id, contains_in, contains,
}

has_id-append :
    (id : Bytes) (xs ys : List NodeContact) → has_id id (xs ++ ys) ≡ (has_id id xs || has_id id ys)
unfolding has_id
has_id-append id [] ys = refl
has_id-append id (x ∷ xs) ys = ground (arith, has_id-append id xs ys)

has_id-last :
    (id : Bytes) (xs : List NodeContact) (item : NodeContact)
    → key_eq item.id id ≡ true
    → has_id id (xs ++ item ∷ []) ≡ true
unfolding has_id
has_id-last id xs item h = ground (arith, has_id-append id xs (item ∷ []), h)

existing-has :
    (contact : NodeContact) (bucket renewed : List NodeContact)
    → touch_existing contact bucket ≡ some renewed
    → has_id contact.id renewed ≡ true
unfolding touch_existing has_id
existing-has contact [] renewed e = cc
existing-has contact (x ∷ xs) renewed e = elim (Bool-cases (key_eq x.id contact.id)) [
  | inl same ↦
      let is : xs ++ seen_again x contact ∷ [] ≡ renewed = ground (arith, e, same) in
      subst (λ r. has_id contact.id r ≡ true) is
        (has_id-last contact.id xs (seen_again x contact) same)
  | inr other ↦ elim (Option-cases (touch_existing contact xs)) [
    | inl nothing ↦ absurd (ground (arith, e, other, nothing))
    | inr (items, found) ↦
        let is : x ∷ items ≡ renewed = ground (arith, e, other, found) in
        subst (λ r. has_id contact.id r ≡ true) is
          (ground (arith, existing-has contact xs items found))
  ]
]

set-has :
    (contact : NodeContact) (bucket : List NodeContact) (i : ℕ)
    → i < length bucket
    → has_id contact.id (set bucket i contact) ≡ true
unfolding has_id
set-has contact [] i h = absurd (omega arith)
set-has contact (x ∷ xs) zero h = ground (arith, key_eq_refl contact.id)
set-has contact (x ∷ xs) (suc i) h = ground (arith, set-has contact xs i (omega arith))

least_at-bound :
    (found : ℕ) (best : NodeContact) (i : ℕ) (items : List NodeContact)
    → found < i
    → least_at found best i items < i + length items
least_at-bound found best i [] h = omega arith
least_at-bound found best i (x ∷ items) h = elim (Bool-cases (is_worse x best)) [
  | inl worse ↦ rw worse (omega (arith, least_at-bound i x (suc i) items (omega arith)))
  | inr better ↦ rw better (omega (arith, least_at-bound found best (suc i) items (omega arith)))
]

replace-has :
    (contact : NodeContact) (bucket : List NodeContact)
    → 1 ≤ length bucket
    → has_id contact.id (replace_least contact bucket) ≡ true
unfolding replace_least
replace-has contact [] h = absurd (omega arith)
replace-has contact (x ∷ xs) h =
    set-has contact (x ∷ xs) (least_at 0 x 1 xs)
      (omega (arith, least_at-bound 0 x 1 xs (omega arith)))

touch_bucket-has :
    (size : ℕ) (contact : NodeContact) (bucket : List NodeContact)
    → 1 ≤ size
    → has_id contact.id (touch_bucket size contact bucket) ≡ true
unfolding touch_bucket
touch_bucket-has size contact bucket h = elim (Option-cases (touch_existing contact bucket)) [
  | inr (renewed, found) ↦
      let is : touch_bucket size contact bucket ≡ renewed = ground (arith, found) in
      subst Has (sym is) (existing-has contact bucket renewed found)
  | inl new ↦ elim (Bool-cases (ltb (length bucket) size)) [
    | inl room ↦
        let is : touch_bucket size contact bucket ≡ bucket ++ contact ∷ [] =
          ground (arith, new, room) in
        subst Has (sym is) (has_id-last contact.id bucket contact (key_eq_refl contact.id))
    | inr full ↦
        let is : touch_bucket size contact bucket ≡ replace_least contact bucket =
          ground (arith, new, full) in
        subst Has (sym is) (replace-has contact bucket (ground (arith, full, h)))
  ]
]
  where
    Has : List NodeContact → Type 0
    Has items = has_id contact.id items ≡ true

contains_in-insert :
    (id : Bytes) (index : ℕ) (bucket : List NodeContact) (buckets : List (ℕ × List NodeContact))
    → has_id id bucket ≡ true
    → contains_in id (insert index bucket buckets) ≡ true
unfolding contains_in insert
contains_in-insert id index bucket [] h = ground (arith, h)
contains_in-insert id index bucket ((k, other) ∷ buckets) h =
    ground (arith, h, contains_in-insert id index bucket buckets h)

-- A contact that is touched is found again, also when its bucket was full: one that is not the local
-- node, has a valid endpoint and a bucket, in a table whose buckets hold at least one contact.
pub contains-touch :
    (is_address : Bytes → Bool) (t : RoutingTable) (contact : NodeContact) (index : ℕ)
    → 1 ≤ t.bucket_size
    → key_eq contact.id t.local_id ≡ false
    → is_valid_endpoint is_address contact.endpoint ≡ true
    → bucket_index t.local_id contact.id ≡ some index
    → contains (touch is_address t contact) contact.id ≡ true
unfolding contains touch
contains-touch is_address t contact index room other valid at =
    rw (other, valid, at)
      (contains_in-insert contact.id index
        (touch_bucket t.bucket_size contact (bucket_at index t.buckets)) t.buckets
        (touch_bucket-has t.bucket_size contact (bucket_at index t.buckets) room))
