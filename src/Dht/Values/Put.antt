-- ===== src/Dht/Values/Put.antt =====
-- What put of native/p2p/src/dht/value_store.cpp adds for a later get.
use tightrope.Prelude.{
  ℕ, suc, ◌+◌, ◌<◌, ◌≤◌, ◌≡◌, length, Option-cases, inl, inr, ◌⊎◌, refl, ap, ◌∙◌, true, false, List,
  [], ◌∷◌, arith, subst, sym,
}
use tightrope.Prelude.Maps.{
  bytes_ordered, insert, key_eq, lookup, lookup-insert_self, lookup-insert,
}
use tightrope.Prelude.Maps.Sorted.{IsSorted, insert-IsSorted}
use tightrope.Wire.{Bytes, same_bytes}
use tightrope.Protocol.Handshake.{empty}
use tightrope.Dht.Message.{ValueRecord}
use tightrope.Dht.Values.{StoredValue, ValueStore, expiry, put_item, items_of, put, collect, get}
use tightrope.Dht.Values.Laws.{get-collect, collected, get-collected}

same_bytes-eq : (xs ys : Bytes) → same_bytes xs ys ≡ true → xs ≡ ys
same_bytes-eq [] [] h = refl
same_bytes-eq [] (y ∷ ys) h = cc
same_bytes-eq (x ∷ xs) [] h = cc
same_bytes-eq (x ∷ xs) (y ∷ ys) h = ground (arith, same_bytes-eq xs ys)

-- A value with its expiry is among those found.
abbrev pub HasValue : Bytes → ℕ → List ValueRecord → Type 0
HasValue v expires [] = ⊥
HasValue v expires (r ∷ rs) =
    ((r.value ≡ v) × (r.expires_unix_ms ≡ expires)) ⊎ HasValue v expires rs

collect-put_item :
    (items : List StoredValue) (new : StoredValue) (later taken : ℕ)
    → later < new.expires_unix_ms
    → HasValue new.value new.expires_unix_ms (collect (put_item items new) 0 later taken)
unfolding collect put_item
collect-put_item [] new later taken h = ground arith
collect-put_item (e ∷ items) new later taken h = ground (
  arith,
  same_bytes-eq e.value new.value,
  collect-put_item items new later taken h,
  collect-put_item items new later (taken + 1) h,
)

collect_zero :
    (items : List StoredValue) (now taken : ℕ) → collect items 0 now taken ≡ collect items 0 now 0
unfolding collect
collect_zero [] now taken = refl
collect_zero (e ∷ items) now taken = ground (
  arith,
  collect_zero items now taken,
  collect_zero items now (taken + 1),
  collect_zero items now 1,
)

-- A limit that is not under the number of unexpired values leaves none out.
collect_all :
    (items : List StoredValue) (limit now taken : ℕ)
    → taken + length (collect items 0 now 0) ≤ limit
    → collect items limit now taken ≡ collect items 0 now 0
unfolding collect
collect_all [] limit now taken h = refl
collect_all (e ∷ items) limit now taken h = ground (
  arith,
  h,
  collect_zero items now 1,
  collect_all items limit now taken,
  collect_all items limit now (taken + 1),
  length_zero (collect items 0 now 0),
)
  where
    length_zero : (xs : List ValueRecord) → length xs ≡ 0 → xs ≡ []
    length_zero [] h = refl
    length_zero (x ∷ xs) h = absurd (ground (arith, h))

-- At most one more value is found after an item is put.
length-collect :
    (items : List StoredValue) (new : StoredValue) (later : ℕ)
    → length (collect (put_item items new) 0 later 0) ≤ suc (length (collect items 0 later 0))
unfolding collect put_item
length-collect [] new later = ground arith
length-collect (e ∷ items) new later = ground (
  arith,
  length-collect items new later,
  collect_zero items later 1,
  collect_zero (put_item items new) later 1,
)

get-items_of :
    (store : ValueStore) (key : Bytes) (later : ℕ)
    → get store key 0 later ≡ collect (items_of store key) 0 later 0
unfolding get items_of collect
get-items_of store key later = elim (Option-cases (lookup key store)) [
  | inl e ↦ ground (arith, e)
  | inr (items, e) ↦ ground (arith, e)
]

-- A limit that is 0, or over the number of values found before, leaves room for the new value.
put-HasValue :
    (items : List StoredValue) (new : StoredValue) (later limit : ℕ)
    → later < new.expires_unix_ms
    → (limit ≡ 0) ⊎ (length (collect items 0 later 0) < limit)
    → HasValue new.value new.expires_unix_ms (collect (put_item items new) limit later 0)
put-HasValue items new later limit h (inl unlimited) =
    rw unlimited (collect-put_item items new later 0 h)
put-HasValue items new later limit h (inr room) =
    subst (HasValue new.value new.expires_unix_ms)
      (sym (
        collect_all (put_item items new) limit later 0
          (omega (arith, room, length-collect items new later))))
      (collect-put_item items new later 0 h)

put-insert :
    (store : ValueStore) (key value publisher : Bytes) (now ttl : ℕ)
    → empty key ≡ false
    → empty value ≡ false
    → 0 < ttl
    → put store key value publisher now ttl
      ≡ insert key
          (put_item (items_of store key) (record {
            key = key;
            value = value;
            publisher_id = publisher;
            stored_unix_ms = now;
            expires_unix_ms = expiry now ttl;
          }))
          store
unfolding put
put-insert store key value publisher now ttl k v t = ground (arith, k, v, t)

-- Putting a value that is not empty under a key that is not empty, with a time to live that is not
-- 0: until its expiry, a get under the key finds it with that expiry, if the get has no limit or a
-- limit over the number of unexpired values that were there; what a get finds under any other key
-- is as before; and the store still has one entry for each key.
pub get-put :
    (store : ValueStore) (key value publisher other : Bytes) (now ttl later limit : ℕ)
    → IsSorted store
    → empty key ≡ false
    → empty value ≡ false
    → 0 < ttl
    → later < expiry now ttl
    → (limit ≡ 0) ⊎ (length (get store key 0 later) < limit)
    → key_eq key other ≡ false
    → HasValue value (expiry now ttl) (get (put store key value publisher now ttl) key limit later)
      × (get (put store key value publisher now ttl) other limit later
          ≡ get store other limit later)
      × IsSorted (put store key value publisher now ttl)
get-put store key value publisher other now ttl later limit s k v t h room differ =
    let new : StoredValue = record {
      key = key;
      value = value;
      publisher_id = publisher;
      stored_unix_ms = now;
      expires_unix_ms = expiry now ttl;
    } in
    let items : List StoredValue = put_item (items_of store key) new in
    rw (put-insert store key value publisher now ttl k v t) (
      subst (HasValue value (expiry now ttl))
          (sym (
            get-collect (insert key items store) key limit later items
              (lookup-insert_self key items store)))
          (put-HasValue (items_of store key) new later limit h (
            subst (λ found. (limit ≡ 0) ⊎ (length found < limit)) (get-items_of store key later)
              room)),
      get-collected (insert key items store) other limit later
          ∙ ap (λ found. collected found limit later)
              (lookup-insert other key items store ∙ rw differ refl)
          ∙ sym (get-collected store other limit later),
      insert-IsSorted key items store s,
    )
