-- ===== src/Dht/Routing/Buckets.antt =====
-- The buckets of native/p2p/src/dht/routing_table.cpp.
use tightrope.Prelude.{
  ℕ, zero, suc, ◌+◌, ◌≤◌, ◌≡◌, refl, sym, subst, Bool, true, not, ◌||◌, if◌then◌else◌, ltb, List,
  [], ◌∷◌, ◌++◌, none, some, length, set, arith, inl, inr, Bool-cases, Option-cases, length-append,
  length-set,
}
use tightrope.Prelude.Maps.{
  nat_ordered, bytes_ordered, key_eq, key_eq-eq, lookup, insert, lookup-insert,
}
use tightrope.Wire.{Bytes}
use tightrope.Dht.Message.{is_valid_endpoint}
use tightrope.Dht.Routing.{
  NodeContact, RoutingTable, bucket_index, seen_again, touch_existing, least_at, replace_least,
  bucket_at, touch_bucket, touch, fresh_contacts, prune_buckets, prune_stale, new_table,
}

-- How many contacts of a bucket have an id.
unfoldable pub count : Bytes → List NodeContact → ℕ
count id [] = 0
count id (item ∷ items) = (if key_eq item.id id then 1 else 0) + count id items

module _ (is_address : Bytes → Bool) where
  -- Contacts of one bucket, with endpoints that are valid.
  abbrev pub AllFit : Bytes → ℕ → List NodeContact → Type 0
  AllFit local index [] = Unit {0}
  AllFit local index (item ∷ items) =
      (bucket_index local item.id ≡ some index)
      × (is_valid_endpoint is_address item.endpoint ≡ true)
      × AllFit local index items

  -- A bucket: its contacts are where they belong, once each, and not more than the size.
  pub record IsBucket (local : Bytes) (size index : ℕ) (bucket : List NodeContact) : Type 0 where
    pub fit : AllFit local index bucket
    pub once : (id : Bytes) → count id bucket ≤ 1
    pub bounded : length bucket ≤ size

  abbrev pub IsRouted : RoutingTable → Type 0
  IsRouted t = (index : ℕ) → IsBucket t.local_id t.bucket_size index (bucket_at index t.buckets)

  count-append :
      (id : Bytes) (xs ys : List NodeContact) → count id (xs ++ ys) ≡ count id xs + count id ys
  unfolding count
  count-append id [] ys = omega arith
  count-append id (x ∷ xs) ys = omega (arith, count-append id xs ys)

  AllFit-append :
      (local : Bytes) (index : ℕ) (xs : List NodeContact) (item : NodeContact)
      → AllFit local index xs
      → bucket_index local item.id ≡ some index
      → is_valid_endpoint is_address item.endpoint ≡ true
      → AllFit local index (xs ++ item ∷ [])
  AllFit-append local index [] item fit at valid = (at, valid, tt)
  AllFit-append local index (x ∷ xs) item (a, v, fit) at valid =
      (a, v, AllFit-append local index xs item fit at valid)

  existing-fits :
      (local : Bytes) (index : ℕ) (contact : NodeContact) (bucket renewed : List NodeContact)
      → is_valid_endpoint is_address contact.endpoint ≡ true
      → touch_existing contact bucket ≡ some renewed
      → AllFit local index bucket
      → AllFit local index renewed
        × ((id : Bytes) → count id renewed ≡ count id bucket)
        × (length renewed ≡ length bucket)
  unfolding touch_existing count
  existing-fits local index contact [] renewed valid e fit = cc
  existing-fits local index contact (x ∷ xs) renewed valid e (at, v, fit) =
      elim (Bool-cases (key_eq x.id contact.id)) [
        | inl same ↦
            let is : xs ++ seen_again x contact ∷ [] ≡ renewed = ground (arith, e, same) in
            subst Renewed is (
              AllFit-append local index xs (seen_again x contact) fit at valid,
              (λ id. omega (arith, count-append id xs (seen_again x contact ∷ []))),
              omega (arith, length-append xs (seen_again x contact ∷ [])),
            )
        | inr other ↦ elim (Option-cases (touch_existing contact xs)) [
          | inl nothing ↦ absurd (ground (arith, e, other, nothing))
          | inr (items, found) ↦
              let is : x ∷ items ≡ renewed = ground (arith, e, other, found) in
              let (fits, counts, sizes) =
                existing-fits local index contact xs items valid found fit in
              subst Renewed is
                ((at, v, fits), (λ id. omega (arith, counts id)), omega (arith, sizes))
        ]
      ]
    where
      Renewed : List NodeContact → Type 0
      Renewed renewed' =
          AllFit local index renewed'
          × ((id : Bytes) → count id renewed' ≡ count id (x ∷ xs))
          × (length renewed' ≡ length (x ∷ xs))

  absent :
      (contact : NodeContact) (bucket : List NodeContact)
      → touch_existing contact bucket ≡ none
      → count contact.id bucket ≡ 0
  unfolding touch_existing count
  absent contact [] e = refl
  absent contact (x ∷ xs) e = elim (Option-cases (touch_existing contact xs)) [
    | inl nothing ↦ ground (arith, e, nothing, absent contact xs nothing)
    | inr (renewed, found) ↦ ground (arith, e, found)
  ]

  set-fits :
      (local : Bytes) (index : ℕ) (bucket : List NodeContact) (i : ℕ) (contact : NodeContact)
      → AllFit local index bucket
      → bucket_index local contact.id ≡ some index
      → is_valid_endpoint is_address contact.endpoint ≡ true
      → AllFit local index (set bucket i contact)
  set-fits local index [] i contact fit at valid = tt
  set-fits local index (x ∷ xs) zero contact (a, v, fit) at valid = (at, valid, fit)
  set-fits local index (x ∷ xs) (suc i) contact (a, v, fit) at valid =
      (a, v, set-fits local index xs i contact fit at valid)

  count-set :
      (id : Bytes) (bucket : List NodeContact) (i : ℕ) (contact : NodeContact)
      → count id (set bucket i contact) ≤ count id bucket + (if key_eq contact.id id then 1 else 0)
  unfolding count
  count-set id [] i contact = ground arith
  count-set id (x ∷ xs) zero contact = ground arith
  count-set id (x ∷ xs) (suc i) contact = omega (arith, count-set id xs i contact)

  replace_least-set :
      (contact : NodeContact) (bucket : List NodeContact)
      → (i : ℕ) × (replace_least contact bucket ≡ set bucket i contact)
  unfolding replace_least
  replace_least-set contact [] = (0, refl)
  replace_least-set contact (x ∷ xs) = (least_at 0 x 1 xs, refl)

  once-new :
      (contact : NodeContact) (bucket : List NodeContact) (id : Bytes)
      → touch_existing contact bucket ≡ none
      → count id bucket ≤ 1
      → count id bucket + (if key_eq contact.id id then 1 else 0) ≤ 1
  once-new contact bucket id new once =
      ground (arith, once, absent contact bucket new, key_eq-eq contact.id id)

  touch-IsBucket :
      (local : Bytes) (size index : ℕ) (contact : NodeContact) (bucket : List NodeContact)
      → bucket_index local contact.id ≡ some index
      → is_valid_endpoint is_address contact.endpoint ≡ true
      → IsBucket local size index bucket
      → IsBucket local size index (touch_bucket size contact bucket)
  unfolding touch_bucket count
  touch-IsBucket local size index contact bucket at valid b =
      elim (Option-cases (touch_existing contact bucket)) [
        | inr (renewed, found) ↦
            let is : touch_bucket size contact bucket ≡ renewed = ground (arith, found) in
            let (fits, counts, sizes) =
              existing-fits local index contact bucket renewed valid found b.fit in
            subst (IsBucket local size index) (sym is) (record {
              fit = fits;
              once = λ id. omega (arith, counts id, b.once id);
              bounded = omega (arith, sizes, b.bounded);
            })
        | inl new ↦ elim (Bool-cases (ltb (length bucket) size)) [
          | inl room ↦
              let is : touch_bucket size contact bucket ≡ bucket ++ contact ∷ [] =
                ground (arith, new, room) in
              subst (IsBucket local size index) (sym is) (record {
                fit = AllFit-append local index bucket contact b.fit at valid;
                once = λ id. omega (
                  arith,
                  count-append id bucket (contact ∷ []),
                  once-new contact bucket id new (b.once id),
                );
                bounded = ground (arith, room, length-append bucket (contact ∷ []));
              })
          | inr full ↦
              let (i, e) = replace_least-set contact bucket in
              let is : touch_bucket size contact bucket ≡ set bucket i contact =
                ground (arith, new, full, e) in
              subst (IsBucket local size index) (sym is) (record {
                fit = set-fits local index bucket i contact b.fit at valid;
                once = λ id. omega (
                  arith,
                  count-set id bucket i contact,
                  once-new contact bucket id new (b.once id),
                );
                bounded = omega (arith, length-set bucket i contact, b.bounded);
              })
        ]
      ]

  bucket_at-insert :
      (k index : ℕ) (bucket : List NodeContact) (buckets : List (ℕ × List NodeContact))
      → bucket_at k (insert index bucket buckets)
        ≡ (if key_eq index k then bucket else bucket_at k buckets)
  unfolding bucket_at
  bucket_at-insert k index bucket buckets = ground (arith, lookup-insert k index bucket buckets)

  touch-IsRouted :
      (t : RoutingTable) (contact : NodeContact)
      → IsRouted t
      → IsRouted (touch is_address t contact)
  unfolding touch
  touch-IsRouted t contact routed =
      elim (Bool-cases
        (key_eq contact.id t.local_id || not (is_valid_endpoint is_address contact.endpoint))) [
          | inl refused ↦ rw refused routed
          | inr good ↦ elim (Option-cases (bucket_index t.local_id contact.id)) [
            | inl nowhere ↦ rw (good, nowhere) routed
            | inr (index, at) ↦
                rw (good, at)
                  (λ k. elim (Bool-cases (key_eq index k)) [
                    | inl same ↦
                        let touched : List NodeContact =
                          touch_bucket t.bucket_size contact (bucket_at index t.buckets) in
                        let e : bucket_at k (insert index touched t.buckets) ≡ touched =
                          ground (arith, bucket_at-insert k index touched t.buckets, same) in
                        subst (IsBucket t.local_id t.bucket_size k) (sym e) (
                          subst (λ j. IsBucket t.local_id t.bucket_size j touched)
                            (key_eq-eq index k same)
                            (touch-IsBucket t.local_id t.bucket_size index contact
                              (bucket_at index t.buckets) at (ground (arith, good)) (routed index)))
                    | inr other ↦
                        let touched : List NodeContact =
                          touch_bucket t.bucket_size contact (bucket_at index t.buckets) in
                        let e : bucket_at k (insert index touched t.buckets)
                            ≡ bucket_at k t.buckets =
                          ground (arith, bucket_at-insert k index touched t.buckets, other) in
                        subst (IsBucket t.local_id t.bucket_size k) (sym e) (routed k)
                  ])
          ]
        ]

  fresh-IsBucket :
      (local : Bytes) (size index cutoff : ℕ) (bucket : List NodeContact)
      → AllFit local index bucket
      → AllFit local index (fresh_contacts cutoff bucket)
        × ((id : Bytes) → count id (fresh_contacts cutoff bucket) ≤ count id bucket)
        × (length (fresh_contacts cutoff bucket) ≤ length bucket)
  unfolding fresh_contacts count
  fresh-IsBucket local size index cutoff [] fit = (tt, (λ id. omega arith), omega arith)
  fresh-IsBucket local size index cutoff (x ∷ xs) (at, v, fit) =
      let (fits, counts, sizes) = fresh-IsBucket local size index cutoff xs fit in
      elim (Bool-cases (ltb x.last_seen_unix_ms cutoff)) [
        | inl stale ↦ rw stale (fits, (λ id. omega (arith, counts id)), omega (arith, sizes))
        | inr fresh ↦
            rw fresh ((at, v, fits), (λ id. omega (arith, counts id)), omega (arith, sizes))
      ]

  bucket_at-prune :
      (k cutoff : ℕ) (buckets : List (ℕ × List NodeContact))
      → bucket_at k (prune_buckets cutoff buckets) ≡ fresh_contacts cutoff (bucket_at k buckets)
  unfolding bucket_at lookup fresh_contacts
  bucket_at-prune k cutoff [] = refl
  bucket_at-prune k cutoff ((index, bucket) ∷ buckets) = elim (Bool-cases (key_eq index k)) [
    | inl same ↦ ground (arith, same)
    | inr other ↦ ground (arith, other, bucket_at-prune k cutoff buckets)
  ]

  prune-IsRouted : (t : RoutingTable) (cutoff : ℕ) → IsRouted t → IsRouted (prune_stale t cutoff)
  unfolding prune_stale
  prune-IsRouted t cutoff routed k =
      let b = routed k in
      let (fits, counts, sizes) =
        fresh-IsBucket t.local_id t.bucket_size k cutoff (bucket_at k t.buckets) b.fit in
      subst (IsBucket t.local_id t.bucket_size k) (sym (bucket_at-prune k cutoff t.buckets))
        (record {
          fit = fits;
          once = λ id. omega (arith, counts id, b.once id);
          bounded = omega (arith, sizes, b.bounded);
        })

  -- A table after calls of touch and prune_stale, from the constructor on.
  pub data Built (local : Bytes) (size : ℕ) : RoutingTable → Type 0 where
    new : Built local size (new_table local size)
    touched :
        (contact : NodeContact) {t : RoutingTable}
        → Built local size t
        → Built local size (touch is_address t contact)
    pruned :
        (cutoff : ℕ) {t : RoutingTable}
        → Built local size t
        → Built local size (prune_stale t cutoff)

  -- Whatever contacts are touched and however often the table is pruned: every bucket holds only
  -- contacts whose ids belong to it by their distance to the local id and whose endpoints are valid,
  -- no id twice, and not more contacts than the size of a bucket.
  pub RoutingTable-IsRouted :
      (local : Bytes) (size : ℕ) (t : RoutingTable) → Built local size t → IsRouted t
  unfolding new_table bucket_at lookup count
  RoutingTable-IsRouted local size _ new =
      λ k. record { fit = tt; once = λ id. omega arith; bounded = omega arith }
  RoutingTable-IsRouted local size _ (touched contact {t} b) =
      touch-IsRouted t contact (RoutingTable-IsRouted local size t b)
  RoutingTable-IsRouted local size _ (pruned cutoff {t} b) =
      prune-IsRouted t cutoff (RoutingTable-IsRouted local size t b)
