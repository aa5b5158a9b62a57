-- ===== src/Dht/Routing.antt =====
-- The k-bucket routing table of native/p2p/src/dht/routing_table.cpp with the distances of
-- native/p2p/src/dht/node_id.cpp. An id is the list of its 32 bytes; the array of buckets is a map
-- from the index, where an index without a list is an empty bucket. The lock is left out.
pub mod Buckets
pub mod Lookup
pub mod Distance
pub mod Nearest
mod Tests
use Prim.Native.Nat.{bit_xor, bit_and, ◌^◌}
use tightrope.Prelude.{
  ℕ, zero, suc, ◌+◌, ◌*◌, Bool, true, false, not, ◌&&◌, ◌||◌, if◌then◌else◌, ltb, leb, ◌==◌, max,
  List, [], ◌∷◌, ◌++◌, Option, none, some, length, set,
}
use tightrope.Prelude.Maps.{Ordered, nat_ordered, bytes_ordered, key_eq, lookup, insert}
use tightrope.Wire.{Bytes}
use tightrope.Dht.Message.{NodeEndpoint, is_valid_endpoint}

pub record NodeContact : Type 0 where
  pub id : Bytes
  pub endpoint : NodeEndpoint
  pub last_seen_unix_ms : ℕ
  pub verified : Bool

pub record RoutingTable : Type 0 where
  pub local_id : Bytes
  pub bucket_size : ℕ
  pub buckets : List (ℕ × List NodeContact)

unfoldable pub new_table : Bytes → ℕ → RoutingTable
new_table local_id bucket_size = record {
  local_id = local_id;
  bucket_size = max bucket_size 1;
  buckets = [];
}

unfoldable pub xor_distance : Bytes → Bytes → Bytes
xor_distance [] remote = []
xor_distance (a ∷ bytes) [] = []
xor_distance (a ∷ bytes) (b ∷ remote) = bit_xor a b ∷ xor_distance bytes remote

-- The highest of the lowest bits that is set.
unfoldable pub top_bit : ℕ → ℕ → Option ℕ
top_bit zero value = none
top_bit (suc bit) value =
    let lower = top_bit bit value in if bit_and value (2 ^ bit) == 0 then lower else some bit

unfoldable pub first_bit : Bytes → Option ℕ
first_bit [] = none
first_bit (value ∷ rest) =
    let later = first_bit rest in
    if value == 0
    then later
    else elim (top_bit 8 value) [ none ↦ later | some bit ↦ some (length rest * 8 + bit) ]

unfoldable pub bucket_index : Bytes → Bytes → Option ℕ
bucket_index local remote = first_bit (xor_distance local remote)

abbrev pub seen_again : NodeContact → NodeContact → NodeContact
seen_again item contact = record item {
  endpoint = contact.endpoint;
  last_seen_unix_ms = max item.last_seen_unix_ms contact.last_seen_unix_ms;
  verified = item.verified || contact.verified;
}

-- The contact of that id is renewed and goes to the end.
unfoldable pub touch_existing : NodeContact → List NodeContact → Option (List NodeContact)
touch_existing contact [] = none
touch_existing contact (item ∷ items) =
    let later = touch_existing contact items in
    if key_eq item.id contact.id
    then some (items ++ seen_again item contact ∷ [])
    else elim later [ none ↦ none | some items' ↦ some (item ∷ items') ]

-- The order of min_element: contacts that are not verified first, then the longest not seen.
abbrev pub is_worse : NodeContact → NodeContact → Bool
is_worse a b =
    if (a.verified && not b.verified) || (b.verified && not a.verified)
    then not a.verified && b.verified
    else ltb a.last_seen_unix_ms b.last_seen_unix_ms

-- The position of the first least contact, from the best so far and its position.
abbrev pub least_at : ℕ → NodeContact → ℕ → List NodeContact → ℕ
least_at found best i [] = found
least_at found best i (item ∷ items) =
    if is_worse item best then least_at i item (suc i) items else least_at found best (suc i) items

unfoldable pub replace_least : NodeContact → List NodeContact → List NodeContact
replace_least contact [] = []
replace_least contact (item ∷ items) = set (item ∷ items) (least_at 0 item 1 items) contact

unfoldable pub bucket_at : ℕ → List (ℕ × List NodeContact) → List NodeContact
bucket_at index buckets = elim (lookup index buckets) [ none ↦ [] | some bucket ↦ bucket ]

unfoldable pub touch_bucket : ℕ → NodeContact → List NodeContact → List NodeContact
touch_bucket bucket_size contact bucket = elim (touch_existing contact bucket) [
  | some renewed ↦ renewed
  | none ↦
      if ltb (length bucket) bucket_size
      then bucket ++ contact ∷ []
      else replace_least contact bucket
]

-- Whether a host is a numeric address is Boost's.
module _ (is_address : Bytes → Bool) where
  unfoldable pub touch : RoutingTable → NodeContact → RoutingTable
  touch t contact =
      if key_eq contact.id t.local_id || not (is_valid_endpoint is_address contact.endpoint)
      then t
      else elim (bucket_index t.local_id contact.id) [
        | none ↦ t
        | some index ↦ record t {
          buckets =
              insert index (touch_bucket t.bucket_size contact (bucket_at index t.buckets))
                t.buckets;
        }
      ]

unfoldable pub fresh_contacts : ℕ → List NodeContact → List NodeContact
fresh_contacts cutoff [] = []
fresh_contacts cutoff (item ∷ items) =
    let rest = fresh_contacts cutoff items in
    if ltb item.last_seen_unix_ms cutoff then rest else item ∷ rest

abbrev pub prune_buckets : ℕ → List (ℕ × List NodeContact) → List (ℕ × List NodeContact)
prune_buckets cutoff [] = []
prune_buckets cutoff ((index, bucket) ∷ buckets) =
    (index, fresh_contacts cutoff bucket) ∷ prune_buckets cutoff buckets

unfoldable pub prune_stale : RoutingTable → ℕ → RoutingTable
prune_stale t cutoff = record t { buckets = prune_buckets cutoff t.buckets }

unfoldable pub has_id : Bytes → List NodeContact → Bool
has_id id [] = false
has_id id (item ∷ items) = key_eq item.id id || has_id id items

unfoldable pub contains_in : Bytes → List (ℕ × List NodeContact) → Bool
contains_in id [] = false
contains_in id ((index, bucket) ∷ buckets) = has_id id bucket || contains_in id buckets

unfoldable pub contains : RoutingTable → Bytes → Bool
unfolding contains_in
contains t id = contains_in id t.buckets

unfoldable pub all_contacts : List (ℕ × List NodeContact) → List NodeContact
all_contacts [] = []
all_contacts ((index, bucket) ∷ buckets) = bucket ++ all_contacts buckets

unfoldable pub size : List (ℕ × List NodeContact) → ℕ
size [] = 0
size ((index, bucket) ∷ buckets) = length bucket + size buckets
