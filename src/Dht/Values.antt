-- ===== src/Dht/Values.antt =====
-- The value store of native/p2p/src/dht/value_store.cpp. The unordered map is a map sorted by key;
-- the lock is left out, since each operation holds it from start to end.
pub mod Laws
pub mod Put
use tightrope.Prelude.{
  ℕ, ◌+◌, ◌-◌, ◌*◌, ◌%◌, Bool, true, false, not, ◌&&◌, ◌||◌, if◌then◌else◌, ltb, leb, ◌==◌, List,
  [], ◌∷◌, ◌++◌, Option, none, some, length,
}
use tightrope.Prelude.Maps.{Ordered, bytes_ordered, lookup, insert}
use tightrope.Wire.{Bytes, same_bytes}
use tightrope.Protocol.Handshake.{empty}
use tightrope.Dht.Message.{ValueRecord}

pub record StoredValue : Type 0 where
  pub key : Bytes
  pub value : Bytes
  pub publisher_id : Bytes
  pub stored_unix_ms : ℕ
  pub expires_unix_ms : ℕ

-- values_by_key_
abbrev pub ValueStore : Type 0
ValueStore = List (Bytes × List StoredValue)

abbrev pub u64_mod : ℕ
u64_mod = 18446744073709551616

unfoldable pub expiry : ℕ → ℕ → ℕ
expiry now_unix_ms ttl_seconds = (now_unix_ms + ttl_seconds * 1000) % u64_mod

abbrev pub same_item : StoredValue → StoredValue → Bool
same_item item new =
    same_bytes item.value new.value && same_bytes item.publisher_id new.publisher_id

-- The item of the same value and publisher gets the new times, or the new item comes last.
unfoldable pub put_item : List StoredValue → StoredValue → List StoredValue
put_item [] new = new ∷ []
put_item (item ∷ items) new =
    let rest = put_item items new in
    if same_item item new
    then record item { stored_unix_ms = new.stored_unix_ms; expires_unix_ms = new.expires_unix_ms }
      ∷ items
    else item ∷ rest

-- values_by_key_[key]
unfoldable pub items_of : ValueStore → Bytes → List StoredValue
items_of store key = elim (lookup key store) [ none ↦ [] | some items ↦ items ]

unfoldable pub put : ValueStore → Bytes → Bytes → Bytes → ℕ → ℕ → ValueStore
put store key value publisher_id now_unix_ms ttl_seconds =
    let new : StoredValue = record {
      key = key;
      value = value;
      publisher_id = publisher_id;
      stored_unix_ms = now_unix_ms;
      expires_unix_ms = expiry now_unix_ms ttl_seconds;
    } in
    if empty key || empty value || ttl_seconds == 0
    then store
    else insert key (put_item (items_of store key) new) store

-- The loop of get, after `taken` values.
unfoldable pub collect : List StoredValue → ℕ → ℕ → ℕ → List ValueRecord
collect [] limit now_unix_ms taken = []
collect (entry ∷ items) limit now_unix_ms taken =
    let skipped = collect items limit now_unix_ms taken in
    let further = collect items limit now_unix_ms (taken + 1) in
    let found : ValueRecord = record {
      value = entry.value;
      expires_unix_ms = entry.expires_unix_ms;
    } in
    if leb entry.expires_unix_ms now_unix_ms
    then skipped
    else if ltb 0 limit && leb limit (taken + 1)
    then found ∷ []
    else found ∷ further

unfoldable pub get : ValueStore → Bytes → ℕ → ℕ → List ValueRecord
get store key limit now_unix_ms = elim (lookup key store) [
  | none ↦ []
  | some items ↦ collect items limit now_unix_ms 0
]

unfoldable pub unexpired : List StoredValue → ℕ → List StoredValue
unexpired [] now_unix_ms = []
unexpired (entry ∷ items) now_unix_ms =
    let rest = unexpired items now_unix_ms in
    if leb entry.expires_unix_ms now_unix_ms then rest else entry ∷ rest

abbrev pub no_items : List StoredValue → Bool
no_items [] = true
no_items (item ∷ items) = false

-- The store after it, and the number of values removed.
unfoldable pub prune : ValueStore → ℕ → ValueStore × ℕ
prune [] now_unix_ms = ([], 0)
prune ((key, items) ∷ store) now_unix_ms =
    let kept = unexpired items now_unix_ms in
    let rest = prune store now_unix_ms in
    let removed = (length items - length kept) + rest.1 in
    if no_items kept then (rest.0, removed) else ((key, kept) ∷ rest.0, removed)

unfoldable pub size : ValueStore → ℕ
size [] = 0
size ((key, items) ∷ store) = length items + size store
