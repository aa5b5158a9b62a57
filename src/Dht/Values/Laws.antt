-- ===== src/Dht/Values/Laws.antt =====
-- What the value store of native/p2p/src/dht/value_store.cpp gives back.
use tightrope.Prelude.{
  ℕ, ◌+◌, ◌-◌, ◌≤◌, ◌<◌, ◌≡◌, ◌⊎◌, refl, ◌∙◌, true, List, [], ◌∷◌, Option, none, some, length,
  arith, Bool-cases, Option-cases, inl, inr, subst, sym,
}
use tightrope.Prelude.Maps.{bytes_ordered, lookup, key_eq, key_eq-eq, key_eq-sym}
use tightrope.Prelude.Maps.Sorted.{AllAfter, IsSorted, key_eq-lt}
use tightrope.Wire.{Bytes}
use tightrope.Dht.Message.{ValueRecord}
use tightrope.Dht.Values.{StoredValue, ValueStore, collect, get, unexpired, no_items, prune, size}

-- Values that have not expired and are not more than the limit, if there is one.
abbrev pub AllFresh : ℕ → List ValueRecord → Type 0
AllFresh now [] = Unit {0}
AllFresh now (r ∷ rs) = (now < r.expires_unix_ms) × AllFresh now rs

collect-AllFresh :
    (items : List StoredValue) (limit now taken : ℕ) → AllFresh now (collect items limit now taken)
unfolding collect
collect-AllFresh [] limit now taken = tt
collect-AllFresh (e ∷ items) limit now taken =
    ground
      (arith, collect-AllFresh items limit now taken, collect-AllFresh items limit now (taken + 1))

length-collect :
    (items : List StoredValue) (limit now taken : ℕ)
    → taken < limit
    → length (collect items limit now taken) ≤ limit - taken
unfolding collect
length-collect [] limit now taken h = omega arith
length-collect (e ∷ items) limit now taken h = ground (
  arith,
  length-collect items limit now taken h,
  λ (k : taken + 1 < limit). length-collect items limit now (taken + 1) k,
)

get-nothing :
    (store : ValueStore) (key : Bytes) (limit now : ℕ)
    → lookup key store ≡ none
    → get store key limit now ≡ []
unfolding get
get-nothing store key limit now h = ground (arith, h)

pub get-collect :
    (store : ValueStore) (key : Bytes) (limit now : ℕ) (items : List StoredValue)
    → lookup key store ≡ some items
    → get store key limit now ≡ collect items limit now 0
unfolding get
get-collect store key limit now items h = ground (arith, h)

-- Whatever the store holds, get gives only values that expire later than now, and at most as many
-- as a limit that is not 0.
pub get-AllFresh :
    (store : ValueStore) (key : Bytes) (limit now : ℕ)
    → AllFresh now (get store key limit now)
      × ((limit ≡ 0) ⊎ (length (get store key limit now) ≤ limit))
get-AllFresh store key limit now = elim (Option-cases (lookup key store)) [
  | inl none_found ↦ (
    subst (AllFresh now) (sym (get-nothing store key limit now none_found)) tt,
    inr (rw (get-nothing store key limit now none_found) (omega arith)),
  )
  | inr (items, found) ↦ (
    subst (AllFresh now) (sym (get-collect store key limit now items found))
        (collect-AllFresh items limit now 0),
    ground (arith, get-collect store key limit now items found, length-collect items limit now 0),
  )
]

collect-unexpired :
    (items : List StoredValue) (limit now later taken : ℕ)
    → now ≤ later
    → collect (unexpired items now) limit later taken ≡ collect items limit later taken
unfolding collect unexpired
collect-unexpired [] limit now later taken h = refl
collect-unexpired (e ∷ items) limit now later taken h = ground (
  arith,
  collect-unexpired items limit now later taken h,
  collect-unexpired items limit now later (taken + 1) h,
)

length-unexpired :
    (items : List StoredValue) (now : ℕ) → length (unexpired items now) ≤ length items
unfolding unexpired
length-unexpired [] now = omega arith
length-unexpired (e ∷ items) now = ground (arith, length-unexpired items now)

no_items-collect :
    (items : List StoredValue) (limit now : ℕ)
    → no_items items ≡ true
    → collect items limit now 0 ≡ []
unfolding collect
no_items-collect [] limit now h = refl
no_items-collect (e ∷ items) limit now h = cc

no_items-length : (items : List StoredValue) → no_items items ≡ true → length items ≡ 0
no_items-length [] h = refl
no_items-length (e ∷ items) h = cc

prune-absent :
    (key : Bytes) (store : ValueStore) (now : ℕ)
    → AllAfter key store
    → lookup key (prune store now).0 ≡ none
unfolding prune lookup
prune-absent key [] now a = refl
prune-absent key ((k, items) ∷ store) now a =
    ground (arith, prune-absent key store now a.1, key_eq-sym k key, key_eq-lt key k a.0)

-- What get makes of a lookup.
unfoldable pub collected : Option (List StoredValue) → ℕ → ℕ → List ValueRecord
collected none limit now = []
collected (some items) limit now = collect items limit now 0

pub get-collected :
    (store : ValueStore) (key : Bytes) (limit now : ℕ)
    → get store key limit now ≡ collected (lookup key store) limit now
unfolding collected
get-collected store key limit now = elim (Option-cases (lookup key store)) [
  | inl h ↦ get-nothing store key limit now h ∙ rw h refl
  | inr (items, h) ↦ get-collect store key limit now items h ∙ rw h refl
]

collected-prune :
    (store : ValueStore) (key : Bytes) (limit now later : ℕ)
    → IsSorted store
    → now ≤ later
    → collected (lookup key (prune store now).0) limit later
      ≡ collected (lookup key store) limit later
unfolding collected prune lookup
collected-prune [] key limit now later s h = refl
collected-prune ((k, items) ∷ store) key limit now later s h = elim (Bool-cases (key_eq k key)) [
  | inl same ↦ ground (
    arith,
    subst (λ x. lookup x (prune store now).0 ≡ none) (key_eq-eq k key same)
        (prune-absent k store now s.0),
    no_items-collect (unexpired items now) limit later,
    collect-unexpired items limit now later 0 h,
  )
  | inr differ ↦ ground (arith, collected-prune store key limit now later s.1 h)
]

prune-size :
    (store : ValueStore) (now : ℕ) → size (prune store now).0 + (prune store now).1 ≡ size store
unfolding prune size
prune-size [] now = omega arith
prune-size ((k, items) ∷ store) now =
    ground (
      arith,
      prune-size store now,
      length-unexpired items now,
      no_items-length (unexpired items now),
    )

-- Pruning is invisible: in a store with one entry for each key, every get at the time of the prune
-- or later gives what it gave before, and the number given back is the number of values removed.
pub get-prune :
    (store : ValueStore) (key : Bytes) (limit now later : ℕ)
    → IsSorted store
    → now ≤ later
    → (get (prune store now).0 key limit later ≡ get store key limit later)
      × (size (prune store now).0 + (prune store now).1 ≡ size store)
get-prune store key limit now later s h = (
  get-collected (prune store now).0 key limit later
      ∙ collected-prune store key limit now later s h
      ∙ sym (get-collected store key limit later),
  prune-size store now,
)
