-- ===== src/Dht/Routing/Tests.antt =====
-- Runs of the routing table (native/p2p/src/dht/routing_table.cpp) with short ids.
use tightrope.Prelude.{ℕ, ◌≡◌, refl, arith, Bool, true, false, List, [], ◌∷◌, ◌++◌, length, min}
use tightrope.Prelude.Maps.{bytes_ordered, key_eq, lex}
use tightrope.Wire.{Bytes}
use tightrope.Dht.Message.{is_valid_endpoint, is_valid_hostname}
use tightrope.Dht.Routing.{
  bucket_index, xor_distance, first_bit, top_bit, contains, all_contacts, NodeContact, RoutingTable,
  new_table, touch, prune_stale,
}
use tightrope.Dht.Routing.Buckets.{
  count, IsRouted, Built, new, touched, pruned, RoutingTable-IsRouted,
}
use tightrope.Dht.Routing.Lookup.{contains-touch}
use tightrope.Dht.Routing.Nearest.{nearest}
use tightrope.Dht.Routing.Distance.{IsByDistance, nearest-IsByDistance}

abbrev any_address : Bytes → Bool
any_address host = true

abbrev contact : ℕ → ℕ → NodeContact
contact id seen = record {
  id = id ∷ [];
  endpoint = record { host = 49 ∷ []; port = 80 };
  last_seen_unix_ms = seen;
  verified = false;
}

-- One contact, another in a full bucket, and a cut.
table-Built : Built any_address (0 ∷ []) 1 (
    prune_stale
      (touch any_address (touch any_address (new_table (0 ∷ []) 1) (contact 4 10)) (contact 5 20))
      15)
table-Built = pruned 15 (touched (contact 5 20) (touched (contact 4 10) new))

RoutingTable-IsRouted_example : IsRouted any_address (
    prune_stale
      (touch any_address (touch any_address (new_table (0 ∷ []) 1) (contact 4 10)) (contact 5 20))
      15)
RoutingTable-IsRouted_example =
    RoutingTable-IsRouted any_address (0 ∷ []) 1
      (prune_stale
        (touch any_address (touch any_address (new_table (0 ∷ []) 1) (contact 4 10)) (contact 5 20))
        15)
      table-Built

contains-touch_example :
    contains (touch any_address (new_table (0 ∷ []) 1) (contact 4 10)) (4 ∷ []) ≡ true
unfolding new_table key_eq lex is_valid_endpoint is_valid_hostname bucket_index xor_distance
    first_bit top_bit
contains-touch_example =
    contains-touch any_address (new_table (0 ∷ []) 1) (contact 4 10) 2 (omega arith) refl refl refl

abbrev two_contacts : RoutingTable
two_contacts = record {
  local_id = 0 ∷ [];
  bucket_size = 2;
  buckets = (2, contact 4 10 ∷ contact 5 20 ∷ []) ∷ [];
}

nearest-IsByDistance_example :
    (length (nearest two_contacts (5 ∷ []) 1) ≡ min 1 (length (all_contacts two_contacts.buckets)))
    × ((left_out : List NodeContact) × IsByDistance
          (5 ∷ [])
          (nearest two_contacts (5 ∷ []) 1 ++ left_out)
        × ((id : Bytes)
            → count id (nearest two_contacts (5 ∷ []) 1 ++ left_out)
              ≡ count id (all_contacts two_contacts.buckets)))
nearest-IsByDistance_example = nearest-IsByDistance two_contacts (5 ∷ []) 1
