-- ===== src/Dht/Tests.antt =====
-- Runs of the models of native/p2p/src/dht/ on small inputs.
use tightrope.Prelude.{ℕ, ◌⊎◌}
use tightrope.Prelude.Maps.{bytes_ordered, key_eq, lex}
use tightrope.Prelude.Maps.Sorted.{IsSorted}
use tightrope.Dht.Values.{StoredValue, ValueStore, expiry, put, get, collect}
use tightrope.Prelude.Maps.{lookup}
use tightrope.Dht.Values.Put.{HasValue, get-put}
use tightrope.Dht.Values.Laws.{AllFresh, get-AllFresh}
use tightrope.Prelude.{inr, ◌≤◌, ◌≡◌, refl, Bool, false, [], ◌∷◌, some, length, arith}
use tightrope.Wire.{Bytes, write_be}
use tightrope.Dht.Message.{
  RpcMessage, NodeWireContact, header_only, zero_id, find_value_response, type_code, write_header,
  string_u8, string_u16, is_valid_endpoint, is_valid_hostname, all_hostname_chars, is_hostname_char,
  last_after,
}
use tightrope.Dht.Message.Parts.{
  write_values, write_value, write_nodes, write_node_contact, write_all,
}
use tightrope.Dht.Message.Body.{encode_message, decode_message, write_body}
use tightrope.Dht.Message.RoundTrip.{IsWireMessage, carried, decode-encode_message}

-- No host is a numeric address.
abbrev no_address : Bytes → Bool
no_address host = false

abbrev contact : NodeWireContact
contact = record {
  id = zero_id;
  endpoint = record { host = 97 ∷ 46 ∷ 98 ∷ []; port = 8080 };
  last_seen_unix_ms = 300;
}

abbrev answer : RpcMessage
answer = record (header_only find_value_response 7 9000 zero_id) {
  nodes = contact ∷ [];
  values = record { value = 120 ∷ []; expires_unix_ms = 5 } ∷ [];
}

abbrev packet : Bytes
packet =
    84 ∷ 68 ∷ 72 ∷ 84 ∷ 1 ∷ 8 ∷ 0 ∷ 0 ∷ 0 ∷ 7 ∷ 35 ∷ 40 ∷ 0 ∷ 0 ∷ 0 ∷ 0 ∷ 0 ∷ 0 ∷ 0 ∷ 0 ∷ 0 ∷ 0 ∷ 0
    ∷ 0 ∷ 0 ∷ 0 ∷ 0 ∷ 0 ∷ 0 ∷ 0 ∷ 0 ∷ 0 ∷ 0 ∷ 0 ∷ 0 ∷ 0 ∷ 0 ∷ 0 ∷ 0 ∷ 0 ∷ 0 ∷ 0 ∷ 0 ∷ 0 ∷ 0 ∷ 1 ∷ 0
    ∷ 1 ∷ 120 ∷ 0 ∷ 0 ∷ 0 ∷ 0 ∷ 0 ∷ 0 ∷ 0 ∷ 5 ∷ 0 ∷ 1 ∷ 0 ∷ 0 ∷ 0 ∷ 0 ∷ 0 ∷ 0 ∷ 0 ∷ 0 ∷ 0 ∷ 0 ∷ 0
    ∷ 0 ∷ 0 ∷ 0 ∷ 0 ∷ 0 ∷ 0 ∷ 0 ∷ 0 ∷ 0 ∷ 0 ∷ 0 ∷ 0 ∷ 0 ∷ 0 ∷ 0 ∷ 0 ∷ 0 ∷ 0 ∷ 0 ∷ 0 ∷ 0 ∷ 3 ∷ 97
    ∷ 46 ∷ 98 ∷ 31 ∷ 144 ∷ 0 ∷ 0 ∷ 0 ∷ 0 ∷ 0 ∷ 0 ∷ 1 ∷ 44 ∷ []

answer-encoded : encode_message no_address answer ≡ some packet
unfolding encode_message write_body write_header type_code write_values write_value write_nodes
    write_node_contact write_all string_u8 string_u16 is_valid_endpoint is_valid_hostname
    all_hostname_chars is_hostname_char last_after write_be
answer-encoded = refl

answer-IsWireMessage : IsWireMessage answer
answer-IsWireMessage = record {
  tx_fits = omega arith;
  source_fits = omega arith;
  sender_size = refl;
  target_size = refl;
  max_fits = omega arith;
  ping_fits = omega arith;
  ttl_fits = omega arith;
  code_fits = omega arith;
  nodes_fit = (record { id_size = refl; port_fits = omega arith; seen_fits = omega arith }, tt);
  values_fit = (omega arith, tt);
}

decode-encode_message_example :
    (decode_message no_address packet ≡ some (carried find_value_response answer))
    × (length packet ≤ 4096)
decode-encode_message_example =
    decode-encode_message no_address answer packet answer-IsWireMessage answer-encoded

abbrev store : ValueStore
store = (1 ∷ [], stored ∷ []) ∷ (3 ∷ [], stored ∷ []) ∷ []
  where
    stored : StoredValue
    stored = record {
      key = 1 ∷ [];
      value = 9 ∷ [];
      publisher_id = zero_id;
      stored_unix_ms = 0;
      expires_unix_ms = 50;
    }

store-IsSorted : IsSorted store
unfolding lex
store-IsSorted = ((refl, tt), (tt, tt))

get-AllFresh_example :
    AllFresh 10 (get store (1 ∷ []) 1 10)
    × (◌≡◌ {A = ℕ} 1 0 ⊎ (length (get store (1 ∷ []) 1 10) ≤ 1))
get-AllFresh_example = get-AllFresh store (1 ∷ []) 1 10

get-put_example :
    HasValue (7 ∷ []) (expiry 10 1) (get (put store (1 ∷ []) (7 ∷ []) zero_id 10 1) (1 ∷ []) 2 20)
    × (get (put store (1 ∷ []) (7 ∷ []) zero_id 10 1) (3 ∷ []) 2 20 ≡ get store (3 ∷ []) 2 20)
    × IsSorted (put store (1 ∷ []) (7 ∷ []) zero_id 10 1)
unfolding expiry key_eq lex get collect lookup
get-put_example =
    get-put store (1 ∷ []) (7 ∷ []) zero_id (3 ∷ []) 10 1 20 2 store-IsSorted refl refl
      (omega arith) (omega arith) (inr (omega arith)) refl
