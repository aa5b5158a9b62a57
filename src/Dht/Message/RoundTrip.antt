-- ===== src/Dht/Message/RoundTrip.antt =====
-- A message that encode_message of native/p2p/src/dht/message.cpp accepts is decoded from its bytes.
use tightrope.Prelude.{
  ◌≤◌, ◌<◌, ◌≡◌, refl, Bool, [], ◌++◌, some, length, arith, append_assoc, append-nil, inl, inr,
  Option-cases,
}
use tightrope.Wire.{Bytes, write_be, read_u8, read_bytes}
use tightrope.Wire.RoundTrip.{read-write_be, read_bytes-size}
use tightrope.Dht.Message.{
  RpcType, ping_request, ping_response, find_node_request, find_node_response,
  announce_peer_request, announce_peer_response, find_value_request, find_value_response, error,
  RpcMessage, string_u16, write_header, read_header, header_only, type_code, type_of_code,
}
use tightrope.Dht.Message.Parts.{
  write_values, write_nodes, string_u16-read, values_read, nodes_read, AllFine, IsWireValue,
  IsWireContact,
}
use tightrope.Dht.Message.Body.{write_body, read_body, encode_message, decode_message}

-- The numbers of a message fit their fields and its ids have their size.
pub record IsWireMessage (m : RpcMessage) : Type 0 where
  pub tx_fits : m.tx_id < 4294967296
  pub source_fits : m.source_port < 65536
  pub sender_size : length m.sender_id ≡ 32
  pub target_size : length m.target_id ≡ 32
  pub max_fits : m.max_results < 65536
  pub ping_fits : m.ping_unix_ms < 18446744073709551616
  pub ttl_fits : m.ttl_seconds < 4294967296
  pub code_fits : m.error_code < 65536
  pub nodes_fit : AllFine IsWireContact m.nodes
  pub values_fit : AllFine IsWireValue m.values

-- The header of a message, without the fields that follow it.
unfoldable pub header_of : RpcMessage → RpcMessage
header_of m = header_only m.type m.tx_id m.source_port m.sender_id

-- What the type of a message carries besides the header; the other fields are as in a new one.
unfoldable pub carried : RpcType → RpcMessage → RpcMessage
unfolding header_of
carried ping_request m = header_of m
carried ping_response m = record (header_of m) { ping_unix_ms = m.ping_unix_ms }
carried find_node_request m = record (header_of m) {
  target_id = m.target_id;
  max_results = m.max_results;
}
carried find_node_response m = record (header_of m) { nodes = m.nodes }
carried announce_peer_request m = record (header_of m) {
  key = m.key;
  value = m.value;
  ttl_seconds = m.ttl_seconds;
}
carried announce_peer_response m = record (header_of m) { accepted = m.accepted }
carried find_value_request m = record (header_of m) { key = m.key; max_results = m.max_results }
carried find_value_response m = record (header_of m) { values = m.values; nodes = m.nodes }
carried error m = record (header_of m) {
  error_code = m.error_code;
  error_message = m.error_message;
}

type_of_code-type_code : (t : RpcType) → type_of_code (type_code t) ≡ some t
unfolding type_of_code type_code
type_of_code-type_code ping_request = refl
type_of_code-type_code ping_response = refl
type_of_code-type_code find_node_request = refl
type_of_code-type_code find_node_response = refl
type_of_code-type_code announce_peer_request = refl
type_of_code-type_code announce_peer_response = refl
type_of_code-type_code find_value_request = refl
type_of_code-type_code find_value_response = refl
type_of_code-type_code error = refl

header_of-type : (m : RpcMessage) → (header_of m).type ≡ m.type
unfolding header_of
header_of-type m = refl

read-write_header :
    (m : RpcMessage) (rest : Bytes)
    → IsWireMessage m
    → read_header (write_header m ++ rest) ≡ some (header_of m, rest)
unfolding read_header write_header header_of read_bytes read_u8
read-write_header m rest w = ground (
  arith,
  append_assoc (write_be 4 m.tx_id) (write_be 2 m.source_port ++ m.sender_id) rest,
  append_assoc (write_be 2 m.source_port) m.sender_id rest,
  read-write_be 4 m.tx_id (write_be 2 m.source_port ++ (m.sender_id ++ rest)) w.tx_fits,
  read-write_be 2 m.source_port (m.sender_id ++ rest) w.source_fits,
  read_bytes-size 32 m.sender_id rest w.sender_size,
  type_of_code-type_code m.type,
)

module _ (is_address : Bytes → Bool) (m : RpcMessage) (w : IsWireMessage m) where
  -- What a body reader makes of what the body writer wrote.
  abbrev Restores : RpcType → Type 0
  Restores t =
      (body : Bytes)
      → write_body is_address t m ≡ some body
      → read_body is_address t (header_of m) body ≡ some (carried t m, [])

  restore_find_node : Restores find_node_request
  unfolding write_body read_body carried
  restore_find_node body h = ground (
    arith,
    h,
    read_bytes-size 32 m.target_id (write_be 2 m.max_results) w.target_size,
    append-nil (write_be 2 m.max_results),
    read-write_be 2 m.max_results [] w.max_fits,
  )

  restore_ping : Restores ping_response
  unfolding write_body read_body carried
  restore_ping body h = ground (
    arith,
    h,
    append-nil (write_be 8 m.ping_unix_ms),
    read-write_be 8 m.ping_unix_ms [] w.ping_fits,
  )

  restore_nodes : Restores find_node_response
  unfolding write_body read_body carried
  restore_nodes body h =
      ground (arith, append-nil body, nodes_read is_address m.nodes body [] w.nodes_fit h)

  restore_announce : Restores announce_peer_request
  unfolding write_body read_body carried
  restore_announce body h = elim (Option-cases (string_u16 m.key)) [
    | inl k ↦ ground (arith, h, k)
    | inr (key, k) ↦ elim (Option-cases (string_u16 m.value)) [
      | inl l ↦ ground (arith, h, k, l)
      | inr (value, l) ↦ ground (
        arith,
        h,
        k,
        l,
        string_u16-read m.key key (value ++ write_be 4 m.ttl_seconds) k,
        string_u16-read m.value value (write_be 4 m.ttl_seconds) l,
        append-nil (write_be 4 m.ttl_seconds),
        read-write_be 4 m.ttl_seconds [] w.ttl_fits,
      )
    ]
  ]

  restore_answer : Restores announce_peer_response
  unfolding write_body read_body carried read_u8
  restore_answer body h = ground (arith, h)

  restore_find_value : Restores find_value_request
  unfolding write_body read_body carried
  restore_find_value body h = elim (Option-cases (string_u16 m.key)) [
    | inl k ↦ ground (arith, h, k)
    | inr (key, k) ↦ ground (
      arith,
      h,
      k,
      string_u16-read m.key key (write_be 2 m.max_results) k,
      append-nil (write_be 2 m.max_results),
      read-write_be 2 m.max_results [] w.max_fits,
    )
  ]

  restore_values : Restores find_value_response
  unfolding write_body read_body carried
  restore_values body h = elim (Option-cases (write_values m.values)) [
    | inl k ↦ ground (arith, h, k)
    | inr (values, k) ↦ elim (Option-cases (write_nodes is_address m.nodes)) [
      | inl l ↦ ground (arith, h, k, l)
      | inr (nodes, l) ↦ ground (
        arith,
        h,
        k,
        l,
        values_read m.values values nodes w.values_fit k,
        append-nil nodes,
        nodes_read is_address m.nodes nodes [] w.nodes_fit l,
      )
    ]
  ]

  restore_error : Restores error
  unfolding write_body read_body carried
  restore_error body h = elim (Option-cases (string_u16 m.error_message)) [
    | inl k ↦ ground (arith, h, k)
    | inr (text, k) ↦ ground (
      arith,
      h,
      k,
      read-write_be 2 m.error_code text w.code_fits,
      append-nil text,
      string_u16-read m.error_message text [] k,
    )
  ]

  restore_nothing : Restores ping_request
  unfolding write_body read_body carried
  restore_nothing body h = ground (arith, h)

  restore : (t : RpcType) → Restores t
  restore ping_request = restore_nothing
  restore ping_response = restore_ping
  restore find_node_request = restore_find_node
  restore find_node_response = restore_nodes
  restore announce_peer_request = restore_announce
  restore announce_peer_response = restore_answer
  restore find_value_request = restore_find_value
  restore find_value_response = restore_values
  restore error = restore_error

-- A message whose numbers and ids fit their fields: whenever encode_message gives bytes, these are
-- at most 4096, and decode_message gives from them the header and the fields that the type carries.
pub decode-encode_message :
    (is_address : Bytes → Bool) (m : RpcMessage) (packet : Bytes)
    → IsWireMessage m
    → encode_message is_address m ≡ some packet
    → (decode_message is_address packet ≡ some (carried m.type m)) × (length packet ≤ 4096)
unfolding encode_message decode_message
decode-encode_message is_address m packet w h =
    elim (Option-cases (write_body is_address m.type m)) [
      | inl k ↦ ground (arith, h, k)
      | inr (body, k) ↦ ground (
        arith,
        h,
        k,
        read-write_header m body w,
        restore is_address m w m.type body k,
        header_of-type m,
      )
    ]
