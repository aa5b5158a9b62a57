-- ===== src/Dht/Message/Body.antt =====
-- encode_message and decode_message of native/p2p/src/dht/message.cpp, with the tests on a type.
use tightrope.Prelude.{
  ℕ, Bool, true, false, not, ◌||◌, if◌then◌else◌, ltb, ◌==◌, [], ◌∷◌, ◌++◌, Option, none, some,
  length,
}
use tightrope.Wire.{Bytes, Reader, ◌>>=◌, write_be, read_u8, read_be, read_bytes}
use tightrope.Protocol.Handshake.{empty}
use tightrope.Dht.Message.{
  RpcType, ping_request, ping_response, find_node_request, find_node_response,
  announce_peer_request, announce_peer_response, find_value_request, find_value_response, error,
  RpcMessage, node_id_bytes, string_u16, read_string_u16, write_header, read_header,
}
use tightrope.Dht.Message.Parts.{write_values, read_values, write_nodes, read_nodes}

abbrev pub max_packet_bytes : ℕ
max_packet_bytes = 4096

abbrev key_is_bad : Bytes → Bool
key_is_bad key = empty key || ltb 256 (length key)

module _ (is_address : Bytes → Bool) where
  -- The switch of encode_message.
  unfoldable pub write_body : RpcType → RpcMessage → Option Bytes
  write_body ping_request m = some []
  write_body ping_response m = some (write_be 8 m.ping_unix_ms)
  write_body find_node_request m = some (m.target_id ++ write_be 2 m.max_results)
  write_body find_node_response m = write_nodes is_address m.nodes
  write_body announce_peer_request m =
      if key_is_bad m.key || ltb 1024 (length m.value)
      then none
      else string_u16 m.key >>= (λ key.
        string_u16 m.value >>= (λ value. some (key ++ (value ++ write_be 4 m.ttl_seconds))))
  write_body announce_peer_response m = some ((if m.accepted then 1 else 0) ∷ [])
  write_body find_value_request m =
      if key_is_bad m.key
      then none
      else string_u16 m.key >>= (λ key. some (key ++ write_be 2 m.max_results))
  write_body find_value_response m = do
    values ← write_values m.values
    nodes ← write_nodes is_address m.nodes
    some (values ++ nodes)
  write_body error m =
      if ltb 512 (length m.error_message)
      then none
      else string_u16 m.error_message >>= (λ text. some (write_be 2 m.error_code ++ text))

  -- The switch of decode_message, on a message whose header is read.
  unfoldable pub read_body : RpcType → RpcMessage → Reader RpcMessage
  read_body ping_request m bytes = some (m, bytes)
  read_body ping_response m bytes = do
    (n, rest) ← read_be 8 bytes
    some (record m { ping_unix_ms = n }, rest)
  read_body find_node_request m bytes = do
    (target, a) ← read_bytes node_id_bytes bytes
    (n, rest) ← read_be 2 a
    some (record m { target_id = target; max_results = n }, rest)
  read_body find_node_response m bytes = do
    (found, rest) ← read_nodes is_address bytes
    some (record m { nodes = found }, rest)
  read_body announce_peer_request m bytes = do
    (k, a) ← read_string_u16 bytes
    (v, b) ← read_string_u16 a
    (ttl, rest) ← read_be 4 b
    let read : RpcMessage = record m { key = k; value = v; ttl_seconds = ttl }
    if key_is_bad k || ltb 1024 (length v) then none else some (read, rest)
  read_body announce_peer_response m bytes = do
    (n, rest) ← read_u8 bytes
    some (record m { accepted = not (n == 0) }, rest)
  read_body find_value_request m bytes = do
    (k, a) ← read_string_u16 bytes
    (n, rest) ← read_be 2 a
    let read : RpcMessage = record m { key = k; max_results = n }
    if key_is_bad k then none else some (read, rest)
  read_body find_value_response m bytes = do
    (vs, a) ← read_values bytes
    (found, rest) ← read_nodes is_address a
    some (record m { values = vs; nodes = found }, rest)
  read_body error m bytes = do
    (n, a) ← read_be 2 bytes
    (text, rest) ← read_string_u16 a
    let read : RpcMessage = record m { error_code = n; error_message = text }
    if ltb 512 (length text) then none else some (read, rest)

  unfoldable pub encode_message : RpcMessage → Option Bytes
  encode_message m = do
    body ← write_body m.type m
    let packet : Bytes = write_header m ++ body
    if empty packet || ltb max_packet_bytes (length packet) then none else some packet

  unfoldable pub decode_message : Bytes → Option RpcMessage
  decode_message payload =
      if empty payload || ltb max_packet_bytes (length payload) then none else do
        (m, body) ← read_header payload
        (read, rest) ← read_body m.type m body
        if empty rest then some read else none

unfoldable pub is_request_type : RpcType → Bool
is_request_type ping_request = true
is_request_type ping_response = false
is_request_type find_node_request = true
is_request_type find_node_response = false
is_request_type announce_peer_request = true
is_request_type announce_peer_response = false
is_request_type find_value_request = true
is_request_type find_value_response = false
is_request_type error = false

unfoldable pub is_response_type : RpcType → Bool
is_response_type ping_request = false
is_response_type ping_response = true
is_response_type find_node_request = false
is_response_type find_node_response = true
is_response_type announce_peer_request = false
is_response_type announce_peer_response = true
is_response_type find_value_request = false
is_response_type find_value_response = true
is_response_type error = true
