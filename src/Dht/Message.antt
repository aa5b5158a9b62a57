-- ===== src/Dht/Message.antt =====
-- The messages of native/p2p/src/dht/message.cpp and the writers and readers of their parts. A
-- NodeId is the list of its 32 bytes; BufferWriter's output is what is appended, and BufferReader
-- is the bytes that are left.
pub mod Parts
pub mod Body
pub mod RoundTrip
use tightrope.Prelude.{
  ℕ, zero, suc, ◌≤◌, ◌<◌, Bool, true, false, not, ◌&&◌, ◌||◌, if◌then◌else◌, ltb, leb, ◌==◌, List,
  [], ◌∷◌, ◌++◌, Option, none, some, length,
}
use tightrope.Wire.{Bytes, Reader, ◌>>=◌, write_be, read_u8, read_be, read_bytes, same_bytes}
use tightrope.Protocol.Handshake.{empty}

pub data RpcType : Type 0 where
  ping_request : RpcType
  ping_response : RpcType
  find_node_request : RpcType
  find_node_response : RpcType
  announce_peer_request : RpcType
  announce_peer_response : RpcType
  find_value_request : RpcType
  find_value_response : RpcType
  error : RpcType

unfoldable pub type_code : RpcType → ℕ
type_code ping_request = 1
type_code ping_response = 2
type_code find_node_request = 3
type_code find_node_response = 4
type_code announce_peer_request = 5
type_code announce_peer_response = 6
type_code find_value_request = 7
type_code find_value_response = 8
type_code error = 255

-- The cases of the switch on a raw type; `none` is its default.
unfoldable pub type_of_code : ℕ → Option RpcType
type_of_code n =
    if n == 1
    then some ping_request
    else if n == 2
    then some ping_response
    else if n == 3
    then some find_node_request
    else if n == 4
    then some find_node_response
    else if n == 5
    then some announce_peer_request
    else if n == 6
    then some announce_peer_response
    else if n == 7
    then some find_value_request
    else if n == 8
    then some find_value_response
    else if n == 255
    then some error
    else none

pub record NodeEndpoint : Type 0 where
  pub host : Bytes
  pub port : ℕ

pub record NodeWireContact : Type 0 where
  pub id : Bytes
  pub endpoint : NodeEndpoint
  pub last_seen_unix_ms : ℕ

pub record ValueRecord : Type 0 where
  pub value : Bytes
  pub expires_unix_ms : ℕ

pub record RpcMessage : Type 0 where
  pub type : RpcType
  pub tx_id : ℕ
  pub source_port : ℕ
  pub sender_id : Bytes
  pub target_id : Bytes
  pub max_results : ℕ
  pub ping_unix_ms : ℕ
  pub nodes : List NodeWireContact
  pub key : Bytes
  pub value : Bytes
  pub ttl_seconds : ℕ
  pub values : List ValueRecord
  pub accepted : Bool
  pub error_code : ℕ
  pub error_message : Bytes

abbrev pub node_id_bytes : ℕ
node_id_bytes = 32

abbrev pub zero_id : Bytes
zero_id =
    0 ∷ 0 ∷ 0 ∷ 0 ∷ 0 ∷ 0 ∷ 0 ∷ 0 ∷ 0 ∷ 0 ∷ 0 ∷ 0 ∷ 0 ∷ 0 ∷ 0 ∷ 0 ∷ 0 ∷ 0 ∷ 0 ∷ 0 ∷ 0 ∷ 0 ∷ 0 ∷ 0
    ∷ 0 ∷ 0 ∷ 0 ∷ 0 ∷ 0 ∷ 0 ∷ 0 ∷ 0 ∷ []

-- A message with a header, all other fields as a new RpcMessage has them.
abbrev pub header_only : RpcType → ℕ → ℕ → Bytes → RpcMessage
header_only t tx port sender = record {
  type = t;
  tx_id = tx;
  source_port = port;
  sender_id = sender;
  target_id = zero_id;
  max_results = 0;
  ping_unix_ms = 0;
  nodes = [];
  key = [];
  value = [];
  ttl_seconds = 0;
  values = [];
  accepted = false;
  error_code = 0;
  error_message = [];
}

-- The host of native/core/net/src/host_port.cpp: letters, digits, dots and dashes, neither first
-- nor last a dot or a dash.
unfoldable pub is_hostname_char : ℕ → Bool
is_hostname_char c =
    (leb 48 c && leb c 57)
    || (leb 65 c && leb c 90)
    || (leb 97 c && leb c 122)
    || c == 46
    || c == 45

unfoldable pub all_hostname_chars : Bytes → Bool
all_hostname_chars [] = true
all_hostname_chars (c ∷ host) = is_hostname_char c && all_hostname_chars host

abbrev is_edge : ℕ → Bool
is_edge c = c == 46 || c == 45

-- The last character, after the given one.
unfoldable pub last_after : ℕ → Bytes → ℕ
last_after c [] = c
last_after c (d ∷ host) = last_after d host

unfoldable pub is_valid_hostname : Bytes → Bool
is_valid_hostname [] = false
is_valid_hostname (c ∷ host) =
    not (ltb 255 (length (c ∷ host)))
    && not (is_edge c)
    && not (is_edge (last_after c host))
    && all_hostname_chars (c ∷ host)

-- Whether the host parses as a numeric address is Boost's and a parameter.
unfoldable pub is_valid_endpoint : (Bytes → Bool) → NodeEndpoint → Bool
is_valid_endpoint is_address endpoint =
    if endpoint.port == 0 || empty endpoint.host
    then false
    else is_address endpoint.host || is_valid_hostname endpoint.host

unfoldable pub string_u8 : Bytes → Option Bytes
string_u8 value = if ltb 255 (length value) then none else some (length value ∷ value)

unfoldable pub string_u16 : Bytes → Option Bytes
string_u16 value =
    if ltb 65535 (length value) then none else some (write_be 2 (length value) ++ value)

unfoldable pub read_string_u8 : Reader Bytes
read_string_u8 bytes = do (size, body) ← read_u8 bytes; read_bytes size body

unfoldable pub read_string_u16 : Reader Bytes
read_string_u16 bytes = do (size, body) ← read_be 2 bytes; read_bytes size body

abbrev pub magic : Bytes
magic = 84 ∷ 68 ∷ 72 ∷ 84 ∷ []

abbrev pub version : ℕ
version = 1

unfoldable pub write_header : RpcMessage → Bytes
write_header m =
    84
    ∷ 68
    ∷ 72
    ∷ 84
    ∷ version
    ∷ type_code m.type
    ∷ (write_be 4 m.tx_id ++ (write_be 2 m.source_port ++ m.sender_id))

-- A type that no case of the later switch has is refused here.
unfoldable pub read_header : Reader RpcMessage
read_header bytes = do
  (read_magic, a) ← read_bytes 4 bytes
  (read_version, b) ← read_u8 a
  (raw_type, c) ← read_u8 b
  (tx, d) ← read_be 4 c
  (port, e) ← read_be 2 d
  (sender, rest) ← read_bytes node_id_bytes e
  t ← type_of_code raw_type
  if same_bytes read_magic magic && read_version == version
      then some (header_only t tx port sender, rest)
      else none
