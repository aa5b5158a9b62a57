-- ===== src/Dht/Message/Parts.antt =====
-- Contacts and values in the messages of native/p2p/src/dht/message.cpp, and that what is written
-- is read back.
use tightrope.Prelude.{
  ℕ, zero, suc, ◌<◌, ◌≡◌, Bool, not, ◌||◌, if◌then◌else◌, ltb, List, [], ◌∷◌, ◌++◌, Option, none,
  some, length, arith, append_assoc, inl, inr, Option-cases,
}
use tightrope.Wire.{Bytes, Reader, ◌>>=◌, write_be, read_u8, read_be, read_bytes}
use tightrope.Wire.RoundTrip.{read-write_be, read_bytes-append, read_bytes-size}
use tightrope.Protocol.Handshake.{empty}
use tightrope.Dht.Message.{
  NodeEndpoint, NodeWireContact, ValueRecord, node_id_bytes, is_valid_endpoint, string_u8,
  string_u16, read_string_u8, read_string_u16,
}

unfoldable pub write_value : ValueRecord → Option Bytes
write_value entry =
    if ltb 1024 (length entry.value)
    then none
    else string_u16 entry.value >>= (λ text. some (text ++ write_be 8 entry.expires_unix_ms))

unfoldable pub write_all {ℓ} : {A : Type ℓ} → (A → Option Bytes) → List A → Option Bytes
write_all write [] = some []
write_all write (x ∷ xs) = do first ← write x; rest ← write_all write xs; some (first ++ rest)

unfoldable pub write_values : List ValueRecord → Option Bytes
write_values values =
    if ltb 32 (length values)
    then none
    else write_all write_value values >>= (λ body. some (write_be 2 (length values) ++ body))

unfoldable pub read_value : Reader ValueRecord
read_value bytes = do
  (text, after) ← read_string_u16 bytes
  (expires, rest) ← read_be 8 after
  let entry : ValueRecord = record { value = text; expires_unix_ms = expires }
  if ltb 1024 (length text) then none else some (entry, rest)

-- The loop over the entries of a list.
unfoldable pub read_all {ℓ} : {A : Type ℓ} → Reader A → ℕ → Reader (List A)
read_all read zero bytes = some ([], bytes)
read_all read (suc count) bytes = do
  (x, after) ← read bytes
  (xs, rest) ← read_all read count after
  some (x ∷ xs, rest)

unfoldable pub read_values : Reader (List ValueRecord)
read_values bytes = do
  (count, after) ← read_be 2 bytes
  if ltb 32 count then none else read_all read_value count after

module _ (is_address : Bytes → Bool) where
  unfoldable pub write_node_contact : NodeWireContact → Option Bytes
  write_node_contact contact =
      if empty contact.endpoint.host
        || ltb 255 (length contact.endpoint.host)
        || not (is_valid_endpoint is_address contact.endpoint)
      then none
      else string_u8 contact.endpoint.host >>= (λ host. some (
          contact.id
          ++ (host ++ (write_be 2 contact.endpoint.port ++ write_be 8 contact.last_seen_unix_ms))))

  unfoldable pub read_node_contact : Reader NodeWireContact
  read_node_contact bytes = do
    (node, a) ← read_bytes node_id_bytes bytes
    (name, b) ← read_string_u8 a
    (number, c) ← read_be 2 b
    (seen, rest) ← read_be 8 c
    let found : NodeEndpoint = record { host = name; port = number }
    let contact : NodeWireContact = record { id = node; endpoint = found; last_seen_unix_ms = seen }
    if is_valid_endpoint is_address found then some (contact, rest) else none

  unfoldable pub write_nodes : List NodeWireContact → Option Bytes
  write_nodes nodes =
      if ltb 32 (length nodes)
      then none
      else write_all write_node_contact nodes >>= (λ body. some (write_be 2 (length nodes) ++ body))

  unfoldable pub read_nodes : Reader (List NodeWireContact)
  read_nodes bytes = do
    (count, after) ← read_be 2 bytes
    if ltb 32 count then none else read_all read_node_contact count after

abbrev pub AllFine {ℓ} : {A : Type ℓ} → (A → Type 0) → List A → Type 0
AllFine IsFine [] = Unit {0}
AllFine IsFine (x ∷ xs) = IsFine x × AllFine IsFine xs

-- What a string writer wrote, the reader gets back.
pub string_u16-read :
    (value written rest : Bytes)
    → string_u16 value ≡ some written
    → read_string_u16 (written ++ rest) ≡ some (value, rest)
unfolding string_u16 read_string_u16
string_u16-read value written rest h = ground (
  arith,
  append_assoc (write_be 2 (length value)) value rest,
  read-write_be 2 (length value) (value ++ rest),
  read_bytes-append value rest,
)

pub string_u8-read :
    (value written rest : Bytes)
    → string_u8 value ≡ some written
    → read_string_u8 (written ++ rest) ≡ some (value, rest)
unfolding string_u8 read_string_u8 read_u8
string_u8-read value written rest h = ground (arith, read_bytes-append value rest)

-- Reading a list back, given that its elements are.
pub read_all-write_all {ℓ} :
    {A : Type ℓ} (IsFine : A → Type 0) (write : A → Option Bytes) (read : Reader A)
    → ((x : A) (bytes rest : Bytes)
        → IsFine x
        → write x ≡ some bytes
        → read (bytes ++ rest) ≡ some (x, rest))
    → (xs : List A) (bytes rest : Bytes) → AllFine IsFine xs
    → write_all write xs ≡ some bytes
    → read_all read (length xs) (bytes ++ rest) ≡ some (xs, rest)
unfolding write_all read_all
read_all-write_all IsFine write read law [] bytes rest fine h = ground (arith, h)
read_all-write_all IsFine write read law (x ∷ xs) bytes rest fine h =
    elim (Option-cases (write x)) [
      | inl k ↦ ground (arith, h, k)
      | inr (first, k) ↦ elim (Option-cases (write_all write xs)) [
        | inl l ↦ ground (arith, h, k, l)
        | inr (others, l) ↦ ground (
          arith,
          h,
          k,
          l,
          append_assoc first others rest,
          law x first (others ++ rest) fine.0 k,
          read_all-write_all IsFine write read law xs others rest fine.1 l,
        )
      ]
    ]

pub value_read :
    (e : ValueRecord) (bytes rest : Bytes)
    → e.expires_unix_ms < 18446744073709551616
    → write_value e ≡ some bytes
    → read_value (bytes ++ rest) ≡ some (e, rest)
unfolding write_value read_value
value_read e bytes rest fits h = elim (Option-cases (string_u16 e.value)) [
  | inl k ↦ ground (arith, h, k)
  | inr (text, k) ↦ ground (
    arith,
    h,
    k,
    append_assoc text (write_be 8 e.expires_unix_ms) rest,
    string_u16-read e.value text (write_be 8 e.expires_unix_ms ++ rest) k,
    read-write_be 8 e.expires_unix_ms rest,
  )
]

-- The numbers of an entry or a contact fit their fields, and the id has its size.
abbrev pub IsWireValue : ValueRecord → Type 0
IsWireValue e = e.expires_unix_ms < 18446744073709551616

pub record IsWireContact (c : NodeWireContact) : Type 0 where
  pub id_size : length c.id ≡ 32
  pub port_fits : c.endpoint.port < 65536
  pub seen_fits : c.last_seen_unix_ms < 18446744073709551616

pub values_read :
    (es : List ValueRecord) (bytes rest : Bytes)
    → AllFine IsWireValue es
    → write_values es ≡ some bytes
    → read_values (bytes ++ rest) ≡ some (es, rest)
unfolding write_values read_values
values_read es bytes rest fine h = elim (Option-cases (write_all write_value es)) [
  | inl k ↦ ground (arith, h, k)
  | inr (body, k) ↦ ground (
    arith,
    h,
    k,
    append_assoc (write_be 2 (length es)) body rest,
    read-write_be 2 (length es) (body ++ rest),
    read_all-write_all IsWireValue write_value read_value value_read es body rest fine k,
  )
]

module _ (is_address : Bytes → Bool) where
  pub contact_read :
      (c : NodeWireContact) (bytes rest : Bytes)
      → IsWireContact c
      → write_node_contact is_address c ≡ some bytes
      → read_node_contact is_address (bytes ++ rest) ≡ some (c, rest)
  unfolding write_node_contact read_node_contact
  contact_read c bytes rest w h = elim (Option-cases (string_u8 c.endpoint.host)) [
    | inl k ↦ ground (arith, h, k)
    | inr (name, k) ↦
        let port : Bytes = write_be 2 c.endpoint.port in
        let seen : Bytes = write_be 8 c.last_seen_unix_ms in
        ground (
          arith,
          h,
          k,
          append_assoc c.id (name ++ (port ++ seen)) rest,
          append_assoc name (port ++ seen) rest,
          append_assoc port seen rest,
          read_bytes-size 32 c.id (name ++ (port ++ (seen ++ rest))) w.id_size,
          string_u8-read c.endpoint.host name (port ++ (seen ++ rest)) k,
          read-write_be 2 c.endpoint.port (seen ++ rest) w.port_fits,
          read-write_be 8 c.last_seen_unix_ms rest w.seen_fits,
        )
  ]

  pub nodes_read :
      (cs : List NodeWireContact) (bytes rest : Bytes)
      → AllFine IsWireContact cs
      → write_nodes is_address cs ≡ some bytes
      → read_nodes is_address (bytes ++ rest) ≡ some (cs, rest)
  unfolding write_nodes read_nodes
  nodes_read cs bytes rest fine h =
      elim (Option-cases (write_all (write_node_contact is_address) cs)) [
        | inl k ↦ ground (arith, h, k)
        | inr (body, k) ↦ ground (
          arith,
          h,
          k,
          append_assoc (write_be 2 (length cs)) body rest,
          read-write_be 2 (length cs) (body ++ rest),
          read_all-write_all IsWireContact (write_node_contact is_address)
              (read_node_contact is_address) contact_read cs body rest fine k,
        )
      ]
