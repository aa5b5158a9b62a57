-- ===== src/Wire.antt =====
-- Byte strings and the integer codecs that the wire formats share: the write_u* and read_u*
-- helpers of native/sync/src/sync_protocol.cpp and native/sync/src/transport/rpc_channel.cpp (low
-- byte first) and of native/p2p/src/dht/message.cpp (high byte first). A reader takes the bytes
-- after the cursor and gives back those that it leaves; `none` is the source's false.
pub mod RoundTrip
use tightrope.Prelude.{
  ℕ, zero, suc, ◌+◌, ◌*◌, ◌/◌, ◌%◌, ◌<◌, Bool, true, false, if◌then◌else◌, ltb, ◌==◌, ◌&&◌, List,
  [], ◌∷◌, ◌++◌, Option, none, some, length, take, drop,
}

abbrev pub Bytes : Type 0
Bytes = List ℕ

abbrev pub Reader {ℓ} : Type ℓ → Type ℓ
Reader A = Bytes → Option (A × Bytes)

infixl 5 ◌>>=◌
abbrev pub ◌>>=◌ {ℓ κ} : {A : Type ℓ} {B : Type κ} → Option A → (A → Option B) → Option B
none >>= f = none
some a >>= f = f a

-- value >> 8k & 0xFF for k = 0, 1, …
unfoldable pub write_le : ℕ → ℕ → Bytes
write_le zero value = []
write_le (suc k) value = (value % 256) ∷ write_le k (value / 256)

unfoldable pub read_u8 : Reader ℕ
read_u8 [] = none
read_u8 (b ∷ bytes) = some (b, bytes)

-- The bytes are below 256, so `|` of shifted bytes is their sum.
unfoldable pub read_le : ℕ → Reader ℕ
unfolding read_u8
read_le zero bytes = some (0, bytes)
read_le (suc k) bytes = do
  (low, after) ← read_u8 bytes
  (high, rest) ← read_le k after
  some (low + 256 * high, rest)

unfoldable pub write_be : ℕ → ℕ → Bytes
write_be zero value = []
write_be (suc k) value = write_be k (value / 256) ++ (value % 256) ∷ []

-- value = value << 8 | byte, once for each byte.
unfoldable pub read_be : ℕ → Reader ℕ
unfolding read_u8
read_be zero bytes = some (0, bytes)
read_be (suc k) bytes = do
  (high, after) ← read_be k bytes
  (low, rest) ← read_u8 after
  some (high * 256 + low, rest)

-- The next `size` bytes, if there are as many.
unfoldable pub read_bytes : ℕ → Reader Bytes
read_bytes size bytes =
    if ltb (length bytes) size then none else some (take size bytes, drop size bytes)

-- What k bytes can hold.
abbrev pub limit : ℕ → ℕ
limit zero = 1
limit (suc k) = 256 * limit k

abbrev pub AreBytes : Bytes → Type 0
AreBytes [] = Unit {0}
AreBytes (b ∷ bytes) = (b < 256) × AreBytes bytes

-- == on texts.
abbrev pub same_bytes : Bytes → Bytes → Bool
same_bytes [] [] = true
same_bytes [] (y ∷ ys) = false
same_bytes (x ∷ xs) [] = false
same_bytes (x ∷ xs) (y ∷ ys) = x == y && same_bytes xs ys
