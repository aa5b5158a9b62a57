-- ===== src/Wire/RoundTrip.antt =====
-- What is written is read back, with the rest of the input untouched.
use tightrope.Prelude.{
  ℕ, zero, suc, ◌/◌, ◌%◌, ◌<◌, ◌≡◌, refl, ap, [], ◌∷◌, ◌++◌, some, arith, length, take, drop,
  append_assoc, length-append, inl, inr, Option-cases, take-append-drop, length-take,
}
use tightrope.Wire.{
  Bytes, write_le, read_le, write_be, read_be, read_u8, read_bytes, limit, AreBytes,
}

pub read-write_le :
    (k v : ℕ) (rest : Bytes) → v < limit k → read_le k (write_le k v ++ rest) ≡ some (v, rest)
unfolding read_le write_le
read-write_le zero v rest h = ground arith
read-write_le (suc k) v rest h = ground (arith, read-write_le k (v / 256) rest)

pub read-write_be :
    (k v : ℕ) (rest : Bytes) → v < limit k → read_be k (write_be k v ++ rest) ≡ some (v, rest)
unfolding read_be write_be
read-write_be zero v rest h = ground arith
read-write_be (suc k) v rest h = ground (
  arith,
  read-write_be k (v / 256) (v % 256 ∷ rest),
  append_assoc (write_be k (v / 256)) (v % 256 ∷ []) rest,
)

pub length-write_le : (k v : ℕ) → length (write_le k v) ≡ k
unfolding write_le
length-write_le zero v = refl
length-write_le (suc k) v = ap suc (length-write_le k (v / 256))

pub length-write_be : (k v : ℕ) → length (write_be k v) ≡ k
unfolding write_be
length-write_be zero v = refl
length-write_be (suc k) v =
    omega (arith, length-append (write_be k (v / 256)) (v % 256 ∷ []), length-write_be k (v / 256))

pub take-append : (xs rest : Bytes) → take (length xs) (xs ++ rest) ≡ xs
take-append [] rest = refl
take-append (x ∷ xs) rest = cc (take-append xs rest)

pub drop-append : (xs rest : Bytes) → drop (length xs) (xs ++ rest) ≡ rest
drop-append [] rest = refl
drop-append (x ∷ xs) rest = drop-append xs rest

pub read_bytes-append : (xs rest : Bytes) → read_bytes (length xs) (xs ++ rest) ≡ some (xs, rest)
unfolding read_bytes
read_bytes-append xs rest =
    ground (arith, length-append xs rest, take-append xs rest, drop-append xs rest)

pub read_bytes-size :
    (n : ℕ) (xs rest : Bytes) → length xs ≡ n → read_bytes n (xs ++ rest) ≡ some (xs, rest)
read_bytes-size n xs rest h = rw (← h) (read_bytes-append xs rest)

pub AreBytes-append : (xs ys : Bytes) → AreBytes xs → AreBytes ys → AreBytes (xs ++ ys)
AreBytes-append [] ys h k = k
AreBytes-append (x ∷ xs) ys h k = (h.0, AreBytes-append xs ys h.1 k)

pub AreBytes-parts : (xs ys : Bytes) → AreBytes (xs ++ ys) → AreBytes xs × AreBytes ys
AreBytes-parts [] ys h = (tt, h)
AreBytes-parts (x ∷ xs) ys h = ((h.0, (AreBytes-parts xs ys h.1).0), (AreBytes-parts xs ys h.1).1)

-- A read number is below the limit of its width, and writing it gives the bytes back.
pub write-read_le :
    (k : ℕ) (bytes rest : Bytes) (v : ℕ)
    → AreBytes bytes
    → read_le k bytes ≡ some (v, rest)
    → (v < limit k) × (write_le k v ++ rest ≡ bytes) × AreBytes rest
unfolding read_le write_le read_u8
write-read_le zero bytes rest v b h = ground arith
write-read_le (suc k) [] rest v b h = cc
write-read_le (suc k) (x ∷ bytes) rest v b h = elim (Option-cases (read_le k bytes)) [
  | inl e ↦ ground arith
  | inr ((high, r), e) ↦ ground (arith, write-read_le k bytes r high b.1 e)
]

pub read_bytes-parts :
    (n : ℕ) (bytes xs rest : Bytes)
    → read_bytes n bytes ≡ some (xs, rest)
    → (xs ++ rest ≡ bytes) × (length xs ≡ n)
unfolding read_bytes
read_bytes-parts n bytes xs rest h = ground (arith, take-append-drop n bytes, length-take n bytes)
