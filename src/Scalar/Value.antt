-- ===== src/Scalar/Value.antt =====
-- What a sequence of bytes means as a number, and the bytes of a number, in each byte order: the
-- reference that the loops and byte swaps of the source are compared with.
use mathlib.Core.List.{reverse, reverse-cons, reverse-reverse}
use native.Mathlib.Nat.{pow-suc}
use universal_protocol_runti.Base.{
  ℕ, zero, suc, ◌+◌, ◌*◌, ◌/◌, ◌%◌, ◌^◌, ◌<◌, ◌≡◌, refl, ap, ◌∙◌, List, [], ◌∷◌, ◌++◌, arith,
  length, length-append,
}
use universal_protocol_runti.Core.{ByteOrder, little_endian, big_endian, AreBytes}

-- The first byte counts least.
unfoldable pub little_value : List ℕ → ℕ
little_value [] = 0
little_value (b ∷ bs) = b + 256 * little_value bs

unfoldable pub value : ByteOrder → List ℕ → ℕ
value little_endian bytes = little_value bytes
value big_endian bytes = little_value (reverse bytes)

unfoldable pub little_bytes : ℕ → ℕ → List ℕ
little_bytes zero v = []
little_bytes (suc width) v = (v % 256) ∷ little_bytes width (v / 256)

unfoldable pub bytes_of : ByteOrder → ℕ → ℕ → List ℕ
bytes_of little_endian width v = little_bytes width v
bytes_of big_endian width v = reverse (little_bytes width v)

pub length-little_bytes : (width v : ℕ) → length (little_bytes width v) ≡ width
unfolding little_bytes
length-little_bytes zero v = refl
length-little_bytes (suc width) v = ap suc (length-little_bytes width (v / 256))

pub AreBytes-little_bytes : (width v : ℕ) → AreBytes (little_bytes width v)
unfolding little_bytes
AreBytes-little_bytes zero v = tt
AreBytes-little_bytes (suc width) v = (omega arith, AreBytes-little_bytes width (v / 256))

pub length-reverse : (xs : List ℕ) → length (reverse xs) ≡ length xs
length-reverse [] = refl
length-reverse (x ∷ xs) =
    rw (reverse-cons x xs) (omega (arith, length-append (reverse xs) (x ∷ []), length-reverse xs))

pub length-bytes_of : (order : ByteOrder) (width v : ℕ) → length (bytes_of order width v) ≡ width
unfolding bytes_of
length-bytes_of little_endian width v = length-little_bytes width v
length-bytes_of big_endian width v =
    length-reverse (little_bytes width v) ∙ length-little_bytes width v

-- A number that fits the width is the value of its bytes.
little_value-little_bytes :
    (width v : ℕ) → v < 256 ^ width → little_value (little_bytes width v) ≡ v
unfolding little_value little_bytes
little_value-little_bytes zero v h = omega arith
little_value-little_bytes (suc width) v h =
    omega (arith, little_value-little_bytes width (v / 256) (omega (arith, pow-suc 256 width)))

pub value-bytes_of :
    (order : ByteOrder) (width v : ℕ) → v < 256 ^ width → value order (bytes_of order width v) ≡ v
unfolding value bytes_of
value-bytes_of little_endian width v h = little_value-little_bytes width v h
value-bytes_of big_endian width v h =
    rw (reverse-reverse (little_bytes width v)) (little_value-little_bytes width v h)

AreBytes-append : (xs ys : List ℕ) → AreBytes xs → AreBytes ys → AreBytes (xs ++ ys)
AreBytes-append [] ys h k = k
AreBytes-append (x ∷ xs) ys h k = (h.0, AreBytes-append xs ys h.1 k)

AreBytes-reverse : (xs : List ℕ) → AreBytes xs → AreBytes (reverse xs)
AreBytes-reverse [] h = tt
AreBytes-reverse (x ∷ xs) h =
    rw (reverse-cons x xs)
      (AreBytes-append (reverse xs) (x ∷ []) (AreBytes-reverse xs h.1) (h.0, tt))

pub AreBytes-bytes_of : (order : ByteOrder) (width v : ℕ) → AreBytes (bytes_of order width v)
unfolding bytes_of
AreBytes-bytes_of little_endian width v = AreBytes-little_bytes width v
AreBytes-bytes_of big_endian width v = AreBytes-reverse _ (AreBytes-little_bytes width v)
