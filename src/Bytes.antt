-- ===== src/Bytes.antt =====
-- Byte strings as the code handles them: `[]byte` and `string` are lists of bytes, with
-- `bytes.Compare`, `bytes.Equal`, `bytes.HasPrefix` and the big-endian codecs of encoding/binary.
pub mod Order
pub mod BigEndian
use monsoon.Prelude.{
  ℕ, suc, ◌+◌, ◌*◌, ◌/◌, ◌%◌, ◌^◌, ◌<◌, Ordering, compare, Bool, true, false, ◌&&◌, List, [], ◌∷◌,
  ◌++◌, ◌≡◌, ◌==◌, length,
}

abbrev pub Bytes : Type 0
Bytes = List ℕ

-- Every element is a byte.
abbrev pub AreBytes : Bytes → Type 0
AreBytes [] = Unit
AreBytes (x ∷ xs) = (x < 256) × AreBytes xs

-- `bytes.Equal`
unfoldable pub equal : Bytes → Bytes → Bool
equal [] [] = true
equal (x ∷ xs) (y ∷ ys) = x == y && equal xs ys
equal _ _ = false

-- `bytes.Compare`, and `<` on Go strings
unfoldable pub bytes_compare : Bytes → Bytes → Ordering
bytes_compare [] [] = Ordering.eq
bytes_compare [] (y ∷ ys) = Ordering.lt
bytes_compare (x ∷ xs) [] = Ordering.gt
bytes_compare (x ∷ xs) (y ∷ ys) =
    let rest = bytes_compare xs ys in
    elim (compare x y) [
      | Ordering.lt ↦ Ordering.lt
      | Ordering.eq ↦ rest
      | Ordering.gt ↦ Ordering.gt
    ]

-- `bytes.HasPrefix`
unfoldable pub has_prefix : Bytes → Bytes → Bool
has_prefix s [] = true
has_prefix [] (y ∷ ys) = false
has_prefix (x ∷ xs) (y ∷ ys) = x == y && has_prefix xs ys

-- `binary.BigEndian.PutUint16`
unfoldable pub put_uint16 : ℕ → Bytes
put_uint16 v = v / 2 ^ 8 % 256 ∷ v % 256 ∷ []

-- `binary.BigEndian.PutUint32`
unfoldable pub put_uint32 : ℕ → Bytes
put_uint32 v = v / 2 ^ 24 % 256 ∷ v / 2 ^ 16 % 256 ∷ v / 2 ^ 8 % 256 ∷ v % 256 ∷ []

-- `binary.BigEndian.Uint16`; a slice that is too short panics in the code, which checks first
unfoldable pub uint16 : Bytes → ℕ
uint16 (a ∷ b ∷ _) = a * 2 ^ 8 + b
uint16 _ = 0

-- `binary.BigEndian.Uint32`
unfoldable pub uint32 : Bytes → ℕ
uint32 (a ∷ b ∷ c ∷ d ∷ _) = a * 2 ^ 24 + b * 2 ^ 16 + c * 2 ^ 8 + d
uint32 _ = 0
