-- ===== src/Bytes/BigEndian.antt =====
-- The big-endian codecs are inverse to one another.
use monsoon.Prelude.{ℕ, ◌^◌, ◌<◌, [], ◌∷◌, ◌++◌, ◌≡◌, arith}
use monsoon.Bytes.{Bytes, AreBytes, put_uint16, put_uint32, uint16, uint32}

pub uint16-put_uint16 : (v : ℕ) (rest : Bytes) → v < 2 ^ 16 → uint16 (put_uint16 v ++ rest) ≡ v
unfolding uint16 put_uint16
uint16-put_uint16 v rest h = omega arith

pub uint32-put : (v : ℕ) → v < 2 ^ 32 → uint32 (put_uint32 v) ≡ v
unfolding uint32 put_uint32
uint32-put v h = omega arith

pub uint32-put_uint32 : (v : ℕ) (rest : Bytes) → v < 2 ^ 32 → uint32 (put_uint32 v ++ rest) ≡ v
unfolding uint32 put_uint32
uint32-put_uint32 v rest h = omega arith

pub put_uint32-uint32 :
    (a b c d : ℕ)
    → AreBytes (a ∷ b ∷ c ∷ d ∷ [])
    → put_uint32 (uint32 (a ∷ b ∷ c ∷ d ∷ [])) ≡ a ∷ b ∷ c ∷ d ∷ []
unfolding uint32 put_uint32
put_uint32-uint32 a b c d h = ground arith

pub uint32-lt : (a b c d : ℕ) → AreBytes (a ∷ b ∷ c ∷ d ∷ []) → uint32 (a ∷ b ∷ c ∷ d ∷ []) < 2 ^ 32
unfolding uint32
uint32-lt a b c d h = omega arith
