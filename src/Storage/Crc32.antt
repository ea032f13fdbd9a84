-- ===== src/Storage/Crc32.antt =====
-- `crc32.ChecksumIEEE` of Go's standard library, bit by bit: the reflected polynomial 0xedb88320.
use Prim.Native.Nat.{bit_xor}
use monsoon.Prelude.{
  ℕ, zero, suc, ◌/◌, ◌%◌, ◌^◌, ◌<◌, [], ◌∷◌, ◌≡◌, refl, arith, ◌==◌, if◌then◌else◌,
}
use monsoon.Bytes.{Bytes}

-- eight rounds of `crc = crc >> 1`, with the polynomial for a bit that falls off
shift_byte : ℕ → ℕ → ℕ
shift_byte zero crc = crc
shift_byte (suc n) crc =
    shift_byte n (if crc % 2 == 1 then bit_xor (crc / 2) 0xedb88320 else crc / 2)

update : ℕ → Bytes → ℕ
update crc [] = crc
update crc (b ∷ bs) = update (shift_byte 8 (bit_xor crc b)) bs

-- The result is a `uint32`.
unfoldable pub checksum_ieee : Bytes → ℕ
unfolding shift_byte update
checksum_ieee bs = bit_xor (update 0xffffffff bs) 0xffffffff % 2 ^ 32

pub checksum_ieee-lt : (bs : Bytes) → checksum_ieee bs < 2 ^ 32
unfolding checksum_ieee
checksum_ieee-lt bs = omega arith

-- the check value of the algorithm: the checksum of "123456789"
check_value :
    checksum_ieee (b'1' ∷ b'2' ∷ b'3' ∷ b'4' ∷ b'5' ∷ b'6' ∷ b'7' ∷ b'8' ∷ b'9' ∷ []) ≡ 0xcbf43926
unfolding checksum_ieee
check_value = refl
