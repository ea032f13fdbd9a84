-- ===== src/Net.antt =====
-- The IPv4 part of Go's net and net/netip as the servers use it. A `net.IP` is its bytes, with
-- `[]` for nil; a `netip.Prefix` is the number of its address and the length of its mask.
use monsoon.Prelude.{
  ℕ, ◌-◌, ◌/◌, ◌^◌, Bool, true, false, ◌&&◌, [], ◌∷◌, ◌++◌, ◌==◌, if◌then◌else◌, leb, length, take,
  drop, replicate,
}
use monsoon.Bytes.{Bytes, equal, put_uint32}

-- `IP.To4`: the four bytes of an IPv4 address or of one mapped into IPv6, nil otherwise
unfoldable pub to4 : Bytes → Bytes
unfolding equal
to4 ip =
    if length ip == 4
    then ip
    else if length ip == 16 && equal (take 12 ip) (replicate 10 0 ++ 255 ∷ 255 ∷ [])
    then drop 12 ip
    else []

-- `ip == nil`
unfoldable pub is_nil : Bytes → Bool
is_nil [] = true
is_nil (_ ∷ _) = false

pub record Prefix : Type 0 where
  pub address : ℕ
  pub bits : ℕ

-- `Prefix.Contains` on IPv4 addresses
unfoldable pub contains : Prefix → ℕ → Bool
contains p addr = leb p.bits 32 && p.address / 2 ^ (32 - p.bits) == addr / 2 ^ (32 - p.bits)

-- `net.CIDRMask(bits, 32)`
unfoldable pub cidr_mask : ℕ → Bytes
unfolding put_uint32
cidr_mask bits = if leb bits 32 then put_uint32 (2 ^ 32 - 2 ^ (32 - bits)) else []
