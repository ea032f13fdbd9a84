-- ===== src/Ipam.antt =====
-- The prefixes of internal/ipam/cidr.go, over the addresses of net/netip: a family, a number and a
-- zone. A prefix that was not parsed is `none`, the zero `netip.Prefix`.
mod Quotients
pub mod Cidr
pub mod Subnets
pub mod Addresses
pub mod Tests
use monsoon.Prelude.{
  ℕ, ◌+◌, ◌-◌, ◌*◌, ◌/◌, ◌%◌, ◌^◌, Bool, true, false, not, ◌&&◌, ◌||◌, Option, none, some, [], ltb,
  leb, ◌==◌, if◌then◌else◌,
}
use monsoon.Bytes.{Bytes}
use monsoon.Net.{is_nil}

pub record Addr : Type 0 where
  pub is4 : Bool
  pub value : ℕ
  pub zone : Bytes

pub record IpPrefix : Type 0 where
  pub addr : Addr
  pub bits : ℕ

-- `Addr.BitLen`
abbrev pub bit_len : Bool → ℕ
bit_len true = 32
bit_len false = 128

abbrev pub same_family : Bool → Bool → Bool
same_family true b = b
same_family false b = not b

-- the number of bits behind the mask
abbrev pub host_bits : IpPrefix → ℕ
host_bits p = bit_len p.addr.is4 - p.bits

-- `Prefix.Masked`
unfoldable pub masked : IpPrefix → IpPrefix
masked p = record p {
  addr = record {
    is4 = p.addr.is4;
    value = p.addr.value / 2 ^ host_bits p * 2 ^ host_bits p;
    zone = [];
  };
}

-- `Prefix.Contains`
unfoldable pub contains : IpPrefix → Addr → Bool
unfolding is_nil
contains p a =
    same_family p.addr.is4 a.is4
    && (is_nil a.zone && p.addr.value / 2 ^ host_bits p == a.value / 2 ^ host_bits p)

-- `Overlaps`
unfoldable pub overlaps : Option IpPrefix → Option IpPrefix → Bool
unfolding contains masked
overlaps (some a) (some b) =
    contains (masked a) (masked b).addr || contains (masked b) (masked a).addr
overlaps _ _ = false

-- `Contains`
unfoldable pub contains_prefix : IpPrefix → IpPrefix → Bool
unfolding contains masked
contains_prefix parent child =
    leb parent.bits child.bits && contains (masked parent) (masked child).addr

-- `AddressCount`
unfoldable pub address_count : IpPrefix → ℕ
address_count p = if leb 64 (host_bits p) then 2 ^ 64 - 1 else 2 ^ host_bits p

-- `NthAddress`; the sum is a uint64
unfoldable pub nth_address : IpPrefix → ℕ → Option Addr
unfolding masked address_count
nth_address p n =
    let value = ((masked p).addr.value + n) % 2 ^ 64 in
    if not p.addr.is4
    then none
    else if leb (address_count p) n
    then none
    else if ltb (2 ^ 32 - 1) value
    then none
    else some (record { is4 = true; value = value; zone = [] })
