-- ===== src/Ipam/Tests.antt =====
-- The theorems on internal/ipam at concrete prefixes, subnets and records.
use monsoon.Prelude.{
  true, false, Option, some, none, [], ◌∷◌, ◌≡◌, refl, inl, pos, arith, ◌*◌, ◌^◌, ◌/◌, ◌+◌, ◌<◌,
  ◌≤◌, ◌⊎◌, ◌↔◌,
}
use monsoon.Bytes.{Bytes, equal}
use monsoon.GoMap.{lookup, insert, bytes_eq}
use monsoon.Storage.BTree
use monsoon.Storage.BTree.{BTree}
use monsoon.Storage.BTree.Valid.{new-IsValid}
use monsoon.Storage.Engine
use monsoon.Storage.Engine.{Engine, must_tree, with_tree}
use monsoon.Storage.LogTests.{quiet, engine}
use monsoon.Ipam.{Addr, IpPrefix, masked, contains, overlaps, nth_address, address_count}
use monsoon.Ipam.Cidr.{overlaps-contains, nth_address-contains}
use monsoon.Ipam.Addresses.{
  AddressRecord, dhcp, reserved, conflict, merge_address_record, rank_state,
}
use monsoon.Ipam.Addresses.Merge.{merge_address_record-rank}
use monsoon.Ipam.Subnets
use monsoon.Ipam.Subnets.{
  Codec, Subnet, UpsertSubnetInput, upsert_subnet, delete_subnet, validate_subnet,
}
use monsoon.Ipam.Subnets.Listing.{All, Clear}
use monsoon.Ipam.Subnets.Accepted.{IsAccepted, validate_subnet-IsAccepted}
use monsoon.Ipam.Subnets.Disjoint.{IsDisjoint, subnets_of, upsert_subnet-IsDisjoint}

-- 10.0.0.0/8 and 10.1.0.0/16
abbrev wide : IpPrefix
wide = record { addr = record { is4 = true; value = 167772160; zone = [] }; bits = 8 }

abbrev narrow : IpPrefix
narrow = record { addr = record { is4 = true; value = 167837696; zone = [] }; bits = 16 }

nested : overlaps (some wide) (some narrow) ≡ true
unfolding overlaps
nested = refl

overlaps-contains_example :
    (overlaps (some wide) (some narrow) ≡ true)
    ↔ ((x : Addr) × (contains wide x ≡ true) × (contains narrow x ≡ true))
overlaps-contains_example = overlaps-contains wide narrow

-- one letter is the text of a prefix of eight bits
abbrev prefix_of : Bytes → Option IpPrefix
prefix_of [] = none
prefix_of (x ∷ _) =
    some (record { addr = record { is4 = true; value = x * 2 ^ 24; zone = [] }; bits = 8 })

abbrev addr_of : Bytes → Option Addr
addr_of [] = none
addr_of (x ∷ _) = some (record { is4 = true; value = x * 2 ^ 24; zone = [] })

abbrev stored : Bytes → Subnet
stored raw = record {
  cidr = raw;
  name = [];
  vlan = pos 0;
  gateway = [];
  dns = [];
  dhcp = record { enabled = false; pool_start = []; pool_end = []; lease_time_sec = pos 1 };
  created_at = pos 0;
  updated_at = pos 0;
}

-- a codec that writes the CIDR alone
abbrev codec : Codec
codec = record {
  marshal = λ s. some s.cidr;
  unmarshal = λ raw. some (stored raw);
  parse_prefix = prefix_of;
  parse_addr = addr_of;
  prefix_text = λ p. p.addr.value / 2 ^ 24 ∷ [];
}

abbrev input : Bytes → UpsertSubnetInput
input cidr = record {
  cidr = cidr;
  name = [];
  vlan = pos 7;
  gateway = [];
  dns = [];
  dhcp_enable = true;
  pool_start = cidr;
  pool_end = cidr;
  lease_sec = pos 60;
}

new_tree-IsDisjoint : IsDisjoint codec (subnets_of engine)
unfolding must_tree lookup Engine.with_trees with_tree BTree.get insert equal
new_tree-IsDisjoint = record {
  valid = new-IsValid;
  keyed = λ k raw h. absurd (ground (arith, h));
  apart = λ j k v w a b x h. absurd (ground (arith, h));
}

-- the second subnet, behind the first
upsert_subnet-IsDisjoint_example :
    IsDisjoint codec (
      subnets_of
        (upsert_subnet codec
          (λ i. quiet)
          6
          (input (b'B' ∷ []))
          (upsert_subnet codec (λ i. quiet) 5 (input (b'A' ∷ [])) engine).0).0)
    × IsDisjoint codec (
        subnets_of
          (delete_subnet codec
            (λ i. quiet)
            6
            (b'A' ∷ [])
            (upsert_subnet codec (λ i. quiet) 5 (input (b'A' ∷ [])) engine).0).0)
upsert_subnet-IsDisjoint_example =
    upsert_subnet-IsDisjoint codec (λ i. quiet) 6 (input (b'B' ∷ [])) (b'A' ∷ [])
      (upsert_subnet codec (λ i. quiet) 5 (input (b'A' ∷ [])) engine).0
      (λ s p text raw is. (stored raw, refl, cidr_of s raw is))
      (upsert_subnet-IsDisjoint codec (λ i. quiet) 5 (input (b'A' ∷ [])) [] engine
        (λ s p text raw is. (stored raw, refl, cidr_of s raw is)) new_tree-IsDisjoint).0
  where
    cidr_of : (s : Subnet) (raw : Bytes) → some s.cidr ≡ some raw → raw ≡ s.cidr
    cidr_of s raw h = ground (arith, h)

abbrev accepted : Subnet
accepted =
    Subnets.normalized codec
      (record { addr = record { is4 = true; value = 65 * 2 ^ 24; zone = [] }; bits = 8 })
      (input (b'A' ∷ []))

accepts : validate_subnet codec (input (b'A' ∷ [])) engine ≡ inl accepted
unfolding validate_subnet Engine.with_trees with_tree lookup contains masked insert
accepts = refl

validate_subnet-IsAccepted_example :
    IsAccepted codec (input (b'A' ∷ [])) accepted
    × All (Clear codec accepted.cidr) (Subnets.list_subnets codec engine)
validate_subnet-IsAccepted_example =
    validate_subnet-IsAccepted codec (input (b'A' ∷ [])) engine accepted accepts

nth_address-contains_example :
    ((a : Addr) × (nth_address narrow 5 ≡ some a)
      × (contains narrow a ≡ true)
      × (a.value ≡ (masked narrow).addr.value + 5)
      × (5 < address_count narrow))
    ⊎ ((nth_address narrow 5 ≡ none) × (address_count narrow ≤ 5))
nth_address-contains_example = nth_address-contains narrow 5 refl (omega arith)

abbrev lease_record : AddressRecord
lease_record = record {
  ip = b'4' ∷ [];
  subnet_cidr = [];
  state = dhcp;
  mac = b'm' ∷ [];
  hostname = [];
  lease_state = [];
  source = [];
  updated_at = pos 2;
}

abbrev reservation : AddressRecord
reservation = record lease_record { state = reserved; mac = b'n' ∷ []; updated_at = pos 1 }

-- a reservation that another client has the lease of is a conflict
clash : (merge_address_record (λ s t. false) reservation lease_record).state ≡ conflict
unfolding merge_address_record equal
clash = refl

merge_address_record-rank_example :
    (rank_state reserved
      ≤ rank_state (merge_address_record (λ s t. false) reservation lease_record).state)
    × (rank_state dhcp
        ≤ rank_state (merge_address_record (λ s t. false) reservation lease_record).state)
    × (((false ≡ true) ⊎ (false ≡ true) ⊎ (reservation.mac ≡ lease_record.mac))
        ⊎ ((merge_address_record (λ s t. false) reservation lease_record).state ≡ conflict))
merge_address_record-rank_example =
    merge_address_record-rank (λ s t. false) reservation lease_record refl
