-- ===== src/Ipam/Subnets.antt =====
-- The subnets of internal/ipam/engine.go, kept as JSON under their CIDR in a tree of the storage
-- engine. The codec and the texts of net/netip are arguments.
pub mod Listing
pub mod Accepted
pub mod Disjoint
use monsoon.Prelude.{
  ◌⊎◌, inl, inr, ℕ, Bool, true, false, not, ◌&&◌, ◌||◌, Option, none, some, List, [], ◌∷◌, ◌++◌,
  ◌==◌, ltb, if◌then◌else◌, length, ℤ, pos, ltbℤ, is_not_positive, Ordering, compare,
}
use monsoon.Bytes.{Bytes, equal, bytes_compare}
use monsoon.Text.{trim_space}
use monsoon.Storage.Wal.{Faults}
use monsoon.Storage.Engine
use monsoon.Storage.Engine.{Engine, TxError}
use monsoon.Ipam.{Addr, IpPrefix, masked, contains, overlaps, bit_len}

-- "subnets"
abbrev pub tree_subnets : Bytes
tree_subnets = b's' ∷ b'u' ∷ b'b' ∷ b'n' ∷ b'e' ∷ b't' ∷ b's' ∷ []

-- `DHCPPool`
pub record DhcpPool : Type 0 where
  pub enabled : Bool
  pub pool_start : Bytes
  pub pool_end : Bytes
  pub lease_time_sec : ℤ

pub record Subnet : Type 0 where
  pub cidr : Bytes
  pub name : Bytes
  pub vlan : ℤ
  pub gateway : Bytes
  pub dns : List Bytes
  pub dhcp : DhcpPool
  pub created_at : ℤ
  pub updated_at : ℤ

pub record UpsertSubnetInput : Type 0 where
  pub cidr : Bytes
  pub name : Bytes
  pub vlan : ℤ
  pub gateway : Bytes
  pub dns : List Bytes
  pub dhcp_enable : Bool
  pub pool_start : Bytes
  pub pool_end : Bytes
  pub lease_sec : ℤ

-- `json.Marshal` and `json.Unmarshal` on subnets, `netip.ParsePrefix`, `netip.ParseAddr` and
-- `Prefix.String`
pub record Codec : Type 0 where
  pub marshal : Subnet → Option Bytes
  pub unmarshal : Bytes → Option Subnet
  pub parse_prefix : Bytes → Option IpPrefix
  pub parse_addr : Bytes → Option Addr
  pub prefix_text : IpPrefix → Bytes

pub data SubnetError : Type 0 where
  invalid_cidr invalid_gateway gateway_outside : SubnetError
  invalid_pool_start invalid_pool_end pool_outside pool_reversed : SubnetError
  invalid_vlan not_found bad_subnet : SubnetError
  overlaps_with : Bytes → SubnetError
  store_failed : TxError → SubnetError

-- `start.Compare(end) > 0`: by the family, then by the number, then by the zone
unfoldable pub is_after : Addr → Addr → Bool
is_after a b = elim (compare (bit_len a.is4) (bit_len b.is4)) [
  | Ordering.lt ↦ false
  | Ordering.gt ↦ true
  | Ordering.eq ↦ elim (compare a.value b.value) [
    | Ordering.lt ↦ false
    | Ordering.gt ↦ true
    | Ordering.eq ↦ elim (bytes_compare a.zone b.zone) [ Ordering.gt ↦ true | _ ↦ false ]
  ]
]

-- `normalizeDNS`
unfoldable pub normalize_dns : List Bytes → List Bytes
unfolding trim_space
normalize_dns [] = []
normalize_dns (s ∷ ss) =
    let rest = normalize_dns ss in if length (trim_space s) == 0 then rest else trim_space s ∷ rest

-- `sort.Slice` by the CIDR
unfoldable pub insert_sorted : Subnet → List Subnet → List Subnet
unfolding bytes_compare
insert_sorted s [] = s ∷ []
insert_sorted s (x ∷ xs) =
    let rest = insert_sorted s xs in
    elim (bytes_compare x.cidr s.cidr) [ Ordering.lt ↦ x ∷ rest | _ ↦ s ∷ x ∷ xs ]

unfoldable pub sort : List Subnet → List Subnet
unfolding insert_sorted
sort [] = []
sort (s ∷ ss) = insert_sorted s (sort ss)

module _ (c : Codec) where
  unfoldable pub check_gateway : IpPrefix → Bytes → Option SubnetError
  unfolding trim_space contains
  check_gateway prefix gateway =
      if length gateway == 0 then none else elim (c.parse_addr (trim_space gateway)) [
        | none ↦ some invalid_gateway
        | some gw ↦ if contains prefix gw then none else some gateway_outside
      ]

  unfoldable pub check_range : IpPrefix → Addr → Addr → Option SubnetError
  unfolding contains is_after
  check_range prefix start end =
      if not (contains prefix start) || not (contains prefix end)
      then some pool_outside
      else if is_after start end
      then some pool_reversed
      else none

  unfoldable pub check_pool : IpPrefix → UpsertSubnetInput → Option SubnetError
  unfolding trim_space check_range
  check_pool prefix input =
      if not input.dhcp_enable then none else elim (c.parse_addr (trim_space input.pool_start)) [
        | none ↦ some invalid_pool_start
        | some start ↦ elim (c.parse_addr (trim_space input.pool_end)) [
          | none ↦ some invalid_pool_end
          | some end ↦ check_range prefix start end
        ]
      ]

  -- the subnet that `validateSubnet` returns; its times are zero. Twelve hours are 43200 seconds.
  unfoldable pub normalized : IpPrefix → UpsertSubnetInput → Subnet
  unfolding trim_space normalize_dns masked
  normalized prefix input = record {
    cidr = c.prefix_text (masked prefix);
    name = trim_space input.name;
    vlan = input.vlan;
    gateway = trim_space input.gateway;
    dns = normalize_dns input.dns;
    dhcp = record {
      enabled = input.dhcp_enable;
      pool_start = trim_space input.pool_start;
      pool_end = trim_space input.pool_end;
      lease_time_sec = if is_not_positive input.lease_sec then pos 43200 else input.lease_sec;
    };
    created_at = pos 0;
    updated_at = pos 0;
  }

  unfoldable pub first_error : Option SubnetError → Subnet ⊎ SubnetError → Subnet ⊎ SubnetError
  first_error none rest = rest
  first_error (some x) rest = inr x

  unfoldable pub validate_parsed : Option IpPrefix → UpsertSubnetInput → Subnet ⊎ SubnetError
  unfolding first_error check_gateway check_pool normalized
  validate_parsed none input = inr invalid_cidr
  validate_parsed (some prefix) input = first_error (check_gateway prefix input.gateway) (
      first_error (check_pool prefix input) (
        if ltbℤ input.vlan (pos 0) || ltbℤ (pos 4094) input.vlan
        then inr invalid_vlan
        else inl (normalized prefix input)))

  -- `validateSubnet`
  unfoldable pub validate_input : UpsertSubnetInput → Subnet ⊎ SubnetError
  unfolding trim_space validate_parsed
  validate_input input = validate_parsed (c.parse_prefix (trim_space input.cidr)) input

  -- the callback of `ListSubnets`
  unfoldable pub collect : Bytes → Bytes → List Subnet → List Subnet × Bool
  collect k v out = elim (c.unmarshal v) [ none ↦ (out, true) | some s ↦ (out ++ s ∷ [], true) ]

  -- `ListSubnets`; the only error that `Iterate` has is that there is no tree yet
  unfoldable pub list_subnets : Engine → List Subnet
  unfolding sort collect Engine.iterate
  list_subnets e = sort (Engine.iterate tree_subnets [] [] collect e []).0

  -- the loop of `ValidateSubnet`: the CIDR of the first listed subnet that overlaps
  unfoldable pub first_overlap : Bytes → List Subnet → Option Bytes
  unfolding equal overlaps
  first_overlap cidr [] = none
  first_overlap cidr (s ∷ ss) =
      let rest = first_overlap cidr ss in
      if equal s.cidr cidr
      then rest
      else if overlaps (c.parse_prefix s.cidr) (c.parse_prefix cidr)
      then some s.cidr
      else rest

  unfoldable pub check_overlap : Subnet → Option Bytes → Subnet ⊎ SubnetError
  check_overlap s none = inl s
  check_overlap s (some cidr) = inr (overlaps_with cidr)

  unfoldable pub check_listed : Subnet ⊎ SubnetError → Engine → Subnet ⊎ SubnetError
  unfolding first_overlap list_subnets check_overlap
  check_listed (inr x) e = inr x
  check_listed (inl s) e = check_overlap s (first_overlap s.cidr (list_subnets e))

  -- `ValidateSubnet`
  unfoldable pub validate_subnet : UpsertSubnetInput → Engine → Subnet ⊎ SubnetError
  unfolding validate_input check_listed
  validate_subnet input e = check_listed (validate_input input) e

  unfoldable pub decode_subnet : Option Bytes → Subnet ⊎ SubnetError
  decode_subnet none = inr not_found
  decode_subnet (some raw) = elim (c.unmarshal raw) [ none ↦ inr bad_subnet | some s ↦ inl s ]

  -- `GetSubnet`
  unfoldable pub get_subnet : Bytes → Engine → Subnet ⊎ SubnetError
  unfolding decode_subnet trim_space Engine.get
  get_subnet cidr e = decode_subnet (Engine.get tree_subnets (trim_space cidr) e)

  -- `created_at` is that of the subnet that is replaced
  unfoldable pub stamped : ℤ → Subnet → Subnet ⊎ SubnetError → Subnet
  stamped now s (inl old) = record s { created_at = old.created_at; updated_at = now }
  stamped now s (inr x) = record s { created_at = now; updated_at = now }

  abbrev pub put_result : Subnet → Engine × Option TxError → Engine × (Subnet ⊎ SubnetError)
  put_result s (e, none) = (e, inl s)
  put_result s (e, some x) = (e, inr (store_failed x))

  module _ (os : ℕ → Faults) (now : ℕ) where
    unfoldable pub put_subnet : Subnet → Option Bytes → Engine → Engine × (Subnet ⊎ SubnetError)
    unfolding Engine.put
    put_subnet s none e = (e, inr bad_subnet)
    put_subnet s (some raw) e = put_result s (Engine.put os now tree_subnets s.cidr raw e)

    unfoldable pub upsert_valid : Subnet ⊎ SubnetError → Engine → Engine × (Subnet ⊎ SubnetError)
    unfolding put_subnet stamped get_subnet
    upsert_valid (inr x) e = (e, inr x)
    upsert_valid (inl s) e =
        let s' = stamped (pos now) s (get_subnet s.cidr e) in put_subnet s' (c.marshal s') e

    -- `UpsertSubnet`
    unfoldable pub upsert_subnet : UpsertSubnetInput → Engine → Engine × (Subnet ⊎ SubnetError)
    unfolding validate_subnet upsert_valid
    upsert_subnet input e = upsert_valid (validate_subnet input e) e

    -- `DeleteSubnet`
    unfoldable pub delete_subnet : Bytes → Engine → Engine × Option TxError
    unfolding trim_space Engine.delete
    delete_subnet cidr e = Engine.delete os now tree_subnets (trim_space cidr) e
