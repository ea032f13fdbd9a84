-- ===== src/Ipam/Addresses.antt =====
-- The address records of internal/ipam/types.go, and how internal/ipam/engine.go merges what the
-- stored records, the reservations and the leases say of one address. A state is its text, as in
-- the code; `strings.Contains` is an argument.
pub mod Merge
use monsoon.Prelude.{
  ℕ, Bool, true, false, not, ◌&&◌, [], ◌∷◌, ◌++◌, ◌==◌, ltb, if◌then◌else◌, length, ℤ, ltbℤ,
}
use monsoon.Bytes.{Bytes, equal}
use monsoon.Lease.{
  LeaseState, free, offered, bound, renewing, released, declined, quarantined, expired,
}

-- `IPState`; any other text is `other_state`
pub data IpState : Type 0 where
  available dhcp reserved conflict quarantine : IpState
  other_state : Bytes → IpState

pub record AddressRecord : Type 0 where
  pub ip : Bytes
  pub subnet_cidr : Bytes
  pub state : IpState
  pub mac : Bytes
  pub hostname : Bytes
  pub lease_state : Bytes
  pub source : Bytes
  pub updated_at : ℤ

-- `leaseToIPState`
unfoldable pub lease_to_ip_state : LeaseState → IpState
lease_to_ip_state declined = conflict
lease_to_ip_state quarantined = quarantine
lease_to_ip_state expired = quarantine
lease_to_ip_state released = quarantine
lease_to_ip_state free = dhcp
lease_to_ip_state offered = dhcp
lease_to_ip_state bound = dhcp
lease_to_ip_state renewing = dhcp

-- `rankState`
unfoldable pub rank_state : IpState → ℕ
rank_state conflict = 5
rank_state dhcp = 4
rank_state quarantine = 3
rank_state reserved = 2
rank_state available = 1
rank_state (other_state s) = 1

-- `s == ""`
abbrev pub is_empty : Bytes → Bool
is_empty s = length s == 0

-- `if s == "" && next != "" { s = next }`
abbrev pub fill : Bytes → Bytes → Bytes
fill s next = if is_empty s && not (is_empty next) then next else s

module _ (contains_text : Bytes → Bytes → Bool) where
  unfoldable pub merge_source : Bytes → Bytes → Bytes
  unfolding equal
  merge_source s next =
      if is_empty s
      then next
      else if not (is_empty next) && (not (equal s next) && not (contains_text s next))
      then s ++ b'+' ∷ next
      else s

  -- the end of `mergeAddressRecord`: the state, from the address and the state of each record
  unfoldable pub merge_state : Bytes → Bytes → IpState → IpState → IpState
  unfolding equal rank_state
  merge_state mac next_mac state next_state =
      if not (is_empty mac) && (not (is_empty next_mac) && not (equal mac next_mac))
      then conflict
      else if ltb (rank_state state) (rank_state next_state)
      then next_state
      else state

  -- `mergeAddressRecord`
  unfoldable pub merge_address_record : AddressRecord → AddressRecord → AddressRecord
  unfolding merge_source merge_state
  merge_address_record current next = if is_empty current.ip then next else record {
    ip = current.ip;
    subnet_cidr = fill current.subnet_cidr next.subnet_cidr;
    state = merge_state (fill current.mac next.mac) next.mac current.state next.state;
    mac = fill current.mac next.mac;
    hostname = fill current.hostname next.hostname;
    lease_state = fill current.lease_state next.lease_state;
    source = merge_source current.source next.source;
    updated_at =
        if ltbℤ current.updated_at next.updated_at then next.updated_at else current.updated_at;
  }
