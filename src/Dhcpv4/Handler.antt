-- ===== src/Dhcpv4/Handler.antt =====
-- The handler of DHCPv4 messages, internal/dhcpv4/handler.go, over any lease store. The clock is an
-- argument (a handler reads it at its own point of time; one reading stands for those of a call),
-- and so are the text forms of addresses, which net makes.
pub mod Messages
pub mod Timers
pub mod Safety
use monsoon.Prelude.{
  ℕ, suc, ◌+◌, ◌-◌, ◌/◌, ◌%◌, ◌^◌, Bool, true, false, not, ◌&&◌, ◌||◌, Option, none, some, List, [],
  ◌∷◌, ◌++◌, ltb, leb, ◌==◌, if◌then◌else◌, is_some, length, replicate, ℤ, pos, negsuc, ltbℤ,
  is_not_positive, ◌+ℤ◌,
}
use monsoon.Bytes.{Bytes}
use monsoon.GoMap.{lookup, nat_eq}
use monsoon.Net.{to4, is_nil, cidr_mask}
use monsoon.Lease
use monsoon.Lease.{Lease, LeaseState, free, offered, bound, released, declined}
use monsoon.Lease.Store.{Store}
use monsoon.Dhcpv4.Options
use monsoon.Dhcpv4.Options.{Options}
use monsoon.Dhcpv4.Packet
use monsoon.Dhcpv4.Packet.{Packet}
use monsoon.Dhcpv4.Relay
use monsoon.Dhcpv4.Reply.{is_zero_ipv4}
use monsoon.Dhcpv4.Pool
use monsoon.Dhcpv4.Pool.{PoolManager, AllocationRequest, AllocationResult}
use monsoon.Dhcpv4.Pool.Setup.{release}

pub record Handler : Type 0 where
  pub server_ip : Bytes
  pub default_lease : ℤ
  pub max_lease : ℤ
  pub has_listener : Bool  -- onLeaseEvent != nil

-- `NewHandler`: twelve hours and a day where the arguments are not positive
unfoldable pub new_handler : Bytes → ℤ → ℤ → Handler
unfolding to4
new_handler server_ip default_lease max_lease = record {
  server_ip = to4 server_ip;
  default_lease = if is_not_positive default_lease then pos 43200000000000 else default_lease;
  max_lease = if is_not_positive max_lease then pos 86400000000000 else max_lease;
  has_listener = false;
}

-- `SetOnLeaseEvent` with a function that is not nil
unfoldable pub set_on_lease_event : Handler → Handler
set_on_lease_event h = record h { has_listener = true }

pub data Event : Type 0 where
  created renewed lease_released conflict : Event

-- the text forms that net makes: `ParseIP`, `IP.String` and `HardwareAddr.String`
pub record NetText : Type 0 where
  pub parse_ip : Bytes → Bytes
  pub ip_string : Bytes → Bytes
  pub mac_string : Bytes → Bytes

-- what the handler reads and changes, with the events that the listener has been told of
pub record World (S : Type 0) : Type 0 where
  pub leases : S
  pub pools : PoolManager
  pub events : List (Event × Lease)

-- what `Handle` returns
pub data Reply : Type 0 where
  reply : Packet → Reply
  no_reply : Reply
  missing_type no_address store_failed : Reply

-- `durationToUint32Seconds`
unfoldable pub duration_to_uint32_seconds : ℤ → ℕ
duration_to_uint32_seconds (negsuc n) = 0
duration_to_uint32_seconds (pos n) =
    let seconds = n / 1000000000 in
    if n == 0
    then 0
    else if seconds == 0
    then 1
    else if ltb (2 ^ 32 - 1) seconds
    then 2 ^ 32 - 1
    else seconds

-- `baseResponse`
unfoldable pub base_response : Packet → Packet
base_response req = record {
  op = 2;
  htype = req.htype;
  hlen = req.hlen;
  hops = 0;
  xid = req.xid;
  secs = 0;
  flags = req.flags;
  ciaddr = req.ciaddr;
  yiaddr = [];
  siaddr = [];
  giaddr = req.giaddr;
  chaddr = req.chaddr;
  sname = replicate 64 0;
  file = replicate 128 0;
  options = [];
}

-- the two options that depend on the pool
unfoldable pub add_router : AllocationResult → Options → Options
unfolding is_nil Options.set_ipv4
add_router alloc o =
    if is_nil alloc.gateway then o else Options.set_ipv4 Options.option_router alloc.gateway o

unfoldable pub add_dns : AllocationResult → Options → Options
unfolding Options.set_ipv4_list
add_dns alloc o =
    if length alloc.dns == 0
    then o
    else Options.set_ipv4_list Options.option_domain_name_server alloc.dns o

-- `leaseOptions`
unfoldable pub lease_options : Handler → ℕ → AllocationResult → Options
unfolding Options.set_message_type Options.set_ipv4 Options.set_duration_seconds Options.set_string
    cidr_mask duration_to_uint32_seconds add_router add_dns
lease_options h msg_type alloc =
    let sec = duration_to_uint32_seconds alloc.lease_duration in
    let o1 = Options.set_message_type msg_type [] in
    let o2 = Options.set_ipv4 Options.option_server_identifier h.server_ip o1 in
    let o3 = Options.set_duration_seconds Options.option_ip_address_lease_time sec o2 in
    let o4 = Options.set_duration_seconds Options.option_renewal_time_value (sec / 2) o3 in
    let o5 = Options.set_duration_seconds Options.option_rebinding_time_value (sec - sec / 8) o4 in
    let o6 = Options.set_string Options.option_subnet_mask (cidr_mask alloc.prefix.bits) o5 in
    add_dns alloc (add_router alloc o6)

-- the options of `handleInform`, and those that a refusal starts with
unfoldable pub short_options : Handler → ℕ → Options
unfolding Options.set_message_type Options.set_ipv4
short_options h msg_type =
    Options.set_ipv4 Options.option_server_identifier h.server_ip
      (Options.set_message_type msg_type [])

-- "unable to allocate requested address"
abbrev pub refusal_text : Bytes
refusal_text =
    117 ∷ 110 ∷ 97 ∷ 98 ∷ 108 ∷ 101 ∷ 32 ∷ 116 ∷ 111 ∷ 32 ∷ 97 ∷ 108 ∷ 108 ∷ 111 ∷ 99 ∷ 97 ∷ 116
    ∷ 101 ∷ 32 ∷ 114 ∷ 101 ∷ 113 ∷ 117 ∷ 101 ∷ 115 ∷ 116 ∷ 101 ∷ 100 ∷ 32 ∷ 97 ∷ 100 ∷ 100 ∷ 114
    ∷ 101 ∷ 115 ∷ 115 ∷ []

-- the refusal of `handleRequest`
unfoldable pub nak : Handler → Packet → Packet
unfolding base_response short_options Options.set_string
nak h req = record (base_response req) {
  options =
      Options.set_string Options.option_message refusal_text (short_options h Options.message_nak);
}

-- `handleInform`
unfoldable pub handle_inform : Handler → Packet → Packet
unfolding base_response short_options
handle_inform h req = record (base_response req) { options = short_options h Options.message_ack }

-- the answer with an address
unfoldable pub grant : Handler → Packet → ℕ → AllocationResult → Packet
unfolding base_response lease_options
grant h req msg alloc = record (base_response req) {
  yiaddr = alloc.ip;
  options = lease_options h msg alloc;
}

-- the address that a REQUEST is about
unfoldable pub target_ip : Packet → Bytes
unfolding to4 is_nil is_zero_ipv4 Options.requested_ip
target_ip req =
    if is_nil (to4 req.ciaddr) || is_zero_ipv4 (to4 req.ciaddr)
    then Options.requested_ip req.options
    else to4 req.ciaddr

-- the address that a RELEASE is about
unfoldable pub released_ip : Packet → Bytes
unfolding to4 is_nil is_zero_ipv4 Options.requested_ip
released_ip req =
    if is_nil (to4 req.ciaddr) || is_zero_ipv4 (to4 req.ciaddr)
    then Options.requested_ip req.options
    else to4 req.ciaddr

-- the address that a DECLINE is about
unfoldable pub declined_ip : Packet → Bytes
unfolding to4 is_nil Options.requested_ip
declined_ip req =
    let ip = Options.requested_ip req.options in if is_nil ip then to4 req.ciaddr else ip
