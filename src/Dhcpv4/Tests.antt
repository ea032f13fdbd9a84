-- ===== src/Dhcpv4/Tests.antt =====
-- The DHCPv4 and lease theorems at concrete options, packets, pools and leases, and runs.
use monsoon.Prelude.{
  ℕ, ◌+◌, Bool, true, false, none, some, List, [], ◌∷◌, ◌++◌, ◌≡◌, ◌≢◌, refl, arith, replicate, pos,
}
use monsoon.Bytes.{Bytes, equal, uint32}
use monsoon.GoMap.{lookup, insert, nat_eq, bytes_eq}
use monsoon.GoMap.Laws.{Distinct}
use monsoon.Net.{to4, is_nil}
use monsoon.Dhcpv4.Options
use monsoon.Dhcpv4.Options.{Options}
use monsoon.Dhcpv4.Options.RoundTrip.{decode-encode}
use monsoon.Dhcpv4.Packet
use monsoon.Dhcpv4.Packet.{Packet}
use monsoon.Dhcpv4.Packet.RoundTrip.{IsFramed, decode_packet-encode}
use monsoon.Dhcpv4.Relay
use monsoon.Dhcpv4.Pool
use monsoon.Dhcpv4.Pool.{
  SubnetPool, PoolManager, AllocationRequest, AllocationResult, bit, with_pool,
}
use monsoon.Dhcpv4.Pool.Scan.{IsLowest, AreTaken, next_free-IsLowest}
use monsoon.Dhcpv4.Pool.Allocation.{IsPool, IsKept, Takes, allocate_new-Takes}
use monsoon.Dhcpv4.Pool.Distinct.{with_pool-IsKept, allocate_new-distinct}
use monsoon.Dhcpv4.Pool.Kept.{release-frees}
use monsoon.Dhcpv4.Pool.Setup

-- a REQUEST for 10.0.0.5
abbrev request_options : Options
request_options = (53, 3 ∷ []) ∷ (50, 10 ∷ 0 ∷ 0 ∷ 5 ∷ []) ∷ []

abbrev request_raw : Bytes
request_raw = 53 ∷ 1 ∷ 3 ∷ 50 ∷ 4 ∷ 10 ∷ 0 ∷ 0 ∷ 5 ∷ 255 ∷ []

request-Distinct : Distinct request_options
unfolding lookup
request-Distinct = (refl, (refl, tt))

encode_request : Options.encode request_options ≡ some request_raw
unfolding Options.encode
encode_request = refl

decode_with_pads : Options.decode_options (0 ∷ 0 ∷ request_raw) ≡ Options.ok request_options
unfolding Options.decode_options
decode_with_pads = refl

decode_cut_off : Options.decode_options (53 ∷ 4 ∷ 3 ∷ []) ≡ Options.truncated_option 53
unfolding Options.decode_options
decode_cut_off = refl

decode-encode_example :
    (o' : Options) × (Options.decode_options request_raw ≡ Options.ok o')
    × ((k : ℕ) → k ≢ 0 → k ≢ 255 → lookup k o' ≡ lookup k request_options)
decode-encode_example = decode-encode request_options request_raw request-Distinct encode_request

abbrev zero_ip : Bytes
zero_ip = 0 ∷ 0 ∷ 0 ∷ 0 ∷ []

abbrev pub request : Packet
request = record {
  op = 1;
  htype = 1;
  hlen = 6;
  hops = 0;
  xid = 305419896;
  secs = 3;
  flags = 32768;
  ciaddr = zero_ip;
  yiaddr = zero_ip;
  siaddr = zero_ip;
  giaddr = zero_ip;
  chaddr = 2 ∷ 0 ∷ 0 ∷ 0 ∷ 0 ∷ 7 ∷ replicate 10 0;
  sname = replicate 64 0;
  file = replicate 128 0;
  options = request_options;
}

request-IsFramed : IsFramed request
request-IsFramed = (omega arith, omega arith, omega arith, refl, refl, refl, refl, refl, refl, refl)

abbrev packet_raw : Bytes
packet_raw = Packet.encode_header request ++ request_raw

encode_packet : Packet.encode request ≡ some packet_raw
unfolding Packet.encode Options.encode
encode_packet = refl

client_mac_run : Packet.client_mac request ≡ 2 ∷ 0 ∷ 0 ∷ 0 ∷ 0 ∷ 7 ∷ []
unfolding Packet.client_mac
client_mac_run = refl

decode_packet-encode_example :
    (o : Options) × (Packet.decode_packet packet_raw ≡ Packet.ok (record request { options = o }))
    × ((k : ℕ) → k ≢ 0 → k ≢ 255 → lookup k o ≡ lookup k request.options)
decode_packet-encode_example =
    decode_packet-encode request packet_raw request-IsFramed request-Distinct encode_packet

relay_run : Relay.parse_relay_agent_info (1 ∷ 3 ∷ 32 ∷ 97 ∷ 10 ∷ 2 ∷ 1 ∷ 98 ∷ 1 ∷ 9 ∷ []) ≡ record {
  raw = 1 ∷ 3 ∷ 32 ∷ 97 ∷ 10 ∷ 2 ∷ 1 ∷ 98 ∷ 1 ∷ 9 ∷ [];
  circuit_id = 97 ∷ [];
  remote_id = 98 ∷ [];
}
unfolding Relay.parse_relay_agent_info
relay_run = refl

-- the pool 10.0.0.5 to 10.0.0.7 of 10.0.0.0/24, its first address taken
abbrev pool : SubnetPool
pool = record {
  id = b'a' ∷ [];
  prefix = record { address = 167772160; bits = 24 };
  start = 167772165;
  end = 167772167;
  bitmap = true ∷ false ∷ false ∷ [];
  gateway = 10 ∷ 0 ∷ 0 ∷ 1 ∷ [];
  dns = [];
  lease_dur = pos 3600000000000;
}

abbrev empty_manager : PoolManager
empty_manager = record { pools = []; order = (b'a' ∷ []) ∷ []; scope_provider = none }

abbrev pub manager : PoolManager
manager = with_pool empty_manager (b'a' ∷ []) pool

pool-IsPool : IsPool pool
pool-IsPool = (omega arith, omega arith, refl)

empty-IsKept : IsKept empty_manager
unfolding lookup
empty-IsKept id p e = absurd cc

manager-IsKept : IsKept manager
manager-IsKept = with_pool-IsKept empty_manager (b'a' ∷ []) pool empty-IsKept refl pool-IsPool

whole_range : Pool.effective_range none pool ≡ some (167772165, 167772167)
unfolding Pool.effective_range
whole_range = refl

next_free-IsLowest_example :
    ((v : ℕ) → Pool.next_free none pool ≡ some v → IsLowest pool 167772165 167772167 v)
    × (Pool.next_free none pool ≡ none → AreTaken pool 167772165 (167772167 + 1))
next_free-IsLowest_example =
    next_free-IsLowest none pool 167772165 167772167 whole_range (omega arith) (omega arith)

abbrev any_address : AllocationRequest
any_address = record { mac = []; client_id = []; requested_ip = []; relay_addr = [] }

abbrev pool_after : List Bool → SubnetPool
pool_after bits = record pool { bitmap = bits }

abbrev manager_after : List Bool → PoolManager
manager_after bits = with_pool manager (b'a' ∷ []) (pool_after bits)

abbrev pub result : Bytes → AllocationResult
result ip = record {
  ip = ip;
  subnet_id = b'a' ∷ [];
  prefix = record { address = 167772160; bits = 24 };
  gateway = 10 ∷ 0 ∷ 0 ∷ 1 ∷ [];
  dns = [];
  lease_duration = pos 3600000000000;
}

first_allocation :
    Pool.allocate_new manager any_address
    ≡ (manager_after (true ∷ true ∷ false ∷ []), some (result (10 ∷ 0 ∷ 0 ∷ 6 ∷ [])))
unfolding Pool.allocate_new lookup insert
first_allocation = refl

second_allocation :
    Pool.allocate_new (manager_after (true ∷ true ∷ false ∷ [])) any_address
    ≡ (manager_after (true ∷ true ∷ true ∷ []), some (result (10 ∷ 0 ∷ 0 ∷ 7 ∷ [])))
unfolding Pool.allocate_new lookup insert
second_allocation = refl

no_allocation :
    Pool.allocate_new (manager_after (true ∷ true ∷ true ∷ [])) any_address
    ≡ (manager_after (true ∷ true ∷ true ∷ []), none)
unfolding Pool.allocate_new lookup insert
no_allocation = refl

allocate_new-Takes_example :
    ((pm' : PoolManager) → Pool.allocate_new manager any_address ≡ (pm', none) → pm' ≡ manager)
    × ((pm' : PoolManager) (res : AllocationResult)
        → Pool.allocate_new manager any_address ≡ (pm', some res)
        → (id : Bytes) × (p : SubnetPool) × (u : ℕ) × Takes manager id p u pm' res)
allocate_new-Takes_example = allocate_new-Takes manager any_address manager-IsKept

allocate_new-distinct_example :
    (result (10 ∷ 0 ∷ 0 ∷ 6 ∷ [])).ip ≢ (result (10 ∷ 0 ∷ 0 ∷ 7 ∷ [])).ip
allocate_new-distinct_example =
    allocate_new-distinct manager (manager_after (true ∷ true ∷ false ∷ []))
      (manager_after (true ∷ true ∷ true ∷ [])) any_address any_address
      (result (10 ∷ 0 ∷ 0 ∷ 6 ∷ [])) (result (10 ∷ 0 ∷ 0 ∷ 7 ∷ [])) manager-IsKept first_allocation
      second_allocation refl

found_pool : lookup (b'a' ∷ []) manager.pools ≡ some pool
unfolding lookup insert equal
found_pool = refl

named_pool : is_nil (b'a' ∷ []) ≡ false
unfolding is_nil
named_pool = refl

given_address : is_nil (to4 (10 ∷ 0 ∷ 0 ∷ 5 ∷ [])) ≡ false
unfolding is_nil to4
given_address = refl

address_number : uint32 (to4 (10 ∷ 0 ∷ 0 ∷ 5 ∷ [])) ≡ 167772165
unfolding uint32 to4
address_number = refl

release-frees_example :
    (p : SubnetPool) × (lookup
        (b'a' ∷ [])
        (Setup.release manager (10 ∷ 0 ∷ 0 ∷ 5 ∷ []) (b'a' ∷ [])).pools
      ≡ some p)
    × (bit p (uint32 (to4 (10 ∷ 0 ∷ 0 ∷ 5 ∷ []))) ≡ false)
release-frees_example =
    release-frees manager (10 ∷ 0 ∷ 0 ∷ 5 ∷ []) (b'a' ∷ []) pool manager-IsKept named_pool
      found_pool given_address (omega (arith, address_number)) (omega (arith, address_number))
