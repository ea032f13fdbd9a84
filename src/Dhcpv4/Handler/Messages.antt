-- ===== src/Dhcpv4/Handler/Messages.antt =====
-- `Handle` of internal/dhcpv4/handler.go and the handlers it calls, one function each.
use monsoon.Prelude.{
  ◌==◌, ℕ, Bool, true, false, ◌&&◌, ◌||◌, Option, none, some, [], ◌∷◌, ◌++◌, if◌then◌else◌, ℤ, pos,
  ◌+ℤ◌,
}
use monsoon.Bytes.{Bytes}
use monsoon.GoMap.{lookup, nat_eq}
use monsoon.Net.{is_nil}
use monsoon.Lease.{Lease, LeaseState, free, offered, bound, released, declined}
use monsoon.Lease.Store.{Store}
use monsoon.Dhcpv4.Options
use monsoon.Dhcpv4.Packet
use monsoon.Dhcpv4.Packet.{Packet}
use monsoon.Dhcpv4.Relay
use monsoon.Dhcpv4.Reply.{is_zero_ipv4}
use monsoon.Dhcpv4.Pool
use monsoon.Dhcpv4.Pool.{PoolManager, AllocationRequest, AllocationResult}
use monsoon.Dhcpv4.Pool.Setup.{release}
use monsoon.Dhcpv4.Handler
use monsoon.Dhcpv4.Handler.{
  Handler, Event, NetText, World, Reply, created, renewed, lease_released, conflict, reply,
  no_reply, missing_type, no_address, store_failed,
}

-- the event of `handleRequest`: renewed where the address had a lease that is not free
unfoldable pub request_event : Option Lease → Event
request_event none = created
request_event (some old) = elim old.state [ free ↦ created | _ ↦ renewed ]

-- the relay information of a lease
unfoldable pub with_relay : Packet → Lease → Lease
unfolding lookup Relay.parse_relay_agent_info
with_relay req l = elim (lookup Options.option_relay_agent_info req.options) [
  | none ↦ l
  | some raw ↦
      let info = Relay.parse_relay_agent_info raw in
      record l { relay_info = info.raw; circuit_id = info.circuit_id; remote_id = info.remote_id }
]

module _ {S : Type 0} (store : Store S) (net : NetText) (h : Handler) (now : ℤ) where
  -- the request for an address that the handlers make
  unfoldable pub request_for : Packet → Bytes → AllocationRequest
  unfolding Packet.client_mac Options.client_identifier
  request_for req ip = record {
    mac = net.mac_string (Packet.client_mac req);
    client_id = Options.client_identifier req.options;
    requested_ip = ip;
    relay_addr = req.giaddr;
  }

  -- the lease of an address that has been found
  unfoldable pub new_lease : Packet → LeaseState → AllocationResult → Lease
  unfolding Packet.client_mac Options.client_identifier Options.hostname Options.vendor_class
      Options.user_class ◌+ℤ◌
  new_lease req state alloc = record {
    ip = net.ip_string alloc.ip;
    mac = net.mac_string (Packet.client_mac req);
    client_id = Options.client_identifier req.options;
    hostname = Options.hostname req.options;
    state = state;
    start_time = now;
    duration = alloc.lease_duration;
    t1 = pos 0;
    t2 = pos 0;
    expiry_time = now +ℤ alloc.lease_duration;
    quarantine_until = pos 0;
    subnet_id = alloc.subnet_id;
    relay_addr = net.ip_string req.giaddr;
    relay_info = [];
    circuit_id = [];
    remote_id = [];
    vendor_class = Options.vendor_class req.options;
    user_class = Options.user_class req.options;
    last_seen = now;
    ddns_forward = [];
    ddns_reverse = [];
    tags = [];
    created_at = pos 0;
    updated_at = pos 0;
  }

  unfoldable pub tell : Bool → Event → Lease → World S → World S
  tell wanted e l w =
      if wanted && h.has_listener then record w { events = w.events ++ (e, l) ∷ [] } else w

  -- `Allocate` with the leases that the store has for the client
  unfoldable pub allocate_for : Packet → Bytes → World S → PoolManager × Option AllocationResult
  unfolding request_for Pool.allocate
  allocate_for req ip w =
      let r = request_for req ip in
      Pool.allocate net.parse_ip w.pools now (store.get_by_mac w.leases r.mac) r

  -- a reply once the store has taken the lease; an error of the store is returned
  unfoldable pub stored : S × Bool → Bool → Event → Lease → Packet → World S → World S × Reply
  unfolding tell
  stored (st, true) wanted e l resp w = (tell wanted e l (record w { leases = st }), reply resp)
  stored (st, false) wanted e l resp w = (record w { leases = st }, store_failed)

  -- `handleDiscover` where an address has been found
  unfoldable pub discover_with :
      Packet → Bool → PoolManager × Option AllocationResult → World S → World S × Reply
  unfolding with_relay new_lease stored Handler.grant Options.enable_rapid_commit
  discover_with req rapid (pm, none) w = (record w { pools = pm }, no_address)
  discover_with req rapid (pm, some alloc) w =
      let l = with_relay req (new_lease req (if rapid then bound else offered) alloc) in
      let resp =
        Handler.grant h req (if rapid then Options.message_ack else Options.message_offer) alloc in
      let marked = record resp { options = Options.enable_rapid_commit resp.options } in
      stored (store.upsert l w.leases) rapid created l (if rapid then marked else resp)
        (record w { pools = pm })

  -- `handleDiscover`
  unfoldable pub handle_discover : Packet → Bool → World S → World S × Reply
  unfolding allocate_for discover_with Options.requested_ip
  handle_discover req rapid w =
      discover_with req rapid (allocate_for req (Options.requested_ip req.options) w) w

  -- `handleRequest` behind `Allocate`
  unfoldable pub request_with :
      Packet → PoolManager × Option AllocationResult → World S → World S × Reply
  unfolding new_lease stored request_event Handler.grant Handler.nak
  request_with req (pm, none) w = (record w { pools = pm }, reply (Handler.nak h req))
  request_with req (pm, some alloc) w =
      let old = store.get_by_ip w.leases (net.ip_string alloc.ip) in
      let l = new_lease req bound alloc in
      stored (store.upsert l w.leases) true (request_event old) l
        (Handler.grant h req Options.message_ack alloc) (record w { pools = pm })

  -- `handleRequest`
  unfoldable pub handle_request : Packet → World S → World S × Reply
  unfolding allocate_for request_with Handler.target_ip
  handle_request req w = request_with req (allocate_for req (Handler.target_ip req) w) w

  unfoldable pub release_stored : S × Bool → Bytes → Lease → World S → World S × Reply
  unfolding tell release
  release_stored (st, true) ip l w =
      let w' = tell true lease_released l (record w { leases = st }) in
      (record w' { pools = release w'.pools ip l.subnet_id }, no_reply)
  release_stored (st, false) ip l w = (record w { leases = st }, store_failed)

  unfoldable pub release_lease : Bytes → Option Lease → World S → World S × Reply
  unfolding release_stored
  release_lease ip none w = (w, no_reply)
  release_lease ip (some l) w =
      let l' = record l { state = released; updated_at = now; expiry_time = now } in
      release_stored (store.upsert l' w.leases) ip l' w

  -- `handleRelease`
  unfoldable pub handle_release : Packet → World S → World S × Reply
  unfolding release_lease Handler.released_ip is_nil
  handle_release req w =
      let ip = Handler.released_ip req in
      if is_nil ip
      then (w, no_reply)
      else release_lease ip (store.get_by_ip w.leases (net.ip_string ip)) w

  unfoldable pub decline_stored : S × Bool → Lease → World S → World S × Reply
  unfolding tell
  decline_stored (st, true) l w = (tell true conflict l (record w { leases = st }), no_reply)
  decline_stored (st, false) l w = (record w { leases = st }, store_failed)

  -- the lease of a declined address: fifteen minutes of quarantine
  unfoldable pub decline_lease : Option Lease → World S → World S × Reply
  unfolding decline_stored ◌+ℤ◌
  decline_lease none w = (w, no_reply)
  decline_lease (some l) w =
      let l' = record l {
        state = declined;
        quarantine_until = now +ℤ pos 900000000000;
        updated_at = now;
      } in
      decline_stored (store.upsert l' w.leases) l' w

  -- `handleDecline`
  unfoldable pub handle_decline : Packet → World S → World S × Reply
  unfolding decline_lease Handler.declined_ip is_nil is_zero_ipv4
  handle_decline req w =
      let ip = Handler.declined_ip req in
      if is_nil ip || is_zero_ipv4 ip
      then (w, no_reply)
      else decline_lease (store.get_by_ip w.leases (net.ip_string ip)) w

  -- the `switch` of `Handle`
  unfoldable pub handle_type : Option ℕ → Packet → World S → World S × Reply
  unfolding handle_discover handle_request handle_release handle_decline Handler.handle_inform
      Options.has_rapid_commit
  handle_type none req w = (w, missing_type)
  handle_type (some t) req w =
      if t == Options.message_discover
      then handle_discover req (Options.has_rapid_commit req.options) w
      else if t == Options.message_request
      then handle_request req w
      else if t == Options.message_release
      then handle_release req w
      else if t == Options.message_decline
      then handle_decline req w
      else if t == Options.message_inform
      then (w, reply (Handler.handle_inform h req))
      else (w, no_reply)

  -- `Handle`
  unfoldable pub handle : Packet → World S → World S × Reply
  unfolding handle_type Options.message_type
  handle req w = handle_type (Options.message_type req.options) req w
