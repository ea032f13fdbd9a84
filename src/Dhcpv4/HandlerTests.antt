-- ===== src/Dhcpv4/HandlerTests.antt =====
-- The handler's, the sweeper's and the leases' theorems at concrete values, and runs.
use monsoon.Prelude.{ℕ, ◌^◌, ◌≤◌, ◌<◌, true, none, some, List, [], ◌∷◌, ◌≡◌, refl, pos}
use monsoon.Bytes.{put_uint32}
use monsoon.GoMap.{lookup, nat_eq, bytes_eq}
use monsoon.Lease.{Lease, bound, expired, released, normalize_defaults}
use monsoon.Lease.Store.{Store}
use monsoon.Lease.Sweeper
use monsoon.Lease.Sweeper.{Sweeper, sweep_lease}
use monsoon.Dhcpv4.Reply
use monsoon.Dhcpv4.Handler
use monsoon.Dhcpv4.Handler.{Handler, NetText, World, Reply}
use monsoon.Dhcpv4.Handler.Messages
use monsoon.Dhcpv4.Handler.Safety.{Answer, handle_request-Answer}
use monsoon.Dhcpv4.Handler.Timers.{lease_options-ordered}
use monsoon.Dhcpv4.Tests.{request, manager, result}

-- a store that keeps the leases in a list and never fails
abbrev list_store : Store (List Lease)
list_store = record {
  get_by_ip = λ ls ip. none;
  get_by_mac = λ ls mac. some [];
  list_expiring_before = λ ls t. some ls;
  upsert = λ l ls. (l ∷ ls, true);
}

-- the bytes of an address as its text
abbrev plain_text : NetText
plain_text = record { parse_ip = λ s. s; ip_string = λ s. s; mac_string = λ s. s }

abbrev handler : Handler
handler = Handler.new_handler (10 ∷ 0 ∷ 0 ∷ 2 ∷ []) (pos 0) (pos 0)

abbrev world : World (List Lease)
world = record { leases = []; pools = manager; events = [] }

handle_request-Answer_example :
    Answer list_store plain_text handler
      (pos 7)
      request
      world
      (Messages.handle_request list_store plain_text handler (pos 7) request world)
handle_request-Answer_example =
    handle_request-Answer list_store plain_text handler (pos 7) request world

-- an INFORM changes nothing and is answered with two options
inform_run :
    (Messages.handle list_store plain_text handler
      (pos 7)
      (record request { options = (53, 8 ∷ []) ∷ [] })
      world).0
    ≡ world
unfolding Messages.handle
inform_run = refl

missing_type_run :
    (Messages.handle list_store plain_text handler
      (pos 7)
      (record request { options = [] })
      world).1
    ≡ Handler.missing_type
unfolding Messages.handle
missing_type_run = refl

lease_options-ordered_example :
    (sec t1 t2 : ℕ) × (lookup 51 (Handler.lease_options handler 5 (result []))
      ≡ some (put_uint32 sec))
    × (lookup 58 (Handler.lease_options handler 5 (result [])) ≡ some (put_uint32 t1))
    × (lookup 59 (Handler.lease_options handler 5 (result [])) ≡ some (put_uint32 t2))
    × (t1 ≤ t2)
    × (t2 ≤ sec)
    × (sec < 2 ^ 32)
lease_options-ordered_example = lease_options-ordered handler 5 (result [])

abbrev lease : Lease
lease = record {
  ip = 10 ∷ [];
  mac = 2 ∷ [];
  client_id = [];
  hostname = [];
  state = bound;
  start_time = pos 0;
  duration = pos 0;
  t1 = pos 0;
  t2 = pos 0;
  expiry_time = pos 90;
  quarantine_until = pos 0;
  subnet_id = [];
  relay_addr = [];
  relay_info = [];
  circuit_id = [];
  remote_id = [];
  vendor_class = [];
  user_class = [];
  last_seen = pos 0;
  ddns_forward = [];
  ddns_reverse = [];
  tags = [];
  created_at = pos 0;
  updated_at = pos 0;
}

rebinding_run : (normalize_defaults (pos 100) (pos 80) lease).t2 ≡ pos 70
unfolding normalize_defaults
rebinding_run = refl

abbrev sweeper : Sweeper
sweeper = record { interval = pos 30; quarantine = pos 50 }

abbrev expired_lease : Lease
expired_lease = record lease { state = expired; quarantine_until = pos 150; updated_at = pos 100 }

expiry_run : sweep_lease sweeper (pos 100) lease ≡ some expired_lease
unfolding sweep_lease
expiry_run = refl

-- a lease that its client has released stays as it is
released_run : sweep_lease sweeper (pos 100) (record lease { state = released }) ≡ none
unfolding sweep_lease
released_run = refl

tick_run :
    Sweeper.tick list_store sweeper (pos 100) (lease ∷ [])
    ≡ (expired_lease ∷ lease ∷ [], expired_lease ∷ [])
unfolding Sweeper.tick
tick_run = refl

reply_run :
    Reply.response_target request none (record request { yiaddr = 10 ∷ 0 ∷ 0 ∷ 5 ∷ [] })
    ≡ some (record { ip = 10 ∷ 0 ∷ 0 ∷ 5 ∷ []; port = 68 })
unfolding Reply.response_target
reply_run = refl
