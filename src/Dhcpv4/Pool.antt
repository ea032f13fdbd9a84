-- ===== src/Dhcpv4/Pool.antt =====
-- The address pools, internal/dhcpv4/pool.go. A pool is found by its id, as the pointers of the
-- code are only ever reached through `pm.pools`; the parsers of net, and what the lease store
-- answers, are arguments.
pub mod Allocation
pub mod Distinct
pub mod Kept
pub mod Scan
pub mod Setup
use monsoon.Prelude.{
  ℕ, zero, suc, ◌+◌, ◌-◌, ◌%◌, ◌^◌, Bool, true, false, not, ◌&&◌, ◌||◌, Option, none, some, List,
  [], ◌∷◌, ◌++◌, ltb, leb, ◌==◌, if◌then◌else◌, length, get_or, set, replicate, ℤ, ltbℤ,
}
use monsoon.Bytes.{Bytes, uint32, put_uint32}
use monsoon.GoMap.{Map, lookup, insert, bytes_eq}
use monsoon.Net.{Prefix, to4, is_nil, contains}
use monsoon.Lease
use monsoon.Lease.{Lease, LeaseState, bound, renewing, offered}

pub record AllocationRequest : Type 0 where
  pub mac : Bytes
  pub client_id : Bytes
  pub requested_ip : Bytes
  pub relay_addr : Bytes

pub record AllocationResult : Type 0 where
  pub ip : Bytes
  pub subnet_id : Bytes
  pub prefix : Prefix
  pub gateway : Bytes
  pub dns : List Bytes
  pub lease_duration : ℤ

-- `AllocationScope`, `none` being `ok == false`
abbrev pub ScopeProvider : Type 0
ScopeProvider = Bytes → ℕ → ℕ → Option (ℕ × ℕ)

pub record SubnetPool : Type 0 where
  pub id : Bytes
  pub prefix : Prefix
  pub start : ℕ
  pub end : ℕ
  pub bitmap : List Bool
  pub gateway : Bytes
  pub dns : List Bytes
  pub lease_dur : ℤ

pub record PoolManager : Type 0 where
  pub pools : Map Bytes SubnetPool
  pub order : List Bytes
  pub scope_provider : Option ScopeProvider

-- `SetScopeProvider`
unfoldable pub set_scope_provider : Option ScopeProvider → PoolManager → PoolManager
set_scope_provider provider pm = record pm { scope_provider = provider }

unfoldable pub build_result : SubnetPool → Bytes → AllocationResult
build_result pool ip = record {
  ip = ip;
  subnet_id = pool.id;
  prefix = pool.prefix;
  gateway = pool.gateway;
  dns = pool.dns;
  lease_duration = pool.lease_dur;
}

-- the range that the provider narrows, inside that of the pool
unfoldable pub clamp : SubnetPool → ℕ × ℕ → Option (ℕ × ℕ)
clamp pool (start, end) =
    let start' = if ltb start pool.start then pool.start else start in
    let end' = if ltb pool.end end then pool.end else end in
    if ltb end' start' then none else some (start', end')

-- `effectiveRange` of a pool that is there
unfoldable pub effective_range : Option ScopeProvider → SubnetPool → Option (ℕ × ℕ)
unfolding clamp
effective_range none pool = some (pool.start, pool.end)
effective_range (some scope) pool = elim (scope pool.id pool.start pool.end) [
  | none ↦ none
  | some r ↦ clamp pool r
]

-- the bit of an address; the code would panic where the bitmap ends, which it never reaches
abbrev pub bit : SubnetPool → ℕ → Bool
bit pool u = get_or pool.bitmap (u - pool.start) true

-- `pool.bitmap[u-pool.start] = used`
unfoldable pub put_bit : SubnetPool → ℕ → Bool → SubnetPool
put_bit pool u used = record pool { bitmap = set pool.bitmap (u - pool.start) used }

-- `setUsed`
unfoldable pub set_used : SubnetPool → Bytes → Bool → SubnetPool
unfolding is_nil uint32 put_bit
set_used pool ip used =
    let u = uint32 ip in
    if is_nil ip || ltb u pool.start || ltb pool.end u then pool else put_bit pool u used

-- `for u := start; u <= end; u++` of `nextFree`, where `u` is a uint32
unfoldable pub scan_free : ℕ → SubnetPool → ℕ → ℕ → Option ℕ
scan_free zero pool u end = none
scan_free (suc fuel) pool u end =
    let rest = scan_free fuel pool ((u + 1) % 2 ^ 32) end in
    if not (leb u end)
    then none
    else if not (bit pool u)
    then some u
    else if u == 2 ^ 32 - 1
    then none
    else rest

-- `nextFree`; a range of n addresses takes n rounds and one more test
unfoldable pub next_free : Option ScopeProvider → SubnetPool → Option ℕ
unfolding effective_range scan_free
next_free scope pool = elim (effective_range scope pool) [
  | none ↦ none
  | some (start, end) ↦ scan_free (suc (suc (end - start))) pool start end
]

-- the test of one pool in `tryAllocateSpecific`: in the range and free
unfoldable pub is_free_in : Option ScopeProvider → SubnetPool → ℕ → Bool
unfolding effective_range
is_free_in scope pool u = elim (effective_range scope pool) [
  | none ↦ false
  | some (start, end) ↦ not (ltb u start || ltb end u) && not (bit pool u)
]

-- `pm.pools[id]` with `pool` in its place
abbrev pub with_pool : PoolManager → Bytes → SubnetPool → PoolManager
with_pool pm id pool = record pm { pools = insert id pool pm.pools }

abbrev pub Allocated : Type 0
Allocated = PoolManager × Option AllocationResult

-- a round of `tryAllocateSpecific`, on the pool that an id names
unfoldable pub try_pool :
    PoolManager → Bytes → ℕ → Bytes → Option SubnetPool → Allocated → Allocated
unfolding is_free_in put_bit build_result
try_pool pm id u ip none rest = rest
try_pool pm id u ip (some pool) rest =
    if is_free_in pm.scope_provider pool u
    then (with_pool pm id (put_bit pool u true), some (build_result pool ip))
    else rest

-- `tryAllocateSpecific`
unfoldable pub try_allocate_specific : PoolManager → List Bytes → Bytes → Allocated
unfolding try_pool is_nil uint32 lookup
try_allocate_specific pm [] ip = (pm, none)
try_allocate_specific pm (id ∷ ids) ip =
    let rest = try_allocate_specific pm ids ip in
    if is_nil ip then (pm, none) else try_pool pm id (uint32 ip) ip (lookup id pm.pools) rest

-- a pool with a free address: `setUsed` and `buildResult`
unfoldable pub take_free : PoolManager → Bytes → SubnetPool → Option ℕ → Allocated → Allocated
unfolding set_used build_result put_uint32
take_free pm id pool none rest = rest
take_free pm id pool (some u) rest =
    let ip = put_uint32 u in (with_pool pm id (set_used pool ip true), some (build_result pool ip))

-- a round of the last loop of `Allocate`
unfoldable pub take_from : PoolManager → Bytes → Option SubnetPool → Allocated → Allocated
unfolding take_free next_free
take_from pm id none rest = rest
take_from pm id (some pool) rest = take_free pm id pool (next_free pm.scope_provider pool) rest

-- the last loop of `Allocate`
unfoldable pub allocate_next : PoolManager → List Bytes → Allocated
unfolding take_from lookup
allocate_next pm [] = (pm, none)
allocate_next pm (id ∷ ids) =
    let rest = allocate_next pm ids in take_from pm id (lookup id pm.pools) rest

-- whether the pool of an id covers an address
unfoldable pub covers : PoolManager → Bytes → ℕ → Bool
unfolding contains lookup
covers pm id u = elim (lookup id pm.pools) [ none ↦ false | some pool ↦ contains pool.prefix u ]

-- the first pool in the order that covers an address
unfoldable pub first_covering : PoolManager → List Bytes → ℕ → Option Bytes
unfolding covers
first_covering pm [] u = none
first_covering pm (id ∷ ids) u =
    let rest = first_covering pm ids u in if covers pm id u then some id else rest

-- `selectCandidatePools`
unfoldable pub select_candidate_pools : PoolManager → AllocationRequest → List Bytes
unfolding first_covering to4 is_nil uint32
select_candidate_pools pm req =
    if is_nil (to4 req.relay_addr)
    then pm.order
    else elim (first_covering pm pm.order (uint32 (to4 req.relay_addr))) [
      | none ↦ pm.order
      | some id ↦ id ∷ []
    ]

-- the address asked for, or the next free one where that failed
unfoldable pub or_next : List Bytes → Allocated → Allocated
unfolding allocate_next
or_next candidates (pm, some res) = (pm, some res)
or_next candidates (pm, none) = allocate_next pm candidates

-- `Allocate` behind the search for a lease that the client holds
unfoldable pub allocate_new : PoolManager → AllocationRequest → Allocated
unfolding select_candidate_pools try_allocate_specific or_next to4
allocate_new pm req =
    let candidates = select_candidate_pools pm req in
    or_next candidates (try_allocate_specific pm candidates (to4 req.requested_ip))

-- a lease that its client may go on using
unfoldable pub is_held : ℤ → Lease → Bool
is_held now l =
    if ltbℤ l.expiry_time now
    then false
    else elim l.state [ bound ↦ true | renewing ↦ true | offered ↦ true | _ ↦ false ]

-- `net.ParseIP(text).To4()` is an argument of what reads a lease's address
module _ (parse_ip : Bytes → Bytes) where
  -- a round of the loop over the client's leases
  unfoldable pub reuse_lease : PoolManager → ℤ → Lease → Option SubnetPool → Allocated → Allocated
  unfolding is_held is_nil to4 set_used build_result
  reuse_lease pm now l none rest = rest
  reuse_lease pm now l (some pool) rest =
      let ip = to4 (parse_ip l.ip) in
      if is_held now l && not (is_nil ip)
      then (with_pool pm l.subnet_id (set_used pool ip true), some (build_result pool ip))
      else rest

  unfoldable pub reuse_leases : PoolManager → ℤ → List Lease → Allocated → Allocated
  unfolding reuse_lease lookup
  reuse_leases pm now [] rest = rest
  reuse_leases pm now (l ∷ ls) rest =
      reuse_lease pm now l (lookup l.subnet_id pm.pools) (reuse_leases pm now ls rest)

  -- `Allocate`, given what `GetByMAC` answers; an error of it counts as no lease
  unfoldable pub allocate : PoolManager → ℤ → Option (List Lease) → AllocationRequest → Allocated
  unfolding reuse_leases allocate_new is_nil
  allocate pm now none req = allocate_new pm req
  allocate pm now (some leases) req =
      if is_nil req.mac
      then allocate_new pm req
      else reuse_leases pm now leases (allocate_new pm req)
