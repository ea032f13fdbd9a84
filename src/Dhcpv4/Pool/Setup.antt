-- ===== src/Dhcpv4/Pool/Setup.antt =====
-- How pools are made and kept in step with the leases: `NewPoolManager`, `SyncFromLeases` and
-- `Release` of internal/dhcpv4/pool.go. The parsers of net and net/netip are arguments.
use monsoon.Prelude.{
  ◌⊎◌, inl, inr, ℕ, ◌+◌, ◌-◌, Bool, true, false, ◌&&◌, Option, none, some, List, [], ◌∷◌, ◌++◌, ltb,
  if◌then◌else◌, length, replicate, not, map, ℤ, is_not_positive,
}
use monsoon.Bytes.{Bytes, uint32}
use monsoon.GoMap.{Map, lookup, insert, bytes_eq}
use monsoon.Net.{Prefix, to4, is_nil, contains}
use monsoon.Lease.{Lease, LeaseState, bound, renewing, offered, quarantined, declined}
use monsoon.Dhcpv4.Pool
use monsoon.Dhcpv4.Pool.{SubnetPool, PoolManager}

-- the fields of `config.SubnetConfig` that the pools read
pub record SubnetConfig : Type 0 where
  pub cidr : Bytes
  pub gateway : Bytes
  pub dns : List Bytes
  pub enabled : Bool
  pub pool_start : Bytes
  pub pool_end : Bytes
  pub lease_time : ℤ

pub data SetupError : Type 0 where
  bad_subnet bad_pool_start bad_pool_end invalid_range : SetupError

-- the first pool, in the order of the walk over the map, that covers an address
unfoldable pub covering_pool : Map Bytes SubnetPool → ℕ → Option (Bytes × SubnetPool)
unfolding contains
covering_pool [] u = none
covering_pool ((id, pool) ∷ pools) u =
    let rest = covering_pool pools u in if contains pool.prefix u then some (id, pool) else rest

-- `markAllocated` and `markFree` where no pool has the id of the subnet
unfoldable pub mark_covering : PoolManager → Bytes → Bool → PoolManager
unfolding covering_pool Pool.set_used uint32
mark_covering pm ip used = elim (covering_pool pm.pools (uint32 ip)) [
  | none ↦ pm
  | some found ↦ Pool.with_pool pm found.0 (Pool.set_used found.1 ip used)
]

unfoldable pub mark_in : PoolManager → Bytes → Bytes → Bool → Option SubnetPool → PoolManager
unfolding mark_covering Pool.set_used is_nil
mark_in pm ip subnet_id used none = mark_covering pm ip used
mark_in pm ip subnet_id used (some pool) =
    if is_nil subnet_id
    then mark_covering pm ip used
    else Pool.with_pool pm subnet_id (Pool.set_used pool ip used)

-- `markAllocated` (`used` true) and `markFree` (`used` false)
unfoldable pub mark : PoolManager → Bytes → Bytes → Bool → PoolManager
unfolding mark_in lookup
mark pm ip subnet_id used = mark_in pm ip subnet_id used (lookup subnet_id pm.pools)

-- `Release`
unfoldable pub release : PoolManager → Bytes → Bytes → PoolManager
unfolding mark to4
release pm ip subnet_id = mark pm (to4 ip) subnet_id false

-- a lease that takes its address out of the pool
unfoldable pub takes_address : LeaseState → Bool
takes_address bound = true
takes_address renewing = true
takes_address offered = true
takes_address quarantined = true
takes_address declined = true
takes_address _ = false

unfoldable pub clear_pool : Bytes × SubnetPool → Bytes × SubnetPool
clear_pool (id, pool) = (id, record pool { bitmap = replicate (length pool.bitmap) false })

module _ (parse_ip : Bytes → Bytes) where
  unfoldable pub mark_lease : Lease → PoolManager → PoolManager
  unfolding takes_address mark to4 is_nil
  mark_lease l pm =
      let ip = to4 (parse_ip l.ip) in
      if takes_address l.state && not (is_nil ip) then mark pm ip l.subnet_id true else pm

  unfoldable pub mark_leases : List Lease → PoolManager → PoolManager
  unfolding mark_lease
  mark_leases [] pm = pm
  mark_leases (l ∷ ls) pm = mark_leases ls (mark_lease l pm)

  -- `SyncFromLeases`, given what `ListAll` answers
  unfoldable pub sync_from_leases : Option (List Lease) → PoolManager → PoolManager × Bool
  unfolding mark_leases clear_pool
  sync_from_leases none pm = (record pm { pools = map clear_pool pm.pools }, false)
  sync_from_leases (some leases) pm =
      (mark_leases leases (record pm { pools = map clear_pool pm.pools }), true)

  -- `parseIPs`
  unfoldable pub parse_ips : List Bytes → List Bytes
  unfolding to4 is_nil
  parse_ips [] = []
  parse_ips (s ∷ ss) =
      let ip = to4 (parse_ip s) in let rest = parse_ips ss in if is_nil ip then rest else ip ∷ rest

  module _ (parse_prefix : Bytes → Option Prefix) (parse_addr : Bytes → Option ℕ) where
    -- the pool of a subnet whose texts have been parsed
    unfoldable pub make_pool : ℤ → SubnetConfig → Prefix → ℕ → ℕ → SubnetPool ⊎ SetupError
    unfolding parse_ips to4
    make_pool default_lease s prefix start end =
        if ltb end start
        then inr invalid_range
        else inl (record {
          id = s.cidr;
          prefix = prefix;
          start = start;
          end = end;
          bitmap = replicate (end - start + 1) false;
          gateway = to4 (parse_ip s.gateway);
          dns = parse_ips s.dns;
          lease_dur = if is_not_positive s.lease_time then default_lease else s.lease_time;
        })

    -- the part of a round of `NewPoolManager` that can fail
    unfoldable pub parse_subnet : ℤ → SubnetConfig → SubnetPool ⊎ SetupError
    unfolding make_pool
    parse_subnet default_lease s = elim (parse_prefix s.cidr) [
      | none ↦ inr bad_subnet
      | some prefix ↦ elim (parse_addr s.pool_start) [
        | none ↦ inr bad_pool_start
        | some start ↦ elim (parse_addr s.pool_end) [
          | none ↦ inr bad_pool_end
          | some end ↦ make_pool default_lease s prefix start end
        ]
      ]
    ]

    unfoldable pub add_pool : SubnetPool → PoolManager → PoolManager
    unfolding insert
    add_pool pool pm = record pm {
      pools = insert pool.id pool pm.pools;
      order = pm.order ++ pool.id ∷ [];
    }

    unfoldable pub add_subnets : ℤ → List SubnetConfig → PoolManager → PoolManager ⊎ SetupError
    unfolding parse_subnet add_pool
    add_subnets default_lease [] pm = inl pm
    add_subnets default_lease (s ∷ ss) pm =
        let skipped = add_subnets default_lease ss pm in
        let added : PoolManager ⊎ SetupError = elim (parse_subnet default_lease s) [
          | inl pool ↦ add_subnets default_lease ss (add_pool pool pm)
          | inr e ↦ inr e
        ] in
        if s.enabled then added else skipped

    -- `NewPoolManager`; `leases` is what `ListAll` answers. An error of the first synchronisation
    -- is ignored.
    unfoldable pub new_pool_manager :
        List SubnetConfig → ℤ → Option (List Lease) → PoolManager ⊎ SetupError
    unfolding add_subnets sync_from_leases
    new_pool_manager subnets default_lease leases =
        elim (add_subnets default_lease subnets
          (record { pools = []; order = []; scope_provider = none })) [
            | inl pm ↦ inl (sync_from_leases leases pm).0
            | inr e ↦ inr e
          ]
