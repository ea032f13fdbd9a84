-- ===== src/Dhcpv4/Pool/Allocation.antt =====
-- What an allocation takes: an address of a pool's range that was free, and nothing else changes.
use monsoon.Prelude.{
  ℕ, ◌+◌, ◌-◌, ◌^◌, ◌≤◌, ◌<◌, Bool, true, false, not, ◌&&◌, ◌||◌, Option, none, some, List, [], ◌∷◌,
  ◌≡◌, inl, inr, refl, sym, ap, arith, ltb, Bool-cases, Option-cases, length,
}
use mathlib.Core.Path.{subst}
use monsoon.Bytes.{Bytes, uint32, put_uint32}
use monsoon.Bytes.BigEndian.{uint32-put}
use monsoon.GoMap.{lookup, bytes_eq}
use monsoon.Net.{to4, is_nil}
use monsoon.Dhcpv4.Pool
use monsoon.Dhcpv4.Pool.{
  SubnetPool, PoolManager, ScopeProvider, AllocationRequest, AllocationResult, Allocated, bit,
  put_bit, with_pool,
}
use monsoon.Dhcpv4.Pool.Scan.{next_free-IsLowest}

-- The range of a pool is one of IPv4 addresses, and its bitmap has a bit for each of them.
abbrev pub IsPool : SubnetPool → Type 0
IsPool pool =
    (pool.start ≤ pool.end) × (pool.end < 2 ^ 32) × (length pool.bitmap ≡ pool.end - pool.start + 1)

-- Every pool stands under its id and is well formed.
abbrev pub IsKept : PoolManager → Type 0
IsKept pm =
    (id : Bytes) (pool : SubnetPool) → lookup id pm.pools ≡ some pool → (pool.id ≡ id) × IsPool pool

-- An allocation takes the address `u` of the pool under `id`, which was free.
abbrev pub Takes : PoolManager → Bytes → SubnetPool → ℕ → PoolManager → AllocationResult → Type 0
Takes pm id pool u pm' res =
    (lookup id pm.pools ≡ some pool)
    × (pool.start ≤ u)
    × (u ≤ pool.end)
    × (bit pool u ≡ false)
    × (pm' ≡ with_pool pm id (put_bit pool u true))
    × (uint32 res.ip ≡ u)
    × (res.subnet_id ≡ pool.id)

-- what an allocation may come to
abbrev pub Outcome : PoolManager → Allocated → Type 0
Outcome pm (pm', none) = pm' ≡ pm
Outcome pm (pm', some res) =
    (id : Bytes) × (pool : SubnetPool) × (u : ℕ) × Takes pm id pool u pm' res

pub effective_range-inside :
    (scope : Option ScopeProvider) (pool : SubnetPool) (start end : ℕ)
    → IsPool pool
    → Pool.effective_range scope pool ≡ some (start, end)
    → (pool.start ≤ start) × (end ≤ pool.end) × (start ≤ end)
unfolding Pool.effective_range Pool.clamp
effective_range-inside none pool start end (o, s, l) e = ground arith
effective_range-inside (some scope) pool start end (o, s, l) e =
    elim (Option-cases (scope pool.id pool.start pool.end)) [
      | inl absent ↦ let h : none ≡ some (start, end) = rw absent at e in cc
      | inr ((a, b), found) ↦
          let h : Pool.clamp pool (a, b) ≡ some (start, end) = rw found at e in clamped a b h
    ]
  where
    clamped :
        (a b : ℕ)
        → Pool.clamp pool (a, b) ≡ some (start, end)
        → (pool.start ≤ start) × (end ≤ pool.end) × (start ≤ end)
    clamped a b h = ground arith

is_nil-put_uint32 : (u : ℕ) → is_nil (put_uint32 u) ≡ false
unfolding is_nil put_uint32
is_nil-put_uint32 u = refl

not_ltb : (a b : ℕ) → b ≤ a → ltb a b ≡ false
not_ltb a b h = ground arith

-- `setUsed` on an address of the pool's range
set_used-in_range :
    (pool : SubnetPool) (u : ℕ)
    → u < 2 ^ 32
    → pool.start ≤ u
    → u ≤ pool.end
    → Pool.set_used pool (put_uint32 u) true ≡ put_bit pool u true
unfolding Pool.set_used
set_used-in_range pool u small low high =
    rw (uint32-put u small, is_nil-put_uint32 u, not_ltb u pool.start low, not_ltb pool.end u high)
      refl

next_free-inside :
    (scope : Option ScopeProvider) (pool : SubnetPool) (u : ℕ)
    → IsPool pool
    → Pool.next_free scope pool ≡ some u
    → (pool.start ≤ u) × (u ≤ pool.end) × (bit pool u ≡ false)
unfolding Pool.next_free
next_free-inside scope pool u p e = elim (Option-cases (Pool.effective_range scope pool)) [
  | inl absent ↦ let h : none ≡ some u = rw (absent, Pool.next_free) at e in cc
  | inr ((start, end), found) ↦
      let (low, high, order) = effective_range-inside scope pool start end p found in
      let lowest =
        (next_free-IsLowest scope pool start end found (omega (arith, p.1)) order).0 u e in
      (omega (arith, lowest.0), omega (arith, lowest.1), lowest.2)
]

is_free_in-inside :
    (scope : Option ScopeProvider) (pool : SubnetPool) (u : ℕ)
    → IsPool pool
    → Pool.is_free_in scope pool u ≡ true
    → (pool.start ≤ u) × (u ≤ pool.end) × (bit pool u ≡ false)
unfolding Pool.is_free_in
is_free_in-inside scope pool u p e = elim (Option-cases (Pool.effective_range scope pool)) [
  | inl absent ↦ let h : false ≡ true = rw (absent, Pool.is_free_in) at e in cc
  | inr ((start, end), found) ↦
      let (low, high, order) = effective_range-inside scope pool start end p found in
      let h : (not (ltb u start || ltb end u) && not (bit pool u)) ≡ true =
        rw (found, Pool.is_free_in) at e in
      within start end (bit pool u) low high h
]
  where
    within :
        (start end : ℕ) (b : Bool)
        → pool.start ≤ start
        → end ≤ pool.end
        → (not (ltb u start || ltb end u) && not b) ≡ true
        → (pool.start ≤ u) × (u ≤ pool.end) × (b ≡ false)
    within start end b low high h = ground arith

try_pool-Outcome :
    (pm : PoolManager) (id ip : Bytes) (found : Option SubnetPool) (rest : Allocated)
    → IsKept pm
    → lookup id pm.pools ≡ found
    → Outcome pm rest
    → Outcome pm (Pool.try_pool pm id (uint32 ip) ip found rest)
unfolding Pool.try_pool
try_pool-Outcome pm id ip none rest kept e r = r
try_pool-Outcome pm id ip (some pool) rest kept e r =
    elim (Bool-cases (Pool.is_free_in pm.scope_provider pool (uint32 ip))) [
      | inl fits ↦
          let (low, high, clear) =
            is_free_in-inside pm.scope_provider pool (uint32 ip) (kept id pool e).1 fits in
          rw fits (id, pool, uint32 ip, (e, low, high, clear, refl, refl, refl))
      | inr taken ↦ rw taken r
    ]

take_from-Outcome :
    (pm : PoolManager) (id : Bytes) (found : Option SubnetPool) (rest : Allocated)
    → IsKept pm
    → lookup id pm.pools ≡ found
    → Outcome pm rest
    → Outcome pm (Pool.take_from pm id found rest)
unfolding Pool.take_from Pool.take_free
take_from-Outcome pm id none rest kept e r = r
take_from-Outcome pm id (some pool) rest kept e r =
    elim (Option-cases (Pool.next_free pm.scope_provider pool)) [
      | inl full ↦ rw full r
      | inr (u, free) ↦
          let p = (kept id pool e).1 in
          let (low, high, clear) = next_free-inside pm.scope_provider pool u p free in
          let small : u < 2 ^ 32 = omega (arith, p.1) in
          rw free (
            id,
            pool,
            u,
            (
              e,
              low,
              high,
              clear,
              ap (with_pool pm id) (set_used-in_range pool u small low high),
              uint32-put u small,
              refl,
            ),
          )
    ]

allocate_next-Outcome :
    (pm : PoolManager) (ids : List Bytes) → IsKept pm → Outcome pm (Pool.allocate_next pm ids)
unfolding Pool.allocate_next
allocate_next-Outcome pm [] kept = refl
allocate_next-Outcome pm (id ∷ ids) kept =
    take_from-Outcome pm id (lookup id pm.pools) (Pool.allocate_next pm ids) kept refl
      (allocate_next-Outcome pm ids kept)

try_allocate_specific-Outcome :
    (pm : PoolManager) (ids : List Bytes) (ip : Bytes)
    → IsKept pm
    → Outcome pm (Pool.try_allocate_specific pm ids ip)
unfolding Pool.try_allocate_specific
try_allocate_specific-Outcome pm [] ip kept = refl
try_allocate_specific-Outcome pm (id ∷ ids) ip kept = elim (Bool-cases (is_nil ip)) [
  | inl nil ↦ rw nil refl
  | inr there ↦ rw there (
      try_pool-Outcome pm id ip (lookup id pm.pools) (Pool.try_allocate_specific pm ids ip) kept
        refl (try_allocate_specific-Outcome pm ids ip kept))
]

or_next-Outcome :
    (pm : PoolManager) (ids : List Bytes) (r : Allocated)
    → IsKept pm
    → Outcome pm r
    → Outcome pm (Pool.or_next ids r)
unfolding Pool.or_next
or_next-Outcome pm ids (pm', none) kept e =
    subst (λ x. Outcome pm (Pool.allocate_next x ids)) (sym e) (allocate_next-Outcome pm ids kept)
or_next-Outcome pm ids (pm', some res) kept o = o

allocate_new-Outcome :
    (pm : PoolManager) (req : AllocationRequest) → IsKept pm → Outcome pm (Pool.allocate_new pm req)
unfolding Pool.allocate_new
allocate_new-Outcome pm req kept =
    let ids = Pool.select_candidate_pools pm req in
    or_next-Outcome pm ids (Pool.try_allocate_specific pm ids (to4 req.requested_ip)) kept
      (try_allocate_specific-Outcome pm ids (to4 req.requested_ip) kept)

-- A new allocation that succeeds takes one address that was free, inside the range of a pool that
-- is there, sets its bit and changes nothing else; one that fails changes nothing.
pub allocate_new-Takes :
    (pm : PoolManager) (req : AllocationRequest)
    → IsKept pm
    → ((pm' : PoolManager) → Pool.allocate_new pm req ≡ (pm', none) → pm' ≡ pm)
      × ((pm' : PoolManager) (res : AllocationResult)
          → Pool.allocate_new pm req ≡ (pm', some res)
          → (id : Bytes) × (pool : SubnetPool) × (u : ℕ) × Takes pm id pool u pm' res)
allocate_new-Takes pm req kept = (
  λ pm' e. subst (Outcome pm) e (allocate_new-Outcome pm req kept),
  λ pm' res e. subst (Outcome pm) e (allocate_new-Outcome pm req kept),
)
