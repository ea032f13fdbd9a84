-- ===== src/Dhcpv4/Pool/Kept.antt =====
-- Well-formed pools stay so when leases are marked and released.
use monsoon.Prelude.{
  ℕ, ◌≤◌, Bool, false, ◌||◌, some, ◌≡◌, inl, inr, refl, ◌∙◌, arith, ltb, Bool-cases,
}
use monsoon.Bytes.{Bytes, uint32}
use monsoon.GoMap.{lookup, bytes_eq}
use monsoon.GoMap.Laws.{lookup-insert_self}
use monsoon.Net.{to4, is_nil}
use monsoon.Dhcpv4.Pool
use monsoon.Dhcpv4.Pool.{SubnetPool, PoolManager, bit, put_bit, with_pool}
use monsoon.Dhcpv4.Pool.Allocation.{IsPool, IsKept}
use monsoon.Dhcpv4.Pool.Distinct.{with_pool-IsKept, put_bit-IsPool, put_bit-id, bit-put_bit}
use monsoon.Dhcpv4.Pool.Setup
use monsoon.Dhcpv4.Pool.Setup.{SubnetConfig, SetupError}

set_used-IsPool :
    (pool : SubnetPool) (ip : Bytes) (b : Bool)
    → IsPool pool
    → ((Pool.set_used pool ip b).id ≡ pool.id) × IsPool (Pool.set_used pool ip b)
unfolding Pool.set_used
set_used-IsPool pool ip b p =
    elim (Bool-cases (is_nil ip || ltb (uint32 ip) pool.start || ltb pool.end (uint32 ip))) [
      | inl out ↦ rw out (refl, p)
      | inr within ↦ rw within (put_bit-id pool (uint32 ip) b, put_bit-IsPool pool (uint32 ip) b p)
    ]

marked-IsKept :
    (pm : PoolManager) (id ip : Bytes) (pool : SubnetPool) (b : Bool)
    → IsKept pm
    → (pool.id ≡ id) × IsPool pool
    → IsKept (with_pool pm id (Pool.set_used pool ip b))
marked-IsKept pm id ip pool b kept (same, p) =
    let (i, q) = set_used-IsPool pool ip b p in
    with_pool-IsKept pm id (Pool.set_used pool ip b) kept (i ∙ same) q

-- An address that its pool covers is free once it is released, whatever was known of it.
pub release-frees :
    (pm : PoolManager) (ip id : Bytes) (pool : SubnetPool)
    → IsKept pm
    → is_nil id ≡ false
    → lookup id pm.pools ≡ some pool
    → is_nil (to4 ip) ≡ false
    → pool.start ≤ uint32 (to4 ip)
    → uint32 (to4 ip) ≤ pool.end
    → (pool' : SubnetPool) × (lookup id (Setup.release pm ip id).pools ≡ some pool')
      × (bit pool' (uint32 (to4 ip)) ≡ false)
unfolding Setup.release Setup.mark Setup.mark_in Pool.set_used
release-frees pm ip id pool kept named found there low high =
    let u = uint32 (to4 ip) in
    (
      put_bit pool u false,
      rw (found, named, there, not_ltb u pool.start low, not_ltb pool.end u high)
          (lookup-insert_self id (put_bit pool u false) pm.pools),
      bit-put_bit pool u false (kept id pool found).1 low high,
    )
  where
    not_ltb : (a b : ℕ) → b ≤ a → ltb a b ≡ false
    not_ltb a b h = ground arith
