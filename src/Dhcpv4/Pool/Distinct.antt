-- ===== src/Dhcpv4/Pool/Distinct.antt =====
-- Pools stay well formed when an address is allocated, and two new ones in a row
-- from one subnet take different addresses.
use monsoon.Prelude.{
  ℕ, zero, suc, ◌-◌, ◌≤◌, ◌<◌, Bool, true, false, some, List, [], ◌∷◌, ◌≡◌, ◌≢◌, inl, inr, refl,
  sym, ap, ◌∙◌, arith, Bool-cases, length, get_or, set,
}
use mathlib.Core.Path.{subst}
use monsoon.Bytes.{Bytes, uint32}
use monsoon.GoMap.{lookup, bytes_eq}
use monsoon.GoMap.Laws.{lookup-insert, lookup-insert_self}
use monsoon.Dhcpv4.Pool
use monsoon.Dhcpv4.Pool.{
  SubnetPool, PoolManager, AllocationRequest, AllocationResult, bit, put_bit, with_pool,
}
use monsoon.Dhcpv4.Pool.Allocation.{IsPool, IsKept, Takes, allocate_new-Takes}

length-set : (bits : List Bool) (i : ℕ) (b : Bool) → length (set bits i b) ≡ length bits
length-set [] i b = refl
length-set (x ∷ xs) zero b = refl
length-set (x ∷ xs) (suc i) b = ap suc (length-set xs i b)

get_or-set :
    (bits : List Bool) (i : ℕ) (b d : Bool) → i < length bits → get_or (set bits i b) i d ≡ b
get_or-set [] i b d h = absurd (omega arith)
get_or-set (x ∷ xs) zero b d h = refl
get_or-set (x ∷ xs) (suc i) b d h = get_or-set xs i b d (omega arith)

pub put_bit-IsPool :
    (pool : SubnetPool) (u : ℕ) (b : Bool) → IsPool pool → IsPool (put_bit pool u b)
unfolding put_bit
put_bit-IsPool pool u b (o, s, l) = (o, s, length-set pool.bitmap (u - pool.start) b ∙ l)

pub bit-put_bit :
    (pool : SubnetPool) (u : ℕ) (b : Bool)
    → IsPool pool
    → pool.start ≤ u
    → u ≤ pool.end
    → bit (put_bit pool u b) u ≡ b
unfolding put_bit
bit-put_bit pool u b (o, s, l) low high =
    get_or-set pool.bitmap (u - pool.start) b true (omega (arith, l))

pub put_bit-id : (pool : SubnetPool) (u : ℕ) (b : Bool) → (put_bit pool u b).id ≡ pool.id
unfolding put_bit
put_bit-id pool u b = refl

pub with_pool-IsKept :
    (pm : PoolManager) (id : Bytes) (pool : SubnetPool)
    → IsKept pm
    → pool.id ≡ id
    → IsPool pool
    → IsKept (with_pool pm id pool)
with_pool-IsKept pm id pool kept same p j found e = elim (Bool-cases (bytes_eq.beq id j)) [
  | inl equal ↦
      let h : some pool ≡ some found = rw (lookup-insert id j pool pm.pools, equal) at e in
      let k : id ≡ j = (bytes_eq.beq_iff id j).0 equal in
      let f : pool ≡ found = cc in subst (λ x. (x.id ≡ j) × IsPool x) f (same ∙ k, p)
  | inr other ↦
      let h : lookup j pm.pools ≡ some found = rw (lookup-insert id j pool pm.pools, other) at e in
      kept j found h
]

Takes-IsKept :
    (pm pm' : PoolManager) (id : Bytes) (pool : SubnetPool) (u : ℕ) (res : AllocationResult)
    → IsKept pm
    → Takes pm id pool u pm' res
    → IsKept pm'
Takes-IsKept pm pm' id pool u res kept (e, low, high, clear, after, address, subnet) =
    let (same, p) = kept id pool e in
    subst IsKept (sym after) (
      with_pool-IsKept pm id (put_bit pool u true) kept (put_bit-id pool u true ∙ same)
        (put_bit-IsPool pool u true p))

-- Pools stay well formed through a new allocation.
pub allocate_new-IsKept :
    (pm pm' : PoolManager) (req : AllocationRequest) (res : AllocationResult)
    → IsKept pm
    → Pool.allocate_new pm req ≡ (pm', some res)
    → IsKept pm'
allocate_new-IsKept pm pm' req res kept e =
    let (id, pool, u, t) = (allocate_new-Takes pm req kept).1 pm' res e in
    Takes-IsKept pm pm' id pool u res kept t

Takes-distinct :
    (pm pm' pm'' : PoolManager) (i j : Bytes) (p q : SubnetPool) (u v : ℕ)
    (res res' : AllocationResult)
    → IsKept pm
    → Takes pm i p u pm' res
    → Takes pm' j q v pm'' res'
    → res.subnet_id ≡ res'.subnet_id
    → res.ip ≢ res'.ip
Takes-distinct pm pm' pm'' i j p q u v res res' kept t t' subnet ip =
    let (e, low, high, clear, after, address, own) = t in
    let (e', low', high', clear', after', address', own') = t' in
    let kept' = Takes-IsKept pm pm' i p u res kept t in
    let ids : i ≡ j = sym (kept i p e).0 ∙ sym own ∙ subnet ∙ own' ∙ (kept' j q e').0 in
    let addresses : u ≡ v = sym address ∙ ap uint32 ip ∙ address' in
    let found : lookup i pm'.pools ≡ some (put_bit p u true) =
      ap (λ m. lookup i m.pools) after ∙ lookup-insert_self i (put_bit p u true) pm.pools in
    let found' : lookup i pm'.pools ≡ some q = ap (λ k. lookup k pm'.pools) ids ∙ e' in
    let pools : put_bit p u true ≡ q = cc in
    let set : bit (put_bit p u true) u ≡ true = bit-put_bit p u true (kept i p e).1 low high in
    let clear_too : bit (put_bit p u true) u ≡ false =
      ap (λ x. bit x u) pools ∙ ap (bit q) addresses ∙ clear' in
    cc

-- Two new allocations in a row from the same subnet never give out the same address.
pub allocate_new-distinct :
    (pm pm' pm'' : PoolManager) (req req' : AllocationRequest) (res res' : AllocationResult)
    → IsKept pm
    → Pool.allocate_new pm req ≡ (pm', some res)
    → Pool.allocate_new pm' req' ≡ (pm'', some res')
    → res.subnet_id ≡ res'.subnet_id
    → res.ip ≢ res'.ip
allocate_new-distinct pm pm' pm'' req req' res res' kept e e' =
    let (i, p, u, t) = (allocate_new-Takes pm req kept).1 pm' res e in
    let kept' = Takes-IsKept pm pm' i p u res kept t in
    let (j, q, v, t') = (allocate_new-Takes pm' req' kept').1 pm'' res' e' in
    Takes-distinct pm pm' pm'' i j p q u v res res' kept t t'
