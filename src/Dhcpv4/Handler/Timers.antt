-- ===== src/Dhcpv4/Handler/Timers.antt =====
-- The times that a reply carries.
use monsoon.Prelude.{
  ℕ, ◌-◌, ◌/◌, ◌^◌, ◌≤◌, ◌<◌, some, ◌≡◌, ◌≢◌, refl, ◌∙◌, arith, ◌==◌, length, Bool-cases, inl, inr,
  ℤ, pos, negsuc,
}
use monsoon.Bytes.{put_uint32}
use monsoon.GoMap.{lookup, insert, nat_eq}
use monsoon.GoMap.Laws.{lookup-insert}
use monsoon.Net.{is_nil, to4}
use monsoon.Dhcpv4.Options
use monsoon.Dhcpv4.Options.{Options}
use monsoon.Dhcpv4.Pool.{AllocationResult}
use monsoon.Dhcpv4.Handler
use monsoon.Dhcpv4.Handler.{Handler}

duration_to_uint32_seconds-lt : (d : ℤ) → Handler.duration_to_uint32_seconds d < 2 ^ 32
unfolding Handler.duration_to_uint32_seconds
duration_to_uint32_seconds-lt (negsuc n) = omega arith
duration_to_uint32_seconds-lt (pos n) = ground arith

-- The router and the name servers leave every other option as it is.
lookup-add_router :
    (k : ℕ) (alloc : AllocationResult) (o : Options)
    → k ≢ 3
    → lookup k (Handler.add_router alloc o) ≡ lookup k o
unfolding Handler.add_router Options.set_ipv4
lookup-add_router k alloc o n = elim (Bool-cases (is_nil alloc.gateway)) [
  | inl nil ↦ rw nil refl
  | inr there ↦ rw there (ground (arith, lookup-insert 3 k (to4 alloc.gateway) o))
]

lookup-add_dns :
    (k : ℕ) (alloc : AllocationResult) (o : Options)
    → k ≢ 6
    → lookup k (Handler.add_dns alloc o) ≡ lookup k o
unfolding Handler.add_dns Options.set_ipv4_list
lookup-add_dns k alloc o n = elim (Bool-cases (length alloc.dns == 0)) [
  | inl empty ↦ rw empty refl
  | inr there ↦ rw there (ground (arith, lookup-insert 6 k (Options.concat_ipv4 alloc.dns) o))
]

-- The options of a granted lease carry a lease time, a renewal time and a rebinding time in this
-- order, renewal at most rebinding and rebinding at most the lease time, for any lease duration.
pub lease_options-ordered :
    (h : Handler) (msg : ℕ) (alloc : AllocationResult)
    → (sec t1 t2 : ℕ) × (lookup 51 (Handler.lease_options h msg alloc) ≡ some (put_uint32 sec))
      × (lookup 58 (Handler.lease_options h msg alloc) ≡ some (put_uint32 t1))
      × (lookup 59 (Handler.lease_options h msg alloc) ≡ some (put_uint32 t2))
      × (t1 ≤ t2)
      × (t2 ≤ sec)
      × (sec < 2 ^ 32)
unfolding Handler.lease_options Options.set_message_type Options.set_ipv4
    Options.set_duration_seconds Options.set_string lookup insert
lease_options-ordered h msg alloc =
    let sec = Handler.duration_to_uint32_seconds alloc.lease_duration in
    (
      sec,
      sec / 2,
      sec - sec / 8,
      lookup-add_dns 51 alloc _ (omega arith) ∙ lookup-add_router 51 alloc _ (omega arith),
      lookup-add_dns 58 alloc _ (omega arith) ∙ lookup-add_router 58 alloc _ (omega arith),
      lookup-add_dns 59 alloc _ (omega arith) ∙ lookup-add_router 59 alloc _ (omega arith),
      omega arith,
      omega arith,
      duration_to_uint32_seconds-lt alloc.lease_duration,
    )
