-- ===== src/Lease/Sweeper/Quarantine.antt =====
-- The course of a lease through the ticks of the sweeper, internal/lease/expiry.go: how long it is kept
-- from other clients.
use monsoon.Prelude.{false, Option, none, some, List, [], ◌∷◌, ◌≡◌, ℤ, ltbℤ, ◌+ℤ◌}
use monsoon.Lease.{Lease, LeaseState, offered, bound, renewing, expired}
use monsoon.Lease.Sweeper.{Sweeper, sweep_lease}

-- The client of the lease may still be using its address.
abbrev pub IsActive : LeaseState → Type 0
IsActive bound = Unit
IsActive renewing = Unit
IsActive offered = Unit
IsActive _ = ⊥

abbrev changed : Lease → Option Lease → Lease
changed l none = l
changed l (some l') = l'

-- the lease behind ticks at these times that each find it
pub after_ticks : Sweeper → List ℤ → Lease → Lease
after_ticks s [] l = l
after_ticks s (t ∷ ts) l = after_ticks s ts (changed l (sweep_lease s t l))

-- None of the times is behind this one.
abbrev pub NoneAfter : ℤ → List ℤ → Type 0
NoneAfter end [] = Unit
NoneAfter end (t ∷ ts) = (ltbℤ end t ≡ false) × NoneAfter end ts

-- the lease that was found active at the time `now`
abbrev pub withheld : Sweeper → ℤ → Lease → Lease
unfolding ◌+ℤ◌
withheld s now l = record l {
  state = expired;
  quarantine_until = now +ℤ s.quarantine;
  updated_at = now;
}

module _ (s : Sweeper) (now : ℤ) (l : Lease) where
  abbrev end : ℤ
  end = now +ℤ s.quarantine
