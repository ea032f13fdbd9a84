-- ===== src/Lease/Sweeper.antt =====
-- The lease sweeper of internal/lease/expiry.go: what a tick does to the leases that have expired.
pub mod Quarantine
use monsoon.Prelude.{
  ℕ, Bool, true, false, Option, none, some, List, [], ◌∷◌, ◌++◌, ◌&&◌, not, if◌then◌else◌, ℤ, pos,
  ltbℤ, is_not_positive, ◌+ℤ◌,
}
use monsoon.Bytes.{Bytes}
use monsoon.Lease
use monsoon.Lease.{Lease, LeaseState, free, offered, bound, renewing, quarantined, expired, is_zero}
use monsoon.Lease.Store.{Store}

pub record Sweeper : Type 0 where
  pub interval : ℤ
  pub quarantine : ℤ

-- `NewSweeper`: thirty seconds and fifteen minutes where the arguments are not positive
unfoldable pub new_sweeper : ℤ → ℤ → Sweeper
new_sweeper interval quarantine = record {
  interval = if is_not_positive interval then pos 30000000000 else interval;
  quarantine = if is_not_positive quarantine then pos 900000000000 else quarantine;
}

abbrev pub in_quarantine : Sweeper → ℤ → LeaseState → Lease → Lease
unfolding ◌+ℤ◌
in_quarantine s now state l = record l {
  state = state;
  quarantine_until = now +ℤ s.quarantine;
  updated_at = now;
}

abbrev pub freed : ℤ → Lease → Lease
freed now l = record l { state = free; updated_at = now }

-- the `switch` of `tick`: the lease with its change, `none` where it does not change
unfoldable pub sweep_state : Sweeper → ℤ → Lease → LeaseState → Option Lease
unfolding in_quarantine
sweep_state s now l bound = some (in_quarantine s now expired l)
sweep_state s now l renewing = some (in_quarantine s now expired l)
sweep_state s now l offered = some (in_quarantine s now expired l)
sweep_state s now l expired =
    if is_zero l.quarantine_until
    then some (in_quarantine s now quarantined l)
    else if ltbℤ l.quarantine_until now
    then some (freed now l)
    else none
sweep_state s now l quarantined =
    if not (is_zero l.quarantine_until) && ltbℤ l.quarantine_until now
    then some (freed now l)
    else none
sweep_state s now l _ = none

unfoldable pub sweep_lease : Sweeper → ℤ → Lease → Option Lease
unfolding sweep_state
sweep_lease s now l = sweep_state s now l l.state

module _ {S : Type 0} (store : Store S) where
  -- the state of the store, and the leases that `onChange` has been told of
  abbrev pub Swept : Type 0
  Swept = S × List Lease

  unfoldable pub note_change : Lease → S × Bool → Swept → Swept
  note_change l (st, true) (_, told) = (st, told ++ l ∷ [])
  note_change l (st, false) (_, told) = (st, told)

  -- a round of the loop
  unfoldable pub sweep_one : Lease → Option Lease → Swept → Swept
  unfolding note_change
  sweep_one l none w = w
  sweep_one l (some l') (st, told) = note_change l' (store.upsert l' st) (st, told)

  unfoldable pub sweep_all : Sweeper → ℤ → List Lease → Swept → Swept
  unfolding sweep_one sweep_lease
  sweep_all s now [] w = w
  sweep_all s now (l ∷ ls) w = sweep_all s now ls (sweep_one l (sweep_lease s now l) w)

  -- `tick` at a time
  unfoldable pub tick : Sweeper → ℤ → S → Swept
  unfolding sweep_all
  tick s now st = elim (store.list_expiring_before st now) [
    | none ↦ (st, [])
    | some ls ↦ sweep_all s now ls (st, [])
  ]
