-- ===== src/Lease.antt =====
-- The leases of internal/lease: types.go, and the store's interface as the servers use it.
pub mod Defaults
pub mod Store
pub mod EngineStore
pub mod Sweeper
use monsoon.Prelude.{
  ℕ, Bool, true, false, Option, List, if◌then◌else◌, ℤ, pos, is_not_positive, ◌+ℤ◌, quot, wrap64,
  scale, ltbℤ, not, ◌||◌,
}
use monsoon.Bytes.{Bytes}
use monsoon.GoMap.{Map}

pub data LeaseState : Type 0 where
  free offered bound renewing released declined quarantined expired : LeaseState

pub record Lease : Type 0 where
  pub ip : Bytes
  pub mac : Bytes
  pub client_id : Bytes
  pub hostname : Bytes
  pub state : LeaseState
  pub start_time : ℤ
  pub duration : ℤ
  pub t1 : ℤ
  pub t2 : ℤ
  pub expiry_time : ℤ
  pub quarantine_until : ℤ
  pub subnet_id : Bytes
  pub relay_addr : Bytes
  pub relay_info : Bytes
  pub circuit_id : Bytes
  pub remote_id : Bytes
  pub vendor_class : Bytes
  pub user_class : Bytes
  pub last_seen : ℤ
  pub ddns_forward : Bytes
  pub ddns_reverse : Bytes
  pub tags : Map Bytes Bytes
  pub created_at : ℤ
  pub updated_at : ℤ

-- `Time.IsZero`
abbrev pub is_zero : ℤ → Bool
is_zero t = not (ltbℤ t (pos 0) || ltbℤ (pos 0) t)

-- `x <= 0` gives way to `y`
abbrev pub or_positive : ℤ → ℤ → ℤ
or_positive x y = if is_not_positive x then y else x

-- a zero time gives way to `y`
abbrev pub or_time : ℤ → ℤ → ℤ
or_time x y = if is_zero x then y else x

-- `NormalizeDefaults`; the product of a duration by seven wraps around
unfoldable pub normalize_defaults : ℤ → ℤ → Lease → Lease
unfolding ◌+ℤ◌ quot wrap64 scale
normalize_defaults now default_duration l =
    let start = or_time l.start_time now in
    let dur = or_positive l.duration default_duration in
    record l {
      start_time = start;
      duration = dur;
      t1 = or_positive l.t1 (quot dur 2);
      t2 = or_positive l.t2 (quot (wrap64 (scale dur 7)) 8);
      expiry_time = or_time l.expiry_time (start +ℤ dur);
      created_at = or_time l.created_at now;
      last_seen = or_time l.last_seen now;
      updated_at = now;
    }
