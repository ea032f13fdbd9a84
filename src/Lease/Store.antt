-- ===== src/Lease/Store.antt =====
-- The interface `Store` of internal/lease/store.go as the servers use it, with a state that
-- `Upsert` changes.
use monsoon.Prelude.{Bool, Option, List, ℤ}
use monsoon.Bytes.{Bytes}
use monsoon.Lease.{Lease}

-- `none`, and `false` of `upsert`, are a non-nil error.
pub record Store (S : Type 0) : Type 0 where
  pub get_by_ip : S → Bytes → Option Lease
  pub get_by_mac : S → Bytes → Option (List Lease)
  pub list_expiring_before : S → ℤ → Option (List Lease)
  pub upsert : Lease → S → S × Bool
