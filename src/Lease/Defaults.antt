-- ===== src/Lease/Defaults.antt =====
-- Filling in the defaults of a lease a second time changes nothing.
use monsoon.Prelude.{
  Bool, true, false, ◌≡◌, inl, inr, refl, if◌then◌else◌, Bool-cases, ℤ, is_not_positive, ◌+ℤ◌, quot,
  wrap64, scale,
}
use monsoon.Lease.{Lease, is_zero, or_positive, or_time, normalize_defaults}

or_positive_twice : (x y : ℤ) → or_positive (or_positive x y) y ≡ or_positive x y
or_positive_twice x y = elim (Bool-cases (is_not_positive x)) [
  | inl small ↦ rw small (same (is_not_positive y) y)
  | inr kept ↦ rw (kept, kept) refl
]
  where
    same : (b : Bool) (y : ℤ) → (if b then y else y) ≡ y
    same true y = refl
    same false y = refl

or_time_twice : (x y : ℤ) → or_time (or_time x y) y ≡ or_time x y
or_time_twice x y = elim (Bool-cases (is_zero x)) [
  | inl zero_time ↦ rw zero_time (same (is_zero y) y)
  | inr kept ↦ rw (kept, kept) refl
]
  where
    same : (b : Bool) (y : ℤ) → (if b then y else y) ≡ y
    same true y = refl
    same false y = refl

-- Normalizing a lease twice at the same time, with the same default duration, is normalizing it
-- once.
pub normalize_defaults_idempotent :
    (now dur : ℤ) (l : Lease)
    → normalize_defaults now dur (normalize_defaults now dur l) ≡ normalize_defaults now dur l
unfolding normalize_defaults
normalize_defaults_idempotent now dur l =
    rw (or_time_twice l.start_time now, or_positive_twice l.duration dur)
      (rw
        (
          or_positive_twice l.t1 (quot (or_positive l.duration dur) 2),
          or_positive_twice l.t2 (quot (wrap64 (scale (or_positive l.duration dur) 7)) 8),
          or_time_twice l.expiry_time (or_time l.start_time now +ℤ or_positive l.duration dur),
          or_time_twice l.created_at now,
          or_time_twice l.last_seen now,
        )
        refl)
