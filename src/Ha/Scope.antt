-- ===== src/Ha/Scope.antt =====
-- `splitScope` of internal/ha/failover.go: a range of IPv4 addresses in two halves, for the two nodes
-- of a load-sharing pair.
use monsoon.Prelude.{
  ℕ, ◌+◌, ◌-◌, ◌/◌, ◌%◌, ◌^◌, ◌≤◌, ◌<◌, ◌≡◌, ◌⊎◌, inl, inr, arith, ltb, leb, if◌then◌else◌,
}

-- The lower range and the upper one, which is 1 to 0 where there is none. The sums of 64 bits do not
-- wrap around, since the bounds are of 32.
unfoldable pub split_scope : ℕ → ℕ → (ℕ × ℕ) × (ℕ × ℕ)
split_scope start end =
    let span = (end - start) + 1 in
    let lower_count = (span + 1) / 2 in
    let lower_end64 = start + lower_count - 1 in
    let lower_end = lower_end64 % 2 ^ 32 in
    if ltb end start
    then ((0, 0), (1, 0))
    else if leb end lower_end64
    then ((start, end), (1, 0))
    else if ltb (2 ^ 32 - 1) lower_end64
    then ((start, end), (1, 0))
    else if leb end lower_end
    then ((start, lower_end), (1, 0))
    else ((start, lower_end), (lower_end + 1, end))

-- `u` is in a range
abbrev pub Within : ℕ × ℕ → ℕ → Type 0
Within (start, end) u = (start ≤ u) × (u ≤ end)

-- What the two ranges are: each address of the whole in exactly one of them, none beyond, and the
-- upper one shorter than the lower one by one address at most.
pub record Splits (start end : ℕ) (r : (ℕ × ℕ) × (ℕ × ℕ)) : Type 0 where
  pub covers : (u : ℕ) → start ≤ u → u ≤ end → Within r.0 u ⊎ Within r.1 u
  pub lower_inside : (u : ℕ) → Within r.0 u → Within (start, end) u
  pub upper_inside : (u : ℕ) → Within r.1 u → Within (start, end) u
  pub apart : (u v : ℕ) → Within r.0 u → Within r.1 v → u < v
  pub lower_size : r.1.1 + 1 - r.1.0 ≤ r.0.1 + 1 - r.0.0
  pub upper_size : r.0.1 + 1 - r.0.0 ≤ (r.1.1 + 1 - r.1.0) + 1

-- the two shapes of the result on a range of 32 bits
split_scope-cases :
    (start end : ℕ)
    → start ≤ end
    → end < 2 ^ 32
    → ((start ≡ end) × (split_scope start end ≡ ((start, end), (1, 0))))
      ⊎ ((start < end)
          × (split_scope start end
              ≡ ((start, start + (end - start + 2) / 2 - 1), (start + (end - start + 2) / 2, end))))
unfolding split_scope
split_scope-cases start end o s = ground arith

-- A range of 32-bit addresses is split in two: every address of it is in the lower or the upper
-- range, none outside it is, every lower address is below every upper one, and the lower range has
-- as many addresses as the upper one or one more.
pub split_scope-Splits :
    (start end : ℕ) → start ≤ end → end < 2 ^ 32 → Splits start end (split_scope start end)
split_scope-Splits start end o s = elim (split_scope-cases start end o s) [
  | inl (same, e) ↦ rw e (record {
    covers = λ u low high. inl (low, high);
    lower_inside = λ u w. w;
    upper_inside = λ u w. absurd (omega (arith, w.0, w.1));
    apart = λ u v w x. absurd (omega (arith, x.0, x.1));
    lower_size = omega arith;
    upper_size = omega arith;
  })
  | inr (less, e) ↦ rw e (record {
    covers = λ u low high. ground arith;
    lower_inside = λ u w. (w.0, omega (arith, w.1));
    upper_inside = λ u w. (omega (arith, w.0), w.1);
    apart = λ u v w x. omega (arith, w.1, x.0);
    lower_size = omega arith;
    upper_size = omega arith;
  })
]
