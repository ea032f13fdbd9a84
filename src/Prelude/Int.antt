-- ===== src/Prelude/Int.antt =====
-- Signed integers over the native numbers, under the library's names: Go's durations, and its
-- points in time as nanoseconds since the zero time.
use Prim.Native.Nat.{ℕ, suc, ◌+◌, ◌-◌, ◌*◌, ◌/◌, ◌%◌, ◌^◌}
use mathlib.Core.Bool.{Bool, true, false}
use monsoon.Prelude.Tests.{ltb, leb, ◌==◌, if◌then◌else◌}

-- `negsuc n` is -(n + 1).
pub data ℤ : Type 0 where
  pos : ℕ → ℤ
  negsuc : ℕ → ℤ

-- `a < b`
abbrev pub ltbℤ : ℤ → ℤ → Bool
ltbℤ (pos a) (pos b) = ltb a b
ltbℤ (pos a) (negsuc b) = false
ltbℤ (negsuc a) (pos b) = true
ltbℤ (negsuc a) (negsuc b) = ltb b a

-- `a <= 0`
abbrev pub is_not_positive : ℤ → Bool
is_not_positive (pos n) = leb n 0
is_not_positive (negsuc n) = true

infixl 65 ◌+ℤ◌
-- a + b, by cases on the signs
unfoldable pub ◌+ℤ◌ : ℤ → ℤ → ℤ
pos a +ℤ pos b = pos (a + b)
pos a +ℤ negsuc b = if ltb b a then pos (a - b - 1) else negsuc (b - a)
negsuc a +ℤ pos b = if ltb a b then pos (b - a - 1) else negsuc (a - b)
negsuc a +ℤ negsuc b = negsuc (a + b + 1)

-- Go's `a / n` by a positive constant, which rounds towards 0
unfoldable pub quot : ℤ → ℕ → ℤ
quot (pos a) n = pos (a / n)
quot (negsuc a) n = let q = suc a / n in if leb q 0 then pos 0 else negsuc (q - 1)

-- what an `int64` keeps of an integer
unfoldable pub wrap64 : ℤ → ℤ
wrap64 (pos a) = let m = a % 2 ^ 64 in if ltb m (2 ^ 63) then pos m else negsuc (2 ^ 64 - m - 1)
wrap64 (negsuc a) = let m = a % 2 ^ 64 in if ltb m (2 ^ 63) then negsuc m else pos (2 ^ 64 - m - 1)

-- `a * n` for a positive constant, before it is wrapped
unfoldable pub scale : ℤ → ℕ → ℤ
scale (pos a) n = pos (a * n)
scale (negsuc a) n = negsuc (suc a * n - 1)

-- `a == b`
abbrev pub eqℤ : ℤ → ℤ → Bool
eqℤ (pos a) (pos b) = a == b
eqℤ (pos a) (negsuc b) = false
eqℤ (negsuc a) (pos b) = false
eqℤ (negsuc a) (negsuc b) = a == b

unfoldable pub negate : ℤ → ℤ
negate (pos a) = if leb a 0 then pos 0 else negsuc (a - 1)
negate (negsuc a) = pos (suc a)

-- `Time.Sub` and `time.Since`: the difference, cut to what a duration of 64 bits holds
unfoldable pub time_sub : ℤ → ℤ → ℤ
unfolding ◌+ℤ◌ negate
time_sub a b =
    let d = a +ℤ negate b in
    if ltbℤ (pos (2 ^ 63 - 1)) d
    then pos (2 ^ 63 - 1)
    else if ltbℤ d (negsuc (2 ^ 63 - 1))
    then negsuc (2 ^ 63 - 1)
    else d
