-- ===== src/Storage/Numeric.antt =====
-- internal/storage/numeric.go: lengths as the unsigned integers that are written. A Go `len` is not
-- negative, so the tests for a negative value never pass and are left out.
use monsoon.Prelude.{ℕ, Option, none, some, ltb, if◌then◌else◌}

unfoldable pub safe_uint16_from_int : ℕ → Option ℕ
safe_uint16_from_int value = if ltb 0xffff value then none else some value

unfoldable pub safe_uint32_from_int : ℕ → Option ℕ
safe_uint32_from_int value = if ltb 0xffffffff value then none else some value
