-- ===== src/Text.antt =====
-- `strings.TrimSpace` on the UTF-8 bytes of a string.
use monsoon.Prelude.{
  ℕ, zero, suc, Bool, ◌&&◌, ◌||◌, [], ◌∷◌, ◌++◌, leb, ◌==◌, if◌then◌else◌, length, drop,
}
use monsoon.Bytes.{Bytes}

unfoldable pub reverse : Bytes → Bytes
reverse [] = []
reverse (c ∷ s) = reverse s ++ c ∷ []

abbrev is_ascii_space : ℕ → Bool
is_ascii_space c = c == 32 || leb 9 c && leb c 13

-- the encodings of the next line and the no-break space
abbrev is_latin_space : ℕ → ℕ → Bool
is_latin_space a b = a == 194 && (b == 133 || b == 160)

-- the encodings of the white space of three bytes, U+1680 to U+3000
abbrev is_wide_space : ℕ → ℕ → ℕ → Bool
is_wide_space a b c =
    a == 225 && b == 154 && c == 128
    || a == 226 && b == 128 && (leb 128 c && leb c 138 || c == 168 || c == 169 || c == 175)
    || a == 226 && b == 129 && c == 159
    || a == 227 && b == 128 && c == 128

-- the bytes of the white space that a string starts with, 0 where it starts with none
unfoldable pub space_at_start : Bytes → ℕ
space_at_start [] = 0
space_at_start (a ∷ []) = if is_ascii_space a then 1 else 0
space_at_start (a ∷ b ∷ []) = if is_ascii_space a then 1 else if is_latin_space a b then 2 else 0
space_at_start (a ∷ b ∷ c ∷ _) =
    if is_ascii_space a
    then 1
    else if is_latin_space a b
    then 2
    else if is_wide_space a b c
    then 3
    else 0

-- the bytes of the white space that a string ends with, the string being given backwards
unfoldable pub space_at_end : Bytes → ℕ
space_at_end [] = 0
space_at_end (a ∷ []) = if is_ascii_space a then 1 else 0
space_at_end (b ∷ a ∷ []) = if is_ascii_space b then 1 else if is_latin_space a b then 2 else 0
space_at_end (c ∷ b ∷ a ∷ _) =
    if is_ascii_space c
    then 1
    else if is_latin_space b c
    then 2
    else if is_wide_space a b c
    then 3
    else 0

-- A round drops at least one byte, so the length bounds the rounds.
unfoldable pub trim_loop : (Bytes → ℕ) → ℕ → Bytes → Bytes
trim_loop space zero s = s
trim_loop space (suc fuel) s =
    let n = space s in let rest = trim_loop space fuel (drop n s) in if n == 0 then s else rest

unfoldable pub trim_space : Bytes → Bytes
unfolding trim_loop space_at_start space_at_end reverse
trim_space s =
    let left = trim_loop space_at_start (length s) s in
    reverse (trim_loop space_at_end (length left) (reverse left))
