-- ===== src/Storage/Search.antt =====
-- `sort.Search` of Go's standard library, as the trees call it: the least index at which `f` holds,
-- by bisection.
use monsoon.Prelude.{
  ℕ, zero, suc, ◌+◌, ◌/◌, ◌≤◌, ◌<◌, Bool, true, false, ◌≡◌, arith, ltb, if◌then◌else◌,
}

-- `for i < j { h := (i + j) / 2; ... }`; `fuel` bounds the rounds
unfoldable pub search_loop : ℕ → (ℕ → Bool) → ℕ → ℕ → ℕ
search_loop zero f i j = i
search_loop (suc fuel) f i j =
    let h = (i + j) / 2 in
    let right = search_loop fuel f (h + 1) j in
    let left = search_loop fuel f i h in if ltb i j then if f h then left else right else i

-- `n` rounds are enough, since each one shrinks the range.
unfoldable pub search : ℕ → (ℕ → Bool) → ℕ
search n f = search_loop n f 0 n

module _ (f : ℕ → Bool) (n l : ℕ) (below : (h : ℕ) → h < l → f h ≡ false)
    (above : (h : ℕ) → l ≤ h → h < n → f h ≡ true) where
  search_loop_finds :
      (fuel i j : ℕ) → i ≤ l → l ≤ j → j ≤ n → j ≤ i + fuel → search_loop fuel f i j ≡ l
  unfolding search_loop
  search_loop_finds zero i j hi hj hn hf = omega arith
  search_loop_finds (suc fuel) i j hi hj hn hf = ground (
    arith,
    below ((i + j) / 2),
    above ((i + j) / 2),
    search_loop_finds fuel ((i + j) / 2 + 1) j,
    search_loop_finds fuel i ((i + j) / 2),
  )

  -- Where `f` turns from false to true at `l`, the search returns `l`.
  pub search_finds : l ≤ n → search n f ≡ l
  unfolding search
  search_finds h = search_loop_finds n 0 n (omega arith) h (omega arith) (omega arith)
