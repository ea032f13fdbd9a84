-- ===== src/Dhcpv4/Pool/Scan.antt =====
-- What the search of a free address finds: the lowest one, or none because all are taken.
use monsoon.Prelude.{
  ℕ, zero, suc, ◌+◌, ◌-◌, ◌%◌, ◌^◌, ◌≤◌, ◌<◌, true, false, Option, none, some, ◌≡◌, inl, inr, refl,
  sym, arith, leb, leb→le, ◌==◌, ==_iff, Bool-cases,
}
use mathlib.Core.Path.{subst}
use monsoon.Dhcpv4.Pool
use monsoon.Dhcpv4.Pool.{SubnetPool, ScopeProvider, bit, scan_free}

-- Every address from `u` up to `v`, without `v`, is taken.
abbrev pub AreTaken : SubnetPool → ℕ → ℕ → Type 0
AreTaken pool u v = (w : ℕ) → u ≤ w → w < v → bit pool w ≡ true

-- `v` is the lowest free address from `u` up to `end`.
abbrev pub IsLowest : SubnetPool → ℕ → ℕ → ℕ → Type 0
IsLowest pool u end v = (u ≤ v) × (v ≤ end) × (bit pool v ≡ false) × AreTaken pool u v

not_leb : (u end : ℕ) → end < u → leb u end ≡ false
not_leb u end h = ground arith

is_leb : (u end : ℕ) → u ≤ end → leb u end ≡ true
is_leb u end h = ground arith

scan_past : (f : ℕ) (pool : SubnetPool) (u end : ℕ) → end < u → scan_free f pool u end ≡ none
unfolding scan_free
scan_past zero pool u end h = refl
scan_past (suc f) pool u end h = rw (not_leb u end h) refl

scan_hit :
    (f : ℕ) (pool : SubnetPool) (u end : ℕ)
    → u ≤ end
    → bit pool u ≡ false
    → scan_free (suc f) pool u end ≡ some u
unfolding scan_free
scan_hit f pool u end h b = rw (is_leb u end h, b) refl

scan_on :
    (f : ℕ) (pool : SubnetPool) (u end : ℕ)
    → end < 2 ^ 32
    → u ≤ end
    → bit pool u ≡ true
    → scan_free (suc f) pool u end ≡ scan_free f pool (u + 1) end
unfolding scan_free
scan_on f pool u end small h b = elim (Bool-cases (u == 2 ^ 32 - 1)) [
  | inl last ↦
      let e : u ≡ 2 ^ 32 - 1 = (==_iff u (2 ^ 32 - 1)).0 last in
      rw (is_leb u end h, b, last) (sym (scan_past f pool (u + 1) end (omega arith)))
  | inr inner ↦
      let n : (u + 1) % 2 ^ 32 ≡ u + 1 = next u end small h inner in
      rw (is_leb u end h, b, inner, n) refl
]
  where
    next :
        (u end : ℕ) → end < 2 ^ 32 → u ≤ end → (u == 2 ^ 32 - 1) ≡ false → (u + 1) % 2 ^ 32 ≡ u + 1
    next u end small h inner = ground arith

taken_on :
    (pool : SubnetPool) (u v : ℕ) → bit pool u ≡ true → AreTaken pool (u + 1) v → AreTaken pool u v
taken_on pool u v b t w l h = elim (Bool-cases (w == u)) [
  | inl same ↦ rw ((==_iff w u).0 same) b
  | inr other ↦ t w (ground arith) h
]

taken_none : (pool : SubnetPool) (u v : ℕ) → v ≤ u → AreTaken pool u v
taken_none pool u v e w l h = absurd (omega arith)

-- The outcome of a search: the lowest free address, or none and every address is taken.
abbrev Outcome : SubnetPool → ℕ → ℕ → Option ℕ → Type 0
Outcome pool u end none = AreTaken pool u (end + 1)
Outcome pool u end (some v) = IsLowest pool u end v

Outcome-on :
    (pool : SubnetPool) (u end : ℕ) (r : Option ℕ)
    → bit pool u ≡ true
    → Outcome pool (u + 1) end r
    → Outcome pool u end r
Outcome-on pool u end none b t = taken_on pool u (end + 1) b t
Outcome-on pool u end (some v) b (l, h, f, t) = (omega arith, h, f, taken_on pool u v b t)

scan_free-Outcome :
    (f : ℕ) (pool : SubnetPool) (u end : ℕ)
    → end < 2 ^ 32
    → end + 2 ≤ f + u
    → Outcome pool u end (scan_free f pool u end)
scan_free-Outcome zero pool u end small enough =
    rw (scan_past zero pool u end (omega arith)) (taken_none pool u (end + 1) (omega arith))
scan_free-Outcome (suc f) pool u end small enough = elim (Bool-cases (leb u end)) [
  | inl inside ↦ elim (Bool-cases (bit pool u)) [
    | inl taken ↦ rw (scan_on f pool u end small (leb→le u end inside) taken) (
        Outcome-on pool u end (scan_free f pool (u + 1) end) taken
          (scan_free-Outcome f pool (u + 1) end small (omega arith)))
    | inr clear ↦
        rw (scan_hit f pool u end (leb→le u end inside) clear)
          (omega arith, leb→le u end inside, clear, taken_none pool u u (omega arith))
  ]
  | inr past ↦
      rw (scan_past (suc f) pool u end (outside u end past))
        (taken_none pool u (end + 1) (ground arith))
]
  where
    outside : (u end : ℕ) → leb u end ≡ false → end < u
    outside u end h = ground arith

-- `nextFree` finds the lowest address of the effective range that is free, and where it finds none
-- every address of the range is taken.
pub next_free-IsLowest :
    (scope : Option ScopeProvider) (pool : SubnetPool) (start end : ℕ)
    → Pool.effective_range scope pool ≡ some (start, end)
    → end < 2 ^ 32
    → start ≤ end
    → ((v : ℕ) → Pool.next_free scope pool ≡ some v → IsLowest pool start end v)
      × (Pool.next_free scope pool ≡ none → AreTaken pool start (end + 1))
unfolding Pool.next_free
next_free-IsLowest scope pool start end range small order =
    let run : Pool.next_free scope pool ≡ scan_free (suc (suc (end - start))) pool start end =
      rw (range, Pool.next_free) refl in
    let o : Outcome pool start end (Pool.next_free scope pool) =
      subst (Outcome pool start end) (sym run)
        (scan_free-Outcome (suc (suc (end - start))) pool start end small (omega arith)) in
    (λ v e. subst (Outcome pool start end) e o, λ e. subst (Outcome pool start end) e o)
