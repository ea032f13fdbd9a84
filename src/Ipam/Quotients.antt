-- ===== src/Ipam/Quotients.antt =====
-- Quotients by powers of two: the blocks of numbers that a prefix stands for.
use monsoon.Prelude.{
  ℕ, zero, suc, ◌+◌, ◌-◌, ◌*◌, ◌/◌, ◌^◌, ◌≤◌, ◌<◌, ◌≡◌, ◌⊎◌, inl, inr, refl, sym, ap, ◌∙◌, arith,
}
use mathlib.Core.Path.{subst}
use native.Mathlib.Nat.{
  add-suc, mul_comm, suc-mul, mul-le-mul_right, div-mul-le_self, mul-add-div_right, div-eq_of_lt,
  div-div-eq-div-mul, mul-div_cancel, mul_assoc, pow-suc,
}

pow_add : (s d : ℕ) → 2 ^ (s + d) ≡ 2 ^ s * 2 ^ d
pow_add s zero = ground arith
pow_add s (suc d) =
    rw (add-suc s d, pow-suc 2 (s + d), pow-suc 2 d, pow_add s d) (mul_assoc (2 ^ s) (2 ^ d) 2)

pow_split : (s t : ℕ) → s ≤ t → 2 ^ t ≡ 2 ^ s * 2 ^ (t - s)
pow_split s t h = let e : t ≡ s + (t - s) = omega arith in ap (λ n. 2 ^ n) e ∙ pow_add s (t - s)

pow_pos : (s : ℕ) → 0 < 2 ^ s
pow_pos zero = omega arith
pow_pos (suc s) = let h = pow_pos s in rw (pow-suc 2 s) (omega arith)

pub coarser : (s t v x : ℕ) → s ≤ t → v / 2 ^ s ≡ x / 2 ^ s → v / 2 ^ t ≡ x / 2 ^ t
coarser s t v x h same =
    rw
      (
        pow_split s t h,
        sym (div-div-eq-div-mul v (2 ^ s) (2 ^ (t - s))),
        sym (div-div-eq-div-mul x (2 ^ s) (2 ^ (t - s))),
        same,
      )
      refl

pub aligned : (s v : ℕ) → v / 2 ^ s * 2 ^ s / 2 ^ s ≡ v / 2 ^ s
aligned s v = mul-div_cancel (v / 2 ^ s) (pow_pos s)

pub le_total : (m n : ℕ) → (m ≤ n) ⊎ (n ≤ m)
le_total m n = ground arith

pub lt_or_le : (m n : ℕ) → (m < n) ⊎ (n ≤ m)
lt_or_le m n = ground arith

pub div-bounds : (s v n : ℕ) → n < 2 ^ s → (v / 2 ^ s * 2 ^ s + n) / 2 ^ s ≡ v / 2 ^ s
div-bounds s v n h = mul-add-div_right (pow_pos s) (v / 2 ^ s) n ∙ rw (div-eq_of_lt h) (omega arith)

block_below : (q D S n : ℕ) → q < D → n < S → q * S + n < D * S
block_below q D S n h k =
    let le : suc q * S ≤ D * S = mul-le-mul_right S (omega arith) in
    let e = suc-mul q S in omega arith

quotient_below : (v D S : ℕ) → v < D * S → v / S < D
quotient_below v D S h = elim (lt_or_le (v / S) D) [
  | inl lt ↦ lt
  | inr le ↦
      let up : D * S ≤ v / S * S = mul-le-mul_right S le in
      let down = div-mul-le_self v S in omega arith
]

pub last_below : (s v n : ℕ) → s ≤ 32 → v < 2 ^ 32 → n < 2 ^ s → v / 2 ^ s * 2 ^ s + n < 2 ^ 32
last_below s v n le small h =
    let e = pow_split s 32 le in
    let e' : 2 ^ 32 ≡ 2 ^ (32 - s) * 2 ^ s = e ∙ mul_comm (2 ^ s) (2 ^ (32 - s)) in
    rw e' (
      block_below (v / 2 ^ s) (2 ^ (32 - s)) (2 ^ s) n
        (quotient_below v _ _ (subst (λ x. v < x) e' small)) h)
