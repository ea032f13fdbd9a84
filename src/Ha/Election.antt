-- ===== src/Ha/Election.antt =====
-- Two peers that see one another elect one primary.
use monsoon.Prelude.{
  Bool, true, false, ◌≡◌, ◌≢◌, ◌⊎◌, inl, inr, refl, ◌∙◌, arith, ◌==◌, if◌then◌else◌, length, ℤ, pos,
  negsuc, ltbℤ, Ordering, Bool-cases,
}
use monsoon.Bytes.{Bytes, bytes_compare}
use monsoon.Bytes.Order.{bytes_compare_eq, bytes_compare_gt, bytes_compare_lt}
use monsoon.Text.{trim_space}
use monsoon.Ha
use monsoon.Ha.{Role, primary, secondary, not_after, priority, node_name}

-- One of two is the primary and the other the secondary.
abbrev pub AreOpposed : Role → Role → Type 0
AreOpposed r s = ((r ≡ primary) × (s ≡ secondary)) ⊎ ((r ≡ secondary) × (s ≡ primary))

ltbℤ-asym : (a b : ℤ) → ltbℤ a b ≡ true → ltbℤ b a ≡ false
ltbℤ-asym (pos a) (pos b) h = ground arith
ltbℤ-asym (pos a) (negsuc b) h = absurd cc
ltbℤ-asym (negsuc a) (pos b) h = refl
ltbℤ-asym (negsuc a) (negsuc b) h = ground arith

-- Of two different names exactly one is not after the other.
one_first :
    (a b : Bytes)
    → a ≢ b
    → ((not_after a b ≡ true) × (not_after b a ≡ false))
      ⊎ ((not_after a b ≡ false) × (not_after b a ≡ true))
one_first a b n = go (bytes_compare a b) refl
  where
    go :
        (o : Ordering)
        → bytes_compare a b ≡ o
        → ((not_after a b ≡ true) × (not_after b a ≡ false))
          ⊎ ((not_after a b ≡ false) × (not_after b a ≡ true))
    go Ordering.lt e = inl (rw (e, not_after) refl, rw (bytes_compare_lt a b e, not_after) refl)
    go Ordering.eq e = absurd (n (bytes_compare_eq a b e))
    go Ordering.gt e = inr (rw (e, not_after) refl, rw (bytes_compare_gt a b e, not_after) refl)

module _ (to_lower : Bytes → Bytes) where
  same_mode : (b : Bool) → (if b then secondary else secondary) ≡ secondary
  same_mode true = refl
  same_mode false = refl

  -- the role that the order of two names gives
  by_name :
      (a b mode : Bytes)
      → (length a == 0) ≡ false
      → (length b == 0) ≡ false
      → Ha.elect_by_name to_lower a b mode ≡ (if not_after a b then primary else secondary)
  unfolding Ha.elect_by_name
  by_name a b mode ha hb = elim (Bool-cases (not_after a b)) [
    | inl first ↦ rw (ha, hb, first) refl
    | inr second ↦ rw (ha, hb, second) (same_mode (Ha.is_load_sharing to_lower mode))
  ]

  by_name-AreOpposed :
      (a b mode mode' : Bytes)
      → (length a == 0) ≡ false
      → (length b == 0) ≡ false
      → a ≢ b
      → AreOpposed (Ha.elect_by_name to_lower a b mode) (Ha.elect_by_name to_lower b a mode')
  by_name-AreOpposed a b mode mode' ha hb n = elim (one_first a b n) [
    | inl (f, s) ↦ inl (by_name a b mode ha hb ∙ rw f refl, by_name b a mode' hb ha ∙ rw s refl)
    | inr (f, s) ↦ inr (by_name a b mode ha hb ∙ rw f refl, by_name b a mode' hb ha ∙ rw s refl)
  ]

  by_priority-AreOpposed :
      (a b mode mode' : Bytes) (p q : ℤ)
      → (length a == 0) ≡ false
      → (length b == 0) ≡ false
      → a ≢ b
      → AreOpposed
          (Ha.elect_by_priority to_lower a b mode p q)
          (Ha.elect_by_priority to_lower b a mode' q p)
  unfolding Ha.elect_by_priority
  by_priority-AreOpposed a b mode mode' p q ha hb n = elim (Bool-cases (ltbℤ p q)) [
    | inl less ↦ rw (less, ltbℤ-asym p q less) (inl (refl, refl))
    | inr not_less ↦ elim (Bool-cases (ltbℤ q p)) [
      | inl more ↦ rw (not_less, more) (inr (refl, refl))
      | inr equal ↦ rw (not_less, equal) (by_name-AreOpposed a b mode mode' ha hb n)
    ]
  ]

  -- Two connected peers, neither of which is stepping down or draining, elect one primary and one
  -- secondary, whatever their modes and priorities, if their names, trimmed and in lower case,
  -- differ and are not empty.
  pub elect_role-AreOpposed :
      (a b mode mode' : Bytes) (now now' p q : ℤ)
      → (length (trim_space a) == 0) ≡ false
      → (length (trim_space b) == 0) ≡ false
      → (length (node_name to_lower a) == 0) ≡ false
      → (length (node_name to_lower b) == 0) ≡ false
      → node_name to_lower a ≢ node_name to_lower b
      → AreOpposed
          (Ha.elect_role to_lower a b mode true (pos 0) now false p q)
          (Ha.elect_role to_lower b a mode' true (pos 0) now' false q p)
  unfolding Ha.elect_role
  elect_role-AreOpposed a b mode mode' now now' p q ta tb na nb n =
      rw (ta, tb)
        (by_priority-AreOpposed (node_name to_lower a) (node_name to_lower b) mode mode'
          (priority p) (priority q) na nb n)
