-- ===== src/Bytes/Order.antt =====
-- `bytes.Compare` is a total order, and agrees with `bytes.Equal`.
use monsoon.Prelude.{Ordering, true, [], ◌∷◌, ◌≡◌, refl, ◌↔◌, arith}
use monsoon.Bytes.{Bytes, equal, bytes_compare}

pub equal_iff : (a b : Bytes) → (equal a b ≡ true) ↔ (a ≡ b)
unfolding equal
equal_iff [] [] = ground arith
equal_iff (x ∷ a) (y ∷ b) = ground (arith, equal_iff a b)
equal_iff _ _ = ground arith

pub bytes_compare_eq : (a b : Bytes) → bytes_compare a b ≡ Ordering.eq → a ≡ b
unfolding bytes_compare
bytes_compare_eq [] [] h = refl
bytes_compare_eq [] (y ∷ b) h = cc
bytes_compare_eq (x ∷ a) [] h = cc
bytes_compare_eq (x ∷ a) (y ∷ b) h = ground (arith, bytes_compare_eq a b)

pub bytes_compare_refl : (a : Bytes) → bytes_compare a a ≡ Ordering.eq
unfolding bytes_compare
bytes_compare_refl [] = refl
bytes_compare_refl (x ∷ a) = ground (arith, bytes_compare_refl a)

pub bytes_compare_gt :
    (a b : Bytes) → bytes_compare a b ≡ Ordering.gt → bytes_compare b a ≡ Ordering.lt
unfolding bytes_compare
bytes_compare_gt [] [] h = cc
bytes_compare_gt [] (y ∷ b) h = cc
bytes_compare_gt (x ∷ a) [] h = refl
bytes_compare_gt (x ∷ a) (y ∷ b) h = ground (arith, bytes_compare_gt a b)

pub bytes_compare_lt :
    (a b : Bytes) → bytes_compare a b ≡ Ordering.lt → bytes_compare b a ≡ Ordering.gt
unfolding bytes_compare
bytes_compare_lt [] [] h = cc
bytes_compare_lt [] (y ∷ b) h = refl
bytes_compare_lt (x ∷ a) [] h = cc
bytes_compare_lt (x ∷ a) (y ∷ b) h = ground (arith, bytes_compare_lt a b)

pub bytes_compare_trans :
    (a b c : Bytes)
    → bytes_compare a b ≡ Ordering.lt
    → bytes_compare b c ≡ Ordering.lt
    → bytes_compare a c ≡ Ordering.lt
unfolding bytes_compare
bytes_compare_trans [] (y ∷ b) (z ∷ c) h k = refl
bytes_compare_trans (x ∷ a) (y ∷ b) (z ∷ c) h k = ground (arith, bytes_compare_trans a b c)
bytes_compare_trans [] [] c h k = cc
bytes_compare_trans [] (y ∷ b) [] h k = cc
bytes_compare_trans (x ∷ a) (y ∷ b) [] h k = cc
bytes_compare_trans (x ∷ a) [] c h k = cc
