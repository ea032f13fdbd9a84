-- ===== src/Storage/BTree/Sorted.antt =====
-- The sorted key slice of internal/storage/btree.go: the searches find the place of a key, and
-- writing or removing there keeps the order.
use monsoon.Prelude.{
  ℕ, zero, suc, ◌≤◌, ◌<◌, Bool, true, false, ◌||◌, List, [], ◌∷◌, ◌≡◌, refl, inl, inr, Bool-cases,
  arith, if◌then◌else◌, length,
}
use monsoon.Bytes.{Bytes, equal}
use monsoon.Bytes.Order.{
  equal_iff, bytes_compare_eq, bytes_compare_refl, bytes_compare_gt, bytes_compare_trans,
}
use monsoon.Storage.Search.{search_finds}
use monsoon.Storage.BTree.{less, at_least, position, insert_at, remove_at, stands_at}

abbrev pub AllAbove : Bytes → List Bytes → Type 0
AllAbove x [] = Unit
AllAbove x (y ∷ ys) = (less x y ≡ true) × AllAbove x ys

-- Each key is below every later one.
abbrev pub IsSorted : List Bytes → Type 0
IsSorted [] = Unit
IsSorted (x ∷ xs) = AllAbove x xs × IsSorted xs

abbrev pub mem : Bytes → List Bytes → Bool
mem k [] = false
mem k (x ∷ xs) = equal x k || mem k xs

pub less_trans : (a b c : Bytes) → less a b ≡ true → less b c ≡ true → less a c ≡ true
less_trans a b c h k = ground (arith, bytes_compare_trans a b c)

pub less_irrefl : (a : Bytes) → less a a ≡ false
less_irrefl a = ground (arith, bytes_compare_refl a)

-- of two keys that are not below one another, both ways round, there is only one
pub less_total : (a b : Bytes) → less a b ≡ false → equal a b ≡ false → less b a ≡ true
less_total a b h k = ground (arith, bytes_compare_eq a b, bytes_compare_gt a b, equal_iff a b)

pub less-ne : (a b : Bytes) → less a b ≡ true → equal a b ≡ false
less-ne a b h = ground (arith, equal_iff a b, bytes_compare_refl a)

pub less_asym : (a b : Bytes) → less a b ≡ true → less b a ≡ false
less_asym a b h = ground (arith, bytes_compare_trans a b a, bytes_compare_refl a)

AllAbove-trans : (x y : Bytes) (ks : List Bytes) → less x y ≡ true → AllAbove y ks → AllAbove x ks
AllAbove-trans x y [] h a = tt
AllAbove-trans x y (z ∷ ks) h a = (less_trans x y z h a.0, AllAbove-trans x y ks h a.1)

pub AllAbove-not-mem :
    (x k : Bytes) (ks : List Bytes) → AllAbove x ks → less x k ≡ false → mem k ks ≡ false
AllAbove-not-mem x k [] a h = refl
AllAbove-not-mem x k (y ∷ ks) a h = ground (arith, AllAbove-not-mem x k ks a.1, equal_iff y k)

-- the number of leading keys below `k`
unfoldable pub lower_bound : Bytes → List Bytes → ℕ
lower_bound k [] = 0
lower_bound k (x ∷ xs) = if less x k then suc (lower_bound k xs) else 0

lower_bound-le : (k : Bytes) (ks : List Bytes) → lower_bound k ks ≤ length ks
unfolding lower_bound
lower_bound-le k [] = omega arith
lower_bound-le k (x ∷ xs) = ground (arith, lower_bound-le k xs)

at_least_below :
    (k : Bytes) (ks : List Bytes) (h : ℕ) → h < lower_bound k ks → at_least ks k h ≡ false
unfolding lower_bound
at_least_below k [] h p = absurd (omega arith)
at_least_below k (x ∷ xs) zero p = ground arith
at_least_below k (x ∷ xs) (suc h) p = ground (arith, at_least_below k xs h)

at_least_later :
    (x k : Bytes) (ks : List Bytes) (h : ℕ)
    → AllAbove x ks
    → less x k ≡ false
    → h < length ks
    → at_least ks k h ≡ true
at_least_later x k [] h a p l = absurd (omega arith)
at_least_later x k (y ∷ ys) zero a p l = ground (arith, less_trans x y k)
at_least_later x k (y ∷ ys) (suc h) a p l = at_least_later x k ys h a.1 p (omega arith)

at_least_above :
    (k : Bytes) (ks : List Bytes) (h : ℕ)
    → IsSorted ks
    → lower_bound k ks ≤ h
    → h < length ks
    → at_least ks k h ≡ true
unfolding lower_bound
at_least_above k [] h s p l = absurd (omega arith)
at_least_above k (x ∷ xs) zero s p l = ground arith
at_least_above k (x ∷ xs) (suc h) s p l =
    ground (arith, at_least_above k xs h s.1, at_least_later x k xs h s.0)

-- The bisection finds the place of `k`.
pub position-lower_bound :
    (k : Bytes) (ks : List Bytes) → IsSorted ks → position ks k ≡ lower_bound k ks
unfolding position
position-lower_bound k ks s =
    search_finds (at_least ks k) (length ks) (lower_bound k ks) (at_least_below k ks)
      (λ h. at_least_above k ks h s) (lower_bound-le k ks)

unfoldable pub ordered_insert : Bytes → List Bytes → List Bytes
ordered_insert k [] = k ∷ []
ordered_insert k (x ∷ xs) = if less x k then x ∷ ordered_insert k xs else k ∷ x ∷ xs

pub insert_at-lower_bound :
    (k : Bytes) (ks : List Bytes) → insert_at (lower_bound k ks) k ks ≡ ordered_insert k ks
unfolding insert_at lower_bound ordered_insert
insert_at-lower_bound k [] = refl
insert_at-lower_bound k (x ∷ xs) = ground (arith, insert_at-lower_bound k xs)

pub mem-ordered_insert :
    (j k : Bytes) (ks : List Bytes) → mem j (ordered_insert k ks) ≡ (equal k j || mem j ks)
unfolding ordered_insert
mem-ordered_insert j k [] = refl
mem-ordered_insert j k (x ∷ xs) = ground (arith, mem-ordered_insert j k xs)

AllAbove-ordered_insert :
    (x k : Bytes) (ks : List Bytes)
    → less x k ≡ true
    → AllAbove x ks
    → AllAbove x (ordered_insert k ks)
unfolding ordered_insert
AllAbove-ordered_insert x k [] h a = (h, tt)
AllAbove-ordered_insert x k (y ∷ ys) h a = elim (Bool-cases (less y k)) [
  | inl p ↦ rw p (a.0, AllAbove-ordered_insert x k ys h a.1)
  | inr p ↦ rw p (h, a)
]

pub IsSorted-ordered_insert :
    (k : Bytes) (ks : List Bytes) → IsSorted ks → mem k ks ≡ false → IsSorted (ordered_insert k ks)
unfolding ordered_insert
IsSorted-ordered_insert k [] s m = (tt, tt)
IsSorted-ordered_insert k (x ∷ xs) s m = elim (Bool-cases (less x k)) [
  | inl p ↦
      rw p (AllAbove-ordered_insert x k xs p s.0, IsSorted-ordered_insert k xs s.1 (ground arith))
  | inr p ↦
      let below : less k x ≡ true = less_total x k p (ground arith) in
      rw p ((below, AllAbove-trans k x xs below s.0), s)
]

-- `ks` with the first `k` left out, where `k` would stand
unfoldable pub ordered_remove : Bytes → List Bytes → List Bytes
ordered_remove k [] = []
ordered_remove k (x ∷ xs) = if less x k then x ∷ ordered_remove k xs else xs

pub remove_at-lower_bound :
    (k : Bytes) (ks : List Bytes) → remove_at (lower_bound k ks) ks ≡ ordered_remove k ks
unfolding remove_at lower_bound ordered_remove
remove_at-lower_bound k [] = refl
remove_at-lower_bound k (x ∷ xs) = ground (arith, remove_at-lower_bound k xs)

pub stands_at-lower_bound :
    (k : Bytes) (ks : List Bytes) → IsSorted ks → stands_at (lower_bound k ks) k ks ≡ mem k ks
unfolding lower_bound
stands_at-lower_bound k [] s = refl
stands_at-lower_bound k (x ∷ xs) s =
    ground (arith, stands_at-lower_bound k xs s.1, AllAbove-not-mem x k xs s.0, less-ne x k)

AllAbove-ordered_remove :
    (x k : Bytes) (ks : List Bytes) → AllAbove x ks → AllAbove x (ordered_remove k ks)
unfolding ordered_remove
AllAbove-ordered_remove x k [] a = tt
AllAbove-ordered_remove x k (y ∷ ys) a = ground (arith, AllAbove-ordered_remove x k ys a.1)

pub IsSorted-ordered_remove :
    (k : Bytes) (ks : List Bytes) → IsSorted ks → IsSorted (ordered_remove k ks)
unfolding ordered_remove
IsSorted-ordered_remove k [] s = tt
IsSorted-ordered_remove k (x ∷ xs) s =
    ground (arith, IsSorted-ordered_remove k xs s.1, AllAbove-ordered_remove x k xs s.0)

-- Each key stands once in a sorted slice, so removing one leaves none of it.
pub mem-ordered_remove :
    (j k : Bytes) (ks : List Bytes)
    → IsSorted ks
    → mem k ks ≡ true
    → mem j (ordered_remove k ks) ≡ (if equal k j then false else mem j ks)
unfolding ordered_remove
mem-ordered_remove j k [] s m = cc
mem-ordered_remove j k (x ∷ xs) s m = ground (
  arith,
  mem-ordered_remove j k xs s.1,
  AllAbove-not-mem x k xs s.0,
  AllAbove-not-mem x j xs s.0,
  less-ne x k,
  less_irrefl x,
  equal_iff x k,
  equal_iff k j,
  equal_iff x j,
)

pub length-ordered_insert :
    (k : Bytes) (ks : List Bytes) → length (ordered_insert k ks) ≡ suc (length ks)
unfolding ordered_insert
length-ordered_insert k [] = refl
length-ordered_insert k (x ∷ xs) = ground (arith, length-ordered_insert k xs)

pub length-ordered_remove :
    (k : Bytes) (ks : List Bytes)
    → IsSorted ks
    → mem k ks ≡ true
    → suc (length (ordered_remove k ks)) ≡ length ks
unfolding ordered_remove
length-ordered_remove k [] s m = cc
length-ordered_remove k (x ∷ xs) s m = ground (arith, length-ordered_remove k xs s.1, less-ne x k)
