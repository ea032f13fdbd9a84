-- ===== src/Storage/BTree/Walk.antt =====
-- `Iterate` of internal/storage/btree.go walks the entries between its bounds.
use monsoon.Prelude.{
  ℕ, zero, suc, Bool, true, false, ◌&&◌, List, [], ◌∷◌, ◌≡◌, ◌∙◌, refl, inl, inr, Bool-cases, arith,
  ltb, if◌then◌else◌, length, drop,
}
use monsoon.Bytes.{Bytes}
use monsoon.Bytes.Order.{bytes_compare_gt, bytes_compare_lt, bytes_compare_trans}
use monsoon.GoMap.{Map, bytes_eq}
use monsoon.Storage.BTree.{
  BTree, less, greater, item, snapshot, snapshot_keys, iterate, iterate_keys,
}
use monsoon.Storage.BTree.Sorted.{AllAbove, IsSorted, less_trans, lower_bound, position-lower_bound}
use monsoon.Storage.BTree.Valid.{IsValid}
use monsoon.Storage.BTree.Entries.{Entries}

-- the entries from `start` on, and those up to `stop`; an empty bound is none
unfoldable pub from_start : Bytes → Entries → Entries
from_start start [] = []
from_start start ((x, w) ∷ es) =
    let rest = from_start start es in
    if ltb 0 (length start) && less x start then rest else (x, w) ∷ rest

unfoldable pub up_to : Bytes → Entries → Entries
up_to stop [] = []
up_to stop ((x, w) ∷ es) =
    let rest = up_to stop es in
    if ltb 0 (length stop) && greater x stop then rest else (x, w) ∷ rest

-- the callback on one entry after the other, until it says to stop
unfoldable pub walk {ℓ} : {S : Type ℓ} → (Bytes → Bytes → S → S × Bool) → Entries → S → S
walk fn [] s = s
walk fn ((x, w) ∷ es) s =
    let rest = walk fn es (fn x w s).0 in if (fn x w s).1 then rest else (fn x w s).0

module _ (m : Map Bytes Bytes) where
  from_start-above :
      (x start : Bytes) (ks : List Bytes)
      → AllAbove x ks
      → less x start ≡ false
      → from_start start (snapshot_keys m ks) ≡ snapshot_keys m ks
  unfolding from_start snapshot_keys
  from_start-above x start [] a h = refl
  from_start-above x start (y ∷ ks) a h =
      ground (arith, from_start-above x start ks a.1, less_trans x y start)

  from_start-drop :
      (start : Bytes) (ks : List Bytes)
      → IsSorted ks
      → ltb 0 (length start) ≡ true
      → from_start start (snapshot_keys m ks) ≡ snapshot_keys m (drop (lower_bound start ks) ks)
  unfolding from_start snapshot_keys lower_bound
  from_start-drop start [] s h = refl
  from_start-drop start (x ∷ ks) s h =
      ground (arith, from_start-drop start ks s.1, from_start-above x start ks s.0)

  from_start_unbounded :
      (start : Bytes) (es : Entries) → ltb 0 (length start) ≡ false → from_start start es ≡ es
  unfolding from_start
  from_start_unbounded start [] h = refl
  from_start_unbounded start ((x, w) ∷ es) h = ground (arith, from_start_unbounded start es)

  greater_trans :
      (x y stop : Bytes) → less x y ≡ true → greater x stop ≡ true → greater y stop ≡ true
  greater_trans x y stop h g =
      ground (arith, bytes_compare_gt x stop, bytes_compare_trans stop x y, bytes_compare_lt stop y)

  up_to-above :
      (x stop : Bytes) (ks : List Bytes)
      → AllAbove x ks
      → ltb 0 (length stop) ≡ true
      → greater x stop ≡ true
      → up_to stop (snapshot_keys m ks) ≡ []
  unfolding up_to snapshot_keys
  up_to-above x stop [] a l h = refl
  up_to-above x stop (y ∷ ks) a l h =
      ground (arith, up_to-above x stop ks a.1, greater_trans x y stop)

  module _ {ℓ} {S : Type ℓ} (stop : Bytes) (fn : Bytes → Bytes → S → S × Bool) where
    iterate_keys-walk :
        (ks : List Bytes) (s : S)
        → IsSorted ks
        → iterate_keys m stop fn ks s ≡ walk fn (up_to stop (snapshot_keys m ks)) s
    unfolding iterate_keys walk up_to snapshot_keys
    iterate_keys-walk [] s h = refl
    iterate_keys-walk (x ∷ ks) s h =
        ground (arith, iterate_keys-walk ks (fn x (item m x) s).0 h.1, up_to-above x stop ks h.0)

IsSorted-drop : (n : ℕ) (ks : List Bytes) → IsSorted ks → IsSorted (drop n ks)
IsSorted-drop zero ks s = s
IsSorted-drop (suc n) [] s = tt
IsSorted-drop (suc n) (x ∷ ks) s = IsSorted-drop n ks s.1

-- On a tree whose keys are sorted and stand for its items, `Iterate` calls its function on the
-- entries of the snapshot between the bounds, both included and an empty bound being none, in order,
-- until the function says to stop.
pub iterate-walk {ℓ} :
    {S : Type ℓ} (t : BTree) (start stop : Bytes) (fn : Bytes → Bytes → S → S × Bool) (s : S)
    → IsValid t
    → iterate t start stop fn s ≡ walk fn (up_to stop (from_start start (snapshot t))) s
unfolding iterate snapshot
iterate-walk t start stop fn s h = elim (Bool-cases (ltb 0 (length start))) [
  | inl bounded ↦
      rw (bounded, position-lower_bound start t.keys h.sorted)
        (rw (from_start-drop t.items start t.keys h.sorted bounded)
          (iterate_keys-walk t.items stop fn _ s (IsSorted-drop _ t.keys h.sorted)))
  | inr free ↦
      rw (free, from_start_unbounded t.items start (snapshot_keys t.items t.keys) free)
        (iterate_keys-walk t.items stop fn t.keys s h.sorted)
]

from_start_none : (es : Entries) → from_start [] es ≡ es
unfolding from_start
from_start_none [] = refl
from_start_none ((x, w) ∷ es) = rw (from_start_none es) refl

up_to_none : (es : Entries) → up_to [] es ≡ es
unfolding up_to
up_to_none [] = refl
up_to_none ((x, w) ∷ es) = rw (up_to_none es) refl

-- without bounds it is called on all entries
pub iterate-walk_all {ℓ} :
    {S : Type ℓ} (t : BTree) (fn : Bytes → Bytes → S → S × Bool) (s : S)
    → IsValid t
    → iterate t [] [] fn s ≡ walk fn (snapshot t) s
iterate-walk_all t fn s h =
    iterate-walk t [] [] fn s h ∙ rw (from_start_none (snapshot t), up_to_none (snapshot t)) refl
