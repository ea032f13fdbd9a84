-- ===== src/Storage/Index/Scan.antt =====
-- `Scan` of internal/storage/index.go finds the keys that begin with the prefix: in a sorted tree
-- they stand side by side, from the place of the prefix on.
use monsoon.Prelude.{
  suc, lt→ltb, true, false, some, List, [], ◌∷◌, ◌++◌, ◌≡◌, refl, sym, inl, inr, Bool-cases, arith,
  if◌then◌else◌, length, append-nil, append_assoc,
}
use monsoon.Bytes.{Bytes, bytes_compare, has_prefix}
use monsoon.GoMap.{Map, lookup, bytes_eq}
use monsoon.Storage.BTree
use monsoon.Storage.BTree.{BTree, less, snapshot_keys, item}
use monsoon.Storage.BTree.Sorted.{AllAbove, IsSorted}
use monsoon.Storage.BTree.Valid.{IsValid}
use monsoon.Storage.BTree.Entries.{Entries}
use monsoon.Storage.BTree.Walk.{from_start, up_to, walk, iterate-walk}
use monsoon.Storage.Index.{IndexManager, collect, scan}

-- the values of the entries whose keys begin with `prefix`
pub values_with_prefix : Bytes → Entries → List Bytes
values_with_prefix prefix [] = []
values_with_prefix prefix ((k, v) ∷ es) =
    let rest = values_with_prefix prefix es in if has_prefix k prefix then v ∷ rest else rest

-- a key below the prefix does not begin with it
has_prefix-less : (k p : Bytes) → less k p ≡ true → has_prefix k p ≡ false
unfolding bytes_compare has_prefix
has_prefix-less [] [] h = cc
has_prefix-less [] (y ∷ p) h = refl
has_prefix-less (x ∷ k) [] h = cc
has_prefix-less (x ∷ k) (y ∷ p) h = ground (arith, has_prefix-less k p)

-- between the prefix and a key that begins with it stand only such keys
has_prefix-between :
    (p k j : Bytes)
    → less k p ≡ false
    → less k j ≡ true
    → has_prefix j p ≡ true
    → has_prefix k p ≡ true
unfolding bytes_compare has_prefix
has_prefix-between [] [] j h l q = refl
has_prefix-between [] (x ∷ k) j h l q = refl
has_prefix-between (y ∷ p) [] j h l q = cc
has_prefix-between (y ∷ p) (x ∷ k) [] h l q = cc
has_prefix-between (y ∷ p) (x ∷ k) (z ∷ j) h l q = ground (arith, has_prefix-between p k j)

-- the keys of the entries rise
abbrev EntriesAbove : Bytes → Entries → Type 0
EntriesAbove x [] = Unit
EntriesAbove x ((k, v) ∷ es) = (less x k ≡ true) × EntriesAbove x es

abbrev AreSorted : Entries → Type 0
AreSorted [] = Unit
AreSorted ((k, v) ∷ es) = EntriesAbove k es × AreSorted es

EntriesAbove-snapshot_keys :
    (m : Map Bytes Bytes) (x : Bytes) (ks : List Bytes)
    → AllAbove x ks
    → EntriesAbove x (snapshot_keys m ks)
unfolding snapshot_keys
EntriesAbove-snapshot_keys m x [] a = tt
EntriesAbove-snapshot_keys m x (k ∷ ks) a = (a.0, EntriesAbove-snapshot_keys m x ks a.1)

AreSorted-snapshot_keys :
    (m : Map Bytes Bytes) (ks : List Bytes) → IsSorted ks → AreSorted (snapshot_keys m ks)
unfolding snapshot_keys
AreSorted-snapshot_keys m [] s = tt
AreSorted-snapshot_keys m (k ∷ ks) s =
    (EntriesAbove-snapshot_keys m k ks s.0, AreSorted-snapshot_keys m ks s.1)

AreSorted-snapshot : (t : BTree) → IsValid t → AreSorted (BTree.snapshot t)
unfolding BTree.snapshot
AreSorted-snapshot t h = AreSorted-snapshot_keys t.items t.keys h.sorted

-- no key is below the prefix
abbrev NoneBelow : Bytes → Entries → Type 0
NoneBelow p [] = Unit
NoneBelow p ((k, v) ∷ es) = (less k p ≡ false) × NoneBelow p es

module _ (p : Bytes) where
  none_behind :
      (k : Bytes) (es : Entries)
      → less k p ≡ false
      → has_prefix k p ≡ false
      → EntriesAbove k es
      → values_with_prefix p es ≡ []
  unfolding values_with_prefix
  none_behind k [] h q a = refl
  none_behind k ((j, v) ∷ es) h q a =
      ground (arith, none_behind k es h q a.1, has_prefix-between p k j)

  EntriesAbove-from_start :
      (k : Bytes) (es : Entries) → EntriesAbove k es → EntriesAbove k (from_start p es)
  unfolding from_start
  EntriesAbove-from_start k [] a = tt
  EntriesAbove-from_start k ((j, v) ∷ es) a = ground (arith, EntriesAbove-from_start k es a.1)

  AreSorted-from_start : (es : Entries) → AreSorted es → AreSorted (from_start p es)
  unfolding from_start
  AreSorted-from_start [] s = tt
  AreSorted-from_start ((k, v) ∷ es) s =
      ground (arith, AreSorted-from_start es s.1, EntriesAbove-from_start k es s.0)

  values-from_start :
      (es : Entries) → values_with_prefix p (from_start p es) ≡ values_with_prefix p es
  unfolding from_start values_with_prefix
  values-from_start [] = refl
  values-from_start ((k, v) ∷ es) = ground (arith, values-from_start es, has_prefix-less k p)

  walk-collect :
      (es : Entries) (res : List Bytes)
      → AreSorted es
      → NoneBelow p es
      → walk (collect p) es res ≡ res ++ values_with_prefix p es
  unfolding walk values_with_prefix
  walk-collect [] res s n = sym (append-nil res)
  walk-collect ((k, v) ∷ es) res s n = ground (
    arith,
    walk-collect es (res ++ v ∷ []) s.1,
    none_behind k es n.0,
    append-nil res,
    append_assoc res (v ∷ []) (values_with_prefix p es),
  )

less-nil : (k : Bytes) → less k [] ≡ false
unfolding bytes_compare
less-nil [] = refl
less-nil (x ∷ k) = refl

NoneBelow-from_start : (p : Bytes) (es : Entries) → NoneBelow p (from_start p es)
unfolding from_start
NoneBelow-from_start [] [] = tt
NoneBelow-from_start (y ∷ p) [] = tt
NoneBelow-from_start [] ((k, v) ∷ es) = (less-nil k, NoneBelow-from_start [] es)
NoneBelow-from_start (y ∷ p) ((k, v) ∷ es) = elim (Bool-cases (less k (y ∷ p))) [
  | inl below ↦
      rw (lt→ltb 0 (suc (length p)) (omega arith), below) (NoneBelow-from_start (y ∷ p) es)
  | inr above ↦
      rw (lt→ltb 0 (suc (length p)) (omega arith), above) (above, NoneBelow-from_start (y ∷ p) es)
]

up_to-nil : (es : Entries) → up_to [] es ≡ es
unfolding up_to
up_to-nil [] = refl
up_to-nil ((k, v) ∷ es) = ground (arith, up_to-nil es)

-- `Scan` returns, in the order of their keys, the values of all the entries of the index whose keys
-- begin with the prefix.
pub scan-values_with_prefix :
    (name prefix : Bytes) (m : IndexManager) {t : BTree}
    → lookup name m.trees ≡ some t
    → IsValid t
    → scan name prefix m ≡ values_with_prefix prefix (BTree.snapshot t)
unfolding scan
scan-values_with_prefix name prefix m {t} found valid =
    rw
      (
        found,
        scan,
        iterate-walk t prefix [] (collect prefix) [] valid,
        up_to-nil,
        walk-collect prefix (from_start prefix (BTree.snapshot t)) []
            (AreSorted-from_start prefix (BTree.snapshot t) (AreSorted-snapshot t valid))
            (NoneBelow-from_start prefix (BTree.snapshot t)),
      )
      (values-from_start prefix (BTree.snapshot t))
