-- ===== src/Storage/BTree/Entries.antt =====
-- A tree refines an ordered list of entries: `Snapshot` is that list, `Get` looks a key up in it,
-- and `Set` and `Delete` are an ordered insertion and removal (internal/storage/btree.go).
use monsoon.Prelude.{
  true, false, Option, none, some, List, [], ◌∷◌, ◌≡◌, refl, arith, if◌then◌else◌, is_some,
}
use monsoon.Bytes.{Bytes, equal}
use monsoon.Bytes.Order.{equal_iff}
use monsoon.GoMap.{Map, insert, erase, bytes_eq}
use monsoon.GoMap.Laws.{lookup-insert, lookup-insert_self, lookup-erase}
use monsoon.Storage.BTree.{BTree, less, item, get, set, delete, snapshot, snapshot_keys}
use monsoon.Storage.BTree.Sorted.{
  IsSorted, mem, less-ne, less_irrefl, AllAbove-not-mem, ordered_insert, ordered_remove,
}
use monsoon.Storage.BTree.Valid.{IsValid, keys-set, keys-delete, items-delete}

abbrev pub Entries : Type 0
Entries = List (Bytes × Bytes)

-- the specification of `Set`
unfoldable pub ordered_put : Bytes → Bytes → Entries → Entries
ordered_put k v [] = (k, v) ∷ []
ordered_put k v ((x, w) ∷ es) =
    if less x k
    then (x, w) ∷ ordered_put k v es
    else if equal x k
    then (k, v) ∷ es
    else (k, v) ∷ (x, w) ∷ es

-- the specification of `Delete`
pub without : Bytes → Entries → Entries
without k [] = []
without k ((x, w) ∷ es) = let rest = without k es in if equal x k then rest else (x, w) ∷ rest

-- the specification of `Get`
unfoldable pub find : Bytes → Entries → Option Bytes
find k [] = none
find k ((x, w) ∷ es) = if equal x k then some w else find k es

module _ (m : Map Bytes Bytes) (k v : Bytes) where
  snapshot_keys-insert_ne :
      (ks : List Bytes) → mem k ks ≡ false → snapshot_keys (insert k v m) ks ≡ snapshot_keys m ks
  unfolding snapshot_keys
  snapshot_keys-insert_ne [] h = refl
  snapshot_keys-insert_ne (x ∷ ks) h =
      ground
        (arith, snapshot_keys-insert_ne ks, lookup-insert k x v m, equal_iff k x, equal_iff x k)

  snapshot_keys-insert_fresh :
      (ks : List Bytes)
      → IsSorted ks
      → mem k ks ≡ false
      → snapshot_keys (insert k v m) (ordered_insert k ks) ≡ ordered_put k v (snapshot_keys m ks)
  unfolding snapshot_keys ordered_insert ordered_put
  snapshot_keys-insert_fresh [] s h = ground (arith, lookup-insert_self k v m)
  snapshot_keys-insert_fresh (x ∷ ks) s h = ground (
    arith,
    snapshot_keys-insert_fresh ks s.1,
    snapshot_keys-insert_ne ks,
    lookup-insert_self k v m,
    lookup-insert k x v m,
    equal_iff k x,
    equal_iff x k,
  )

  snapshot_keys-insert_found :
      (ks : List Bytes)
      → IsSorted ks
      → mem k ks ≡ true
      → snapshot_keys (insert k v m) ks ≡ ordered_put k v (snapshot_keys m ks)
  unfolding snapshot_keys ordered_put
  snapshot_keys-insert_found [] s h = cc
  snapshot_keys-insert_found (x ∷ ks) s h = ground (
    arith,
    snapshot_keys-insert_found ks s.1,
    snapshot_keys-insert_ne ks,
    lookup-insert_self k v m,
    lookup-insert k x v m,
    equal_iff k x,
    equal_iff x k,
    less-ne x k,
    less_irrefl k,
    AllAbove-not-mem x k ks s.0,
  )

module _ (m : Map Bytes Bytes) (k : Bytes) where
  snapshot_keys-erase_ne :
      (ks : List Bytes)
      → mem k ks ≡ false
      → snapshot_keys (erase k m) ks ≡ without k (snapshot_keys m ks)
  unfolding snapshot_keys without
  snapshot_keys-erase_ne [] h = refl
  snapshot_keys-erase_ne (x ∷ ks) h =
      ground (arith, snapshot_keys-erase_ne ks, lookup-erase k x m, equal_iff k x, equal_iff x k)

  without_fresh :
      (ks : List Bytes) → mem k ks ≡ false → without k (snapshot_keys m ks) ≡ snapshot_keys m ks
  unfolding snapshot_keys without
  without_fresh [] h = refl
  without_fresh (x ∷ ks) h = ground (arith, without_fresh ks)

  snapshot_keys-erase_found :
      (ks : List Bytes)
      → IsSorted ks
      → mem k ks ≡ true
      → snapshot_keys (erase k m) (ordered_remove k ks) ≡ without k (snapshot_keys m ks)
  unfolding snapshot_keys ordered_remove without
  snapshot_keys-erase_found [] s h = cc
  snapshot_keys-erase_found (x ∷ ks) s h = ground (
    arith,
    snapshot_keys-erase_found ks s.1,
    snapshot_keys-erase_ne ks,
    lookup-erase k x m,
    equal_iff k x,
    equal_iff x k,
    less-ne x k,
    AllAbove-not-mem x k ks s.0,
  )

  find-snapshot_keys :
      (ks : List Bytes) → find k (snapshot_keys m ks) ≡ (if mem k ks then some (item m k) else none)
  unfolding snapshot_keys find
  find-snapshot_keys [] = refl
  find-snapshot_keys (x ∷ ks) = ground (arith, find-snapshot_keys ks, equal_iff x k)

-- `Get` is the search of the snapshot.
pub get-eq-find : (t : BTree) (k : Bytes) → IsValid t → get t k ≡ find k (snapshot t)
unfolding get snapshot
get-eq-find t k h = ground (arith, find-snapshot_keys t.items k t.keys, h.same_keys k)

-- `Set` puts the entry in its place among the entries of the snapshot, or replaces its value there.
pub snapshot-set :
    (t : BTree) (k v : Bytes) → IsValid t → snapshot (set t k v) ≡ ordered_put k v (snapshot t)
unfolding snapshot
snapshot-set t k v h = rw (keys-set t k v h) (
    unfold set in
    ground (
      arith,
      snapshot_keys-insert_found t.items k v t.keys h.sorted,
      snapshot_keys-insert_fresh t.items k v t.keys h.sorted,
      h.same_keys k,
    ))

-- `Delete` takes the entry out of the snapshot, and says whether it was there.
pub snapshot-delete :
    (t : BTree) (k : Bytes)
    → IsValid t
    → (snapshot (delete t k).0 ≡ without k (snapshot t)) × ((delete t k).1 ≡ is_some (get t k))
unfolding snapshot
snapshot-delete t k h = (
  rw (keys-delete t k h, items-delete t k)
      (ground (
        arith,
        snapshot_keys-erase_found t.items k t.keys h.sorted,
        without_fresh t.items k t.keys,
        h.same_keys k,
      )),
  unfold delete get in ground arith,
)
