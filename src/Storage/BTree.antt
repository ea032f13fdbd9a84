-- ===== src/Storage/BTree.antt =====
-- internal/storage/btree.go: an ordered map, as a sorted slice of keys beside a hash map of values.
-- A slice passed in or out is copied by the code, so it is a value here. The methods hold the
-- tree's lock throughout, so each is one step.
pub mod Sorted
pub mod Valid
pub mod Entries
pub mod Walk
use monsoon.Prelude.{
  ℕ, suc, ◌<◌, Ordering, Bool, true, false, not, ◌&&◌, Option, none, some, List, [], ◌∷◌, ◌++◌, ltb,
  if◌then◌else◌, is_some, length, get_or, take, drop,
}
use monsoon.Bytes.{Bytes, equal, bytes_compare}
use monsoon.GoMap.{Map, lookup, insert, erase, bytes_eq}
use monsoon.Storage.Search.{search}

pub record BTree : Type 0 where
  pub keys : List Bytes
  pub items : Map Bytes Bytes

-- `NewBTree`
abbrev pub new : BTree
new = record { keys = []; items = [] }

-- `bytes.Compare(a, b) < 0` and `bytes.Compare(a, b) > 0`
abbrev pub less : Bytes → Bytes → Bool
less a b = elim (bytes_compare a b) [ Ordering.lt ↦ true | _ ↦ false ]

abbrev pub greater : Bytes → Bytes → Bool
greater a b = elim (bytes_compare a b) [ Ordering.gt ↦ true | _ ↦ false ]

-- the closure of the searches: `bytes.Compare(t.keys[i], key) >= 0`
abbrev pub at_least : List Bytes → Bytes → ℕ → Bool
at_least keys key i = not (less (get_or keys i []) key)

-- the index at which `key` stands, or would be put
unfoldable pub position : List Bytes → Bytes → ℕ
position keys key = search (length keys) (at_least keys key)

unfoldable pub get : BTree → Bytes → Option Bytes
get t key = lookup key t.items

-- `append(t.keys, nil)`, `copy(t.keys[idx+1:], t.keys[idx:])` and `t.keys[idx] = key`
unfoldable pub insert_at : ℕ → Bytes → List Bytes → List Bytes
insert_at idx key keys = take idx keys ++ (key ∷ drop idx keys)

-- `copy(t.keys[idx:], t.keys[idx+1:])` and the slice one shorter
unfoldable pub remove_at : ℕ → List Bytes → List Bytes
remove_at idx keys = take idx keys ++ drop (suc idx) keys

-- The method is `Set`.
unfoldable pub set : BTree → Bytes → Bytes → BTree
set t key value = record {
  keys =
      (if is_some (lookup key t.items) then t.keys else insert_at (position t.keys key) key t.keys);
  items = insert key value t.items;
}

-- `idx < len(t.keys) && bytes.Equal(t.keys[idx], key)`
abbrev pub stands_at : ℕ → Bytes → List Bytes → Bool
stands_at idx key keys = ltb idx (length keys) && equal (get_or keys idx []) key

unfoldable pub delete : BTree → Bytes → BTree × Bool
delete t key =
    let idx = position t.keys key in
    if is_some (lookup key t.items)
    then (
      record {
        keys = (if stands_at idx key t.keys then remove_at idx t.keys else t.keys);
        items = erase key t.items;
      },
      true,
    )
    else (t, false)

-- The method is `Len`.
unfoldable pub len : BTree → ℕ
len t = length t.items

-- `t.items[string(k)]`, which is empty for a key that is missing
abbrev pub item : Map Bytes Bytes → Bytes → Bytes
item items key = elim (lookup key items) [ none ↦ [] | some v ↦ v ]

unfoldable pub snapshot_keys : Map Bytes Bytes → List Bytes → List (Bytes × Bytes)
snapshot_keys items [] = []
snapshot_keys items (k ∷ ks) = (k, item items k) ∷ snapshot_keys items ks

unfoldable pub snapshot : BTree → List (Bytes × Bytes)
unfolding snapshot_keys
snapshot t = snapshot_keys t.items t.keys

-- The loop of `Iterate` from one index on: the callback is a function of a state, and says with
-- its new state whether to go on.
unfoldable pub iterate_keys {ℓ} :
    {S : Type ℓ} → Map Bytes Bytes → Bytes → (Bytes → Bytes → S → S × Bool) → List Bytes → S → S
iterate_keys items stop fn [] s = s
iterate_keys items stop fn (k ∷ ks) s =
    let rest = iterate_keys items stop fn ks (fn k (item items k) s).0 in
    if ltb 0 (length stop) && greater k stop
    then s
    else if (fn k (item items k) s).1
    then rest
    else (fn k (item items k) s).0

-- `Iterate(start, end, fn)`: an empty `start` or `stop` is no bound.
unfoldable pub iterate {ℓ} :
    {S : Type ℓ} → BTree → Bytes → Bytes → (Bytes → Bytes → S → S × Bool) → S → S
unfolding iterate_keys
iterate t start stop fn s =
    let idx = (if ltb 0 (length start) then position t.keys start else 0) in
    iterate_keys t.items stop fn (drop idx t.keys) s
