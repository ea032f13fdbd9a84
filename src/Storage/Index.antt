-- ===== src/Storage/Index.antt =====
-- internal/storage/index.go: secondary indexes, each a tree whose keys are an index key, a zero byte
-- and a primary key, and whose values are the primary keys. The lock is held throughout each
-- method, so each is one step; `none` as a value is Go's nil slice.
pub mod Scan
use monsoon.Prelude.{
  ℕ, Bool, true, false, Option, none, some, List, [], ◌∷◌, ◌++◌, if◌then◌else◌, is_some,
}
use monsoon.Bytes.{Bytes, has_prefix}
use monsoon.GoMap.{Map, lookup, insert, bytes_eq}
use monsoon.Storage.BTree
use monsoon.Storage.BTree.{BTree}

abbrev pub IndexFunc : Type 0
IndexFunc = Bytes → Bytes → List Bytes

pub record IndexManager : Type 0 where
  pub indexes : Map Bytes IndexFunc
  pub trees : Map Bytes BTree

-- `NewIndexManager`
abbrev pub new : IndexManager
new = record { indexes = []; trees = [] }

-- `Create`; `false` is the error for a name that is taken
unfoldable pub create : Bytes → IndexFunc → IndexManager → IndexManager × Bool
create name fn m = if is_some (lookup name m.indexes) then (m, false) else (
  record { indexes = insert name fn m.indexes; trees = insert name BTree.new m.trees },
  true,
)

unfoldable pub compose_index_key : Bytes → Bytes → Bytes
compose_index_key index_key primary_key = index_key ++ (0 ∷ primary_key)

-- the loop over the index keys of the old value
unfoldable pub remove_keys : Bytes → List Bytes → BTree → BTree
unfolding compose_index_key
remove_keys pk [] t = t
remove_keys pk (k ∷ ks) t = remove_keys pk ks (BTree.delete t (compose_index_key k pk)).0

-- the loop over the index keys of the new value
unfoldable pub add_keys : Bytes → List Bytes → BTree → BTree
unfolding compose_index_key
add_keys pk [] t = t
add_keys pk (k ∷ ks) t = add_keys pk ks (BTree.set t (compose_index_key k pk) pk)

abbrev pub keys_of : IndexFunc → Bytes → Option Bytes → List Bytes
keys_of fn pk none = []
keys_of fn pk (some v) = fn pk v

-- what `Update` does to the tree of one index
unfoldable pub update_tree : IndexFunc → Bytes → Option Bytes → Option Bytes → BTree → BTree
unfolding remove_keys add_keys
update_tree fn pk old_value new_value t =
    add_keys pk (keys_of fn pk new_value) (remove_keys pk (keys_of fn pk old_value) t)

-- the loop of `Update` over the indexes; a tree that is missing would be a nil pointer
unfoldable pub update_trees :
    Map Bytes IndexFunc → Bytes → Option Bytes → Option Bytes → Map Bytes BTree → Map Bytes BTree
unfolding update_tree
update_trees [] pk old_value new_value trees = trees
update_trees ((name, fn) ∷ rest) pk old_value new_value trees =
    update_trees rest pk old_value new_value (elim (lookup name trees) [
      | none ↦ trees
      | some t ↦ insert name (update_tree fn pk old_value new_value t) trees
    ])

unfoldable pub update : Bytes → Option Bytes → Option Bytes → IndexManager → IndexManager
unfolding update_trees
update pk old_value new_value m = record m {
  trees = update_trees m.indexes pk old_value new_value m.trees;
}

-- the callback of `Scan`
abbrev pub collect : Bytes → Bytes → Bytes → List Bytes → List Bytes × Bool
collect prefix k v res = if has_prefix k prefix then (res ++ v ∷ [], true) else (res, false)

pub scan : Bytes → Bytes → IndexManager → List Bytes
scan name prefix m = elim (lookup name m.trees) [
  | none ↦ []
  | some tree ↦ BTree.iterate tree prefix [] (collect prefix) []
]
