-- ===== src/Storage/Engine/Lookup.antt =====
-- What `Get` of internal/storage/engine.go finds behind a mutation, and names of trees.
use monsoon.Prelude.{
  ℕ, Bool, true, false, Option, none, some, [], ◌∷◌, ◌≡◌, ◌≢◌, refl, ap, ◌∙◌, arith, ◌==◌,
  if◌then◌else◌, is_some, Bool-cases, inl, inr,
}
use monsoon.Bytes.{Bytes}
use monsoon.GoMap.{Map, lookup, bytes_eq}
use monsoon.GoMap.Laws.{lookup-insert, lookup-insert_self, lookup-erase, beq_refl}
use monsoon.Storage.BTree
use monsoon.Storage.BTree.{BTree}
use monsoon.Storage.Record.{op_del}
use monsoon.Storage.Engine
use monsoon.Storage.Engine.{Mutation, apply_mutation, tree_key_sep}
use monsoon.Storage.Engine.TreeKey.{NoSep, IsTreeName}

-- what `Get` finds in a map of trees
abbrev pub get_in : Bytes → Bytes → Map Bytes BTree → Option Bytes
get_in tree key trees = elim (lookup tree trees) [ none ↦ none | some t ↦ BTree.get t key ]

lookup-with_tree :
    (k name : Bytes) (trees : Map Bytes BTree)
    → name ≢ k
    → lookup k (Engine.with_tree name trees) ≡ lookup k trees
unfolding Engine.with_tree
lookup-with_tree k name trees n =
    ground (arith, bytes_eq.beq_iff name k, lookup-insert name k BTree.new trees)

pub lookup-apply_mutation :
    (k : Bytes) (m : Mutation) (trees : Map Bytes BTree)
    → m.tree ≢ k
    → lookup k (apply_mutation m trees) ≡ lookup k trees
unfolding apply_mutation
lookup-apply_mutation k m trees n =
    lookup-insert m.tree k _ (Engine.with_tree m.tree trees)
    ∙ rw (other k m.tree n) (lookup-with_tree k m.tree trees n)
  where
    other : (k name : Bytes) → name ≢ k → bytes_eq.beq name k ≡ false
    other k name n = ground (arith, bytes_eq.beq_iff name k)

pub get-set_self : (t : BTree) (k v : Bytes) → BTree.get (BTree.set t k v) k ≡ some v
unfolding BTree.get BTree.set
get-set_self t k v = lookup-insert_self k v t.items

pub get-delete_self : (t : BTree) (k : Bytes) → BTree.get (BTree.delete t k).0 k ≡ none
unfolding BTree.get BTree.delete
get-delete_self t k = elim (Bool-cases (is_some (lookup k t.items))) [
  | inl here ↦ rw here (lookup-erase k k t.items ∙ rw (beq_refl {K = Bytes} k) refl)
  | inr absent ↦ rw absent (ground (arith, absent))
]

-- what a tree has behind a deletion
pub get_in-delete :
    (tree key : Bytes) (trees : Map Bytes BTree)
    → get_in tree key
        (apply_mutation (record { tree = tree; op = op_del; key = key; value = [] }) trees)
      ≡ none
unfolding apply_mutation
get_in-delete tree key trees =
    ap (λ o. elim o [ none ↦ none | some t ↦ BTree.get t key ])
      (lookup-insert_self tree _ (Engine.with_tree tree trees))
    ∙ get-delete_self _ key

-- no byte of a name is the separator
unfoldable pub lacks_sep : Bytes → Bool
lacks_sep [] = true
lacks_sep (c ∷ cs) = let rest = lacks_sep cs in if c == tree_key_sep then false else rest

lacks_sep-NoSep : (s : Bytes) → lacks_sep s ≡ true → NoSep s
unfolding lacks_sep
lacks_sep-NoSep [] h = tt
lacks_sep-NoSep (c ∷ cs) h = ground (arith, lacks_sep-NoSep cs)

pub lacks_sep-IsTreeName : (c : ℕ) (s : Bytes) → lacks_sep (c ∷ s) ≡ true → IsTreeName (c ∷ s)
lacks_sep-IsTreeName c s h = record { not_empty = λ e. cc; no_sep = lacks_sep-NoSep (c ∷ s) h }
