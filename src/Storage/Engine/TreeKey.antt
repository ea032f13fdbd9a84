-- ===== src/Storage/Engine/TreeKey.antt =====
-- The keys of the log (internal/storage/engine.go) name a tree and a key in it.
use monsoon.Prelude.{
  Option, none, some, [], ◌∷◌, ◌≡◌, ◌≢◌, refl, sym, ap, inl, inr, Bool-cases, Option-cases, arith,
  ◌==◌,
}
use monsoon.Bytes.{Bytes}
use monsoon.Storage.Engine.{tree_key_sep, make_tree_key, cut_at_sep, split_tree_key, reject_empty}

abbrev pub NoSep : Bytes → Type 0
NoSep [] = Unit
NoSep (c ∷ cs) = (c ≢ tree_key_sep) × NoSep cs

-- A name that `makeTreeKey` can be undone for: not empty, and without the separator.
pub record IsTreeName (tree : Bytes) : Type 0 where
  pub not_empty : tree ≢ []
  pub no_sep : NoSep tree

cut_at_sep-make :
    (tree key : Bytes) → NoSep tree → cut_at_sep (make_tree_key tree key) ≡ some (tree, key)
unfolding cut_at_sep make_tree_key
cut_at_sep-make [] key n = refl
cut_at_sep-make (c ∷ cs) key n = ground (arith, cut_at_sep-make cs key n.1, n.0)

make-cut_at_sep :
    (k : Bytes) {tree key : Bytes}
    → cut_at_sep k ≡ some (tree, key)
    → (k ≡ make_tree_key tree key) × NoSep tree
unfolding cut_at_sep make_tree_key
make-cut_at_sep [] h = cc
make-cut_at_sep (c ∷ cs) {tree} {key} h = elim (Option-cases (cut_at_sep cs)) [
  | inl without ↦ elim (Bool-cases (c == tree_key_sep)) [
    | inl here ↦
        let e : ([] ≡ tree) × (cs ≡ key) = ground arith in
        (rw (← e.0, ← e.1) (ground arith), rw (← e.0) tt)
    | inr later ↦ absurd (ground arith)
  ]
  | inr ((t, k), found) ↦ elim (Bool-cases (c == tree_key_sep)) [
    | inl here ↦
        let e : ([] ≡ tree) × (cs ≡ key) = ground arith in
        (rw (← e.0, ← e.1) (ground arith), rw (← e.0) tt)
    | inr later ↦
        let e : (c ∷ t ≡ tree) × (k ≡ key) = ground arith in
        let ih = make-cut_at_sep cs found in
        (rw (← e.0, ← e.1) (ap (◌∷◌ c) ih.0), rw (← e.0) (ground arith, ih.1))
  ]
]

-- A tree key splits into the tree and the key that it was made of.
pub split-make_tree_key :
    (tree key : Bytes)
    → IsTreeName tree
    → split_tree_key (make_tree_key tree key) ≡ some (tree, key)
unfolding split_tree_key
split-make_tree_key [] key n = absurd (n.not_empty refl)
split-make_tree_key (c ∷ cs) key n = rw (cut_at_sep-make (c ∷ cs) key n.no_sep)

proper_part :
    (k : Bytes) (o : Option (Bytes × Bytes)) {tree key : Bytes}
    → cut_at_sep k ≡ o
    → reject_empty o ≡ some (tree, key)
    → (make_tree_key tree key ≡ k) × IsTreeName tree
proper_part k none h q = cc
proper_part k (some ([], r)) h q = cc
proper_part k (some (c ∷ t, r)) {tree} {key} h q =
    let e : (c ∷ t ≡ tree) × (r ≡ key) = ground arith in
    let m = make-cut_at_sep k h in
    rw (← e.0, ← e.1) (sym m.0, record { not_empty = λ x. cc x; no_sep = m.1 })

-- What splits is the tree key of its parts, and the tree has a proper name.
pub make-split_tree_key :
    (k : Bytes) {tree key : Bytes}
    → split_tree_key k ≡ some (tree, key)
    → (make_tree_key tree key ≡ k) × IsTreeName tree
unfolding split_tree_key
make-split_tree_key k h = proper_part k (cut_at_sep k) refl h
