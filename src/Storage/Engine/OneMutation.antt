-- ===== src/Storage/Engine/OneMutation.antt =====
-- `Put` and `Delete` of internal/storage/engine.go, whatever their outcome, leave the tree that they
-- name as it was, or with the one operation done.
use monsoon.Prelude.{
  ◌⊎◌, inl, inr, ℕ, Bool, true, false, Option, none, some, [], ◌∷◌, ◌≡◌, refl, ap, if◌then◌else◌,
  Option-cases,
}
use monsoon.Bytes.{Bytes}
use monsoon.GoMap.{Map, lookup, bytes_eq}
use monsoon.GoMap.Laws.{lookup-insert_self}
use monsoon.Storage.BTree
use monsoon.Storage.BTree.{BTree}
use monsoon.Storage.Wal
use monsoon.Storage.Wal.{Wal, Faults, WalError}
use monsoon.Storage.Engine.{
  Engine, Mutation, tree_or_new, must_tree, with_tree, apply_op, apply_mutation, finish_commit,
  commit_mutation, commit_all, commit_then, conclude, run_tx, tx, publish, engine_closed,
}

must_tree-with_tree :
    (name : Bytes) (trees : Map Bytes BTree)
    → must_tree name (with_tree name trees) ≡ must_tree name trees
unfolding must_tree with_tree
must_tree-with_tree name trees = elim (Option-cases (lookup name trees)) [
  | inl missing ↦ rw missing (rw (lookup-insert_self name BTree.new trees) refl)
  | inr (t, found) ↦ rw found (rw found refl)
]

pub must_tree-apply_mutation :
    (m : Mutation) (trees : Map Bytes BTree)
    → must_tree m.tree (apply_mutation m trees)
      ≡ apply_op m.op m.key m.value (must_tree m.tree trees)
unfolding must_tree apply_mutation
must_tree-apply_mutation m trees =
    ap tree_or_new (lookup-insert_self m.tree _ (with_tree m.tree trees))

-- the tree of the mutation as it was, or with the mutation done
abbrev pub Kept : Mutation → Engine → Engine → Type 0
Kept m e e' =
    (must_tree m.tree e'.trees ≡ must_tree m.tree e.trees)
    ⊎ (must_tree m.tree e'.trees ≡ apply_op m.op m.key m.value (must_tree m.tree e.trees))

finish_commit-Kept :
    (m : Mutation) (e : Engine) (r : Wal × Option WalError) → Kept m e (finish_commit m e r).0
unfolding finish_commit
finish_commit-Kept m e (w, some x) = inl (must_tree-with_tree m.tree e.trees)
finish_commit-Kept m e (w, none) = inr (must_tree-apply_mutation m e.trees)

conclude-Kept :
    (m : Mutation) (e : Engine) (os : ℕ → Faults) (now : ℕ) (notify : Bool)
    (r : Engine × Option WalError)
    → Kept m e r.0
    → Kept m e (conclude notify now (m ∷ []) (commit_then (λ e'. commit_all os 1 [] e') r)).0
unfolding commit_all publish
conclude-Kept m e os now notify (e', some x) h = h
conclude-Kept m e os now true (e', none) h = h
conclude-Kept m e os now false (e', none) h = h

pub tx-Kept :
    (os : ℕ → Faults) (now : ℕ) (notify : Bool) (m : Mutation) (e : Engine)
    → Kept m e (tx os now notify (some (m ∷ [])) e).0
unfolding tx run_tx commit_all commit_mutation
tx-Kept os now notify m e = gated e.closed
  where
    gated :
        (shut : Bool)
        → Kept m e
            (if shut then (e, some engine_closed) else run_tx os now notify (some (m ∷ [])) e).0
    gated true = inl refl
    gated false =
        conclude-Kept m e os now notify (commit_mutation (os 0) m e)
          (finish_commit-Kept m e (Wal.append (os 0) _ e.wal))
