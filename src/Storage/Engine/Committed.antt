-- ===== src/Storage/Engine/Committed.antt =====
-- A transaction of internal/storage/engine.go that reports no error has applied its mutations, and what
-- `Get` finds in a tree behind them.
use monsoon.Prelude.{
  ℕ, suc, Bool, true, false, Option, none, some, List, [], ◌∷◌, ◌≡◌, ◌≢◌, ap, refl, if_intro,
}
use monsoon.Bytes.{Bytes}
use monsoon.GoMap.{Map, lookup, bytes_eq}
use monsoon.Storage.BTree
use monsoon.Storage.BTree.{BTree}
use monsoon.Storage.Wal
use monsoon.Storage.Wal.{Wal, Faults, WalError}
use monsoon.Storage.Engine
use monsoon.Storage.Engine.{
  Engine, Mutation, TxError, tree_or_new, must_tree, apply_mutation, finish_commit, commit_mutation,
  commit_all, commit_then, conclude, run_tx, tx, publish, engine_closed,
}
use monsoon.Storage.Engine.Commit.{apply_mutations}
use monsoon.Storage.Engine.Lookup.{get_in, lookup-apply_mutation}

pub must_tree-other :
    (k : Bytes) (m : Mutation) (trees : Map Bytes BTree)
    → m.tree ≢ k
    → must_tree k (apply_mutation m trees) ≡ must_tree k trees
unfolding must_tree
must_tree-other k m trees n = ap tree_or_new (lookup-apply_mutation k m trees n)

pub get_in-must_tree :
    (tree k : Bytes) (trees : Map Bytes BTree)
    → get_in tree k trees ≡ BTree.get (must_tree tree trees) k
unfolding must_tree BTree.get
get_in-must_tree tree k trees = by_tree (lookup tree trees)
  where
    by_tree :
        (o : Option BTree)
        → (elim o as (λ _. Option Bytes) [ none ↦ none | some t ↦ BTree.get t k ])
          ≡ BTree.get (tree_or_new o) k
    by_tree none = unfold lookup in refl
    by_tree (some t) = refl

commit_all-trees :
    (os : ℕ → Faults) (i : ℕ) (ms : List Mutation) (e : Engine)
    → (commit_all os i ms e).1 ≡ none
    → (commit_all os i ms e).0.trees ≡ apply_mutations ms e.trees
unfolding commit_all apply_mutations commit_mutation finish_commit
commit_all-trees os i [] e h = refl
commit_all-trees os i (m ∷ ms) e h =
    after (Wal.append (os i) (Engine.entry_of m) e.wal) (commit_all-trees os (suc i) ms) h
  where
    after :
        (r : Wal × Option WalError)
        → ((e' : Engine)
            → (commit_all os (suc i) ms e').1 ≡ none
            → (commit_all os (suc i) ms e').0.trees ≡ apply_mutations ms e'.trees)
        → (commit_then (λ e'. commit_all os (suc i) ms e') (finish_commit m e r)).1 ≡ none
        → (commit_then (λ e'. commit_all os (suc i) ms e') (finish_commit m e r)).0.trees
          ≡ apply_mutations ms (apply_mutation m e.trees)
    after (w, none) rec h = rec _ h
    after (w, some x) rec h = cc

conclude-trees :
    (notify : Bool) (now : ℕ) (ms : List Mutation) (r : Engine × Option WalError)
    {trees : Map Bytes BTree}
    → (r.1 ≡ none → r.0.trees ≡ trees)
    → (conclude notify now ms r).1 ≡ none
    → (conclude notify now ms r).0.trees ≡ trees
unfolding publish
conclude-trees true now ms (e, none) h done = h refl
conclude-trees false now ms (e, none) h done = h refl
conclude-trees notify now ms (e, some x) h done = cc

pub tx-trees :
    (os : ℕ → Faults) (now : ℕ) (notify : Bool) (ms : List Mutation) (e : Engine)
    → (tx os now notify (some ms) e).1 ≡ none
    → (tx os now notify (some ms) e).0.trees ≡ apply_mutations ms e.trees
unfolding tx
tx-trees os now notify ms e =
    if_intro {A = Engine × Option TxError}
      (λ r. r.1 ≡ none → r.0.trees ≡ apply_mutations ms e.trees) e.closed (λ shut h. cc)
      (λ open_now. by_mutations ms)
  where
    by_mutations :
        (ms : List Mutation)
        → (run_tx os now notify (some ms) e).1 ≡ none
        → (run_tx os now notify (some ms) e).0.trees ≡ apply_mutations ms e.trees
    by_mutations [] h = unfold run_tx apply_mutations in refl
    by_mutations (m ∷ ms) h =
        conclude-trees notify now (m ∷ ms) (commit_all os 0 (m ∷ ms) e)
          (commit_all-trees os 0 (m ∷ ms) e) h
