-- ===== src/Storage/Engine/Commit.antt =====
-- The loop of `tx` in internal/storage/engine.go: each mutation is appended to the log and applied to
-- the trees. The engine's log ends with a whole record before the loop.
use monsoon.Prelude.{
  ℕ, suc, ◌≤◌, true, Option, none, some, List, [], ◌∷◌, ◌++◌, ◌≡◌, refl, ◌∙◌, ap, arith, ◌==◌, ◌||◌,
  length, take,
}
use mathlib.Core.Path.{subst}
use monsoon.Bytes.{Bytes}
use monsoon.GoMap.{Map}
use monsoon.Storage.BTree.{BTree}
use monsoon.Storage.Record.{Entry, op_put, op_del, apply_then}
use monsoon.Storage.Record.Replay.{apply_all}
use monsoon.Storage.Wal
use monsoon.Storage.Wal.{Wal, Faults, WalError, replay_then}
use monsoon.Storage.Wal.Segments.{apply_all-append}
use monsoon.Storage.Wal.Stored.{Holds, Stored, Holds-Stored}
use monsoon.Storage.Wal.Append.{Outcome, appended, unchanged, unsure, append-Outcome}
use monsoon.Storage.Engine.{
  Mutation, Engine, apply_mutation, entry_of, finish_commit, commit_mutation, commit_all,
  commit_then, replay_entry,
}
use monsoon.Storage.Engine.TreeKey.{IsTreeName, split-make_tree_key}

-- A mutation as `Tx.Put` and `Tx.Delete` make them, of a tree with a proper name.
pub record IsProper (m : Mutation) : Type 0 where
  pub names : IsTreeName m.tree
  pub op_known : (m.op == op_put || m.op == op_del) ≡ true

abbrev pub AreProper : List Mutation → Type 0
AreProper [] = Unit
AreProper (m ∷ ms) = IsProper m × AreProper ms

-- The log of an engine holds what made its trees, starting from `base`.
pub record IsDurable (base : Map Bytes BTree) (e : Engine) : Type 0 where
  pub entries : List Entry
  pub holds : Holds e.wal entries
  pub replayed : apply_all replay_entry entries base ≡ (e.trees, none)

unfoldable pub apply_mutations : List Mutation → Map Bytes BTree → Map Bytes BTree
apply_mutations [] trees = trees
apply_mutations (m ∷ ms) trees = apply_mutations ms (apply_mutation m trees)

replay_entry-entry_of :
    (m : Mutation) (trees : Map Bytes BTree)
    → IsProper m
    → replay_entry (entry_of m) trees ≡ (apply_mutation m trees, none)
unfolding replay_entry
replay_entry-entry_of m trees p = rw (split-make_tree_key m.tree m.key p.names, p.op_known) refl

replay-entry_of :
    (base : Map Bytes BTree) (m : Mutation) (es : List Entry) {trees : Map Bytes BTree}
    → IsProper m
    → apply_all replay_entry es base ≡ (trees, none)
    → apply_all replay_entry (es ++ entry_of m ∷ []) base ≡ (apply_mutation m trees, none)
replay-entry_of base m es {trees} p h =
    apply_all-append replay_entry es (entry_of m ∷ []) base
    ∙ rw h (unfold apply_all apply_then in rw (replay_entry-entry_of m trees p) refl)

module _ (base : Map Bytes BTree) where
  -- the files hold what makes these trees
  pub record Recovers (e : Engine) (trees : Map Bytes BTree) : Type 0 where
    pub entries : List Entry
    pub stored : Stored e.wal.dir entries
    pub replayed : apply_all replay_entry entries base ≡ (trees, none)

  pub IsDurable-Recovers : (e : Engine) → IsDurable base e → Recovers e e.trees
  IsDurable-Recovers e d = record {
    entries = d.entries;
    stored = Holds-Stored d.holds;
    replayed = d.replayed;
  }

  -- One mutation: done, or an error with the trees on disk as before or as after.
  data Commit (r : Engine × Option WalError) (m : Mutation) (e : Engine) : Type 0 where
    done : r.1 ≡ none → IsDurable base r.0 → r.0.trees ≡ apply_mutation m e.trees → Commit r m e
    lost : {x : WalError} → r.1 ≡ some x → Recovers r.0 e.trees → Commit r m e
    kept : {x : WalError} → r.1 ≡ some x → Recovers r.0 (apply_mutation m e.trees) → Commit r m e

  Commit-Commit :
      (m : Mutation) (e : Engine) (d : IsDurable base e) (r : Wal × Option WalError)
      → IsProper m
      → Outcome r d.entries (entry_of m)
      → Commit (finish_commit m e r) m e
  unfolding finish_commit
  Commit-Commit m e d (w, none) p (appended q h) =
      done refl
        (record {
          entries = d.entries ++ entry_of m ∷ [];
          holds = h;
          replayed = replay-entry_of base m d.entries p d.replayed;
        })
        refl
  Commit-Commit m e d (w, some x) p (appended q h) = cc
  Commit-Commit m e d (w, none) p (unchanged q st) = cc
  Commit-Commit m e d (w, some x) p (unchanged q st) =
      lost refl (record { entries = d.entries; stored = st; replayed = d.replayed })
  Commit-Commit m e d (w, none) p (unsure q st) = cc
  Commit-Commit m e d (w, some x) p (unsure q st) = kept refl (record {
    entries = d.entries ++ entry_of m ∷ [];
    stored = st;
    replayed = replay-entry_of base m d.entries p d.replayed;
  })

  -- All the mutations of a transaction.
  pub record Prefix (r : Engine × Option WalError) (ms : List Mutation) (e : Engine) : Type 0 where
    pub kept_count : ℕ
    pub kept-le : kept_count ≤ length ms
    pub recovers : Recovers r.0 (apply_mutations (take kept_count ms) e.trees)

  pub data CommitAll (r : Engine × Option WalError) (ms : List Mutation) (e : Engine) : Type 0 where
    all_done :
        r.1 ≡ none → IsDurable base r.0 → r.0.trees ≡ apply_mutations ms e.trees → CommitAll r ms e
    broken : {x : WalError} → r.1 ≡ some x → Prefix r ms e → CommitAll r ms e

  CommitAll-cons :
      (m : Mutation) (ms : List Mutation) (e e' : Engine) (r : Engine × Option WalError)
      → e'.trees ≡ apply_mutation m e.trees
      → CommitAll r ms e'
      → CommitAll r (m ∷ ms) e
  unfolding apply_mutations
  CommitAll-cons m ms e e' r t (all_done q d u) = all_done q d (u ∙ ap (apply_mutations ms) t)
  CommitAll-cons m ms e e' r t (broken q k) = broken q (record {
    kept_count = suc k.kept_count;
    kept-le = omega (arith, k.kept-le);
    recovers = subst (λ x. Recovers r.0 (apply_mutations (take k.kept_count ms) x)) t k.recovers;
  })

  commit_then-CommitAll :
      (rest : Engine → Engine × Option WalError) (m : Mutation) (ms : List Mutation) (e : Engine)
      (r : Engine × Option WalError)
      → ((e' : Engine) → IsDurable base e' → CommitAll (rest e') ms e')
      → Commit r m e
      → CommitAll (commit_then rest r) (m ∷ ms) e
  unfolding apply_mutations
  commit_then-CommitAll rest m ms e (e', none) next (done q d t) =
      CommitAll-cons m ms e e' (rest e') t (next e' d)
  commit_then-CommitAll rest m ms e (e', some x) next (done q d t) = cc
  commit_then-CommitAll rest m ms e (e', none) next (lost q rec) = cc
  commit_then-CommitAll rest m ms e (e', some x) next (lost q rec) =
      broken refl (record { kept_count = 0; kept-le = omega arith; recovers = rec })
  commit_then-CommitAll rest m ms e (e', none) next (kept q rec) = cc
  commit_then-CommitAll rest m ms e (e', some x) next (kept q rec) =
      broken refl (record { kept_count = 1; kept-le = omega arith; recovers = rec })

  pub commit_all-CommitAll :
      (os : ℕ → Faults) (i : ℕ) (ms : List Mutation) (e : Engine)
      → AreProper ms
      → IsDurable base e
      → CommitAll (commit_all os i ms e) ms e
  unfolding commit_all commit_mutation apply_mutations
  commit_all-CommitAll os i [] e p d = all_done refl d refl
  commit_all-CommitAll os i (m ∷ ms) e p d =
      commit_then-CommitAll (commit_all os (suc i) ms) m ms e (commit_mutation (os i) m e)
        (λ e' d'. commit_all-CommitAll os (suc i) ms e' p.1 d')
        (Commit-Commit m e d (Wal.append (os i) (entry_of m) e.wal) p.0
          (append-Outcome (os i) (entry_of m) e.wal d.holds))
