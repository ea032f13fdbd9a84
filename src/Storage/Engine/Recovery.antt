-- ===== src/Storage/Engine/Recovery.antt =====
-- What a transaction of internal/storage/engine.go leaves on disk, where the engine's log ended with
-- a whole record before it.
use monsoon.Prelude.{
  ℕ, ◌≤◌, Bool, true, false, Option, none, some, List, [], ◌∷◌, ◌≡◌, refl, sym, ◌∙◌, ap, arith,
  if◌then◌else◌, length, take, take-length,
}
use mathlib.Core.Path.{subst}
use monsoon.Bytes.{Bytes}
use monsoon.GoMap.{Map}
use monsoon.Storage.BTree.{BTree}
use monsoon.Storage.Record.{Entry}
use monsoon.Storage.Record.Replay.{apply_all}
use monsoon.Storage.Wal
use monsoon.Storage.Wal.{Wal, Faults, WalError}
use monsoon.Storage.Wal.Stored.{Stored, replay-Stored}
use monsoon.Storage.Wal.Reopen.{open_wal-dir}
use monsoon.Storage.Engine.{
  Mutation, Engine, TxError, engine_closed, conclude, run_tx, tx, publish, commit_all, with_trees,
  replay_entry, opened, new_engine, finish_replay, finish_open, open_engine,
}
use monsoon.Storage.Engine.Commit.{
  AreProper, IsDurable, apply_mutations, Recovers, IsDurable-Recovers, CommitAll, all_done, broken,
  commit_all-CommitAll,
}

module _ (base : Map Bytes BTree) where
  -- What a whole transaction does: it fails with some of its mutations on disk, or they all are
  -- there and in the trees.
  pub data Result (r : Engine × Option TxError) (ms : List Mutation) (e : Engine) : Type 0 where
    committed :
        r.1 ≡ none → IsDurable base r.0 → r.0.trees ≡ apply_mutations ms e.trees → Result r ms e
    failed :
        {x : TxError}
        → r.1 ≡ some x
        → (k : ℕ) → k ≤ length ms
        → Recovers base r.0 (apply_mutations (take k ms) e.trees)
        → Result r ms e

  publish-IsDurable :
      (now : ℕ) (ms : List Mutation) (e : Engine)
      → IsDurable base e
      → IsDurable base (publish now ms e) × ((publish now ms e).trees ≡ e.trees)
  unfolding publish
  publish-IsDurable now ms e d =
      (record { entries = d.entries; holds = d.holds; replayed = d.replayed }, refl)

  concluded :
      (notify : Bool) (now : ℕ) (ms : List Mutation) (e : Engine) (r : Engine × Option WalError)
      → CommitAll base r ms e
      → Result (conclude notify now ms r) ms e
  concluded true now ms e (e', none) (all_done q d t) =
      let (d', t') = publish-IsDurable now ms e' d in committed refl d' (t' ∙ t)
  concluded false now ms e (e', none) (all_done q d t) = committed refl d t
  concluded notify now ms e (e', some x) (all_done q d t) = cc
  concluded notify now ms e (e', none) (broken q p) = cc
  concluded notify now ms e (e', some x) (broken q p) =
      failed refl p.kept_count p.kept-le p.recovers

  run_tx-Result :
      (os : ℕ → Faults) (now : ℕ) (notify : Bool) (ms : List Mutation) (e : Engine)
      → AreProper ms
      → IsDurable base e
      → Result (run_tx os now notify (some ms) e) ms e
  unfolding run_tx apply_mutations
  run_tx-Result os now notify [] e p d = committed refl d refl
  run_tx-Result os now notify (m ∷ ms) e p d =
      concluded notify now (m ∷ ms) e (commit_all os 0 (m ∷ ms) e)
        (commit_all-CommitAll base os 0 (m ∷ ms) e p d)

  gated :
      (shut : Bool) (r : Engine × Option TxError) (ms : List Mutation) (e : Engine)
      → IsDurable base e
      → Result r ms e
      → Result (if shut then (e, some engine_closed) else r) ms e
  gated true r ms e d res =
      failed refl 0 (omega arith) (unfold apply_mutations in IsDurable-Recovers base e d)
  gated false r ms e d res = res

  tx-Result :
      (os : ℕ → Faults) (now : ℕ) (notify : Bool) (ms : List Mutation) (e : Engine)
      → AreProper ms
      → IsDurable base e
      → Result (tx os now notify (some ms) e) ms e
  unfolding tx
  tx-Result os now notify ms e p d =
      gated e.closed (run_tx os now notify (some ms) e) ms e d
        (run_tx-Result os now notify ms e p d)

  Result-none :
      {r : Engine × Option TxError} {ms : List Mutation} {e : Engine}
      → Result r ms e
      → r.1 ≡ none
      → IsDurable base r.0 × (r.0.trees ≡ apply_mutations ms e.trees)
  Result-none (committed q d t) h = (d, t)
  Result-none (failed q k l rec) h = absurd (ground arith)

  -- On an engine whose log holds exactly the entries that made its trees, open for appending and
  -- with no torn record at its end, a transaction of puts and deletes in trees with proper names
  -- (not empty, without the separator byte) that reports no error has applied all its mutations in
  -- order, and its log again holds exactly the entries that made its trees. An engine that was opened
  -- over a torn record is not such an engine.
  pub tx-IsDurable :
      (os : ℕ → Faults) (now : ℕ) (notify : Bool) (ms : List Mutation) (e : Engine)
      → AreProper ms
      → IsDurable base e
      → (tx os now notify (some ms) e).1 ≡ none
      → IsDurable base (tx os now notify (some ms) e).0
        × ((tx os now notify (some ms) e).0.trees ≡ apply_mutations ms e.trees)
  tx-IsDurable os now notify ms e p d = Result-none (tx-Result os now notify ms e p d)

module _ (snapshot : Map Bytes BTree) (names : List Bytes) where
  abbrev base_trees : Map Bytes BTree
  base_trees = with_trees names snapshot

  -- `OpenEngine` on these files returns an engine with these trees.
  pub record Reopens (f : Faults) (dir : Map ℕ Bytes) (trees : Map Bytes BTree) : Type 0 where
    pub engine : Engine
    pub opens : open_engine f dir snapshot names ≡ opened engine
    pub trees_are : engine.trees ≡ trees

  finish_open-Reopens :
      (r : Wal × Option WalError) {es : List Entry} {trees : Map Bytes BTree}
      → r.1 ≡ none
      → Stored r.0.dir es
      → apply_all replay_entry es base_trees ≡ (trees, none)
      → finish_open base_trees r ≡ opened (new_engine trees r.0)
  unfolding finish_open
  finish_open-Reopens (w, none) h st done =
      ap (finish_replay w) (replay-Stored replay_entry w base_trees st ∙ done)
      ∙ unfold finish_replay in refl
  finish_open-Reopens (w, some x) h st done = cc

  -- Opening the files again reads the trees that they hold.
  Recovers-Reopens :
      (f : Faults) (e : Engine) {trees : Map Bytes BTree}
      → (Wal.open_wal f e.wal.dir).1 ≡ none
      → Recovers base_trees e trees
      → Reopens f e.wal.dir trees
  unfolding open_engine
  Recovers-Reopens f e {trees} can rec = record {
    engine = new_engine trees (Wal.open_wal f e.wal.dir).0;
    opens =
        finish_open-Reopens (Wal.open_wal f e.wal.dir) can
          (subst (λ d. Stored d rec.entries) (sym (open_wal-dir f rec.stored)) rec.stored)
          rec.replayed;
    trees_are = refl;
  }

  -- A durable engine is found as it is when its files are opened again: `OpenEngine` returns an
  -- engine with the same trees, where the operating system lets it open the log's file.
  pub open_engine-IsDurable :
      (f : Faults) (e : Engine)
      → IsDurable base_trees e
      → (Wal.open_wal f e.wal.dir).1 ≡ none
      → Reopens f e.wal.dir e.trees
  open_engine-IsDurable f e d can = Recovers-Reopens f e can (IsDurable-Recovers base_trees e d)

  Result-Recovers :
      {r : Engine × Option TxError} {ms : List Mutation} {e : Engine}
      → Result base_trees r ms e
      → (k : ℕ) × (k ≤ length ms) × Recovers base_trees r.0 (apply_mutations (take k ms) e.trees)
  Result-Recovers {r} {ms} {e} (committed q d t) = (
    length ms,
    omega arith,
    subst (Recovers base_trees r.0) (t ∙ ap (λ k. apply_mutations k e.trees) (sym (take-length ms)))
        (IsDurable-Recovers base_trees r.0 d),
  )
  Result-Recovers {r} (failed q k l rec) = (k, l, rec)

  -- The engine's log holds exactly the entries that made its trees, is open for appending and has no
  -- torn record at its end, and the transaction's mutations are puts and deletes in trees with proper
  -- names (not empty, without the separator byte). Then, whichever rotations, writes and syncs fail
  -- in this one transaction, `OpenEngine` on the files that it leaves returns an engine with the
  -- trees after the first `k` of its mutations, for some `k`, where the operating system lets it open
  -- the log's file. An engine that was opened over a torn record is not such an engine.
  pub tx_recovers :
      (f : Faults) (os : ℕ → Faults) (now : ℕ) (notify : Bool) (ms : List Mutation) (e : Engine)
      → AreProper ms
      → IsDurable base_trees e
      → (Wal.open_wal f (tx os now notify (some ms) e).0.wal.dir).1 ≡ none
      → (k : ℕ) × (k ≤ length ms)
        × Reopens f (tx os now notify (some ms) e).0.wal.dir (apply_mutations (take k ms) e.trees)
  tx_recovers f os now notify ms e p d can =
      let (k, l, rec) = Result-Recovers (tx-Result base_trees os now notify ms e p d) in
      (k, l, Recovers-Reopens f (tx os now notify (some ms) e).0 can rec)
