-- ===== src/Storage/Snapshot/Restore.antt =====
-- What `RestoreSnapshot` leaves in the engine.
use monsoon.Prelude.{
  ℕ, zero, suc, Bool, true, false, Option, none, some, [], ◌∷◌, ◌≡◌, ◌⊎◌, inl, inr, refl, sym, ap,
  ◌∙◌, arith, if◌then◌else◌, ◌>>=◌, >>=-eq-some, Bool-cases, Option-cases, is_some, length,
}
use mathlib.Core.Path.{subst}
use monsoon.Bytes.{Bytes, equal}
use monsoon.GoMap.{Map, lookup, insert, bytes_eq}
use monsoon.GoMap.Laws.{Distinct, Distinct-insert, lookup-insert}
use monsoon.Storage.BTree
use monsoon.Storage.BTree.{BTree}
use monsoon.Storage.Wal
use monsoon.Storage.Wal.{Wal, Faults, WalError}
use monsoon.Storage.Engine.{Engine}
use monsoon.Storage.Snapshot
use monsoon.Storage.Snapshot.{RestoreError}

-- A name that had a tree keeps one, which is empty.
abbrev pub emptied_tree : Option BTree → Option BTree
emptied_tree none = none
emptied_tree (some t) = some BTree.new

-- the tree of a name after a restoration: that of the snapshot, or an empty one if there was one
abbrev pub restored_tree : Option BTree → Option BTree → Option BTree
restored_tree none old = emptied_tree old
restored_tree (some t) old = some t

lookup-emptied :
    (k : Bytes) (ts : Map Bytes BTree) → lookup k (Snapshot.emptied ts) ≡ emptied_tree (lookup k ts)
unfolding Snapshot.emptied lookup
lookup-emptied k [] = refl
lookup-emptied k ((name, t) ∷ ts) = ground (arith, lookup-emptied k ts)

lookup-merge_trees :
    (k : Bytes) (restored ts : Map Bytes BTree)
    → Distinct restored
    → lookup k (Snapshot.merge_trees restored ts)
      ≡ (if is_some (lookup k restored) then lookup k restored else lookup k ts)
unfolding Snapshot.merge_trees lookup
lookup-merge_trees k [] ts d = refl
lookup-merge_trees k ((name, t) ∷ restored) ts d = ground (
  arith,
  bytes_eq.beq_iff name k,
  lookup-insert name k t ts,
  lookup-merge_trees k restored (insert name t ts) d.1,
)

-- A snapshot that is read holds each name once.
Distinct-read_trees :
    (n : ℕ) (acc out : Map Bytes BTree) (raw : Bytes)
    → Distinct acc
    → Snapshot.read_trees n acc raw ≡ some out
    → Distinct out
unfolding Snapshot.read_trees
Distinct-read_trees zero acc out raw d e = subst Distinct (some_inj e) d
  where
    some_inj : {a b : Map Bytes BTree} → some a ≡ some b → a ≡ b
    some_inj h = cc
Distinct-read_trees (suc n) acc out raw d e =
    let (t, e0, e1) = >>=-eq-some (Snapshot.read_tree raw) _ e in
    Distinct-read_trees n (insert t.0.0 t.0.1 acc) out t.1 (Distinct-insert t.0.0 t.0.1 acc d) e1

Distinct-read_counted :
    (r : Bytes × Bytes) (out : Map Bytes BTree) → Snapshot.read_counted r ≡ some out → Distinct out
unfolding Snapshot.read_counted
Distinct-read_counted (magic, raw) out e = elim (Bool-cases (equal magic Snapshot.snapshot_magic)) [
  | inl right ↦
      let h : (Snapshot.read_uint32 raw >>= λ n. Snapshot.read_trees n.0 [] n.1) ≡ some out =
        rw right at e in
      let (n, e0, e1) = >>=-eq-some (Snapshot.read_uint32 raw) _ h in
      Distinct-read_trees n.0 [] out n.1 tt e1
  | inr wrong ↦ let h : none ≡ some out = rw wrong at e in absurd (apart h)
]
  where
    apart : none ≡ some out → ⊥
    apart h = absurd cc

replace_log-trees :
    (e e' : Engine) (merged : Map Bytes BTree) (closed opened : Wal × Option WalError)
    → Snapshot.replace_log e merged closed opened ≡ (e', none)
    → (e'.trees ≡ merged) × (e'.wal ≡ opened.0)
unfolding Snapshot.replace_log
replace_log-trees e e' merged (w, some x) opened h = absurd cc
replace_log-trees e e' merged (w, none) (new, some x) h = absurd cc
replace_log-trees e e' merged (w, none) (new, none) h =
    (sym (ap (λ x. x.0.trees) h), sym (ap (λ x. x.0.wal) h))

-- The engine holds the trees of the snapshot, merged over its own, and an empty log.
abbrev pub IsRestored : Faults → Map Bytes BTree → Engine → Engine → Type 0
IsRestored f trees e e' =
    (e'.trees ≡ Snapshot.merge_trees trees (Snapshot.emptied e.trees))
    × (e'.wal ≡ (Wal.open_wal f []).0)

restore_written-IsRestored :
    (f : Faults) (e e' : Engine) (trees : Map Bytes BTree) (written : Option Bytes)
    → Snapshot.restore_written f e (Snapshot.merge_trees trees (Snapshot.emptied e.trees)) written
      ≡ (e', none)
    → IsRestored f trees e e'
unfolding Snapshot.restore_written Snapshot.fresh_log
restore_written-IsRestored f e e' trees none h = absurd cc
restore_written-IsRestored f e e' trees (some raw) h =
    replace_log-trees e e' _ (Wal.close f e.wal) (Wal.open_wal f []) h

either {ℓ} :
    {A : Type ℓ} {r : A} (b : Bool) (x y : A) → (if b then x else y) ≡ r → (x ≡ r) ⊎ (y ≡ r)
either true x y h = inl h
either false x y h = inr h

restore_trees-IsRestored :
    (f : Faults) (e e' : Engine) (trees : Map Bytes BTree)
    → Snapshot.restore_trees f (some trees) e ≡ (e', none)
    → IsRestored f trees e e'
unfolding Snapshot.restore_trees
restore_trees-IsRestored f e e' trees h = elim (either e.closed _ _ h) [
  | inl refused ↦ absurd (apart e e' Snapshot.engine_closed refused)
  | inr written ↦ restore_written-IsRestored f e e' trees _ written
]
  where
    apart :
        (e e' : Engine) (x : RestoreError)
        → ◌≡◌ {A = Engine × Option RestoreError} (e, some x) (e', none)
        → ⊥
    apart e e' x h = absurd cc

restore_trees-read :
    (f : Faults) (e e' : Engine) (r : Option (Map Bytes BTree))
    → Snapshot.restore_trees f r e ≡ (e', none)
    → (trees : Map Bytes BTree) × (r ≡ some trees) × IsRestored f trees e e'
unfolding Snapshot.restore_trees
restore_trees-read f e e' none h = absurd cc
restore_trees-read f e e' (some trees) h = (trees, refl, restore_trees-IsRestored f e e' trees h)

Distinct-read_snapshot :
    (raw : Bytes) (out : Map Bytes BTree) → Snapshot.read_snapshot raw ≡ some out → Distinct out
unfolding Snapshot.read_snapshot
Distinct-read_snapshot raw out e =
    let (r, e0, e1) = >>=-eq-some (Snapshot.read_full (length Snapshot.snapshot_magic) raw) _ e in
    Distinct-read_counted r out e1

lookup-merged :
    (k : Bytes) (trees old : Map Bytes BTree)
    → Distinct trees
    → lookup k (Snapshot.merge_trees trees (Snapshot.emptied old))
      ≡ restored_tree (lookup k trees) (lookup k old)
lookup-merged k trees old d = elim (Option-cases (lookup k trees)) [
  | inl absent ↦
      lookup-merge_trees k trees (Snapshot.emptied old) d ∙ rw absent (lookup-emptied k old)
  | inr (t, found) ↦ lookup-merge_trees k trees (Snapshot.emptied old) d ∙ rw found refl
]

-- Where a restoration succeeds, the file was readable, each name of the snapshot has its tree, each
-- other name that the engine knew has an empty tree, no other name has one, and the log is the one
-- that opening an empty directory gives.
pub restore_snapshot-trees :
    (f : Faults) (raw : Bytes) (e e' : Engine)
    → Snapshot.restore_snapshot f raw e ≡ (e', none)
    → (trees : Map Bytes BTree) × (Snapshot.read_snapshot raw ≡ some trees)
      × ((name : Bytes)
          → lookup name e'.trees ≡ restored_tree (lookup name trees) (lookup name e.trees))
      × (e'.wal ≡ (Wal.open_wal f []).0)
unfolding Snapshot.restore_snapshot
restore_snapshot-trees f raw e e' h =
    let (trees, read, r) = restore_trees-read f e e' (Snapshot.read_snapshot raw) h in
    let d = Distinct-read_snapshot raw trees read in
    (trees, read, λ name. ap (lookup name) r.0 ∙ lookup-merged name trees e.trees d, r.1)
