-- ===== src/Storage/Engine.antt =====
-- internal/storage/engine.go: named trees over one write-ahead log. A transaction appends and
-- applies its mutations one by one; opening an engine replays the log. The engine's lock is held
-- throughout each method, so each is one step. `now` is the clock, `os i` what the operating system
-- does at the i-th append. Channels are the lists of what waits in them.
pub mod TreeKey
pub mod Commit
pub mod Recovery
pub mod Lookup
pub mod OneMutation
pub mod Committed
use monsoon.Prelude.{
  ℕ, suc, ◌+◌, Bool, true, false, Option, none, some, List, [], ◌∷◌, ◌++◌, map, ◌==◌, ◌||◌, ltb,
  if◌then◌else◌, is_some, length,
}
use monsoon.Bytes.{Bytes}
use monsoon.GoMap.{Map, lookup, insert, erase, bytes_eq, nat_eq}
use monsoon.Storage.BTree
use monsoon.Storage.BTree.{BTree}
use monsoon.Storage.Index
use monsoon.Storage.Index.{IndexManager}
use monsoon.Storage.Record.{Entry, op_put, op_del, ReplayError, Replayed}
use monsoon.Storage.Wal
use monsoon.Storage.Wal.{Wal, Faults, WalError, closed_file}

-- `Mutation`
pub record Mutation : Type 0 where
  pub tree : Bytes
  pub op : ℕ
  pub key : Bytes
  pub value : Bytes

-- `TxEvent`
pub record TxEvent : Type 0 where
  pub sequence : ℕ
  pub timestamp : ℕ
  pub mutations : List Mutation

pub record Engine : Type 0 where
  pub trees : Map Bytes BTree
  pub index : IndexManager
  pub wal : Wal
  pub closed : Bool
  pub sequence : ℕ
  pub next_watch_id : ℕ
  pub watchers : Map ℕ (List TxEvent)

abbrev pub tree_key_sep : ℕ
tree_key_sep = 0x1f

unfoldable pub make_tree_key : Bytes → Bytes → Bytes
make_tree_key tree key = tree ++ (tree_key_sep ∷ key)

-- `key` cut at the first separator
unfoldable pub cut_at_sep : Bytes → Option (Bytes × Bytes)
cut_at_sep [] = none
cut_at_sep (c ∷ cs) =
    let rest = cut_at_sep cs in
    if c == tree_key_sep
    then some ([], cs)
    else elim rest [ none ↦ none | some (tree, key) ↦ some (c ∷ tree, key) ]

abbrev pub reject_empty : Option (Bytes × Bytes) → Option (Bytes × Bytes)
reject_empty none = none
reject_empty (some ([], key)) = none
reject_empty (some (c ∷ tree, key)) = some (c ∷ tree, key)

-- `splitTreeKey`: no separator (`idx` is -1) or one in front (`idx` is 0) is an error
unfoldable pub split_tree_key : Bytes → Option (Bytes × Bytes)
unfolding cut_at_sep
split_tree_key key = reject_empty (cut_at_sep key)

-- `mustTree` and `mustTreeUnlocked`: the tree, and the map that has it
abbrev pub tree_or_new : Option BTree → BTree
tree_or_new none = BTree.new
tree_or_new (some t) = t

unfoldable pub must_tree : Bytes → Map Bytes BTree → BTree
must_tree name trees = tree_or_new (lookup name trees)

unfoldable pub with_tree : Bytes → Map Bytes BTree → Map Bytes BTree
with_tree name trees = if is_some (lookup name trees) then trees else insert name BTree.new trees

unfoldable pub get : Bytes → Bytes → Engine → Option Bytes
get tree key e = elim (lookup tree e.trees) [ none ↦ none | some t ↦ BTree.get t key ]

-- `false` is ErrNotFound
unfoldable pub iterate {ℓ} :
    {S : Type ℓ} → Bytes → Bytes → Bytes → (Bytes → Bytes → S → S × Bool) → Engine → S → S × Bool
iterate tree start stop fn e s = elim (lookup tree e.trees) [
  | none ↦ (s, false)
  | some t ↦ (BTree.iterate t start stop fn s, true)
]

-- `append([]byte(nil), v...)` is nil where `v` is empty
abbrev pub copied : Option Bytes → Option Bytes
copied none = none
copied (some []) = none
copied (some (c ∷ cs)) = some (c ∷ cs)

-- the `switch` on the operation: what it does to one tree
abbrev pub apply_op : ℕ → Bytes → Bytes → BTree → BTree
apply_op op key value t =
    if op == op_put
    then BTree.set t key value
    else if op == op_del
    then (BTree.delete t key).0
    else t

-- the trees after one mutation
unfoldable pub apply_mutation : Mutation → Map Bytes BTree → Map Bytes BTree
unfolding must_tree with_tree
apply_mutation m trees =
    insert m.tree (apply_op m.op m.key m.value (must_tree m.tree trees)) (with_tree m.tree trees)

-- the call of `e.index.Update`
unfoldable pub update_index : Mutation → Option Bytes → IndexManager → IndexManager
update_index m old index =
    if m.op == op_put
    then Index.update m.key (copied old) (copied (some m.value)) index
    else if m.op == op_del
    then Index.update m.key (copied old) none index
    else index

-- the entry that a mutation appends to the log
abbrev pub entry_of : Mutation → Entry
entry_of m = record { op = m.op; key = make_tree_key m.tree m.key; value = m.value }

-- The rest of a round of `tx` behind the append. One that fails ends the loop, with the tree made
-- but not written.
unfoldable pub finish_commit : Mutation → Engine → Wal × Option WalError → Engine × Option WalError
unfolding update_index with_tree must_tree
finish_commit m e (w, some x) = (record e { trees = with_tree m.tree e.trees; wal = w }, some x)
finish_commit m e (w, none) = (
  record e {
    trees = apply_mutation m e.trees;
    wal = w;
    index = update_index m (BTree.get (must_tree m.tree e.trees) m.key) e.index;
  },
  none,
)

unfoldable pub commit_mutation : Faults → Mutation → Engine → Engine × Option WalError
unfolding finish_commit
commit_mutation f m e = finish_commit m e (Wal.append f (entry_of m) e.wal)

abbrev pub commit_then :
    (Engine → Engine × Option WalError) → Engine × Option WalError → Engine × Option WalError
commit_then rest (e, none) = rest e
commit_then rest (e, some x) = (e, some x)

-- the loop of `tx` over the mutations
unfoldable pub commit_all : (ℕ → Faults) → ℕ → List Mutation → Engine → Engine × Option WalError
commit_all os i [] e = (e, none)
commit_all os i (m ∷ ms) e =
    commit_then (λ e'. commit_all os (suc i) ms e') (commit_mutation (os i) m e)

-- the buffer of a watcher's channel
abbrev pub watch_buffer : ℕ
watch_buffer = 32

-- `select { case watcher <- evt: default: }`
abbrev pub send : TxEvent → List TxEvent → List TxEvent
send evt queue = if ltb (length queue) watch_buffer then queue ++ evt ∷ [] else queue

unfoldable pub send_all : TxEvent → Map ℕ (List TxEvent) → Map ℕ (List TxEvent)
send_all evt [] = []
send_all evt ((id, queue) ∷ rest) = (id, send evt queue) ∷ send_all evt rest

-- `if notify { ... }`
unfoldable pub publish : ℕ → List Mutation → Engine → Engine
unfolding send_all
publish now ms e =
    let evt : TxEvent = record { sequence = suc e.sequence; timestamp = now; mutations = ms } in
    record e { sequence = suc e.sequence; watchers = send_all evt e.watchers }

pub data TxError : Type 0 where
  engine_closed callback_failed : TxError
  wal_failed : WalError → TxError

abbrev pub conclude : Bool → ℕ → List Mutation → Engine × Option WalError → Engine × Option TxError
conclude notify now ms (e, some x) = (e, some (wal_failed x))
conclude notify now ms (e, none) = (if notify then publish now ms e else e, none)

-- `tx` where the callback filled the transaction with mutations, or failed.
unfoldable pub run_tx :
    (ℕ → Faults) → ℕ → Bool → Option (List Mutation) → Engine → Engine × Option TxError
run_tx os now notify none e = (e, some callback_failed)
run_tx os now notify (some []) e = (e, none)
run_tx os now notify (some (m ∷ ms)) e = conclude notify now (m ∷ ms) (commit_all os 0 (m ∷ ms) e)

-- `Tx` with `notify` set, `TxSilent` without
unfoldable pub tx :
    (ℕ → Faults) → ℕ → Bool → Option (List Mutation) → Engine → Engine × Option TxError
unfolding run_tx publish
tx os now notify callback e =
    if e.closed then (e, some engine_closed) else run_tx os now notify callback e

-- `Tx.Put` and `Tx.Delete`
abbrev pub tx_put : Bytes → Bytes → Bytes → List Mutation → List Mutation
tx_put tree key value ms = ms ++ record { tree = tree; op = op_put; key = key; value = value } ∷ []

abbrev pub tx_delete : Bytes → Bytes → List Mutation → List Mutation
tx_delete tree key ms = ms ++ record { tree = tree; op = op_del; key = key; value = [] } ∷ []

-- `Put` and `Delete`
unfoldable pub put : (ℕ → Faults) → ℕ → Bytes → Bytes → Bytes → Engine → Engine × Option TxError
unfolding tx
put os now tree key value e = tx os now true (some (tx_put tree key value [])) e

unfoldable pub delete : (ℕ → Faults) → ℕ → Bytes → Bytes → Engine → Engine × Option TxError
unfolding tx
delete os now tree key e = tx os now true (some (tx_delete tree key [])) e

-- `WatchTx`: a closed engine hands out a closed channel under the id 0.
unfoldable pub watch_tx : Engine → Engine × ℕ
watch_tx e = if e.closed then (e, 0) else (
  record e {
    next_watch_id = suc e.next_watch_id;
    watchers = insert (suc e.next_watch_id) [] e.watchers;
  },
  suc e.next_watch_id,
)

-- the function that `WatchTx` returns
unfoldable pub unsubscribe : ℕ → Engine → Engine
unsubscribe id e = record e { watchers = erase id e.watchers }

-- `Close`
unfoldable pub close : Faults → Engine → Engine × Option WalError
close f e = let r = Wal.close f e.wal in (record e { closed = true; watchers = []; wal = r.0 }, r.1)

pub data OpenError : Type 0 where
  invalid_tree_key : OpenError
  unknown_op : ℕ → OpenError

abbrev pub replay_op :
    Entry → Option (Bytes × Bytes) → Map Bytes BTree → Map Bytes BTree × Option OpenError
replay_op e none trees = (trees, some invalid_tree_key)
replay_op e (some (tree, key)) trees =
    if e.op == op_put || e.op == op_del
    then (
      apply_mutation (record { tree = tree; op = e.op; key = key; value = e.value }) trees,
      none,
    )
    else (with_tree tree trees, some (unknown_op e.op))

-- the callback of `OpenEngine`
unfoldable pub replay_entry : Entry → Map Bytes BTree → Map Bytes BTree × Option OpenError
unfolding with_tree
replay_entry e trees = replay_op e (split_tree_key e.key) trees

-- the trees that `OpenEngine` was asked for
unfoldable pub with_trees : List Bytes → Map Bytes BTree → Map Bytes BTree
unfolding with_tree
with_trees [] trees = trees
with_trees (n ∷ ns) trees = with_trees ns (with_tree n trees)

pub data StartError : Type 0 where
  log_not_opened : WalError → StartError
  replay_failed : ReplayError OpenError → StartError

-- `*Engine, error`
pub data Opened : Type 0 where
  opened : Engine → Opened
  refused : StartError → Opened

-- the fields that `OpenEngine` fills
abbrev pub new_engine : Map Bytes BTree → Wal → Engine
new_engine trees w = record {
  trees = trees;
  index = Index.new;
  wal = w;
  closed = false;
  sequence = 0;
  next_watch_id = 0;
  watchers = [];
}

unfoldable pub finish_replay : Wal → Replayed (Map Bytes BTree) OpenError → Opened
finish_replay w (trees, none) = opened (new_engine trees w)
finish_replay w (trees, some x) = refused (replay_failed x)

unfoldable pub finish_open : Map Bytes BTree → Wal × Option WalError → Opened
unfolding replay_entry finish_replay
finish_open trees (w, some x) = refused (log_not_opened x)
finish_open trees (w, none) = finish_replay w (Wal.replay replay_entry w trees)

-- `OpenEngine` behind the reading of the snapshot: the log is opened and replayed over the
-- snapshot's trees.
unfoldable pub open_engine : Faults → Map ℕ Bytes → Map Bytes BTree → List Bytes → Opened
unfolding finish_open with_trees
open_engine f dir snapshot tree_names =
    finish_open (with_trees tree_names snapshot) (Wal.open_wal f dir)
