-- ===== src/Storage/Snapshot.antt =====
-- The snapshot file of internal/storage/snapshot.go, as the bytes that `WriteSnapshot` puts into it
-- and `ReadSnapshot` takes out of it, and the operations of the engine that use it. Creating,
-- flushing and syncing the file are left to the operating system: `none` is any error.
pub mod Restore
pub mod RoundTrip
pub mod Rows
use monsoon.Prelude.{
  ℕ, zero, suc, Option, none, some, List, [], ◌∷◌, ◌++◌, ltb, ◌>>=◌, if◌then◌else◌, length, take,
  drop,
}
use monsoon.Bytes.{Bytes, equal, uint16, uint32, put_uint16, put_uint32}
use monsoon.GoMap.{Map, insert, bytes_eq}
use monsoon.Storage.BTree
use monsoon.Storage.BTree.{BTree}
use monsoon.Storage.Numeric.{safe_uint16_from_int, safe_uint32_from_int}
use monsoon.Storage.Wal
use monsoon.Storage.Wal.{Wal, Faults, WalError}
use monsoon.Storage.Engine.{Engine}

-- "MONSNAP1"
abbrev pub snapshot_magic : Bytes
snapshot_magic = 77 ∷ 79 ∷ 78 ∷ 83 ∷ 78 ∷ 65 ∷ 80 ∷ 49 ∷ []

-- a length of four bytes and the bytes themselves
unfoldable pub write_block : Bytes → Option Bytes
unfolding safe_uint32_from_int put_uint32
write_block s = safe_uint32_from_int (length s) >>= λ n. some (put_uint32 n ++ s)

unfoldable pub write_row : Bytes × Bytes → Option Bytes
unfolding write_block
write_row (key, value) = write_block key >>= λ k. write_block value >>= λ v. some (k ++ v)

unfoldable pub write_rows : List (Bytes × Bytes) → Option Bytes
unfolding write_row
write_rows [] = some []
write_rows (row ∷ rows) = write_row row >>= λ r. write_rows rows >>= λ rs. some (r ++ rs)

unfoldable pub write_tree : Bytes × BTree → Option Bytes
unfolding write_rows safe_uint16_from_int safe_uint32_from_int put_uint16 put_uint32 BTree.snapshot
write_tree (name, tree) =
    let rows = BTree.snapshot tree in
    safe_uint16_from_int (length name) >>= λ n. safe_uint32_from_int (length rows) >>= λ c.
    write_rows rows >>= λ rs. some (put_uint16 n ++ name ++ put_uint32 c ++ rs)

unfoldable pub write_trees : Map Bytes BTree → Option Bytes
unfolding write_tree
write_trees [] = some []
write_trees (t ∷ ts) = write_tree t >>= λ r. write_trees ts >>= λ rs. some (r ++ rs)

-- `WriteSnapshot`: the content of the file
unfoldable pub write_snapshot : Map Bytes BTree → Option Bytes
unfolding write_trees safe_uint32_from_int put_uint32
write_snapshot trees = safe_uint32_from_int (length trees) >>= λ n.
    write_trees trees >>= λ rs. some (snapshot_magic ++ put_uint32 n ++ rs)

-- `io.ReadFull` and `binary.Read`: so many bytes, and the rest
unfoldable pub read_full : ℕ → Bytes → Option (Bytes × Bytes)
read_full n raw = if ltb (length raw) n then none else some (take n raw, drop n raw)

unfoldable pub read_uint16 : Bytes → Option (ℕ × Bytes)
unfolding read_full uint16
read_uint16 raw = read_full 2 raw >>= λ r. some (uint16 r.0, r.1)

unfoldable pub read_uint32 : Bytes → Option (ℕ × Bytes)
unfolding read_full uint32
read_uint32 raw = read_full 4 raw >>= λ r. some (uint32 r.0, r.1)

unfoldable pub read_block : Bytes → Option (Bytes × Bytes)
unfolding read_uint32 read_full
read_block raw = read_uint32 raw >>= λ r. read_full r.0 r.1

unfoldable pub read_rows : ℕ → BTree → Bytes → Option (BTree × Bytes)
unfolding read_block BTree.set
read_rows zero tree raw = some (tree, raw)
read_rows (suc n) tree raw =
    read_block raw >>= λ k. read_block k.1 >>= λ v. read_rows n (BTree.set tree k.0 v.0) v.1

unfoldable pub read_tree : Bytes → Option ((Bytes × BTree) × Bytes)
unfolding read_uint16 read_uint32 read_full read_rows
read_tree raw = read_uint16 raw >>= λ n. read_full n.0 n.1 >>= λ name.
    read_uint32 name.1 >>= λ c. read_rows c.0 BTree.new c.1 >>= λ t. some ((name.0, t.0), t.1)

unfoldable pub read_trees : ℕ → Map Bytes BTree → Bytes → Option (Map Bytes BTree)
unfolding read_tree insert
read_trees zero trees raw = some trees
read_trees (suc n) trees raw = read_tree raw >>= λ t. read_trees n (insert t.0.0 t.0.1 trees) t.1

unfoldable pub read_counted : Bytes × Bytes → Option (Map Bytes BTree)
unfolding read_uint32 read_trees equal
read_counted (magic, raw) =
    if equal magic snapshot_magic then (read_uint32 raw >>= λ n. read_trees n.0 [] n.1) else none

-- `ReadSnapshot` on the content of the file
unfoldable pub read_snapshot : Bytes → Option (Map Bytes BTree)
unfolding read_counted read_full
read_snapshot raw = read_full (length snapshot_magic) raw >>= read_counted

-- `CreateSnapshot`: the content of snapshot.bin
unfoldable pub create_snapshot : Engine → Option Bytes
unfolding write_snapshot
create_snapshot e = write_snapshot e.trees

-- `loadSnapshot`, where `none` is a file that does not exist
unfoldable pub load_snapshot : Option Bytes → Option (Map Bytes BTree)
unfolding read_snapshot
load_snapshot none = some []
load_snapshot (some raw) = read_snapshot raw

-- the trees of the engine, emptied, under those of the snapshot
unfoldable pub emptied : Map Bytes BTree → Map Bytes BTree
emptied [] = []
emptied ((name, t) ∷ trees) = (name, BTree.new) ∷ emptied trees

unfoldable pub merge_trees : Map Bytes BTree → Map Bytes BTree → Map Bytes BTree
unfolding insert
merge_trees [] trees = trees
merge_trees ((name, t) ∷ restored) trees = merge_trees restored (insert name t trees)

pub data RestoreError : Type 0 where
  bad_snapshot snapshot_not_written engine_closed : RestoreError
  log_failed : WalError → RestoreError

-- what is left of the engine once the log has been closed and a new one has been opened
unfoldable pub replace_log :
    Engine
    → Map Bytes BTree
    → Wal × Option WalError
    → Wal × Option WalError
    → Engine × Option RestoreError
replace_log e merged (w, some x) opened = (record e { wal = w }, some (log_failed x))
replace_log e merged (w, none) (new, some x) = (record e { wal = w }, some (log_failed x))
replace_log e merged (w, none) (new, none) = (record e { trees = merged; wal = new }, none)

-- the log behind `Close` and `RemoveAll`: a new one in an empty directory
unfoldable pub fresh_log : Faults → Engine → Map Bytes BTree → Engine × Option RestoreError
unfolding Wal.close Wal.open_wal replace_log
fresh_log f e merged = replace_log e merged (Wal.close f e.wal) (Wal.open_wal f [])

-- what follows the writing of snapshot.bin
unfoldable pub restore_written :
    Faults → Engine → Map Bytes BTree → Option Bytes → Engine × Option RestoreError
unfolding fresh_log
restore_written f e merged none = (e, some snapshot_not_written)
restore_written f e merged (some raw) = fresh_log f e merged

unfoldable pub restore_trees :
    Faults → Option (Map Bytes BTree) → Engine → Engine × Option RestoreError
unfolding restore_written merge_trees emptied write_snapshot
restore_trees f none e = (e, some bad_snapshot)
restore_trees f (some trees) e =
    let merged = merge_trees trees (emptied e.trees) in
    if e.closed then (e, some engine_closed) else restore_written f e merged (write_snapshot merged)

-- `RestoreSnapshot` on the content of a file; that the files of the log are removed is assumed
unfoldable pub restore_snapshot : Faults → Bytes → Engine → Engine × Option RestoreError
unfolding restore_trees read_snapshot
restore_snapshot f raw e = restore_trees f (read_snapshot raw) e
