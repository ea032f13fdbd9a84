-- ===== src/Storage/SnapshotTests.antt =====
-- The snapshot theorems at a concrete snapshot.
use monsoon.Prelude.{some, none, [], ◌∷◌, ◌≡◌, refl}
use monsoon.Bytes.{Bytes, equal, bytes_compare}
use monsoon.Storage.Search.{search, search_loop}
use monsoon.Storage.Engine
use monsoon.GoMap.{Map, lookup, insert, bytes_eq}
use monsoon.GoMap.Laws.{Distinct}
use monsoon.Storage.BTree
use monsoon.Storage.BTree.{BTree}
use monsoon.Storage.Wal
use monsoon.Storage.Engine.{Engine}
use monsoon.Storage.Snapshot
use monsoon.Storage.Snapshot.RoundTrip.{map_rebuilt, read_snapshot-write_snapshot}
use monsoon.Storage.Snapshot.Restore.{restored_tree, restore_snapshot-trees}
use monsoon.Storage.Tests.{tree}
use monsoon.Storage.LogTests.{quiet, engine}

abbrev trees : Map Bytes BTree
trees = (b't' ∷ [], tree) ∷ []

trees-Distinct : Distinct trees
unfolding lookup
trees-Distinct = (refl, tt)

-- one tree named t of two rows
abbrev raw : Bytes
raw =
    77 ∷ 79 ∷ 78 ∷ 83 ∷ 78 ∷ 65 ∷ 80 ∷ 49 ∷ 0 ∷ 0 ∷ 0 ∷ 1 ∷ 0 ∷ 1 ∷ b't' ∷ 0 ∷ 0 ∷ 0 ∷ 2 ∷ 0 ∷ 0 ∷ 0
    ∷ 1 ∷ b'a' ∷ 0 ∷ 0 ∷ 0 ∷ 1 ∷ 1 ∷ 0 ∷ 0 ∷ 0 ∷ 1 ∷ b'b' ∷ 0 ∷ 0 ∷ 0 ∷ 1 ∷ 2 ∷ []

write_run : Snapshot.write_snapshot trees ≡ some raw
unfolding Snapshot.write_snapshot BTree.set BTree.snapshot lookup insert equal BTree.insert_at
    BTree.position search search_loop bytes_compare
write_run = refl

read_snapshot-write_snapshot_example :
    (out : Map Bytes BTree) × (Snapshot.read_snapshot raw ≡ some out)
    × ((name : Bytes) → lookup name out ≡ map_rebuilt (lookup name trees))
read_snapshot-write_snapshot_example =
    read_snapshot-write_snapshot trees raw trees-Distinct write_run

abbrev restored : Engine
restored = (Snapshot.restore_snapshot quiet raw engine).0

restore_run : Snapshot.restore_snapshot quiet raw engine ≡ (restored, none)
unfolding Snapshot.restore_snapshot Engine.with_trees lookup BTree.insert_at BTree.position search
    search_loop bytes_compare
restore_run = refl

restore_snapshot-trees_example :
    (ts : Map Bytes BTree) × (Snapshot.read_snapshot raw ≡ some ts)
    × ((name : Bytes)
        → lookup name restored.trees ≡ restored_tree (lookup name ts) (lookup name engine.trees))
    × (restored.wal ≡ (Wal.open_wal quiet []).0)
restore_snapshot-trees_example = restore_snapshot-trees quiet raw engine restored restore_run
