-- ===== src/Storage.antt =====
-- internal/storage: the ordered tree, its secondary indexes, the write-ahead log and the engine.
pub mod Search
pub mod BTree
pub mod Crc32
pub mod Numeric
pub mod Record
pub mod Wal
pub mod Index
pub mod Engine
pub mod Snapshot
pub mod Tests
pub mod LogTests
pub mod SnapshotTests
