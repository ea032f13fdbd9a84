-- ===== src/Storage/Wal.antt =====
-- The write-ahead log of internal/storage/wal.go: numbered segment files, the rotation to a new
-- one, `Append` and `Replay`. What the operating system does is an argument of each step: whether
-- closing, opening, writing or syncing fails. A directory is a map from segment ids to contents
-- (`%09d.wal` and back), and an `int64` offset is a number, since no file grows to 2^63 bytes.
pub mod Segments
pub mod Stored
pub mod Append
pub mod Reopen
pub mod TornTail
use monsoon.Prelude.{
  ℕ, suc, ◌+◌, ◌*◌, ◌≤◌, Bool, true, false, Option, none, some, List, [], ◌∷◌, ◌++◌, ltb, leb,
  ◌>>=◌, if◌then◌else◌, length, take,
}
use monsoon.Bytes.{Bytes}
use monsoon.GoMap.{Map, lookup, insert, nat_eq}
use monsoon.Storage.Record.{Entry, encode, Replayed, replay_file}

abbrev pub default_segment_size : ℕ
default_segment_size = 64 * 1024 * 1024

-- `w.file`: nil, a segment that is open for appending, or a file that has been closed
pub data Handle : Type 0 where
  no_file closed_file : Handle
  open_file : ℕ → Handle

pub record Wal : Type 0 where
  pub dir : Map ℕ Bytes
  pub segment_size : ℕ
  pub file : Handle
  pub offset : ℕ
  pub segment_id : ℕ

-- what the operating system answers during one call
pub record Faults : Type 0 where
  pub close_fails : Bool
  pub open_fails : Bool
  pub write_stops_at : Option ℕ  -- an error after so many bytes
  pub sync_fails : Bool

pub data WalError : Type 0 where
  bad_length not_opened close_error open_error write_error sync_error : WalError

-- the content of a segment; opening a file that is missing creates it
abbrev pub content : ℕ → Map ℕ Bytes → Bytes
content id dir = elim (lookup id dir) [ none ↦ [] | some raw ↦ raw ]

-- `openSegment`
unfoldable pub open_segment : Faults → ℕ → Wal → Wal × Option WalError
open_segment f id w =
    if f.open_fails
    then (w, some open_error)
    else (record w { file = open_file id; dir = insert id (content id w.dir) w.dir }, none)

-- the part of `rotateIfNeeded` behind the test of the size
unfoldable pub rotate : Faults → Handle → Wal → Wal × Option WalError
unfolding open_segment
rotate f no_file w = (w, some not_opened)
rotate f closed_file w = (w, some close_error)
rotate f (open_file _) w =
    if f.close_fails
    then (w, some close_error)
    else open_segment f (suc w.segment_id)
        (record w { file = closed_file; segment_id = suc w.segment_id; offset = 0 })

abbrev pub is_open : Handle → Bool
is_open no_file = false
is_open _ = true

unfoldable pub rotate_if_needed : Faults → ℕ → Wal → Wal × Option WalError
unfolding rotate
rotate_if_needed f next_entry_bytes w =
    if is_open w.file
    then (if leb (w.offset + next_entry_bytes) w.segment_size then (w, none) else rotate f w.file w)
    else (w, some not_opened)

-- `w.file.Write(buf)` in a file opened for appending, the new offset, and `w.file.Sync()`
unfoldable pub write : Faults → Handle → Bytes → Wal → Wal × Option WalError
write f no_file buf w = (w, some write_error)
write f closed_file buf w = (w, some write_error)
write f (open_file id) buf w = elim f.write_stops_at [
  | some n ↦ (record w { dir = insert id (content id w.dir ++ take n buf) w.dir }, some write_error)
  | none ↦ (
    record w { dir = insert id (content id w.dir ++ buf) w.dir; offset = w.offset + length buf },
    if f.sync_fails then some sync_error else none,
  )
]

-- the next step, unless there was an error
abbrev pub and_then : Wal × Option WalError → (Wal → Wal × Option WalError) → Wal × Option WalError
and_then (w, none) k = k w
and_then (w, some e) k = (w, some e)

-- `Append`
unfoldable pub append : Faults → Entry → Wal → Wal × Option WalError
unfolding rotate_if_needed write
append f e w = elim (encode e) [
  | none ↦ (w, some bad_length)
  | some buf ↦ and_then (rotate_if_needed f (length buf) w) (λ w'. write f w'.file buf w')
]

-- `sort.Slice` by id
unfoldable pub insert_by_id : ℕ × Bytes → Map ℕ Bytes → Map ℕ Bytes
insert_by_id s [] = s ∷ []
insert_by_id s (t ∷ rest) = if leb s.0 t.0 then s ∷ t ∷ rest else t ∷ insert_by_id s rest

-- `segmentPaths`
unfoldable pub segment_paths : Map ℕ Bytes → Map ℕ Bytes
unfolding insert_by_id
segment_paths [] = []
segment_paths (s ∷ rest) = insert_by_id s (segment_paths rest)

abbrev pub last_id : Map ℕ Bytes → ℕ
last_id [] = 1
last_id ((id, raw) ∷ []) = id
last_id (s ∷ t ∷ rest) = last_id (t ∷ rest)

-- `OpenWAL` and `openLatest`: the segment with the greatest id, or the first one, is opened at its
-- end. A directory that cannot be read is not modelled.
unfoldable pub open_wal : Faults → Map ℕ Bytes → Wal × Option WalError
unfolding open_segment segment_paths
open_wal f dir =
    let id = last_id (segment_paths dir) in
    open_segment f id (record {
      dir = dir;
      segment_size = default_segment_size;
      file = no_file;
      offset = length (content id dir);
      segment_id = id;
    })

unfoldable pub close_file : Faults → Handle → Wal → Wal × Option WalError
close_file f no_file w = (w, none)
close_file f closed_file w = (w, some close_error)
close_file f (open_file id) w =
    if f.close_fails then (w, some close_error) else (record w { file = closed_file }, none)

-- `Close`
unfoldable pub close : Faults → Wal → Wal × Option WalError
unfolding close_file
close f w = close_file f w.file w

-- the next file, unless there was an error
abbrev pub replay_then : {S E : Type 0} → (S → Replayed S E) → Replayed S E → Replayed S E
replay_then rest (s, none) = rest s
replay_then rest (s, some e) = (s, some e)

module _ {S E : Type 0} (apply : Entry → S → S × Option E) where
  unfoldable pub replay_segments : Map ℕ Bytes → S → Replayed S E
  replay_segments [] s = (s, none)
  replay_segments ((id, raw) ∷ rest) s =
      replay_then (replay_segments rest) (replay_file apply raw s)

  -- `Replay`: the files in the order of their ids, up to the first error
  unfoldable pub replay : Wal → S → Replayed S E
  unfolding replay_segments segment_paths
  replay w s = replay_segments (segment_paths w.dir) s
