-- ===== src/Ha/Witness.antt =====
-- The witness file that both nodes of a pair can reach, internal/ha/witness.go: who claimed it last,
-- and the write of a claim through a temporary file. Files are a map from their paths; JSON is an
-- argument, and what the file operations do is one too.
pub mod View
pub mod Atomic
use monsoon.Prelude.{
  ℕ, Bool, true, false, not, ◌&&◌, ◌||◌, Option, none, some, List, [], ◌∷◌, ◌++◌, ◌⊎◌, inl, inr,
  ◌==◌, if◌then◌else◌, is_some, length, take, ℤ, ltbℤ, pos, time_sub,
}
use monsoon.Bytes.{Bytes}
use monsoon.GoMap.{Map, lookup, insert, erase, bytes_eq}
use monsoon.Text.{trim_space}
use monsoon.Lease.{is_zero}

pub record WitnessRecord : Type 0 where
  pub node : Bytes
  pub priority : ℤ
  pub updated_at : ℤ

-- `json.Unmarshal` and `json.Marshal` on such records
pub record WitnessCodec : Type 0 where
  pub unmarshal : Bytes → Option WitnessRecord
  pub marshal : WitnessRecord → Option Bytes

abbrev pub Files : Type 0
Files = Map Bytes Bytes

-- what the operating system does while a witness file is read or written
pub record FileFaults : Type 0 where
  pub read_fails : Bool
  pub mkdir_fails : Bool
  pub create_fails : Bool
  pub tmp_path : Bytes
  pub chmod_fails : Bool
  pub write_stops_at : Option ℕ
  pub sync_fails : Bool
  pub close_fails : Bool
  pub rename_fails : Bool
  pub stat_fails : Bool
  pub move_fails : Bool
  pub retry_fails : Bool
  pub restore_fails : Bool
  pub remove_old_fails : Bool
  pub remove_backup_fails : Bool
  pub remove_tmp_fails : Bool

pub data WitnessError : Type 0 where
  path_empty not_exist read_failed bad_json : WitnessError
  mkdir_failed create_failed chmod_failed write_failed sync_failed close_failed : WitnessError
  replace_failed rename_failed : WitnessError

-- ".bak"
abbrev pub backup_suffix : Bytes
backup_suffix = b'.' ∷ b'b' ∷ b'a' ∷ b'k' ∷ []

-- `os.Rename`
unfoldable pub rename : Bytes → Bytes → Files → Files
rename from to fs = elim (lookup from fs) [ none ↦ fs | some raw ↦ insert to raw (erase from fs) ]

-- `os.Remove`, whose error the code ignores
unfoldable pub remove : Bool → Bytes → Files → Files
remove fails path fs = if fails then fs else erase path fs

abbrev pub Written : Type 0
Written = Files × Option WitnessError

-- the end of `atomicWriteFile` behind the moving of the current file, if there was one
unfoldable pub retry_rename : FileFaults → Bytes → Bytes → Bool → Files → Written
unfolding rename remove
retry_rename f path backup moved fs =
    if f.retry_fails
    then (if moved && not f.restore_fails then rename backup path fs else fs, some rename_failed)
    else (
      let fs' = rename f.tmp_path path fs in
          if moved then remove f.remove_backup_fails backup fs' else fs',
      none,
    )

-- the part of `atomicWriteFile` for a rename that failed
unfoldable pub replace_file : FileFaults → Bytes → Files → Written
unfolding rename remove retry_rename
replace_file f path fs =
    let backup = path ++ backup_suffix in
    let fs' = remove f.remove_old_fails backup fs in
    let moved = is_some (lookup path fs') in
    if f.stat_fails
    then (fs', some replace_failed)
    else if moved && f.move_fails
    then (fs', some replace_failed)
    else retry_rename f path backup moved (if moved then rename path backup fs' else fs')

-- `defer`: the temporary file is removed where an error is returned
unfoldable pub cleaned : FileFaults → Written → Written
unfolding remove
cleaned f (fs, none) = (fs, none)
cleaned f (fs, some x) = (remove f.remove_tmp_fails f.tmp_path fs, some x)

-- what a write leaves in the temporary file
abbrev pub stopped_at : Option ℕ → Bytes → Bytes
stopped_at none raw = raw
stopped_at (some n) raw = take n raw

-- `atomicWriteFile`
unfoldable pub atomic_write_file : FileFaults → Bytes → Bytes → Files → Written
unfolding replace_file cleaned rename
atomic_write_file f path raw fs =
    let made = insert f.tmp_path [] fs in
    let full = insert f.tmp_path (stopped_at f.write_stops_at raw) made in
    if f.create_fails
    then (fs, some create_failed)
    else cleaned f (
        if f.chmod_fails
        then (made, some chmod_failed)
        else if is_some f.write_stops_at
        then (full, some write_failed)
        else if f.sync_fails
        then (full, some sync_failed)
        else if f.close_fails
        then (full, some close_failed)
        else if f.rename_fails
        then replace_file f path full
        else (rename f.tmp_path path full, none))

module _ (c : WitnessCodec) where
  abbrev trimmed : Option WitnessRecord → WitnessRecord ⊎ WitnessError
  trimmed none = inr bad_json
  trimmed (some r) = inl (record r { node = trim_space r.node })

  abbrev parsed : Option Bytes → WitnessRecord ⊎ WitnessError
  parsed none = inr not_exist
  parsed (some raw) = trimmed (c.unmarshal raw)

  -- `readWitnessRecord`
  unfoldable pub read_witness_record : FileFaults → Bytes → Files → WitnessRecord ⊎ WitnessError
  unfolding trim_space lookup
  read_witness_record f path fs =
      let path' = trim_space path in
      if length path' == 0
      then inr path_empty
      else if f.read_fails
      then inr read_failed
      else parsed (lookup path' fs)

  abbrev pub store_record : FileFaults → Bytes → Files → Option Bytes → Written
  store_record f path fs none = (fs, some bad_json)
  store_record f path fs (some raw) = atomic_write_file f path raw fs

  -- `writeWitnessRecord`
  unfoldable pub write_witness_record : FileFaults → Bytes → WitnessRecord → Files → Written
  unfolding trim_space atomic_write_file
  write_witness_record f path rec fs =
      let path' = trim_space path in
      if length path' == 0
      then (fs, some path_empty)
      else if f.mkdir_fails
      then (fs, some mkdir_failed)
      else store_record f path' fs (c.marshal rec)

  -- the tests of `witnessOwner`; `inl none` is `false` without an error
  unfoldable pub owner_of :
      ℤ → ℤ → WitnessRecord ⊎ WitnessError → Option WitnessRecord ⊎ WitnessError
  unfolding time_sub
  owner_of hold now (inr not_exist) = inl none
  owner_of hold now (inr x) = inr x
  owner_of hold now (inl rec) =
      if length rec.node == 0 || is_zero rec.updated_at
      then inl none
      else if ltbℤ (pos 0) hold && ltbℤ hold (time_sub now rec.updated_at)
      then inl none
      else inl (some rec)

  -- `witnessOwner`
  unfoldable pub witness_owner :
      FileFaults → Bytes → ℤ → ℤ → Files → Option WitnessRecord ⊎ WitnessError
  unfolding owner_of read_witness_record
  witness_owner f path hold now fs = owner_of hold now (read_witness_record f path fs)
