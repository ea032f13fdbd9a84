-- ===== src/Storage/LogTests.antt =====
-- The log, index and engine theorems at concrete logs and engines, and runs of the definitions.
use monsoon.Prelude.{
  ℕ, ◌≤◌, true, false, none, some, List, [], ◌∷◌, ◌++◌, ◌≡◌, refl, ◌⊎◌, arith, length, take,
}
use monsoon.Bytes.{Bytes, put_uint16, put_uint32}
use monsoon.GoMap.{lookup, insert, bytes_eq, nat_eq}
use monsoon.Storage.Index.{IndexManager}
use monsoon.Storage.Numeric.{safe_uint16_from_int, safe_uint32_from_int}
use monsoon.Storage.Record.{encode, replay_file}
use monsoon.Storage.Record.Replay.{apply_all}
use monsoon.Storage.Wal
use monsoon.Storage.Wal.{Wal, Faults}
use monsoon.Storage.Wal.Stored.{Holds}
use monsoon.Storage.Wal.Append.{replay-append}
use monsoon.Storage.Wal.Reopen.{open_wal-fresh}
use monsoon.Storage.Engine
use monsoon.Storage.Engine.{Mutation, Engine, make_tree_key, split_tree_key}
use monsoon.Storage.Engine.TreeKey.{IsTreeName}
use monsoon.Storage.Engine.Commit.{AreProper, IsDurable, apply_mutations}
use monsoon.Storage.Engine.Recovery.{tx-IsDurable, Reopens, open_engine-IsDurable, tx_recovers}
use monsoon.Storage.Tests.{tree, entry, keep}

abbrev pub quiet : Faults
quiet = record {
  close_fails = false;
  open_fails = false;
  write_stops_at = none;
  sync_fails = false;
}

-- a write that stops after twelve bytes
abbrev full_disk : Faults
full_disk = record quiet { write_stops_at = some 12 }

abbrev log : Wal
log = (Wal.open_wal quiet []).0

open_quiet : (Wal.open_wal quiet []).1 ≡ none
unfolding Wal.open_wal
open_quiet = refl

log-Holds : Holds log []
log-Holds = open_wal-fresh quiet open_quiet

append-quiet : (Wal.append quiet entry log).1 ≡ none
unfolding Wal.append Wal.open_wal encode safe_uint16_from_int safe_uint32_from_int lookup insert
    put_uint16 put_uint32
append-quiet = refl

replay-append_example :
    (Wal.replay keep (Wal.append full_disk entry log).0 [] ≡ apply_all keep [] [])
    ⊎ (Wal.replay keep (Wal.append full_disk entry log).0 [] ≡ apply_all keep ([] ++ entry ∷ []) [])
replay-append_example = replay-append keep full_disk entry log [] log-Holds

reopen_quiet : (Wal.open_wal quiet log.dir).1 ≡ none
unfolding Wal.open_wal lookup insert
reopen_quiet = refl

index : IndexManager
index = record { indexes = []; trees = (b'n' ∷ [], tree) ∷ [] }

tree_name : IsTreeName (b't' ∷ [])
tree_name = record { not_empty = λ e. cc e; no_sep = (omega arith, tt) }

abbrev pub names : List Bytes
names = (b't' ∷ []) ∷ []

abbrev pub engine : Engine
engine = Engine.new_engine (Engine.with_trees names []) log

-- `engine` is what `OpenEngine` returns on an empty directory
open_fresh : Engine.open_engine quiet [] [] names ≡ Engine.opened engine
unfolding Engine.open_engine Wal.open_wal Wal.replay lookup insert replay_file
open_fresh = refl

abbrev mutations : List Mutation
mutations =
    Engine.tx_put (b't' ∷ []) (b'k' ∷ []) (b'v' ∷ []) (Engine.tx_delete (b't' ∷ []) (b'j' ∷ []) [])

mutations-AreProper : AreProper mutations
mutations-AreProper = (
  record { names = tree_name; op_known = refl },
  (record { names = tree_name; op_known = refl }, tt),
)

pub engine-IsDurable : IsDurable (Engine.with_trees names []) engine
unfolding apply_all
engine-IsDurable = record { entries = []; holds = log-Holds; replayed = refl }

quiet-tx : (Engine.tx (λ i. quiet) 5 true (some mutations) engine).1 ≡ none
unfolding Engine.tx Engine.commit_all Engine.commit_mutation Wal.append encode safe_uint16_from_int
    make_tree_key safe_uint32_from_int put_uint16 put_uint32 Wal.open_wal lookup
quiet-tx = refl

tx-IsDurable_example :
    IsDurable (Engine.with_trees names []) (Engine.tx (λ i. quiet) 5 true (some mutations) engine).0
    × ((Engine.tx (λ i. quiet) 5 true (some mutations) engine).0.trees
        ≡ apply_mutations mutations engine.trees)
tx-IsDurable_example =
    tx-IsDurable (Engine.with_trees names []) (λ i. quiet) 5 true mutations engine
      mutations-AreProper engine-IsDurable quiet-tx

open_engine-IsDurable_example : Reopens [] names quiet engine.wal.dir engine.trees
open_engine-IsDurable_example =
    open_engine-IsDurable [] names quiet engine engine-IsDurable reopen_quiet

open_broken :
    (Wal.open_wal quiet (Engine.tx (λ i. full_disk) 5 true (some mutations) engine).0.wal.dir).1
    ≡ none
unfolding Wal.open_wal
open_broken = refl

tx_recovers_example :
    (k : ℕ) × (k ≤ length mutations)
    × Reopens [] names quiet
        (Engine.tx (λ i. full_disk) 5 true (some mutations) engine).0.wal.dir
        (apply_mutations (take k mutations) engine.trees)
tx_recovers_example =
    tx_recovers [] names quiet (λ i. full_disk) 5 true mutations engine mutations-AreProper
      engine-IsDurable open_broken
