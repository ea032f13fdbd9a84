-- ===== src/Storage/Tests.antt =====
-- The storage theorems at concrete trees, records, logs and engines, and runs of the definitions.
use monsoon.Prelude.{
  ℕ, suc, ◌-◌, Bool, true, Option, none, some, List, [], ◌∷◌, ◌++◌, ◌≡◌, ◌≢◌, refl, arith, is_some,
  length, take, drop,
}
use monsoon.Bytes.{Bytes, put_uint16, put_uint32, bytes_compare, equal}
use monsoon.GoMap.{lookup, insert, bytes_eq, nat_eq}
use monsoon.Storage.Crc32.{checksum_ieee}
use monsoon.Storage.Search.{search, search_loop}
use monsoon.Storage.BTree
use monsoon.Storage.BTree.{BTree}
use monsoon.Storage.BTree.Valid.{IsValid, new-IsValid, set-IsValid}
use monsoon.Storage.BTree.Entries.{ordered_put, without, snapshot-set, snapshot-delete}
use monsoon.Storage.BTree.Walk.{from_start, up_to, walk, iterate-walk}
use monsoon.Storage.Numeric.{safe_uint16_from_int, safe_uint32_from_int}
use monsoon.Storage.Record.{Entry, encode, marshal_payload, crc_mismatch, apply_then, replay_file}
use monsoon.Storage.Record.Replay.{encode_all, IsTorn, apply_all, replay_file-encode_all}
use monsoon.Storage.Wal.TornTail.{replay_file-behind_torn}

abbrev pub tree : BTree
tree = BTree.set (BTree.set BTree.new (b'b' ∷ []) (2 ∷ [])) (b'a' ∷ []) (1 ∷ [])

pub tree-IsValid : IsValid tree
tree-IsValid = set-IsValid _ _ _ (set-IsValid _ _ _ new-IsValid)

snapshot-set_example :
    BTree.snapshot (BTree.set tree (b'c' ∷ []) (3 ∷ []))
    ≡ ordered_put (b'c' ∷ []) (3 ∷ []) (BTree.snapshot tree)
snapshot-set_example = snapshot-set tree (b'c' ∷ []) (3 ∷ []) tree-IsValid

snapshot-delete_example :
    (BTree.snapshot (BTree.delete tree (b'a' ∷ [])).0 ≡ without (b'a' ∷ []) (BTree.snapshot tree))
    × ((BTree.delete tree (b'a' ∷ [])).1 ≡ is_some (BTree.get tree (b'a' ∷ [])))
snapshot-delete_example = snapshot-delete tree (b'a' ∷ []) tree-IsValid

abbrev count_all : Bytes → Bytes → ℕ → ℕ × Bool
count_all k v n = (suc n, true)

iterate-walk_example :
    BTree.iterate tree (b'b' ∷ []) [] count_all 0
    ≡ walk count_all (up_to [] (from_start (b'b' ∷ []) (BTree.snapshot tree))) 0
iterate-walk_example = iterate-walk tree (b'b' ∷ []) [] count_all 0 tree-IsValid

tree_runs :
    (BTree.snapshot tree ≡ (b'a' ∷ [], 1 ∷ []) ∷ (b'b' ∷ [], 2 ∷ []) ∷ [])
    × (BTree.iterate tree (b'b' ∷ []) [] count_all 0 ≡ 1)
unfolding BTree.set BTree.snapshot BTree.iterate BTree.position BTree.insert_at lookup insert
    bytes_compare equal search search_loop
tree_runs = (refl, refl)

abbrev pub entry : Entry
entry = record { op = 1; key = b't' ∷ 0x1f ∷ b'k' ∷ []; value = b'v' ∷ [] }

abbrev pub entry_payload : Bytes
entry_payload = 1 ∷ 0 ∷ 3 ∷ b't' ∷ 0x1f ∷ b'k' ∷ 0 ∷ 0 ∷ 0 ∷ 1 ∷ b'v' ∷ []

marshal_entry : marshal_payload entry ≡ some entry_payload
unfolding marshal_payload safe_uint16_from_int safe_uint32_from_int put_uint16 put_uint32
marshal_entry = refl

abbrev pub entry_bytes : Bytes
entry_bytes = 0 ∷ 0 ∷ 0 ∷ 11 ∷ 232 ∷ 70 ∷ 59 ∷ 117 ∷ entry_payload

pub encode_entry : encode entry ≡ some entry_bytes
unfolding encode safe_uint16_from_int safe_uint32_from_int put_uint16 put_uint32 checksum_ieee
encode_entry = refl

-- keeps the entries it is given
abbrev pub keep : Entry → List Entry → List Entry × Option (Unit {0})
keep e es = (es ++ e ∷ [], none)

pub encode_all_entry : encode_all (entry ∷ []) ≡ some entry_bytes
unfolding encode_all encode safe_uint16_from_int safe_uint32_from_int put_uint16 put_uint32
    checksum_ieee
encode_all_entry = refl

abbrev torn : Bytes
torn = take 12 entry_bytes

torn-IsTorn : IsTorn torn
torn-IsTorn = record {
  entry = entry;
  whole = entry_bytes;
  encoded = encode_entry;
  cut = 12;
  cut-lt = omega arith;
  is_cut = refl;
}

replay_file-encode_all_example :
    replay_file keep (entry_bytes ++ torn) [] ≡ apply_all keep (entry ∷ []) []
replay_file-encode_all_example =
    replay_file-encode_all keep (entry ∷ []) torn entry_bytes [] torn-IsTorn encode_all_entry

keep_entry : apply_all keep (entry ∷ []) [] ≡ (entry ∷ [], none)
unfolding apply_all apply_then
keep_entry = refl

checksums_differ :
    checksum_ieee (take (length entry_bytes - 8) (drop 8 (take 12 entry_bytes ++ entry_bytes)))
    ≢ checksum_ieee (drop 8 entry_bytes)
unfolding checksum_ieee
checksums_differ = omega arith

-- the record behind the torn one fills its payload up with its own header
replay_file-behind_torn_example :
    replay_file keep (entry_bytes ++ (take 12 entry_bytes ++ entry_bytes)) []
    ≡ (entry ∷ [], some crc_mismatch)
replay_file-behind_torn_example =
    replay_file-behind_torn keep (entry ∷ []) entry 12 entry_bytes entry_bytes entry_bytes []
      (entry ∷ []) encode_all_entry keep_entry encode_entry (omega arith) (omega arith)
      checksums_differ
