-- ===== src/Ha/SyncTests.antt =====
-- The replication theorems at concrete nodes that store their leases in the storage engine.
use monsoon.Prelude.{true, false, some, List, [], ◌∷◌, ◌≡◌, refl, arith, pos}
use monsoon.Bytes.{equal, bytes_compare, put_uint16, put_uint32}
use monsoon.GoMap.{lookup, insert, bytes_eq}
use monsoon.Text.{trim_space}
use monsoon.Lease.EngineStore
use monsoon.Lease.EngineStore.{Codec, tree_leases}
use monsoon.Lease.EngineStore.Tests.{lease}
use monsoon.Storage.BTree
use monsoon.Storage.BTree.Valid.{new-IsValid}
use monsoon.Storage.Wal
use monsoon.Storage.Engine
use monsoon.Storage.Engine.{Engine, make_tree_key, must_tree, with_tree}
use monsoon.Storage.LogTests.{quiet, engine}
use monsoon.Storage.Numeric.{safe_uint16_from_int, safe_uint32_from_int}
use monsoon.Storage.Record.{encode}
use monsoon.Storage.Search.{search, search_loop}
use monsoon.Ha
use monsoon.Ha.Manager.{Manager}
use monsoon.Ha.FailoverTests.{env, node}
use monsoon.Ha.Sync
use monsoon.Ha.Sync.{
  SyncMessage, Replica, lease_upsert, resync, verdict_of, validate_secret, handle_incremental,
  apply_snapshot, desired_leases,
}
use monsoon.Ha.Sync.Mirror.{StoreLaws, apply_snapshot-mirrors}
use monsoon.Ha.Sync.Wanted.{last_with, last_completed}
use monsoon.Ha.Sync.EngineReplica.{engine_replica, engine_laws}
use monsoon.Lease.EngineStore.Leases.{ReadsIp, IsKeyed}
use monsoon.Ha.Sync.Sender.{lease_update, send_sync}
use monsoon.Ha.Sync.Sender.Heal.{serve, Healed, send_sync-Healed}

-- a codec that writes the address alone
abbrev codec : Codec
codec = record {
  marshal = λ l. some l.ip;
  unmarshal = λ raw. some (record lease { ip = raw });
  to_upper = λ s. s;
  unix_text = λ t. b'1' ∷ [];
}

codec-reads : ReadsIp codec
codec-reads l raw h = (record lease { ip = raw }, refl, ground (arith, h))

-- the store over the engine, at the time 100
abbrev store : Replica Engine
store = engine_replica codec (λ i. quiet) 100

abbrev laws : StoreLaws store
laws = engine_laws codec (λ i. quiet) 100 codec-reads

engine-IsKeyed : IsKeyed codec (must_tree tree_leases engine.trees)
unfolding must_tree lookup Engine.with_trees with_tree BTree.get insert equal
engine-IsKeyed = record { valid = new-IsValid; keyed = λ k raw h. absurd (ground (arith, h)) }

-- the log of a peer: one update
abbrev update : SyncMessage
update = lease_update (pos 7) (pos 1) lease node

abbrev log : List SyncMessage
log = update ∷ []

-- the update arrives twice
abbrev once : Manager × Engine × SyncMessage
once = handle_incremental store (pos 8) update node engine

abbrev twice : Manager × Engine × SyncMessage
twice = handle_incremental store (pos 9) update once.0 once.«1»

alone : Ha.is_load_sharing env.to_lower node.mode ≡ false
unfolding Ha.is_load_sharing
alone = refl

-- what the replica has before the snapshot: a lease that the sender has not
abbrev stale : Engine
stale = (store.upsert (record lease { ip = b'5' ∷ [] }) engine).0

stale-IsGood : laws.IsGood stale
unfolding EngineStore.upsert Engine.tx Engine.commit_all Engine.commit_mutation Wal.append encode
    safe_uint16_from_int make_tree_key safe_uint32_from_int put_uint16 put_uint32 Wal.open_wal
    lookup Engine.with_trees insert equal Engine.apply_mutation BTree.get BTree.set BTree.iterate
    BTree.insert_at BTree.position search search_loop bytes_compare
stale-IsGood = laws.upsert-IsGood (record lease { ip = b'5' ∷ [] }) engine engine-IsKeyed refl

mirrored : (apply_snapshot store env node.mode (lease ∷ []) stale).1 ≡ true
unfolding apply_snapshot EngineStore.upsert Engine.tx Engine.commit_all Engine.commit_mutation
    Wal.append encode safe_uint16_from_int make_tree_key safe_uint32_from_int put_uint16 put_uint32
    Wal.open_wal lookup Engine.with_trees insert equal Engine.apply_mutation BTree.get BTree.set
    BTree.iterate BTree.insert_at BTree.position search search_loop bytes_compare
    EngineStore.list_all EngineStore.delete
mirrored = refl

trimmed : trim_space (b'5' ∷ []) ≡ b'5' ∷ []
unfolding trim_space
trimmed = refl

apply_snapshot-mirrors_example :
    laws.get (apply_snapshot store env node.mode (lease ∷ []) stale).0 (b'5' ∷ [])
    ≡ last_completed laws.completed (last_with (b'5' ∷ []) (lease ∷ []))
apply_snapshot-mirrors_example =
    apply_snapshot-mirrors store laws env node.mode (lease ∷ []) stale (b'5' ∷ []) stale-IsGood
      trimmed alone mirrored

-- the sender and the replica, which has missed updates
abbrev sender : Manager
sender = record node { sync_sequence = pos 9 }

abbrev behind : Manager
behind = record node { applied_sequence = pos 4 }

trusted : validate_secret [] [] ≡ true
unfolding validate_secret
trusted = refl

has_gap : verdict_of (pos 4) (pos 9) ≡ resync
unfolding verdict_of
has_gap = refl

-- the sender's store
abbrev full : Engine
full = (store.upsert lease engine).0

has_leases : store.list_all full ≡ some (lease ∷ [])
unfolding EngineStore.list_all EngineStore.upsert Engine.tx Engine.commit_all Engine.commit_mutation
    Wal.append encode safe_uint16_from_int make_tree_key safe_uint32_from_int put_uint16 put_uint32
    Wal.open_wal lookup Engine.with_trees insert equal Engine.apply_mutation BTree.get BTree.set
    BTree.iterate BTree.insert_at BTree.position search search_loop bytes_compare
has_leases = refl

send_sync-Healed_example :
    ((send_sync store
        (serve store env (pos 8))
        (pos 7)
        (lease_update (pos 7) (pos 9) lease sender)
        sender
        full
        (behind, stale)).1
      ≡ true)
    × Healed store env laws
        (pos 9)
        (lease ∷ [])
        (send_sync store
          (serve store env (pos 8))
          (pos 7)
          (lease_update (pos 7) (pos 9) lease sender)
          sender
          full
          (behind, stale)).0.0
        (send_sync store
          (serve store env (pos 8))
          (pos 7)
          (lease_update (pos 7) (pos 9) lease sender)
          sender
          full
          (behind, stale)).0.1
send_sync-Healed_example =
    send_sync-Healed store env laws (pos 7) (pos 8) (pos 9) lease (lease ∷ []) sender behind full
      stale trusted trusted stale-IsGood alone has_gap has_leases mirrored
