-- ===== src/Lease/EngineStore/Tests.antt =====
-- The store of internal/lease/store.go at a concrete engine.
use monsoon.Prelude.{true, none, some, [], ◌∷◌, ◌≡◌, refl, inl, pos}
use monsoon.Bytes.{equal, put_uint16, put_uint32}
use monsoon.GoMap.{lookup, insert}
use monsoon.Lease.{Lease, normalize_defaults, bound}
use monsoon.Lease.EngineStore
use monsoon.Lease.EngineStore.{Codec}
use monsoon.Lease.EngineStore.Upsert.{upsert-get_by_ip}
use monsoon.Storage.Wal
use monsoon.Storage.Engine
use monsoon.Storage.Engine.{Engine, make_tree_key}
use monsoon.Storage.Engine.Commit.{IsDurable}
use monsoon.Storage.LogTests.{quiet, engine, names, engine-IsDurable}
use monsoon.Storage.Numeric.{safe_uint16_from_int, safe_uint32_from_int}
use monsoon.Storage.Record.{encode}

abbrev pub lease : Lease
lease = record {
  ip = b'4' ∷ [];
  mac = b'm' ∷ [];
  client_id = b'c' ∷ [];
  hostname = [];
  state = bound;
  start_time = pos 0;
  duration = pos 60;
  t1 = pos 0;
  t2 = pos 0;
  expiry_time = pos 0;
  quarantine_until = pos 0;
  subnet_id = b's' ∷ [];
  relay_addr = [];
  relay_info = [];
  circuit_id = [];
  remote_id = [];
  vendor_class = [];
  user_class = [];
  last_seen = pos 0;
  ddns_forward = [];
  ddns_reverse = [];
  tags = [];
  created_at = pos 0;
  updated_at = pos 0;
}

-- `lease` as it is stored at the time 100
abbrev completed : Lease
completed = normalize_defaults (pos 100) (pos 43200000000000) lease

-- a codec that knows one lease
abbrev codec : Codec
codec = record {
  marshal = λ l. some l.ip;
  unmarshal = λ raw. some completed;
  to_upper = λ s. s;
  unix_text = λ t. b'1' ∷ [];
}

stores : (EngineStore.upsert codec (λ i. quiet) 100 true lease engine).1 ≡ none
unfolding EngineStore.upsert Engine.tx Engine.commit_all Engine.commit_mutation Wal.append encode
    safe_uint16_from_int make_tree_key safe_uint32_from_int put_uint16 put_uint32 Wal.open_wal
    lookup Engine.with_trees insert equal
stores = refl

reopens :
    (Wal.open_wal quiet (EngineStore.upsert codec (λ i. quiet) 100 true lease engine).0.wal.dir).1
    ≡ none
unfolding Wal.open_wal
reopens = refl

upsert-get_by_ip_example :
    IsDurable
      (Engine.with_trees names [])
      (EngineStore.upsert codec (λ i. quiet) 100 true lease engine).0
    × (EngineStore.get_by_ip codec lease.ip
          (EngineStore.upsert codec (λ i. quiet) 100 true lease engine).0
        ≡ inl completed)
    × ((e' : Engine) × (Engine.open_engine quiet
            (EngineStore.upsert codec (λ i. quiet) 100 true lease engine).0.wal.dir
            []
            names
          ≡ Engine.opened e')
        × (EngineStore.get_by_ip codec lease.ip e' ≡ inl completed))
upsert-get_by_ip_example =
    upsert-get_by_ip codec [] names (λ i. quiet) 100 true quiet lease engine (λ raw h. refl)
      engine-IsDurable stores reopens
