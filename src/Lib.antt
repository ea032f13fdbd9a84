-- ===== src/Lib.antt =====
-- Monsoon, a DHCP server with its own storage engine, leases and address pools: a model of its core
-- in Go, and the theorems that make it correct.
--
-- The program keeps leases, subnets and settings in an embedded storage engine
-- (internal/storage): named ordered trees over one write-ahead log. The lease store
-- (internal/lease/store.go) is a tree of leases with four trees of references; the sweeper
-- (internal/lease/expiry.go) moves leases that have run out through their quarantine. The DHCPv4
-- server (internal/dhcpv4) decodes a packet, finds an address in the bitmaps of its pools, writes
-- the lease through the store and encodes the reply. A pair of
-- servers elects its primary, replicates leases and takes over from a peer that is gone
-- (internal/ha); the node's role decides which addresses its pools may give out.
--
-- Prelude, Prelude/Tests, Prelude/Lists, Prelude/Int: Boolean tests, lists over native numbers, and
--   the integers that stand for time.Duration and time.Time (nanoseconds since the zero time).
-- Bytes, Text, GoMap, Net: []byte and string, strings.TrimSpace, maps, and the part of net and
--   net/netip that is used. A map is a list of its entries in the order of a walk over it.
-- Storage/BTree, Storage/Search: internal/storage/btree.go. Get, Set, Delete, Len, Snapshot and
--   Iterate are get, set, delete, len, snapshot and iterate.
-- Storage/Index: internal/storage/index.go.
-- Storage/Record, Storage/Crc32, Storage/Numeric: the records of internal/storage/wal.go, the
--   checksum and internal/storage/numeric.go. WAL.marshalPayload and WAL.Append's framing are
--   encode, replayFile is replay_file.
-- Storage/Wal: the segments of internal/storage/wal.go. OpenWAL, Append, rotateIfNeeded, Replay and
--   Close are open_wal, append, rotate_if_needed, replay and close.
-- Storage/Engine: internal/storage/engine.go. Tx and TxSilent are tx, OpenEngine is open_engine.
-- Storage/Snapshot: internal/storage/snapshot.go, CreateSnapshot and RestoreSnapshot.
-- Lease, Lease/Store, Lease/EngineStore, Lease/Sweeper: internal/lease.
-- Dhcpv4/Options, Packet, Relay, Reply: options.go, rapid_commit.go, packet.go, relay.go and
--   broadcast.go of internal/dhcpv4.
-- Dhcpv4/Pool, Dhcpv4/Pool/Setup: internal/dhcpv4/pool.go. Allocate is allocate, and allocate_new
--   what it does for a client that holds no lease.
-- Dhcpv4/Handler, Dhcpv4/Handler/Messages: internal/dhcpv4/handler.go. Handle is handle.
-- Ha: internal/ha/election.go. electRole is elect_role.
-- Ha/Witness: internal/ha/witness.go. atomicWriteFile is atomic_write_file, over files as a map.
-- Ha/Manager, Ha/Failover, Ha/Scope: internal/ha/failover.go: the manager's state and status, the
--   methods that change its role, and AllocationScope with splitScope. Ha/Failover/Steps has the
--   locked sections of a node and the runs of refreshWitnessState between them, in any order, and
--   the states that they lead to. Ha/Sharing puts the pools under the scopes.
-- Ha/Sync, Ha/Sync/Sender: internal/ha/sync.go and handleConn of internal/ha/failover.go: the node
--   that serves a message, and the one that sends it to a peer that answers. The store of a node is
--   a record of its operations and their laws, Ha/Sync/Mirror, and Ha/Sync/EngineReplica fills it
--   with the lease store over the engine.
-- Auth, Auth/Lockout, Auth/Local, Auth/Session, Auth/Token: internal/auth: types.go and rbac.go,
--   lockout.go, local.go, session.go and token.go, over the storage engine.
-- Ipam, Ipam/Subnets, Ipam/Addresses: internal/ipam: cidr.go, the subnets of engine.go, and the
--   records of types.go with mergeAddressRecord. The reservations, the stored addresses and the
--   summaries of engine.go are not modelled.
-- Storage/Engine/Lookup has what Get finds behind a transaction, for the stores over the engine.
-- The other files below these prove what their names say. The files whose names end in Tests
-- apply the theorems at concrete values and run the definitions.
--
-- A method that holds a lock throughout is one step; refreshWitnessState, which gives its lock up
-- while it uses the witness, is several. A write, an open, a close, a sync, a renaming or a removal
-- of a file fails where an argument (Storage/Wal, Faults; Ha/Witness, FileFaults) says so; the
-- clock is an argument. Loops that read bytes run on fuel: a round reads at least one byte, and the
-- fuel is the number of bytes. The search of a free address has a round for each address of the
-- range and one more.
--
-- Lengths and offsets in int and int64 are numbers without a bound, since no file or slice reaches
-- 2^63 bytes; what is written in fewer bits is cut or checked as in the code. The JSON codec, the
-- parsers and printers of addresses, and the decimal form of a time are arguments.
--
-- Not modelled: the goroutines and channels around these parts (the sweeper's ticker, the UDP
-- servers, the lease watchers, the connections between the nodes of a pair), DHCPv6, the loading of
-- sessions, auditing, DDNS, discovery, migration, the APIs, the dashboard, metrics, webhooks,
-- configuration and the command.
pub mod Prelude
pub mod Bytes
pub mod GoMap
pub mod Storage
pub mod Net
pub mod Text
pub mod Dhcpv4
pub mod Lease
pub mod Ipam
pub mod Ha
pub mod Auth
