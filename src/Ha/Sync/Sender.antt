-- ===== src/Ha/Sync/Sender.antt =====
-- The sending side of the replication, internal/ha/sync.go and `leaseSyncLoop` of
-- internal/ha/failover.go. The peer is what an exchange of messages makes of its state; no answer is an
-- error of the connection.
pub mod Heal
use monsoon.Prelude.{
  ℕ, Bool, true, false, not, ◌&&◌, ◌||◌, Option, none, some, List, [], ◌∷◌, ◌==◌, if◌then◌else◌,
  length, ℤ, time_sub,
}
use monsoon.Bytes.{Bytes, equal}
use monsoon.Text.{trim_space}
use monsoon.Lease.{Lease}
use monsoon.Storage.Record.{op_put, op_del}
use monsoon.Ha.Manager
use monsoon.Ha.Manager.{Environment, Manager}
use monsoon.Ha.Sync
use monsoon.Ha.Sync.{
  SyncMessage, MessageType, Replica, snapshot_request, snapshot_push, lease_upsert, lease_delete,
  snapshot, ack, resync_required, other_type, validate_secret,
}

-- `MutationEvent` of the lease store
pub record MutationEvent : Type 0 where
  pub sequence : ℤ
  pub op : ℕ
  pub ip : Bytes
  pub lease : Option Lease

-- a message of the manager at a time
abbrev pub message : MessageType → ℤ → ℤ → Manager → SyncMessage
message t now seq m = record {
  message_type = t;
  node = m.node;
  secret = m.secret;
  timestamp = now;
  sequence = seq;
  leases = [];
  lease = none;
  delete_ip = [];
}

-- the messages of `pushLeaseUpdateWithSequence`, `pushLeaseDeleteWithSequence` and `pushSnapshot`
abbrev pub lease_update : ℤ → ℤ → Lease → Manager → SyncMessage
lease_update now seq l m = record (message lease_upsert now seq m) { lease = some l }

abbrev pub lease_deletion : ℤ → ℤ → Bytes → Manager → SyncMessage
lease_deletion now seq ip m = record (message lease_delete now seq m) { delete_ip = ip }

abbrev pub snapshot_message : ℤ → List Lease → Manager → SyncMessage
snapshot_message now ls m = record (message snapshot_push now m.sync_sequence m) { leases = ls }

-- the `switch` of `leaseSyncLoop`: what is sent for an event
unfoldable pub update_for : ℤ → MutationEvent → Manager → Option SyncMessage
unfolding trim_space
update_for now evt m =
    if evt.op == op_put
    then elim evt.lease [ none ↦ none | some l ↦ some (lease_update now evt.sequence l m) ]
    else if evt.op == op_del
    then (if length (trim_space evt.ip) == 0
        then none
        else some (lease_deletion now evt.sequence evt.ip m))
    else none

-- a round of `leaseSyncLoop` on a mutation of the store
unfoldable pub sync_local_event :
    Environment → ℤ → MutationEvent → Manager → Manager × Option SyncMessage
unfolding Manager.should_replicate_local_changes Sync.observe_sync_sequence update_for
sync_local_event env now evt m =
    let m' = Sync.observe_sync_sequence evt.sequence m in
    if Manager.should_replicate_local_changes env m then (m', update_for now evt m') else (m, none)

-- whether a message is one that a peer may ask a snapshot for
abbrev pub is_incremental : MessageType → Bool
is_incremental lease_upsert = true
is_incremental lease_delete = true
is_incremental t = false

abbrev pub asks_resync : MessageType → Bool
asks_resync resync_required = true
asks_resync t = false

module _ {S P : Type 0} (st : Replica S) (exchange : SyncMessage → P → P × Option SyncMessage) where
  -- the end of `sendSync` on a snapshot, which no answer makes it send again
  abbrev pub accepted : Manager → P × Option SyncMessage → P × Bool
  accepted m (p, none) = (p, false)
  accepted m (p, some resp) = (p, validate_secret m.secret resp.secret)

  abbrev pub send_snapshot : ℤ → Manager → P → Option (List Lease) → P × Bool
  send_snapshot now m p none = (p, false)
  send_snapshot now m p (some ls) = accepted m (exchange (snapshot_message now ls m) p)

  -- `pushSnapshot`
  unfoldable pub push_snapshot : ℤ → Manager → S → P → P × Bool
  unfolding validate_secret
  push_snapshot now m s p = send_snapshot now m p (st.list_all s)

  abbrev pub answered : ℤ → SyncMessage → Manager → S → P × Option SyncMessage → P × Bool
  answered now msg m s (p, none) = (p, false)
  answered now msg m s (p, some resp) =
      if not (validate_secret m.secret resp.secret)
      then (p, false)
      else if asks_resync resp.message_type && is_incremental msg.message_type
      then push_snapshot now m s p
      else (p, true)

  -- `sendSync`
  unfoldable pub send_sync : ℤ → SyncMessage → Manager → S → P → P × Bool
  unfolding push_snapshot validate_secret
  send_sync now msg m s p = answered now msg m s (exchange msg p)

  abbrev taken : ℤ → SyncMessage → Manager → S × Bool → Manager × S × Bool
  taken now resp m (s, false) = (m, s, false)
  taken now resp m (s, true) = (
    Sync.mark_snapshot_done resp.sequence (Sync.update_sync_lag (time_sub now resp.timestamp) m),
    s,
    true,
  )

  abbrev is_snapshot : MessageType → Bool
  is_snapshot snapshot = true
  is_snapshot t = false

  abbrev received : Environment → ℤ → Manager → S → Option SyncMessage → Manager × S × Bool
  received env now m s none = (m, s, false)
  received env now m s (some resp) =
      if not (validate_secret m.secret resp.secret)
      then (m, s, false)
      else if not (is_snapshot resp.message_type)
      then (m, s, true)
      else taken now resp m (Sync.apply_snapshot st env m.mode resp.leases s)

  -- `requestSnapshot`, with the peer behind it
  unfoldable pub request_snapshot : Environment → ℤ → Manager → S → P → P × (Manager × S × Bool)
  unfolding Sync.apply_snapshot Sync.mark_snapshot_done validate_secret time_sub
  request_snapshot env now m s p =
      let r =
        exchange (record (message snapshot_request now m.sync_sequence m) { sequence = ℤ.pos 0 })
          p in
      (r.0, received env now m s r.1)
