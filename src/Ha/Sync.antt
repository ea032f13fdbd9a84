-- ===== src/Ha/Sync.antt =====
-- The replication of leases between the nodes of a pair: internal/ha/sync.go, the sequence numbers of
-- internal/ha/failover.go, and the requests that a node serves. Messages are what JSON decodes, and
-- the connections are left out; the lease store is an argument with its own state.
pub mod Incremental
pub mod Wanted
pub mod Mirror
pub mod EngineReplica
pub mod Sender
use monsoon.Prelude.{
  ℕ, Bool, true, false, not, ◌&&◌, ◌||◌, Option, none, some, List, [], ◌∷◌, ◌==◌, if◌then◌else◌,
  length, is_some, ℤ, pos, ltbℤ, eqℤ, is_not_positive, ◌+ℤ◌, wrap64, time_sub,
}
use monsoon.Bytes.{Bytes, equal}
use monsoon.GoMap.{Map, lookup, insert, bytes_eq}
use monsoon.Text.{trim_space}
use monsoon.Lease.{Lease}
use monsoon.Ha
use monsoon.Ha.{Role}
use monsoon.Ha.Manager
use monsoon.Ha.Manager.{Environment, Manager, is_manual_step_down_active}
use monsoon.Ha.Failover

pub data MessageType : Type 0 where
  snapshot_request snapshot_push lease_upsert lease_delete : MessageType
  snapshot ack resync_required other_type : MessageType

-- `syncMessage`
pub record SyncMessage : Type 0 where
  pub message_type : MessageType
  pub node : Bytes
  pub secret : Bytes
  pub timestamp : ℤ
  pub sequence : ℤ
  pub leases : List Lease
  pub lease : Option Lease
  pub delete_ip : Bytes

-- `heartbeatMessage`, of the type "ping" or "pong"
pub record HeartbeatMessage : Type 0 where
  pub node : Bytes
  pub role : Role
  pub mode : Bytes
  pub priority : ℤ
  pub draining : Bool
  pub timestamp : ℤ
  pub secret : Bytes

-- What replication calls of the store: `ListAll`, and `UpsertSilent` and `DeleteSilent` or what
-- stands for them. `false` and `none` are errors.
pub record Replica (S : Type 0) : Type 0 where
  pub list_all : S → Option (List Lease)
  pub upsert : Lease → S → S × Bool
  pub delete : Bytes → S → S × Bool

-- `validateSecret`
unfoldable pub validate_secret : Bytes → Bytes → Bool
unfolding trim_space equal
validate_secret expected actual =
    if length (trim_space expected) == 0 then true else equal actual expected

-- `markSnapshotDone`
unfoldable pub mark_snapshot_done : ℤ → Manager → Manager
mark_snapshot_done seq m = record m {
  snapshot_done = true;
  applied_sequence = if ltbℤ m.applied_sequence seq then seq else m.applied_sequence;
}

-- `nextSyncSequence`
unfoldable pub next_sync_sequence : Manager → Manager × ℤ
unfolding wrap64 ◌+ℤ◌
next_sync_sequence m =
    let seq = wrap64 (m.sync_sequence +ℤ pos 1) in (record m { sync_sequence = seq }, seq)

-- `setAppliedSequence`
unfoldable pub set_applied_sequence : ℤ → Manager → Manager
set_applied_sequence seq m =
    if is_not_positive seq
    then m
    else if ltbℤ m.applied_sequence seq
    then record m { applied_sequence = seq }
    else m

-- `observeSyncSequence`
unfoldable pub observe_sync_sequence : ℤ → Manager → Manager
observe_sync_sequence seq m =
    if is_not_positive seq
    then m
    else if ltbℤ m.sync_sequence seq
    then record m { sync_sequence = seq }
    else m

-- `updateSyncLag`
abbrev pub update_sync_lag : ℤ → Manager → Manager
update_sync_lag lag m = record m { sync_lag = lag }

-- the two flags of `classifyIncrementalSequence`, both set in no case
pub data Verdict : Type 0 where
  apply resync skip : Verdict

abbrev pub reset_snapshot : Manager → Manager
reset_snapshot m = record m { snapshot_done = false; applied_sequence = pos 0 }

-- the tests of `classifyIncrementalSequence`, on the sequence that was applied and that of a message
unfoldable pub verdict_of : ℤ → ℤ → Verdict
unfolding wrap64 ◌+ℤ◌
verdict_of applied seq =
    if is_not_positive seq
    then apply
    else if eqℤ applied (pos 0) && eqℤ seq (pos 1)
    then apply
    else if eqℤ applied (pos 0) && ltbℤ (pos 1) seq
    then resync
    else if not (ltbℤ applied seq)
    then skip
    else if eqℤ seq (wrap64 (applied +ℤ pos 1))
    then apply
    else resync

-- a gap makes the replica forget the snapshot and how far it was
abbrev pub judged : Manager → Verdict → Manager × Verdict
judged m resync = (reset_snapshot m, resync)
judged m apply = (m, apply)
judged m skip = (m, skip)

-- `classifyIncrementalSequence`
unfoldable pub classify_incremental_sequence : ℤ → Manager → Manager × Verdict
unfolding verdict_of
classify_incremental_sequence seq m = judged m (verdict_of m.applied_sequence seq)

-- the leases of a snapshot by their trimmed addresses, a later one in the place of an earlier one
unfoldable pub desired_leases : List Lease → Map Bytes Lease → Map Bytes Lease
unfolding trim_space insert
desired_leases [] m = m
desired_leases (l ∷ ls) m =
    let ip = trim_space l.ip in
    desired_leases ls (if length ip == 0 then m else insert ip (record l { ip = ip }) m)

module _ {S : Type 0} (st : Replica S) where
  abbrev pub and_then : (S → S × Bool) → S × Bool → S × Bool
  and_then rest (s, true) = rest s
  and_then rest (s, false) = (s, false)

  -- the loop of `applySnapshot` over the leases that are wanted
  unfoldable pub upsert_all : Map Bytes Lease → S → S × Bool
  upsert_all [] s = (s, true)
  upsert_all ((ip, l) ∷ m) s = and_then (upsert_all m) (st.upsert l s)

  -- its loop over the leases that are there
  unfoldable pub delete_others : Map Bytes Lease → List Lease → S → S × Bool
  unfolding trim_space lookup
  delete_others wanted [] s = (s, true)
  delete_others wanted (l ∷ ls) s =
      let rest = delete_others wanted ls s in
      if is_some (lookup (trim_space l.ip) wanted)
      then rest
      else and_then (delete_others wanted ls) (st.delete l.ip s)

  abbrev pub prune : Map Bytes Lease → S → Option (List Lease) → S × Bool
  prune wanted s none = (s, false)
  prune wanted s (some existing) = delete_others wanted existing s

  -- `applySnapshot`, for a manager with a store
  unfoldable pub apply_snapshot : Environment → Bytes → List Lease → S → S × Bool
  unfolding desired_leases upsert_all delete_others Ha.is_load_sharing
  apply_snapshot env mode ls s =
      let wanted = desired_leases ls [] in
      and_then
        (λ s'.
          if Ha.is_load_sharing env.to_lower mode
          then (s', true)
          else prune wanted s' (st.list_all s'))
        (upsert_all wanted s)

  abbrev pub Served : Type 0
  Served = Manager × S × SyncMessage

  -- an answer of a type, with the sequence of the message
  abbrev pub answer : MessageType → ℤ → ℤ → Manager → SyncMessage
  answer t now seq m = record {
    message_type = t;
    node = [];
    secret = m.secret;
    timestamp = now;
    sequence = seq;
    leases = [];
    lease = none;
    delete_ip = [];
  }

  -- the store's answer to an incremental message: the sequence and the lag move where it worked
  abbrev pub advance : ℤ → SyncMessage → Manager → S × Bool → Served
  advance now msg m (s, false) = (m, s, answer ack now msg.sequence m)
  advance now msg m (s, true) =
      let m' = update_sync_lag (time_sub now msg.timestamp) (set_applied_sequence msg.sequence m) in
      (m', s, answer ack now msg.sequence m')

  -- the upsert of the case "lease_upsert"
  unfoldable pub perform_upsert : ℤ → SyncMessage → Option Lease → Manager → S → Served
  unfolding set_applied_sequence time_sub
  perform_upsert now msg none m s = (m, s, answer ack now msg.sequence m)
  perform_upsert now msg (some l) m s = advance now msg m (st.upsert l s)

  -- the deletion of the case "lease_delete"
  unfoldable pub perform_delete : ℤ → SyncMessage → Manager → S → Served
  unfolding set_applied_sequence time_sub trim_space
  perform_delete now msg m s =
      if length (trim_space msg.delete_ip) == 0
      then (m, s, answer ack now msg.sequence m)
      else advance now msg m (st.delete msg.delete_ip s)

  unfoldable pub perform : MessageType → ℤ → SyncMessage → Manager → S → Served
  unfolding perform_upsert perform_delete
  perform lease_upsert now msg m s = perform_upsert now msg msg.lease m s
  perform t now msg m s = perform_delete now msg m s

  abbrev pub by_verdict : ℤ → SyncMessage → S → Manager × Verdict → Served
  by_verdict now msg s (m, resync) = (m, s, answer resync_required now msg.sequence m)
  by_verdict now msg s (m, skip) = (m, s, answer ack now msg.sequence m)
  by_verdict now msg s (m, apply) = perform msg.message_type now msg m s

  -- the cases "lease_upsert" and "lease_delete" of `handleConn`
  unfoldable pub handle_incremental : ℤ → SyncMessage → Manager → S → Served
  unfolding perform classify_incremental_sequence
  handle_incremental now msg m s =
      by_verdict now msg s (classify_incremental_sequence msg.sequence m)

  abbrev pub pushed : ℤ → SyncMessage → Manager → S × Bool → Served
  pushed now msg m (s, false) = (m, s, answer ack now msg.sequence m)
  pushed now msg m (s, true) =
      let m' = update_sync_lag (time_sub now msg.timestamp) (mark_snapshot_done msg.sequence m) in
      (m', s, answer ack now msg.sequence m')

  -- the case "snapshot_push"
  unfoldable pub handle_snapshot_push : Environment → ℤ → SyncMessage → Manager → S → Served
  unfolding apply_snapshot mark_snapshot_done time_sub
  handle_snapshot_push env now msg m s = pushed now msg m (apply_snapshot env m.mode msg.leases s)

  abbrev listed : Option (List Lease) → List Lease
  listed none = []
  listed (some ls) = ls

  -- the case "snapshot_request", which ignores an error of `ListAll`
  unfoldable pub handle_snapshot_request : ℤ → Manager → S → Served
  handle_snapshot_request now m s = (
    m,
    s,
    record (answer snapshot now m.sync_sequence m) {
      node = m.node;
      leases = listed (st.list_all s);
    },
  )

  -- the message of a connection that `handleConn` reads, with its type, or one of another type
  pub data Incoming : Type 0 where
    ping_message : HeartbeatMessage → Incoming
    sync_message : SyncMessage → Incoming
    unknown_message : Bytes → Incoming

  pub data Reply : Type 0 where
    no_reply : Reply
    pong : HeartbeatMessage → Reply
    sync_reply : SyncMessage → Reply

  abbrev pub secret_of : Incoming → Bytes
  secret_of (ping_message msg) = msg.secret
  secret_of (sync_message msg) = msg.secret
  secret_of (unknown_message secret) = secret

  abbrev pub replied : Served → Manager × S × Reply
  replied (m, s, msg) = (m, s, sync_reply msg)

  unfoldable pub handle_sync : Environment → ℤ → SyncMessage → Manager → S → Manager × S × Reply
  unfolding handle_incremental handle_snapshot_push handle_snapshot_request
  handle_sync env now msg m s = elim msg.message_type [
    | snapshot_request ↦ replied (handle_snapshot_request now m s)
    | snapshot_push ↦ replied (handle_snapshot_push env now msg m s)
    | lease_upsert ↦ replied (handle_incremental now msg m s)
    | lease_delete ↦ replied (handle_incremental now msg m s)
    | _ ↦ (m, s, no_reply)
  ]

  abbrev pong_of : ℤ → Manager → HeartbeatMessage
  pong_of now m = record {
    node = m.node;
    role = m.role;
    mode = m.mode;
    priority = m.priority;
    draining = is_manual_step_down_active now m;
    timestamp = now;
    secret = m.secret;
  }

  abbrev pub dispatch : Environment → ℤ → Incoming → Manager → S → Manager × S × Reply
  dispatch env now (ping_message msg) m s =
      let m' = Failover.record_heartbeat now msg.node (pos 0) m in (m', s, pong (pong_of now m'))
  dispatch env now (sync_message msg) m s = handle_sync env now msg m s
  dispatch env now (unknown_message secret) m s = (m, s, no_reply)

  -- `handleConn`, where a message was read and decoded
  unfoldable pub handle_conn : Environment → ℤ → Incoming → Manager → S → Manager × S × Reply
  unfolding validate_secret handle_sync Failover.record_heartbeat
  handle_conn env now incoming m s =
      if validate_secret m.secret (secret_of incoming)
      then dispatch env now incoming m s
      else (m, s, no_reply)
