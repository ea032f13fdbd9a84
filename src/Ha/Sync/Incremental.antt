-- ===== src/Ha/Sync/Incremental.antt =====
-- Incremental replication, `classifyIncrementalSequence` and `handleConn` of internal/ha/failover.go:
-- what a replica's store holds when updates are lost, repeated or out of order.
use monsoon.Prelude.{
  ℕ, ◌≤◌, ◌<◌, Bool, true, Option, none, some, List, [], ◌∷◌, ◌≡◌, ◌≢◌, ◌==◌, if◌then◌else◌, length,
  take, get_elem?, ℤ, pos,
}
use monsoon.Bytes.{Bytes}
use monsoon.Text.{trim_space}
use monsoon.Lease.{Lease}
use monsoon.Ha.Manager.{Manager}
use monsoon.Ha.Sync
use monsoon.Ha.Sync.{
  SyncMessage, MessageType, Replica, Verdict, apply, resync, skip, lease_upsert, resync_required,
  set_applied_sequence, handle_incremental, reset_snapshot,
}

-- A numbered message against a replica that has applied `n` of them.
data Classified (n i : ℕ) (v : Verdict) : Type 0 where
  next : i ≡ n → v ≡ apply → Classified n i v
  old : i < n → v ≡ skip → Classified n i v
  gap : n < i → v ≡ resync → Classified n i v

module _ {S : Type 0} (st : Replica S) where
  -- what an update makes of a store
  effect_of : MessageType → Option Lease → Bytes → S → S
  effect_of lease_upsert none ip s = s
  effect_of lease_upsert (some l) ip s = (st.upsert l s).0
  effect_of t o ip s = if length (trim_space ip) == 0 then s else (st.delete ip s).0

  -- what the update of a message makes of a store
  effect : SyncMessage → S → S
  unfolding effect_of
  effect msg s = effect_of msg.message_type msg.lease msg.delete_ip s

  -- the store after the first updates of a log
  pub replay : List SyncMessage → S → S
  replay [] s = s
  replay (msg ∷ log) s = replay log (effect msg s)

  abbrev ok_of : MessageType → Option Lease → Bytes → S → Bool
  ok_of lease_upsert none ip s = true
  ok_of lease_upsert (some l) ip s = (st.upsert l s).1
  ok_of t o ip s = if length (trim_space ip) == 0 then true else (st.delete ip s).1

  -- The store takes the update of a message without an error.
  abbrev pub IsTaken : SyncMessage → S → Type 0
  IsTaken msg s = ok_of msg.message_type msg.lease msg.delete_ip s ≡ true

  -- Either the update was made and counted, or there was none and nothing was counted.
  data Performed (msg : SyncMessage) (m : Manager) (s s' : S) (r : Sync.Served st) : Type 0 where
    made :
        r.0.applied_sequence ≡ (set_applied_sequence msg.sequence m).applied_sequence
        → r.1 ≡ s'
        → Performed msg m s s' r
    left : r.0.applied_sequence ≡ m.applied_sequence → r.1 ≡ s → Performed msg m s s' r

  module _ (log : List SyncMessage) where
    -- What a replica may come to while a peer's log is sent to it: messages of the log arrive in any
    -- order, any number of times or not at all, none of them is answered by a request for a
    -- snapshot, the store takes each without an error, and the manager's other fields change
    -- meanwhile. A disconnection or a snapshot, which set the applied sequence, is not among them.
    pub data Delivered (m0 : Manager) (s0 : S) : Manager → S → Type 0 where
      start : Delivered m0 s0 m0 s0
      arrives :
          {m : Manager} {s : S}
          → Delivered m0 s0 m s
          → (now : ℤ) (i : ℕ) (msg : SyncMessage) → get_elem? log i ≡ some msg
          → IsTaken msg s
          → (handle_incremental st now msg m s).«2».message_type ≢ resync_required
          → Delivered m0 s0
              (handle_incremental st now msg m s).0
              (handle_incremental st now msg m s).1
      meanwhile :
          {m : Manager} {s : S}
          → Delivered m0 s0 m s
          → (m' : Manager) → m'.applied_sequence ≡ m.applied_sequence
          → Delivered m0 s0 m' s

    -- The replica has made the first updates of the log, in order and each once, and knows how many.
    pub record IsPrefix (s0 : S) (m : Manager) (s : S) : Type 0 where
      pub count : ℕ
      pub counted : m.applied_sequence ≡ pos count
      pub within : count ≤ length log
      pub state : s ≡ replay (take count log) s0
