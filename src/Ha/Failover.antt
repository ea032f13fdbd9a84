-- ===== src/Ha/Failover.antt =====
-- How a node changes its role, internal/ha/failover.go: manual failover, heartbeats, elections, the
-- watchdog and the witness. Each function is one section that holds the manager's lock, or the use of
-- the witness between two of them, at the time `now` and with the witness file among the files `fs`;
-- the gauges and counters of the metrics are left out.
pub mod Steps
pub mod Fencing
pub mod StepDown
pub mod Promotion
pub mod Takeover
use monsoon.Prelude.{
  Bool, true, false, not, ◌&&◌, ◌||◌, Option, none, some, List, [], ◌∷◌, ◌++◌, ◌⊎◌, inl, inr, ◌==◌,
  if◌then◌else◌, length, ℤ, pos, ltbℤ, ◌+ℤ◌, scale, wrap64, time_sub,
}
use monsoon.Bytes.{Bytes, equal}
use monsoon.Text.{trim_space}
use monsoon.Lease.{is_zero}
use monsoon.Ha
use monsoon.Ha.{Role, primary, secondary, unknown}
use monsoon.Ha.Witness
use monsoon.Ha.Witness.{WitnessRecord, WitnessError, FileFaults, Files, Written}
use monsoon.Ha.Manager
use monsoon.Ha.Manager.{
  Environment, Manager, Status, PeerState, connected, disconnected, FencingReason, no_reason,
  witness_write_failed, witness_unavailable, witness_owned_by_peer, witness_claim_failed, HaEvent,
  failover_requested, role_changed, watchdog_promoted, fenced_by, is_connected, is_primary,
  max_duration, hour, publish, status_of,
}

pub data FailoverError : Type 0 where
  no_peer peer_not_connected not_primary : FailoverError

abbrev pub Triggered : Type 0
Triggered = Manager × (Status ⊎ FailoverError)

-- the part of `TriggerManualFailover` behind its tests; the status leaves out the fence
unfoldable pub step_down : ℤ → Bytes → Manager → Triggered
unfolding status_of trim_space scale wrap64 ◌+ℤ◌
step_down now reason m =
    let until = now +ℤ max_duration (wrap64 (scale m.timeout 2)) hour in
    let m' = record m { manual_step_down_until = until; role = secondary } in
    (
      publish (failover_requested m.peer_node (trim_space reason) until) m',
      inl (record (status_of m') { fenced = false; fencing_reason = no_reason }),
    )

-- `TriggerManualFailover`
unfoldable pub trigger_manual_failover : ℤ → Bytes → Manager → Triggered
unfolding step_down
trigger_manual_failover now reason m =
    if length (trim_space m.peer_addr) == 0
    then (m, inr no_peer)
    else if not (is_connected m.peer)
    then (m, inr peer_not_connected)
    else if not (is_primary m.role)
    then (m, inr not_primary)
    else step_down now reason m

-- `recordHeartbeat`
unfoldable pub record_heartbeat : ℤ → Bytes → ℤ → Manager → Manager
unfolding trim_space
record_heartbeat now node latency m = record m {
  peer = connected;
  peer_node = trim_space node;
  last_heartbeat_at = now;
  heartbeat_latency = if ltbℤ (pos 0) latency then latency else m.heartbeat_latency;
}

-- `markPeerDisconnected`
unfoldable pub mark_peer_disconnected : Manager → Manager
mark_peer_disconnected m = record m {
  peer = disconnected;
  peer_node = [];
  snapshot_done = false;
  applied_sequence = pos 0;
  manual_step_down_until = pos 0;
}

abbrev pub same_role : Role → Role → Bool
same_role primary primary = true
same_role secondary secondary = true
same_role unknown unknown = true
same_role r s = false

-- a manual step-down whose time has come is over
abbrev pub expire_step_down : ℤ → Manager → Manager
expire_step_down now m =
    if not (is_zero m.manual_step_down_until) && not (ltbℤ now m.manual_step_down_until)
    then record m { manual_step_down_until = pos 0 }
    else m

abbrev pub become : Role → Bytes → Manager → Manager
become next peer_node m =
    if same_role m.role next
    then m
    else publish (role_changed next m.peer (trim_space peer_node)) (record m { role = next })

-- whether the peer has been silent for longer than the timeout
unfoldable pub is_silent : ℤ → Manager → Bool
unfolding time_sub
is_silent now m =
    not (is_zero m.last_heartbeat_at) && ltbℤ m.timeout (time_sub now m.last_heartbeat_at)

-- What `refreshWitnessState` has come to when it takes the lock for its last section.
pub data Refresh : Type 0 where
  nothing_done : Refresh
  owner_read : Option WitnessRecord ⊎ WitnessError → Refresh
  claim_written : Option WitnessError → Refresh

module _ (env : Environment) where
  -- `applyElection`
  unfoldable pub apply_election : ℤ → Bytes → ℤ → Bool → Manager → Manager
  unfolding Ha.elect_role trim_space
  apply_election now peer_node peer_priority peer_draining m =
      let m' = expire_step_down now m in
      become
        (Ha.elect_role env.to_lower m'.node peer_node m'.mode true m'.manual_step_down_until now
          peer_draining m'.priority peer_priority)
        peer_node m'

  abbrev pub fence : FencingReason → Bytes → Manager → Manager
  fence reason owner m =
      publish (fenced_by reason)
        (record m { fenced = true; fencing_reason = reason; witness_owner = owner })

  abbrev pub Promotable : Type 0
  Promotable = Files × Manager × Bool

  abbrev pub claimed : Manager → Written → Promotable
  claimed m (fs, none) = (fs, record m { witness_owner = m.node }, true)
  claimed m (fs, some x) = (fs, fence witness_claim_failed [] m, false)

  -- the record that a node claims the witness with
  abbrev pub own_record : ℤ → Manager → WitnessRecord
  own_record now m = record { node = m.node; priority = m.priority; updated_at = now }

  abbrev pub claim : FileFaults → Bytes → ℤ → Manager → Files → Promotable
  claim f path now m fs =
      claimed m (Witness.write_witness_record env.witness f path (own_record now m) fs)

  -- `canPromoteLocked` behind the reading of the witness
  unfoldable pub weigh_owner :
      FileFaults → Bytes → ℤ → Manager → Files → Option WitnessRecord ⊎ WitnessError → Promotable
  unfolding Witness.write_witness_record
  weigh_owner f path now m fs (inr x) = (fs, fence witness_unavailable [] m, false)
  weigh_owner f path now m fs (inl none) = claim f path now m fs
  weigh_owner f path now m fs (inl (some rec)) =
      if not (length rec.node == 0) && not (env.equal_fold rec.node m.node)
      then (fs, fence witness_owned_by_peer rec.node m, false)
      else claim f path now m fs

  -- `canPromoteLocked`
  unfoldable pub can_promote : FileFaults → ℤ → Manager → Files → Promotable
  unfolding weigh_owner trim_space Witness.witness_owner
  can_promote f now m fs =
      let m' = record m { fenced = false; fencing_reason = no_reason } in
      let path = trim_space m.witness_path in
      if length path == 0
      then (fs, record m' { witness_owner = [] }, true)
      else weigh_owner f path now m' fs
          (Witness.witness_owner env.witness f path m.witness_hold now fs)

  abbrev pub promoted : Promotable → Files × Manager
  promoted (fs, m, false) = (fs, m)
  promoted (fs, m, true) = (
    fs,
    publish (watchdog_promoted m.peer)
        (record m { role = primary; failover_count = wrap64 (m.failover_count +ℤ pos 1) }),
  )

  -- `refreshWitnessState` holds the lock while it reads the status, `seen`, and again in its last
  -- section, but not in between, where it reads or writes the witness: what it has then found.
  unfoldable pub refresh_witness : FileFaults → ℤ → Manager → Files → Files × Refresh
  unfolding trim_space Witness.witness_owner Witness.write_witness_record
  refresh_witness f now seen fs =
      let path = trim_space seen.witness_path in
      if length path == 0
      then (fs, nothing_done)
      else if not (is_primary seen.role) || seen.fenced
      then (fs, owner_read (Witness.witness_owner env.witness f path seen.witness_hold now fs))
      else let r = Witness.write_witness_record env.witness f path (own_record now seen) fs in
        (r.0, claim_written r.1)

  -- the last section of `refreshWitnessState`, with the event that it publishes behind it
  unfoldable pub refresh_update : Refresh → Manager → Manager
  refresh_update nothing_done m = m
  refresh_update (owner_read (inl (some rec))) m = record m { witness_owner = rec.node }
  refresh_update (owner_read (inl none)) m = record m { witness_owner = [] }
  refresh_update (owner_read (inr x)) m = m
  refresh_update (claim_written none) m = record m {
    witness_owner = m.node;
    fenced = false;
    fencing_reason = no_reason;
  }
  refresh_update (claim_written (some x)) m =
      fence witness_write_failed [] (record m { role = secondary })

  -- the section of a tick of `watchdogLoop` that holds the lock, the use of the witness included
  unfoldable pub watch : FileFaults → ℤ → Manager → Files → Files × Manager
  unfolding can_promote mark_peer_disconnected is_silent ◌+ℤ◌ wrap64
  watch f now m fs =
      let m' = mark_peer_disconnected m in
      if is_silent now m
      then (if is_primary m.role then (fs, m') else promoted (can_promote f now m' fs))
      else (fs, m)
