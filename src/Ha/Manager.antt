-- ===== src/Ha/Manager.antt =====
-- The failover manager of internal/ha/failover.go: its state, its configuration, and what it answers
-- the servers. What is not in Go's language (`strings.ToLower`, `strings.EqualFold`,
-- `net.SplitHostPort`, JSON) is an argument. `published` is what the event broker was given.
use monsoon.Prelude.{
  ℕ, Bool, true, false, not, ◌&&◌, ◌||◌, Option, none, some, List, [], ◌∷◌, ◌++◌, ◌==◌,
  if◌then◌else◌, length, ltb, ℤ, pos, ltbℤ, is_not_positive, scale, wrap64,
}
use monsoon.Bytes.{Bytes}
use monsoon.Text.{trim_space}
use monsoon.Lease.{is_zero}
use monsoon.Ha
use monsoon.Ha.{Role, primary, secondary, unknown}
use monsoon.Ha.Scope.{split_scope}
use monsoon.Ha.Witness.{WitnessCodec}

pub data PeerState : Type 0 where
  peer_unknown connected disconnected : PeerState

-- the reason for which a node is fenced, "" being `no_reason`
pub data FencingReason : Type 0 where
  no_reason witness_write_failed witness_unavailable witness_owned_by_peer : FencingReason
  witness_claim_failed : FencingReason

-- the events of `publishHAEvent`, with what they say
pub data HaEvent : Type 0 where
  failover_requested : Bytes → Bytes → ℤ → HaEvent
  role_changed : Role → PeerState → Bytes → HaEvent
  watchdog_promoted : PeerState → HaEvent
  fenced_by : FencingReason → HaEvent

pub record Environment : Type 0 where
  pub to_lower : Bytes → Bytes
  pub equal_fold : Bytes → Bytes → Bool
  pub split_host_port : Bytes → Option (Bytes × Bytes)
  pub witness : WitnessCodec

-- `Config`
pub record Config : Type 0 where
  pub node : Bytes
  pub mode : Bytes
  pub priority : ℤ
  pub peer_address : Bytes
  pub heartbeat_interval : ℤ
  pub failover_timeout : ℤ
  pub lease_sync : Bool
  pub shared_secret : Bytes
  pub witness_path : Bytes
  pub witness_hold : ℤ

pub record Manager : Type 0 where
  pub node : Bytes
  pub mode : Bytes
  pub priority : ℤ
  pub peer_addr : Bytes
  pub listen_addr : Bytes
  pub interval : ℤ
  pub timeout : ℤ
  pub lease_sync : Bool
  pub secret : Bytes
  pub witness_path : Bytes
  pub witness_hold : ℤ
  pub role : Role
  pub peer : PeerState
  pub peer_node : Bytes
  pub last_heartbeat_at : ℤ
  pub heartbeat_latency : ℤ
  pub sync_lag : ℤ
  pub failover_count : ℤ
  pub snapshot_done : Bool
  pub sync_sequence : ℤ
  pub applied_sequence : ℤ
  pub fenced : Bool
  pub fencing_reason : FencingReason
  pub witness_owner : Bytes
  pub manual_step_down_until : ℤ
  pub published : List HaEvent

-- `Status`
pub record Status : Type 0 where
  pub node : Bytes
  pub mode : Bytes
  pub priority : ℤ
  pub role : Role
  pub peer : PeerState
  pub peer_node : Bytes
  pub last_heartbeat_at : ℤ
  pub heartbeat_latency : ℤ
  pub sync_lag : ℤ
  pub failover_count : ℤ
  pub listen_addr : Bytes
  pub peer_addr : Bytes
  pub fenced : Bool
  pub fencing_reason : FencingReason
  pub witness_path : Bytes
  pub witness_owner : Bytes
  pub manual_step_down_until : ℤ

-- `time.Second` and `time.Hour`
abbrev pub second : ℤ
second = pos 1000000000

abbrev pub hour : ℤ
hour = pos 3600000000000

-- `maxDuration`
abbrev pub max_duration : ℤ → ℤ → ℤ
max_duration a b = if ltbℤ a b then b else a

-- "monsoon", the name of a node that was given none
abbrev pub default_node : Bytes
default_node = b'm' ∷ b'o' ∷ b'n' ∷ b's' ∷ b'o' ∷ b'o' ∷ b'n' ∷ []

-- "active-passive"
abbrev pub active_passive : Bytes
active_passive =
    b'a' ∷ b'c' ∷ b't' ∷ b'i' ∷ b'v' ∷ b'e' ∷ b'-' ∷ b'p' ∷ b'a' ∷ b's' ∷ b's' ∷ b'i' ∷ b'v' ∷ b'e'
    ∷ []

-- ":8068"
abbrev pub default_listen : Bytes
default_listen = b':' ∷ b'8' ∷ b'0' ∷ b'6' ∷ b'8' ∷ []

-- `Status()`
unfoldable pub status_of : Manager → Status
status_of m = record {
  node = m.node;
  mode = m.mode;
  priority = m.priority;
  role = m.role;
  peer = m.peer;
  peer_node = m.peer_node;
  last_heartbeat_at = m.last_heartbeat_at;
  heartbeat_latency = m.heartbeat_latency;
  sync_lag = m.sync_lag;
  failover_count = m.failover_count;
  listen_addr = m.listen_addr;
  peer_addr = m.peer_addr;
  fenced = m.fenced;
  fencing_reason = m.fencing_reason;
  witness_path = m.witness_path;
  witness_owner = m.witness_owner;
  manual_step_down_until = m.manual_step_down_until;
}

abbrev pub is_connected : PeerState → Bool
is_connected connected = true
is_connected peer_unknown = false
is_connected disconnected = false

abbrev pub is_primary : Role → Bool
is_primary primary = true
is_primary secondary = false
is_primary unknown = false

abbrev pub is_secondary : Role → Bool
is_secondary secondary = true
is_secondary primary = false
is_secondary unknown = false

-- `isManualStepDownActive`
abbrev pub is_manual_step_down_active : ℤ → Manager → Bool
is_manual_step_down_active now m =
    not (is_zero m.manual_step_down_until) && ltbℤ now m.manual_step_down_until

-- `publishHAEvent`
abbrev pub publish : HaEvent → Manager → Manager
publish evt m = record m { published = m.published ++ evt ∷ [] }

module _ (env : Environment) where
  -- the text that `normalizeMode` returns
  unfoldable pub normalize_mode : Bytes → Bytes
  unfolding Ha.is_load_sharing
  normalize_mode mode =
      if Ha.is_load_sharing env.to_lower mode then Ha.load_sharing else active_passive

  abbrev listen_on : Option (Bytes × Bytes) → Bytes
  listen_on none = default_listen
  listen_on (some (host, port)) =
      if length (trim_space port) == 0 then default_listen else b':' ∷ port

  -- `deriveListenAddr`
  unfoldable pub derive_listen_addr : Bytes → Bytes
  unfolding trim_space
  derive_listen_addr peer_addr = listen_on (env.split_host_port (trim_space peer_addr))

  -- `NewManager`, given the sequence that the store provides, or 0
  unfoldable pub new_manager : Config → ℤ → Manager
  unfolding normalize_mode derive_listen_addr trim_space scale wrap64
  new_manager cfg sequence =
      let interval =
        if is_not_positive cfg.heartbeat_interval then second else cfg.heartbeat_interval in
      let timeout =
        if is_not_positive cfg.failover_timeout then pos 10000000000 else cfg.failover_timeout in
      let witness_hold =
        if is_not_positive cfg.witness_hold
        then max_duration (wrap64 (scale timeout 2)) (pos 15000000000)
        else cfg.witness_hold in
      let node = trim_space cfg.node in
      record {
        node = if length node == 0 then default_node else node;
        mode = normalize_mode cfg.mode;
        priority = Ha.priority cfg.priority;
        peer_addr = trim_space cfg.peer_address;
        listen_addr = derive_listen_addr cfg.peer_address;
        interval = interval;
        timeout = timeout;
        lease_sync = cfg.lease_sync;
        secret = cfg.shared_secret;
        witness_path = trim_space cfg.witness_path;
        witness_hold = witness_hold;
        role = primary;
        peer = peer_unknown;
        peer_node = [];
        last_heartbeat_at = pos 0;
        heartbeat_latency = pos 0;
        sync_lag = pos 0;
        failover_count = pos 0;
        snapshot_done = false;
        sync_sequence = sequence;
        applied_sequence = pos 0;
        fenced = false;
        fencing_reason = no_reason;
        witness_owner = [];
        manual_step_down_until = pos 0;
        published = [];
      }

  abbrev pub upper_scope : ℕ × ℕ → Option (ℕ × ℕ)
  upper_scope (start, end) = if ltb end start then none else some (start, end)

  abbrev pub share_of : Role → (ℕ × ℕ) × (ℕ × ℕ) → Option (ℕ × ℕ)
  share_of primary (lower, upper) = some lower
  share_of secondary (lower, upper) = upper_scope upper
  share_of unknown (lower, upper) = none

  -- `AllocationScope`, whose first argument the code ignores; `none` is `false`
  unfoldable pub allocation_scope : Manager → Bytes → ℕ → ℕ → Option (ℕ × ℕ)
  unfolding Ha.is_load_sharing split_scope
  allocation_scope m id start end =
      if ltb end start
      then none
      else if m.fenced
      then none
      else if Ha.is_load_sharing env.to_lower m.mode
      then (if is_connected m.peer
          then share_of m.role (split_scope start end)
          else some (start, end))
      else if is_primary m.role
      then some (start, end)
      else none

  -- `shouldRequestSnapshot`
  unfoldable pub should_request_snapshot : Manager → Bool
  unfolding Ha.is_load_sharing
  should_request_snapshot m =
      if not (is_connected m.peer)
      then false
      else if Ha.is_load_sharing env.to_lower m.mode
      then true
      else is_secondary m.role

  -- `shouldReplicateLocalChanges`
  unfoldable pub should_replicate_local_changes : Manager → Bool
  unfolding Ha.is_load_sharing
  should_replicate_local_changes m =
      if not (is_connected m.peer) || m.fenced
      then false
      else if Ha.is_load_sharing env.to_lower m.mode
      then is_primary m.role || is_secondary m.role
      else is_primary m.role
