-- ===== src/Ha/FailoverTests.antt =====
-- The failover theorems at concrete nodes.
use monsoon.Prelude.{
  ℕ, ◌<◌, true, false, none, some, [], ◌∷◌, ◌++◌, ◌≡◌, ◌≢◌, inl, inr, refl, arith, pos, ◌+ℤ◌,
  wrap64, scale, ap, length, get_or, not, ◌==◌,
}
use monsoon.Bytes.{Bytes, equal}
use monsoon.GoMap.{lookup, bytes_eq}
use monsoon.Text.{trim_space}
use monsoon.Ha
use monsoon.Ha.{Role, primary, secondary, elect_role}
use monsoon.Ha.Scope.{split_scope, Splits, split_scope-Splits}
use monsoon.Ha.Witness.{FileFaults, Files, atomic_write_file, backup_suffix}
use monsoon.Ha.Witness.Atomic.{Outcome, IsCleaned, atomic_write_file-Outcome}
use monsoon.Ha.Manager
use monsoon.Ha.Manager.{
  Environment, Manager, connected, disconnected, is_primary, max_duration, hour,
}
use monsoon.Ha.Failover
use monsoon.Ha.Failover.{is_silent}
use monsoon.Ha.Failover.Steps.{
  Event, State, step, Reach, start, later, elected, triggered, refresh_begins, refresh_runs,
  refresh_ends, finished,
}
use monsoon.Ha.Failover.Fencing.{may_promote, Reach-fenced}
use monsoon.Ha.Failover.StepDown.{is_before, trigger_manual_failover-HasSteppedDown}
use monsoon.Ha.Failover.Promotion.{Claims, watch-Claims}
use monsoon.Ha.Failover.Takeover.{watch-takes_over}
use monsoon.Ha.Sharing.{Offers, Offers-apart}
use monsoon.Dhcpv4.Pool
use monsoon.Dhcpv4.Pool.{SubnetPool}
use monsoon.Dhcpv4.Pool.Allocation.{IsPool}

abbrev pub env : Environment
env = record {
  to_lower = λ s. s;
  equal_fold = equal;
  split_host_port = λ s. none;
  witness = record {
    unmarshal = λ raw. some (record { node = raw; priority = pos 1; updated_at = pos 5 });
    marshal = λ r. some r.node;
  };
}

abbrev faultless : FileFaults
faultless = record {
  read_fails = false;
  mkdir_fails = false;
  create_fails = false;
  tmp_path = b't' ∷ [];
  chmod_fails = false;
  write_stops_at = none;
  sync_fails = false;
  close_fails = false;
  rename_fails = false;
  stat_fails = false;
  move_fails = false;
  retry_fails = false;
  restore_fails = false;
  remove_old_fails = false;
  remove_backup_fails = false;
  remove_tmp_fails = false;
}

-- no rename on to the witness file works, nor the removal of the temporary file
abbrev stuck : FileFaults
stuck = record faultless {
  rename_fails = true;
  retry_fails = true;
  restore_fails = true;
  remove_tmp_fails = true;
}

abbrev witness_file : Bytes
witness_file = b'w' ∷ []

abbrev pub node : Manager
node = record {
  node = b'a' ∷ [];
  mode = [];
  priority = pos 10;
  peer_addr = b'p' ∷ [];
  listen_addr = [];
  interval = pos 1;
  timeout = pos 10;
  lease_sync = true;
  secret = [];
  witness_path = [];
  witness_hold = pos 15;
  role = secondary;
  peer = connected;
  peer_node = b'b' ∷ [];
  last_heartbeat_at = pos 100;
  heartbeat_latency = pos 0;
  sync_lag = pos 0;
  failover_count = pos 0;
  snapshot_done = false;
  sync_sequence = pos 0;
  applied_sequence = pos 0;
  fenced = false;
  fencing_reason = Manager.no_reason;
  witness_owner = [];
  manual_step_down_until = pos 0;
  published = [];
}

split_scope-Splits_example : Splits 10 13 (split_scope 10 13)
split_scope-Splits_example = split_scope-Splits 10 13 (omega arith) (omega arith)

other_name : (b't' ∷ []) ≢ witness_file
other_name e = omega (arith, ap (λ s. get_or s 0 0) e)

other_backup : (b't' ∷ []) ≢ witness_file ++ backup_suffix
other_backup e = omega (arith, ap length e)

abbrev files : Files
files = (witness_file, b'b' ∷ []) ∷ []

files-new : lookup (b't' ∷ []) files ≡ none
unfolding lookup equal
files-new = refl

atomic_write_file-Outcome_example :
    Outcome
      (b't' ∷ [])
      witness_file
      (b'a' ∷ [])
      files
      (atomic_write_file stuck witness_file (b'a' ∷ []) files)
    × IsCleaned stuck witness_file
        (b'a' ∷ [])
        files
        (atomic_write_file stuck witness_file (b'a' ∷ []) files)
    × ((k : Bytes)
        → k ≢ b't' ∷ []
        → k ≢ witness_file
        → k ≢ witness_file ++ backup_suffix
        → lookup k (atomic_write_file stuck witness_file (b'a' ∷ []) files).0 ≡ lookup k files)
atomic_write_file-Outcome_example =
    atomic_write_file-Outcome stuck witness_file (b'a' ∷ []) files other_name other_backup files-new

-- a node that the witness fenced, and the answer of a peer with a lower precedence
abbrev fenced_node : Manager
fenced_node = record node { fenced = true; fencing_reason = Manager.witness_owned_by_peer }

abbrev start_from : Manager → State
start_from m = record { files = files; manager = m; pending = [] }

-- the election makes it primary, and a refresh that begins then leaves the fence
abbrev returned : State
returned = step env (elected (pos 120) (b'b' ∷ []) (pos 20) false) (start_from fenced_node)

abbrev refreshed : State
refreshed =
    step env (refresh_ends 0)
      (step env (refresh_runs 0 faultless) (step env (refresh_begins (pos 121)) returned))

return_primary : is_primary refreshed.manager.role ≡ true
unfolding step elect_role
return_primary = refl

returns : Reach env (λ e m. not (may_promote e m)) (start_from fenced_node) refreshed
unfolding may_promote
returns =
    later (later (later (later start _ refl) (refresh_begins (pos 121)) refl) _ refl)
      (refresh_ends 0) refl

Reach-fenced_example :
    (refreshed.manager.fenced ≡ true)
    × ((id : Bytes) (start end : ℕ)
        → Manager.allocation_scope env refreshed.manager id start end ≡ none)
Reach-fenced_example = Reach-fenced env (start_from fenced_node) refreshed refl refl returns

-- A refresh that wrote the witness before the fence removes it.
clears_fence :
    (step env (refresh_ends 0) (record {
      files = files;
      manager = fenced_node;
      pending = finished (Failover.claim_written none) ∷ [];
    })).manager.fenced
    ≡ false
unfolding step
clears_fence = refl

-- a primary that steps down at the time 200, and a pong of its peer behind that
abbrev leader : Manager
leader = record node { role = primary }

abbrev pong : Event
pong = elected (pos 210) (b'b' ∷ []) (pos 20) false

abbrev resigned : State
resigned = step env pong (step env (triggered (pos 200) []) (start_from leader))

granted :
    (Failover.trigger_manual_failover (pos 200) [] leader).1
    ≡ inl (record (Manager.status_of leader) {
      role = secondary;
      manual_step_down_until = pos 200 +ℤ max_duration (wrap64 (scale (pos 10) 2)) hour;
    })
unfolding Failover.trigger_manual_failover Manager.status_of
granted = refl

stepped :
    Reach env
      (is_before (pos 200 +ℤ max_duration (wrap64 (scale (pos 10) 2)) hour))
      (step env (triggered (pos 200) []) (start_from leader))
      resigned
unfolding is_before wrap64 scale ◌+ℤ◌
stepped = later start pong refl

trigger_manual_failover-HasSteppedDown_example :
    (resigned.manager.role ≡ secondary)
    × (resigned.manager.manual_step_down_until
        ≡ pos 200 +ℤ max_duration (wrap64 (scale (pos 10) 2)) hour)
trigger_manual_failover-HasSteppedDown_example =
    trigger_manual_failover-HasSteppedDown env 200 [] (start_from leader) resigned _ granted stepped

-- a node with a witness, whose peer is silent
abbrev watcher : Manager
watcher = record node { witness_path = witness_file }

watcher-named : (length (trim_space watcher.witness_path) == 0) ≡ false
unfolding trim_space
watcher-named = refl

watcher-trimmed : trim_space watcher.witness_path ≡ watcher.witness_path
unfolding trim_space
watcher-trimmed = refl

watcher-tmp : (b't' ∷ []) ≢ trim_space watcher.witness_path
unfolding trim_space
watcher-tmp = other_name

watcher-backup : (b't' ∷ []) ≢ trim_space watcher.witness_path ++ backup_suffix
unfolding trim_space
watcher-backup = other_backup

watcher-promoted : (Failover.watch env faultless (pos 130) watcher files).1.role ≡ primary
unfolding Failover.watch equal
watcher-promoted = refl

watch-Claims_example :
    (is_silent (pos 130) watcher ≡ true)
    × Claims env faultless
        (pos 130)
        watcher
        files
        (Failover.watch env faultless (pos 130) watcher files).0
watch-Claims_example =
    watch-Claims env faultless watcher watcher-named watcher-trimmed files watcher-tmp
      watcher-backup files-new (pos 130) refl watcher-promoted

no_witness : (length (trim_space node.witness_path) == 0) ≡ true
unfolding trim_space
no_witness = refl

-- nanoseconds since the year 1, as of 2026
abbrev today : ℕ
today = 63900000000000000000

abbrev lonely : Manager
lonely = record node { last_heartbeat_at = pos today }

watch-takes_over_example :
    ((Failover.watch env faultless (pos 63900000000000000011) lonely []).1.role ≡ primary)
    × ((Failover.watch env faultless (pos 63900000000000000011) lonely []).1.fenced ≡ false)
    × (Manager.allocation_scope env
          (Failover.watch env faultless (pos 63900000000000000011) lonely []).1
          []
          10
          13
        ≡ some (10, 13))
watch-takes_over_example =
    watch-takes_over env faultless lonely [] 63899999999999999999 10 63900000000000000011 no_witness
      refl refl refl (omega arith) (omega arith) [] 10 13 (omega arith)

-- the pool 10.0.0.10 to 10.0.0.13 of both nodes
abbrev pool : SubnetPool
pool = record {
  id = b'a' ∷ [];
  prefix = record { address = 167772160; bits = 24 };
  start = 167772170;
  end = 167772173;
  bitmap = false ∷ false ∷ false ∷ false ∷ [];
  gateway = [];
  dns = [];
  lease_dur = pos 3600000000000;
}

pool-IsPool : IsPool pool
pool-IsPool = (omega arith, omega arith, omega arith)

abbrev sharing : Role → Manager
sharing role = record node { mode = Ha.load_sharing; role = role }

offered_low : Offers (Manager.allocation_scope env (sharing primary)) pool 167772170
unfolding Pool.next_free Manager.allocation_scope
offered_low = inl refl

offered_high : Offers (Manager.allocation_scope env (sharing secondary)) pool 167772173
unfolding Pool.is_free_in Manager.allocation_scope
offered_high = inr refl

shares : Ha.is_load_sharing env.to_lower Ha.load_sharing ≡ true
unfolding Ha.is_load_sharing
shares = refl

Offers-apart_example : 167772170 < 167772173
Offers-apart_example =
    Offers-apart env (sharing primary) (sharing secondary) pool pool pool-IsPool pool-IsPool refl
      refl shares shares refl refl refl refl 167772170 167772173 offered_low offered_high
