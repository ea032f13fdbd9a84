-- ===== src/Ha/Failover/Steps.antt =====
-- What can happen to a node of internal/ha/failover.go: the sections that hold its lock, in any order,
-- and the uses of the witness by `refreshWitnessState` between them, any number of which may be under
-- way at once.
use monsoon.Prelude.{ℕ, zero, suc, Bool, true, List, [], ◌∷◌, ◌++◌, ◌≡◌, ℤ}
use monsoon.Bytes.{Bytes}
use monsoon.Ha.Witness.{FileFaults, Files}
use monsoon.Ha.Manager.{Environment, Manager}
use monsoon.Ha.Failover
use monsoon.Ha.Failover.{Refresh}

-- A run of `refreshWitnessState`: it has seen the status at a time, or it is done with the witness.
pub data Pending : Type 0 where
  seen : ℤ → Manager → Pending
  finished : Refresh → Pending

pub record State : Type 0 where
  pub files : Files
  pub manager : Manager
  pub pending : List Pending

pub data Event : Type 0 where
  -- a ping of the peer, or its answer to one: the time, the peer's name, the latency
  peer_heard : ℤ → Bytes → ℤ → Event
  -- the election behind an answer: the time, the peer's name, priority and draining flag
  elected : ℤ → Bytes → ℤ → Bool → Event
  -- a ping that had no valid answer
  unanswered : Event
  -- a tick of the watchdog, with the faults of its use of the witness
  watched : FileFaults → ℤ → Event
  -- a request for a manual failover
  triggered : ℤ → Bytes → Event
  -- a refresh of the witness begins; the one of a number reads or writes; it ends
  refresh_begins : ℤ → Event
  refresh_runs : ℕ → FileFaults → Event
  refresh_ends : ℕ → Event
  -- replication writes its own fields
  synced : Bool → ℤ → ℤ → ℤ → Event
  -- the peer, or anyone, writes files
  files_changed : Files → Event

module _ (env : Environment) where
  -- the refresh of a number reads or writes the witness, where it has only seen the status
  unfoldable pub run_pending : ℕ → FileFaults → Files → List Pending → Files × List Pending
  unfolding Failover.refresh_witness
  run_pending i f fs [] = (fs, [])
  run_pending zero f fs (seen now m ∷ ps) =
      let r = Failover.refresh_witness env f now m fs in (r.0, finished r.1 ∷ ps)
  run_pending zero f fs (finished r ∷ ps) = (fs, finished r ∷ ps)
  run_pending (suc i) f fs (p ∷ ps) = let r = run_pending i f fs ps in (r.0, p ∷ r.1)

  -- the refresh of a number ends, where it is done with the witness
  unfoldable pub end_pending : ℕ → Manager → List Pending → Manager × List Pending
  unfolding Failover.refresh_update
  end_pending i m [] = (m, [])
  end_pending zero m (seen now m' ∷ ps) = (m, seen now m' ∷ ps)
  end_pending zero m (finished r ∷ ps) = (Failover.refresh_update env r m, ps)
  end_pending (suc i) m (p ∷ ps) = let r = end_pending i m ps in (r.0, p ∷ r.1)

  abbrev with_manager : State → Manager → State
  with_manager s m = record s { manager = m }

  unfoldable pub step : Event → State → State
  unfolding Failover.record_heartbeat Failover.apply_election Failover.mark_peer_disconnected
      Failover.watch Failover.trigger_manual_failover run_pending end_pending
  step (peer_heard now node latency) s =
      with_manager s (Failover.record_heartbeat now node latency s.manager)
  step (elected now node priority draining) s =
      with_manager s (Failover.apply_election env now node priority draining s.manager)
  step unanswered s = with_manager s (Failover.mark_peer_disconnected s.manager)
  step (watched f now) s =
      let r = Failover.watch env f now s.manager s.files in record s { files = r.0; manager = r.1 }
  step (triggered now reason) s =
      with_manager s (Failover.trigger_manual_failover now reason s.manager).0
  step (refresh_begins now) s = record s { pending = s.pending ++ seen now s.manager ∷ [] }
  step (refresh_runs i f) s =
      let r = run_pending i f s.files s.pending in record s { files = r.0; pending = r.1 }
  step (refresh_ends i) s =
      let r = end_pending i s.manager s.pending in record s { manager = r.0; pending = r.1 }
  step (synced done applied sequence lag) s = with_manager s (record s.manager {
    snapshot_done = done;
    applied_sequence = applied;
    sync_sequence = sequence;
    sync_lag = lag;
  })
  step (files_changed fs) s = record s { files = fs }

  -- The states that events which `allowed` lets happen lead to.
  pub data Reach (allowed : Event → Manager → Bool) (s : State) : State → Type 0 where
    start : Reach allowed s s
    later :
        {t : State}
        → Reach allowed s t
        → (e : Event) → allowed e t.manager ≡ true
        → Reach allowed s (step e t)

  pub Reach-preserves :
      {allowed : Event → Manager → Bool} (I : State → Type 0) {s t : State}
      → ((e : Event) (t : State) → allowed e t.manager ≡ true → I t → I (step e t))
      → I s
      → Reach allowed s t
      → I t
  Reach-preserves I p i start = i
  Reach-preserves I p i (later {t} r e h) = p e t h (Reach-preserves I p i r)
