-- ===== src/Ha/Failover/StepDown.antt =====
-- A manual failover of internal/ha/failover.go: the node that stepped down stays secondary.
use monsoon.Prelude.{
  Bool, true, false, not, none, some, ◌≡◌, ◌∙◌, ap, sym, inl, inr, refl, arith, ◌==◌, length, ℕ,
  zero, suc, List, [], ◌∷◌, ℤ, pos, negsuc, ltbℤ, Bool-cases, scale, wrap64, ◌+ℤ◌,
}
use mathlib.Core.Path.{subst}
use monsoon.Bytes.{Bytes}
use monsoon.Text.{trim_space}
use monsoon.Lease.{is_zero}
use monsoon.Ha
use monsoon.Ha.{Role, primary, secondary}
use monsoon.Ha.Witness.{FileFaults, Files}
use monsoon.Ha.Manager
use monsoon.Ha.Manager.{Environment, Manager, is_primary, max_duration, hour}
use monsoon.Ha.Failover
use monsoon.Ha.Failover.{is_silent, Refresh}
use monsoon.Ha.Failover.Steps.{
  Event, State, Pending, seen, finished, step, end_pending, Reach, Reach-preserves, peer_heard,
  elected, unanswered, watched, triggered, refresh_begins, refresh_runs, refresh_ends, synced,
  files_changed,
}

-- Whether an event is one of a peer that is there, at a time before the end of the step-down.
unfoldable pub is_before : ℤ → Event → Manager → Bool
unfolding is_silent
is_before until (elected now node priority draining) m = ltbℤ now until
is_before until unanswered m = false
is_before until (watched f now) m = not (is_silent now m)
is_before until e m = true

-- the node is secondary, and has stepped down until then
abbrev pub HasSteppedDown : ℤ → Manager → Type 0
HasSteppedDown until m = (m.role ≡ secondary) × (m.manual_step_down_until ≡ until)

module _ (env : Environment) (until : ℤ) (real : is_zero until ≡ false) where
  -- a refresh of the witness makes no node primary, whatever it saw and when it ends
  refresh_update-HasSteppedDown :
      (r : Refresh) (m : Manager)
      → HasSteppedDown until m
      → HasSteppedDown until (Failover.refresh_update env r m)
  unfolding Failover.refresh_update
  refresh_update-HasSteppedDown Failover.nothing_done m h = h
  refresh_update-HasSteppedDown (Failover.owner_read (inl none)) m h = h
  refresh_update-HasSteppedDown (Failover.owner_read (inl (some rec))) m h = h
  refresh_update-HasSteppedDown (Failover.owner_read (inr x)) m h = h
  refresh_update-HasSteppedDown (Failover.claim_written none) m h = h
  refresh_update-HasSteppedDown (Failover.claim_written (some x)) m h = (refl, h.1)

  end_pending-HasSteppedDown :
      (i : ℕ) (m : Manager) (ps : List Pending)
      → HasSteppedDown until m
      → HasSteppedDown until (end_pending env i m ps).0
  unfolding end_pending
  end_pending-HasSteppedDown zero m [] h = h
  end_pending-HasSteppedDown (suc i) m [] h = h
  end_pending-HasSteppedDown zero m (seen now m' ∷ ps) h = h
  end_pending-HasSteppedDown zero m (finished r ∷ ps) h = refresh_update-HasSteppedDown r m h
  end_pending-HasSteppedDown (suc i) m (p ∷ ps) h = end_pending-HasSteppedDown i m ps h

  expire-before :
      (now : ℤ) (m : Manager)
      → ltbℤ now until ≡ true
      → m.manual_step_down_until ≡ until
      → Failover.expire_step_down now m ≡ m
  expire-before now m before u =
      let b : ltbℤ now m.manual_step_down_until ≡ true = ap (ltbℤ now) u ∙ before in ground arith

  become-secondary :
      (next : Role) (node : Bytes) (m : Manager)
      → next ≡ secondary
      → m.role ≡ secondary
      → Failover.become next node m ≡ m
  become-secondary next node m n r =
      let same : Failover.same_role m.role next ≡ true =
        ap (λ x. Failover.same_role x next) r ∙ ap (Failover.same_role secondary) n in
      rw same refl

  elect-before :
      (now : ℤ) (node : Bytes) (priority : ℤ) (draining : Bool) (m : Manager)
      → ltbℤ now until ≡ true
      → m.manual_step_down_until ≡ until
      → Ha.elect_role env.to_lower m.node node m.mode true m.manual_step_down_until now draining
          m.priority priority
        ≡ secondary
  unfolding Ha.elect_role
  elect-before now node priority draining m before u = simp (u, real, before)

  election-HasSteppedDown :
      (now : ℤ) (node : Bytes) (priority : ℤ) (draining : Bool) (m : Manager)
      → ltbℤ now until ≡ true
      → HasSteppedDown until m
      → HasSteppedDown until (Failover.apply_election env now node priority draining m)
  unfolding Failover.apply_election
  election-HasSteppedDown now node priority draining m before (r, u) =
      let same : Failover.apply_election env now node priority draining m ≡ m =
        ap
          (λ x.
            Failover.become
              (Ha.elect_role env.to_lower x.node node x.mode true x.manual_step_down_until now
                draining x.priority priority)
              node x)
          (expire-before now m before u)
        ∙ become-secondary _ node m (elect-before now node priority draining m before u) r in
      subst (HasSteppedDown until) (sym same) (r, u)

  watch-HasSteppedDown :
      (f : FileFaults) (now : ℤ) (m : Manager) (fs : Files)
      → not (is_silent now m) ≡ true
      → HasSteppedDown until m
      → HasSteppedDown until (Failover.watch env f now m fs).1
  unfolding Failover.watch
  watch-HasSteppedDown f now m fs h i = elim (Bool-cases (is_silent now m)) [
    | inl silent ↦ absurd (ground (arith, h))
    | inr heard ↦ rw heard i
  ]

  -- a node that is not primary refuses
  triggered-HasSteppedDown :
      (now : ℤ) (reason : Bytes) (m : Manager)
      → HasSteppedDown until m
      → HasSteppedDown until (Failover.trigger_manual_failover now reason m).0
  unfolding Failover.trigger_manual_failover
  triggered-HasSteppedDown now reason m (r, u) =
      let refused : is_primary m.role ≡ false = ap is_primary r in
      subst (HasSteppedDown until) (sym (same refused)) (r, u)
    where
      same : is_primary m.role ≡ false → (Failover.trigger_manual_failover now reason m).0 ≡ m
      same refused = ground arith

  step-HasSteppedDown :
      (e : Event) (s : State)
      → is_before until e s.manager ≡ true
      → HasSteppedDown until s.manager
      → HasSteppedDown until (step env e s).manager
  unfolding step is_before
  step-HasSteppedDown (peer_heard now node latency) s h i = unfold Failover.record_heartbeat in i
  step-HasSteppedDown (elected now node priority draining) s h i =
      election-HasSteppedDown now node priority draining s.manager h i
  step-HasSteppedDown unanswered s h i = cc
  step-HasSteppedDown (watched f now) s h i = watch-HasSteppedDown f now s.manager s.files h i
  step-HasSteppedDown (triggered now reason) s h i = triggered-HasSteppedDown now reason s.manager i
  step-HasSteppedDown (refresh_begins now) s h i = i
  step-HasSteppedDown (refresh_runs n f) s h i = i
  step-HasSteppedDown (refresh_ends n) s h i = end_pending-HasSteppedDown n s.manager s.pending i
  step-HasSteppedDown (synced done applied sequence lag) s h i = i
  step-HasSteppedDown (files_changed fs) s h i = i

-- the end of a step-down is not the zero time
step_down-real :
    (n : ℕ) (timeout : ℤ) → is_zero (pos n +ℤ max_duration (wrap64 (scale timeout 2)) hour) ≡ false
unfolding ◌+ℤ◌
step_down-real n timeout = go (wrap64 (scale timeout 2))
  where
    go : (d : ℤ) → is_zero (pos n +ℤ max_duration d hour) ≡ false
    go (pos d) = ground arith
    go (negsuc d) = ground arith

stepped_down :
    (now : ℤ) (reason : Bytes) (m : Manager) (status : Manager.Status)
    → (Failover.trigger_manual_failover now reason m).1 ≡ inl status
    → HasSteppedDown
        (now +ℤ max_duration (wrap64 (scale m.timeout 2)) hour)
        (Failover.trigger_manual_failover now reason m).0
unfolding Failover.trigger_manual_failover Failover.step_down
stepped_down now reason m status h = elim (Bool-cases (length (trim_space m.peer_addr) == 0)) [
  | inl no_peer ↦ absurd (ground arith)
  | inr peer ↦ elim (Bool-cases (Manager.is_connected m.peer)) [
    | inr lost ↦ absurd (ground arith)
    | inl here ↦ elim (Bool-cases (is_primary m.role)) [
      | inr follows ↦ absurd (ground arith)
      | inl leads ↦ rw (peer, here, leads) (refl, refl)
    ]
  ]
]

-- A manual failover that is granted makes the node secondary, and secondary it stays: whatever
-- events a peer that is there leads to before the end of the step-down, an hour or twice the
-- timeout after it, elections, pings, ticks and refreshes of the witness included, however these
-- overlap, the node's role is secondary.
pub trigger_manual_failover-HasSteppedDown :
    (env : Environment) (n : ℕ) (reason : Bytes) (s t : State)
    → (status : Manager.Status)
    → (Failover.trigger_manual_failover (pos n) reason s.manager).1 ≡ inl status
    → Reach env
        (is_before (pos n +ℤ max_duration (wrap64 (scale s.manager.timeout 2)) hour))
        (step env (triggered (pos n) reason) s)
        t
    → (t.manager.role ≡ secondary)
      × (t.manager.manual_step_down_until
          ≡ pos n +ℤ max_duration (wrap64 (scale s.manager.timeout 2)) hour)
unfolding step
trigger_manual_failover-HasSteppedDown env n reason s t status granted r =
    let until = pos n +ℤ max_duration (wrap64 (scale s.manager.timeout 2)) hour in
    Reach-preserves env (λ x. HasSteppedDown until x.manager)
      (step-HasSteppedDown env until (step_down-real n s.manager.timeout))
      (stepped_down (pos n) reason s.manager status granted) r
