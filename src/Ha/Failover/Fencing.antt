-- ===== src/Ha/Failover/Fencing.antt =====
-- How long a node of internal/ha/failover.go stays fenced.
use monsoon.Prelude.{
  Bool, true, false, not, ◌&&◌, none, some, ◌≡◌, ◌∙◌, inl, inr, refl, arith, ℕ, zero, suc, ℤ, List,
  [], ◌∷◌, ◌++◌, ◌==◌, length, sym, ◌||◌, Bool-cases,
}
use mathlib.Core.Path.{subst}
use monsoon.Bytes.{Bytes}
use monsoon.Text.{trim_space}
use monsoon.Ha.Witness.{FileFaults, Files}
use monsoon.Ha.Manager
use monsoon.Ha.Manager.{Environment, Manager, is_primary}
use monsoon.Ha.Failover
use monsoon.Ha.Failover.{is_silent}
use monsoon.Ha.Failover.Steps.{
  Event, State, Pending, seen, finished, step, run_pending, end_pending, Reach, Reach-preserves,
  peer_heard, elected, unanswered, watched, triggered, refresh_begins, refresh_runs, refresh_ends,
  synced, files_changed,
}

-- whether an event is a watchdog's tick that finds the peer silent on a node that is not primary
unfoldable pub may_promote : Event → Manager → Bool
unfolding is_silent
may_promote (watched f now) m = is_silent now m && not (is_primary m.role)
may_promote e m = false

-- A refresh under way that has not written the witness, and will not: it found the node fenced or not
-- primary, or its write failed.
IsHarmless : Pending → Type 0
IsHarmless (seen now m) = (not (is_primary m.role) || m.fenced) ≡ true
IsHarmless (finished Failover.nothing_done) = Unit
IsHarmless (finished (Failover.owner_read o)) = Unit
IsHarmless (finished (Failover.claim_written none)) = ⊥
IsHarmless (finished (Failover.claim_written (some x))) = Unit

AreHarmless : List Pending → Type 0
unfolding IsHarmless
AreHarmless [] = Unit
AreHarmless (p ∷ ps) = IsHarmless p × AreHarmless ps

AreHarmless-append :
    (ps : List Pending) (p : Pending) → AreHarmless ps → IsHarmless p → AreHarmless (ps ++ p ∷ [])
unfolding AreHarmless
AreHarmless-append [] p h i = (i, tt)
AreHarmless-append (q ∷ ps) p h i = (h.0, AreHarmless-append ps p h.1 i)

module _ (env : Environment) where
  refresh_witness-IsHarmless :
      (f : FileFaults) (now : ℤ) (m : Manager) (fs : Files)
      → IsHarmless (seen now m)
      → IsHarmless (finished (Failover.refresh_witness env f now m fs).1)
  unfolding IsHarmless Failover.refresh_witness
  refresh_witness-IsHarmless f now m fs h =
      elim (Bool-cases (length (trim_space m.witness_path) == 0)) [
        | inl none_here ↦ rw none_here tt
        | inr path ↦ rw (path, h) tt
      ]

  run_pending-AreHarmless :
      (i : ℕ) (f : FileFaults) (fs : Files) (ps : List Pending)
      → AreHarmless ps
      → AreHarmless (run_pending env i f fs ps).1
  unfolding AreHarmless run_pending
  run_pending-AreHarmless zero f fs [] h = tt
  run_pending-AreHarmless (suc i) f fs [] h = tt
  run_pending-AreHarmless zero f fs (seen now m ∷ ps) h =
      (refresh_witness-IsHarmless f now m fs h.0, h.1)
  run_pending-AreHarmless zero f fs (finished r ∷ ps) h = h
  run_pending-AreHarmless (suc i) f fs (p ∷ ps) h = (h.0, run_pending-AreHarmless i f fs ps h.1)

  -- the node is fenced, and no refresh under way is about to say that it has the witness
  abbrev IsFenced : Manager → List Pending → Type 0
  IsFenced m ps = (m.fenced ≡ true) × AreHarmless ps

  end_pending-IsFenced :
      (i : ℕ) (m : Manager) (ps : List Pending)
      → IsFenced m ps
      → IsFenced (end_pending env i m ps).0 (end_pending env i m ps).1
  unfolding AreHarmless IsHarmless end_pending Failover.refresh_update
  end_pending-IsFenced zero m [] h = h
  end_pending-IsFenced (suc i) m [] h = h
  end_pending-IsFenced zero m (seen now m' ∷ ps) h = h
  end_pending-IsFenced zero m (finished Failover.nothing_done ∷ ps) (h, k) = (h, k.1)
  end_pending-IsFenced zero m (finished (Failover.owner_read (inl none)) ∷ ps) (h, k) = (h, k.1)
  end_pending-IsFenced zero m (finished (Failover.owner_read (inl (some rec))) ∷ ps) (h, k) =
      (h, k.1)
  end_pending-IsFenced zero m (finished (Failover.owner_read (inr x)) ∷ ps) (h, k) = (h, k.1)
  end_pending-IsFenced zero m (finished (Failover.claim_written none) ∷ ps) (h, k) = absurd k.0
  end_pending-IsFenced zero m (finished (Failover.claim_written (some x)) ∷ ps) (h, k) = (refl, k.1)
  end_pending-IsFenced (suc i) m (p ∷ ps) (h, k) =
      let (a, b) = end_pending-IsFenced i m ps (h, k.1) in (a, (k.0, b))

  election-fenced :
      (now : ℤ) (node : Bytes) (priority : ℤ) (draining : Bool) (m : Manager)
      → (Failover.apply_election env now node priority draining m).fenced ≡ m.fenced
  unfolding Failover.apply_election
  election-fenced now node priority draining m = ground (arith)

  watch-fenced :
      (f : FileFaults) (now : ℤ) (m : Manager) (fs : Files)
      → (is_silent now m && not (is_primary m.role)) ≡ false
      → (Failover.watch env f now m fs).1.fenced ≡ m.fenced
  unfolding Failover.watch Failover.mark_peer_disconnected
  watch-fenced f now m fs h = elim (Bool-cases (is_silent now m)) [
    | inr heard ↦ rw heard refl
    | inl silent ↦ elim (Bool-cases (is_primary m.role)) [
      | inl leads ↦ rw (silent, leads) refl
      | inr follows ↦ absurd (ground (arith, h))
    ]
  ]

  step-IsFenced :
      (e : Event) (s : State)
      → not (may_promote e s.manager) ≡ true
      → IsFenced s.manager s.pending
      → IsFenced (step env e s).manager (step env e s).pending
  unfolding step may_promote IsHarmless
  step-IsFenced (peer_heard now node latency) s h i = unfold Failover.record_heartbeat in i
  step-IsFenced (elected now node priority draining) s h (i, k) =
      (election-fenced now node priority draining s.manager ∙ i, k)
  step-IsFenced unanswered s h i = unfold Failover.mark_peer_disconnected in i
  step-IsFenced (watched f now) s h (i, k) =
      (watch-fenced f now s.manager s.files (ground (arith, h)) ∙ i, k)
  step-IsFenced (triggered now reason) s h (i, k) =
      (unfold Failover.trigger_manual_failover Failover.step_down in ground arith, k)
  step-IsFenced (refresh_begins now) s h (i, k) =
      (i, AreHarmless-append s.pending (seen now s.manager) k (ground (arith, i)))
  step-IsFenced (refresh_runs n f) s h (i, k) = (i, run_pending-AreHarmless n f s.files s.pending k)
  step-IsFenced (refresh_ends n) s h i = end_pending-IsFenced n s.manager s.pending i
  step-IsFenced (synced done applied sequence lag) s h i = i
  step-IsFenced (files_changed fs) s h i = i

  fenced-scope :
      (m : Manager) (id : Bytes) (start end : ℕ)
      → m.fenced ≡ true
      → Manager.allocation_scope env m id start end ≡ none
  unfolding Manager.allocation_scope
  fenced-scope m id start end h = ground (arith)

  -- A fenced node with no refresh of the witness under way stays fenced, and `AllocationScope` gives
  -- it no addresses to search for a new lease, through any events, refreshes that overlap included,
  -- until a watchdog's tick finds the peer silent while the node is not primary. In particular a
  -- fenced node that the peer's return makes primary stays fenced for as long as it is primary.
  pub Reach-fenced :
      (s t : State)
      → s.manager.fenced ≡ true
      → s.pending ≡ []
      → Reach env (λ e m. not (may_promote e m)) s t
      → (t.manager.fenced ≡ true)
        × ((id : Bytes) (start end : ℕ)
            → Manager.allocation_scope env t.manager id start end ≡ none)
  unfolding AreHarmless
  Reach-fenced s t h idle r =
      let (kept, _) =
        Reach-preserves env (λ s. IsFenced s.manager s.pending) step-IsFenced
          (h, subst AreHarmless (sym idle) tt) r in
      (kept, λ id start end. fenced-scope t.manager id start end kept)
