-- ===== src/Ha/Failover/Takeover.antt =====
-- The watchdog of internal/ha/failover.go without a witness: a node takes over from a silent peer.
use monsoon.Prelude.{
  ℕ, suc, ◌+◌, ◌^◌, ◌≤◌, ◌<◌, true, false, some, [], ◌∷◌, ◌++◌, ◌≡◌, ◌∙◌, ap, refl, arith, ◌==◌,
  if_intro, length, ltb, ℤ, pos, time_sub, negate, wrap64, ◌+ℤ◌,
}
use monsoon.Bytes.{Bytes}
use monsoon.GoMap.{bytes_eq}
use monsoon.Text.{trim_space}
use monsoon.Ha
use monsoon.Ha.{Role, primary, secondary, unknown}
use monsoon.Ha.Witness.{FileFaults, Files}
use monsoon.Ha.Manager
use monsoon.Ha.Manager.{Environment, Manager, is_primary}
use monsoon.Ha.Failover
use monsoon.Ha.Failover.{is_silent, mark_peer_disconnected}

-- A peer is found silent once the time since its last heartbeat exceeds the timeout.
is_silent-after :
    (m : Manager) (last timeout now : ℕ)
    → m.last_heartbeat_at ≡ pos (suc last)
    → m.timeout ≡ pos timeout
    → suc last + timeout < now
    → suc timeout < 2 ^ 63
    → is_silent (pos now) m ≡ true
unfolding is_silent time_sub ◌+ℤ◌ negate
is_silent-after m last timeout now l t late small = simp (l, t) (ground arith)

-- the node behind such a promotion
abbrev taken_over : Manager → Manager
taken_over m = record m {
  peer = Manager.disconnected;
  peer_node = [];
  snapshot_done = false;
  applied_sequence = pos 0;
  manual_step_down_until = pos 0;
  fenced = false;
  fencing_reason = Manager.no_reason;
  witness_owner = [];
  role = primary;
  failover_count = wrap64 (m.failover_count +ℤ pos 1);
  published = m.published ++ Manager.watchdog_promoted Manager.disconnected ∷ [];
}

taken_over-scope :
    (env : Environment) (m : Manager) (id : Bytes) (start end : ℕ)
    → start ≤ end
    → Manager.allocation_scope env (taken_over m) id start end ≡ some (start, end)
unfolding Manager.allocation_scope
taken_over-scope env m id start end o =
    if_intro (λ x. x ≡ some (start, end)) (ltb end start) (λ h. absurd (ground arith))
      (λ h.
        if_intro (λ x. x ≡ some (start, end)) (Ha.is_load_sharing env.to_lower m.mode) (λ h. refl)
          (λ h. refl))

watch-no_witness :
    (env : Environment) (f : FileFaults) (now : ℤ) (m : Manager) (fs : Files)
    → (length (trim_space m.witness_path) == 0) ≡ true
    → is_primary m.role ≡ false
    → is_silent now m ≡ true
    → Failover.watch env f now m fs ≡ (fs, taken_over m)
unfolding Failover.watch Failover.can_promote mark_peer_disconnected
watch-no_witness env f now m fs no_path follows silent =
    let Goal : Files × Manager → Type 0 = λ r. r ≡ (fs, taken_over m) in
    if_intro Goal (is_silent now m)
      (λ taken.
        if_intro Goal (is_primary m.role) (λ leads. absurd (cc (leads, follows)))
          (λ still.
            if_intro {A = Failover.Promotable env} (λ r. Goal (Failover.promoted env r))
              (length (trim_space m.witness_path) == 0) (λ h. refl)
              (λ h. absurd (cc (h, no_path)))))
      (λ heard. absurd (cc (heard, silent)))

-- Failover happens: where no witness is configured, a watchdog's tick later than the timeout after
-- the last heartbeat makes a secondary node primary and unfenced, and in either mode
-- `AllocationScope` then gives it the whole range of every pool. The timeout is one that a duration
-- of 64 bits can exceed.
pub watch-takes_over :
    (env : Environment) (f : FileFaults) (m : Manager) (fs : Files) (last timeout now : ℕ)
    → (length (trim_space m.witness_path) == 0) ≡ true
    → m.role ≡ secondary
    → m.last_heartbeat_at ≡ pos (suc last)
    → m.timeout ≡ pos timeout
    → suc last + timeout < now
    → suc timeout < 2 ^ 63
    → (id : Bytes) (start end : ℕ) → start ≤ end
    → ((Failover.watch env f (pos now) m fs).1.role ≡ primary)
      × ((Failover.watch env f (pos now) m fs).1.fenced ≡ false)
      × (Manager.allocation_scope env (Failover.watch env f (pos now) m fs).1 id start end
          ≡ some (start, end))
watch-takes_over env f m fs last timeout now no_path r l t late small id start end o =
    let silent = is_silent-after m last timeout now l t late small in
    let same = watch-no_witness env f (pos now) m fs no_path (ap is_primary r) silent in
    (
      ap (λ s. s.1.role) same,
      ap (λ s. s.1.fenced) same,
      ap (λ s. Manager.allocation_scope env s.1 id start end) same
          ∙ taken_over-scope env m id start end o,
    )
