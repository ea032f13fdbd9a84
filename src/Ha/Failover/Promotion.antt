-- ===== src/Ha/Failover/Promotion.antt =====
-- When the watchdog of internal/ha/failover.go makes a node primary.
use monsoon.Prelude.{
  true, false, not, ◌&&◌, ◌||◌, Option, none, some, ◌++◌, ◌≡◌, ◌≢◌, ◌∙◌, ap, sym, ◌⊎◌, inl, inr,
  refl, arith, ◌==◌, if_intro, length, ℤ,
}
use mathlib.Core.Path.{subst}
use monsoon.Bytes.{Bytes}
use monsoon.GoMap.{lookup, bytes_eq}
use monsoon.Text.{trim_space}
use monsoon.Ha.{primary}
use monsoon.Ha.Witness
use monsoon.Ha.Witness.{
  WitnessRecord, WitnessError, FileFaults, Files, Written, backup_suffix, atomic_write_file,
}
use monsoon.Ha.Witness.Atomic.{Outcome, replaced, kept, moved_away, atomic_write_file-Outcome}
use monsoon.Ha.Manager
use monsoon.Ha.Manager.{Environment, Manager, is_primary}
use monsoon.Ha.Failover
use monsoon.Ha.Failover.{is_silent, mark_peer_disconnected}

module _ (env : Environment) where
  -- the record that a claim at the time `now` writes
  abbrev claim_of : ℤ → Manager → WitnessRecord
  claim_of now m = record { node = m.node; priority = m.priority; updated_at = now }

  -- The witness is not another node's, by what was read of it.
  abbrev IsOpen : Manager → Option WitnessRecord ⊎ WitnessError → Type 0
  IsOpen m o =
      (o ≡ inl none)
      ⊎ ((rec : WitnessRecord) × (o ≡ inl (some rec))
          × ((length rec.node == 0 || env.equal_fold rec.node m.node) ≡ true))

  -- the witness file holds the claim
  abbrev Holds : Bytes → ℤ → Manager → Files → Type 0
  Holds path now m fs =
      (raw : Bytes) × (env.witness.marshal (claim_of now m) ≡ some raw)
      × (lookup path fs ≡ some raw)

  module _ (f : FileFaults) (path : Bytes) (named : (length path == 0) ≡ false)
      (trimmed : trim_space path ≡ path) (fs : Files) (tp : f.tmp_path ≢ path)
      (tb : f.tmp_path ≢ path ++ backup_suffix) (new : lookup f.tmp_path fs ≡ none) where
    store_record-Holds :
        (now : ℤ) (m : Manager) (o : Option Bytes)
        → env.witness.marshal (claim_of now m) ≡ o
        → (Witness.store_record env.witness f path fs o).1 ≡ none
        → Holds path now m (Witness.store_record env.witness f path fs o).0
    store_record-Holds now m none e h = cc
    store_record-Holds now m (some raw) e h =
        (raw, e, of_outcome (atomic_write_file-Outcome f path raw fs tp tb new).0)
      where
        of_outcome :
            Outcome f.tmp_path path raw fs (atomic_write_file f path raw fs)
            → lookup path (atomic_write_file f path raw fs).0 ≡ some raw
        of_outcome (replaced none_here at_path) = at_path
        of_outcome (kept some_here at_path) = absurd cc
        of_outcome (moved_away some_here gone moved) = absurd cc

    written-Holds :
        (now : ℤ) (m : Manager)
        → (Witness.write_witness_record env.witness f path (claim_of now m) fs).1 ≡ none
        → Holds path now m (Witness.write_witness_record env.witness f path (claim_of now m) fs).0
    unfolding Witness.write_witness_record
    written-Holds now m =
        rw (trimmed, named)
          (if_intro {A = Written} (λ r. r.1 ≡ none → Holds path now m r.0) f.mkdir_fails
            (λ failed h. absurd cc)
            (λ fine. store_record-Holds now m (env.witness.marshal (claim_of now m)) refl))

    claimed-none :
        (m : Manager) (r : Written)
        → (Failover.claimed env m r).«2» ≡ true
        → (r.1 ≡ none) × ((Failover.claimed env m r).0 ≡ r.0)
    claimed-none m (fs', none) h = (refl, refl)
    claimed-none m (fs', some x) h = absurd cc

    claim-Holds :
        (now : ℤ) (m : Manager)
        → (Failover.claim env f path now m fs).«2» ≡ true
        → Holds path now m (Failover.claim env f path now m fs).0
    claim-Holds now m h =
        let r = Witness.write_witness_record env.witness f path (claim_of now m) fs in
        let (done, same) = claimed-none m r h in
        subst (Holds path now m) (sym same) (written-Holds now m done)

    weigh_owner-Holds :
        (now : ℤ) (m : Manager) (o : Option WitnessRecord ⊎ WitnessError)
        → (Failover.weigh_owner env f path now m fs o).«2» ≡ true
        → IsOpen m o × Holds path now m (Failover.weigh_owner env f path now m fs o).0
    unfolding Failover.weigh_owner
    weigh_owner-Holds now m (inr x) h = absurd cc
    weigh_owner-Holds now m (inl none) h = (inl refl, claim-Holds now m h)
    weigh_owner-Holds now m (inl (some rec)) h =
        (if_intro {A = Failover.Promotable env}
            (λ r. r.«2» ≡ true → IsOpen m (inl (some rec)) × Holds path now m r.0)
            (not (length rec.node == 0) && not (env.equal_fold rec.node m.node))
            (λ other h. absurd cc)
            (λ free h. (inr (rec, refl, ground (arith, free)), claim-Holds now m h)))
          h

  -- the path of a manager's witness
  abbrev path_of : Manager → Bytes
  path_of m = trim_space m.witness_path

  -- the claim that a promotion at the time `now` rests on
  abbrev pub Claims : FileFaults → ℤ → Manager → Files → Files → Type 0
  Claims f now m fs fs' =
      IsOpen m (Witness.witness_owner env.witness f (path_of m) m.witness_hold now fs)
      × Holds (path_of m) now m fs'

  module _ (f : FileFaults) (m : Manager) (named : (length (path_of m) == 0) ≡ false)
      (trimmed : trim_space m.witness_path ≡ m.witness_path) (fs : Files)
      (tp : f.tmp_path ≢ path_of m) (tb : f.tmp_path ≢ path_of m ++ backup_suffix)
      (new : lookup f.tmp_path fs ≡ none) (now : ℤ) where
    can_promote-Claims :
        (Failover.can_promote env f now (mark_peer_disconnected m) fs).«2» ≡ true
        → Claims f now m fs (Failover.can_promote env f now (mark_peer_disconnected m) fs).0
    unfolding Failover.can_promote mark_peer_disconnected
    can_promote-Claims =
        if_intro {A = Failover.Promotable env} (λ r. r.«2» ≡ true → Claims f now m fs r.0)
          (length (path_of m) == 0) (λ empty h. absurd (cc (empty, named)))
          (λ path.
            weigh_owner-Holds f (path_of m) named (ap trim_space trimmed) fs tp tb new now
              (record (mark_peer_disconnected m) {
                fenced = false;
                fencing_reason = Manager.no_reason;
              })
              (Witness.witness_owner env.witness f (path_of m) m.witness_hold now fs))

    promoted-true :
        (r : Failover.Promotable env)
        → is_primary r.«1».role ≡ false
        → (Failover.promoted env r).1.role ≡ primary
        → (r.«2» ≡ true) × ((Failover.promoted env r).0 ≡ r.0)
    promoted-true (fs', m', true) b h = (refl, refl)
    promoted-true (fs', m', false) b h = absurd cc

    claimed-role : (m' : Manager) (r : Written) → (Failover.claimed env m' r).«1».role ≡ m'.role
    claimed-role m' (fs', none) = refl
    claimed-role m' (fs', some x) = refl

    weigh_owner-role :
        (path : Bytes) (m' : Manager) (o : Option WitnessRecord ⊎ WitnessError)
        → (Failover.weigh_owner env f path now m' fs o).«1».role ≡ m'.role
    unfolding Failover.weigh_owner
    weigh_owner-role path m' (inr x) = refl
    weigh_owner-role path m' (inl none) = claimed-role m' _
    weigh_owner-role path m' (inl (some rec)) =
        if_intro {A = Failover.Promotable env} (λ r. r.«1».role ≡ m'.role)
          (not (length rec.node == 0) && not (env.equal_fold rec.node m'.node)) (λ other. refl)
          (λ free. claimed-role m' _)

    can_promote-role : (m' : Manager) → (Failover.can_promote env f now m' fs).«1».role ≡ m'.role
    unfolding Failover.can_promote
    can_promote-role m' =
        if_intro {A = Failover.Promotable env} (λ r. r.«1».role ≡ m'.role)
          (length (path_of m') == 0) (λ empty. refl)
          (λ path.
            weigh_owner-role (path_of m')
              (record m' { fenced = false; fencing_reason = Manager.no_reason })
              (Witness.witness_owner env.witness f (path_of m') m'.witness_hold now fs))

    -- A node that the watchdog makes primary, where a witness is configured, found the peer silent for
    -- longer than the timeout, found the witness unclaimed, expired or its own, and has written its
    -- own claim: behind the promotion the witness file holds the encoding of its record at that time.
    -- This holds of a witness path without spaces around it, and of a temporary name that is new.
    pub watch-Claims :
        is_primary m.role ≡ false
        → (Failover.watch env f now m fs).1.role ≡ primary
        → (is_silent now m ≡ true) × Claims f now m fs (Failover.watch env f now m fs).0
    unfolding Failover.watch mark_peer_disconnected
    watch-Claims follows =
        let Goal : Files × Manager → Type 0 =
          λ r. r.1.role ≡ primary → (is_silent now m ≡ true) × Claims f now m fs r.0 in
        if_intro {A = Files × Manager} Goal (is_silent now m)
          (λ silent.
            if_intro {A = Files × Manager} Goal (is_primary m.role)
              (λ leads h. absurd (cc (leads, follows)))
              (λ still h.
                let r = Failover.can_promote env f now (mark_peer_disconnected m) fs in
                let (taken, same) =
                  promoted-true r
                    (ap is_primary (can_promote-role (mark_peer_disconnected m)) ∙ follows) h in
                (silent, subst (Claims f now m fs) (sym same) (can_promote-Claims taken))))
          (λ heard h. absurd (cc (follows, ap is_primary h)))
