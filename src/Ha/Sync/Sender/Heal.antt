-- ===== src/Ha/Sync/Sender/Heal.antt =====
-- A gap in the updates that internal/ha/sync.go sends: the two nodes of a pair together.
use monsoon.Prelude.{
  Bool, true, false, not, Option, none, some, List, ◌≡◌, ◌∙◌, ap, sym, refl, arith, if◌then◌else◌,
  if_intro, ℤ, pos, ltbℤ,
}
use mathlib.Core.Path.{subst}
use monsoon.Bytes.{Bytes}
use monsoon.GoMap.{bytes_eq}
use monsoon.Text.{trim_space}
use monsoon.Lease.{Lease}
use monsoon.Ha
use monsoon.Ha.Manager.{Environment, Manager}
use monsoon.Ha.Sync
use monsoon.Ha.Sync.{
  SyncMessage, Replica, Verdict, resync, verdict_of, validate_secret, desired_leases,
  apply_snapshot, handle_conn, lease_upsert, resync_required, ack, snapshot_push,
  mark_snapshot_done, reset_snapshot,
}
use monsoon.Ha.Sync.Mirror.{StoreLaws, apply_snapshot-mirrors}
use monsoon.Ha.Sync.Wanted.{last_with, last_completed}
use monsoon.Ha.Sync.Sender
use monsoon.Ha.Sync.Sender.{lease_update, snapshot_message, send_sync, push_snapshot}

module _ {S : Type 0} (st : Replica S) (env : Environment) where
  abbrev message_in : Sync.Reply st → Option SyncMessage
  message_in Sync.no_reply = none
  message_in (Sync.pong msg) = none
  message_in (Sync.sync_reply msg) = some msg

  abbrev as_exchange : Manager × S × Sync.Reply st → (Manager × S) × Option SyncMessage
  as_exchange (m, s, reply) = ((m, s), message_in reply)

  -- a peer that serves each message at the time `now`
  pub serve : ℤ → SyncMessage → Manager × S → (Manager × S) × Option SyncMessage
  unfolding handle_conn
  serve now msg (m, s) = as_exchange (handle_conn st env now (Sync.sync_message msg) m s)

  -- an answered snapshot: the peer's store, sequence and secret behind it
  record Taken (seq : ℤ) (ls : List Lease) (m : Manager) (s : S)
      (r : (Manager × S) × Option SyncMessage) : Type 0 where
    reply : SyncMessage
    answers : r.1 ≡ some reply
    reply_secret : reply.secret ≡ m.secret
    store : r.0.1 ≡ (apply_snapshot st env m.mode ls s).0
    sequence : r.0.0.applied_sequence ≡ (mark_snapshot_done seq m).applied_sequence

  pushed-Taken :
      (now sent : ℤ) (ls : List Lease) (ma m : Manager) (s : S) (x : S × Bool)
      → apply_snapshot st env m.mode ls s ≡ x
      → x.1 ≡ true
      → Taken ma.sync_sequence ls m s
          (as_exchange (Sync.replied st (Sync.pushed st now (snapshot_message sent ls ma) m x)))
  unfolding mark_snapshot_done
  pushed-Taken now sent ls ma m s (s', true) e h = record {
    reply = _;
    answers = refl;
    reply_secret = refl;
    store = sym (ap (λ r. r.0) e);
    sequence = refl;
  }
  pushed-Taken now sent ls ma m s (s', false) e h = absurd cc

  serve-Taken :
      (now sent : ℤ) (ls : List Lease) (ma m : Manager) (s : S)
      → validate_secret m.secret ma.secret ≡ true
      → (apply_snapshot st env m.mode ls s).1 ≡ true
      → Taken ma.sync_sequence ls m s (serve now (snapshot_message sent ls ma) (m, s))
  unfolding serve handle_conn Sync.handle_sync Sync.handle_snapshot_push
  serve-Taken now sent ls ma m s trusted done =
      if_intro (λ r. Taken ma.sync_sequence ls m s (as_exchange r))
        (validate_secret m.secret ma.secret)
        (λ ok. pushed-Taken now sent ls ma m s (apply_snapshot st env m.mode ls s) refl done)
        (λ bad. absurd (cc (bad, trusted)))

  serve-gap :
      (now sent seq : ℤ) (l : Lease) (ma m : Manager) (s : S)
      → validate_secret m.secret ma.secret ≡ true
      → verdict_of m.applied_sequence seq ≡ resync
      → serve now (lease_update sent seq l ma) (m, s)
        ≡ ((reset_snapshot m, s), some (Sync.answer st resync_required now seq m))
  unfolding serve handle_conn Sync.handle_sync Sync.handle_incremental
      Sync.classify_incremental_sequence
  serve-gap now sent seq l ma m s trusted gap =
      if_intro
        (λ r.
          as_exchange r ≡ ((reset_snapshot m, s), some (Sync.answer st resync_required now seq m)))
        (validate_secret m.secret ma.secret)
        (λ ok.
          ap
            (λ v. as_exchange (
              Sync.replied st
                (Sync.by_verdict st now (lease_update sent seq l ma) s (Sync.judged m v))))
            gap)
        (λ bad. absurd (cc (bad, trusted)))

  accepted-Taken :
      (now : ℤ) {seq : ℤ} {ls : List Lease} (ma m : Manager) (s : S)
      (r : (Manager × S) × Option SyncMessage)
      → validate_secret ma.secret m.secret ≡ true
      → Taken seq ls m s r
      → Sender.accepted st (serve now) ma r ≡ (r.0, true)
  accepted-Taken now ma m s (p, none) trusted t = let e = t.answers in cc
  accepted-Taken now ma m s (p, some resp) trusted t =
      let same : resp ≡ t.reply = cc (t.answers) in
      ap (λ b. (p, b))
        (ap (λ x. validate_secret ma.secret x.secret) same
          ∙ ap (validate_secret ma.secret) t.reply_secret
          ∙ trusted)

  -- the course of `sendSync` where the peer finds a gap
  send_sync-gap :
      (now now' seq : ℤ) (l : Lease) (ls : List Lease) (ma m : Manager) (sa s : S)
      → validate_secret m.secret ma.secret ≡ true
      → validate_secret ma.secret m.secret ≡ true
      → verdict_of m.applied_sequence seq ≡ resync
      → st.list_all sa ≡ some ls
      → (apply_snapshot st env m.mode ls s).1 ≡ true
      → send_sync st (serve now') now (lease_update now seq l ma) ma sa (m, s)
        ≡ ((serve now' (snapshot_message now ls ma) (reset_snapshot m, s)).0, true)
  unfolding send_sync push_snapshot
  send_sync-gap now now' seq l ls ma m sa s trusts trusted gap has done =
      let p : Manager × S = (reset_snapshot m, s) in
      let r = serve now' (snapshot_message now ls ma) p in
      ap (Sender.answered st (serve now') now (lease_update now seq l ma) ma sa)
        (serve-gap now' now seq l ma m s trusts gap)
      ∙ if_intro (λ x. x ≡ (r.0, true)) (not (validate_secret ma.secret m.secret))
          (λ bad. absurd (ground (arith, bad, trusted)))
          (λ ok.
            ap (Sender.send_snapshot st (serve now') now ma p) has
            ∙ accepted-Taken now' ma (reset_snapshot m) s r trusted
                (serve-Taken now' now ls ma (reset_snapshot m) s trusts done))

  module _ (laws : StoreLaws st) where
    -- What a peer has behind a healed gap: the leases of the snapshot, and the sender's sequence.
    pub record Healed (seq : ℤ) (ls : List Lease) (m : Manager) (s : S) : Type 0 where
      pub mirrors :
          (k : Bytes)
          → trim_space k ≡ k
          → laws.get s k ≡ last_completed laws.completed (last_with k ls)
      pub sequence : m.applied_sequence ≡ (if ltbℤ (pos 0) seq then seq else pos 0)

    -- Two nodes of an active-passive pair that share their secrets: where the peer finds a gap before
    -- an update, the one `sendSync` of that update ends without an error, and behind it the peer
    -- counts from the sender's sequence and has exactly the leases that the sender lists: an address
    -- without spaces around it is found there as the last listed lease that has it, as the peer's
    -- store completes it, or not at all. This holds where the sender's store lists its leases and
    -- the peer's, one with `StoreLaws` in a state that is good for it, takes them over without an
    -- error.
    pub send_sync-Healed :
        (now now' seq : ℤ) (l : Lease) (ls : List Lease) (ma m : Manager) (sa s : S)
        → validate_secret m.secret ma.secret ≡ true
        → validate_secret ma.secret m.secret ≡ true
        → laws.IsGood s
        → Ha.is_load_sharing env.to_lower m.mode ≡ false
        → verdict_of m.applied_sequence seq ≡ resync
        → st.list_all sa ≡ some ls
        → (apply_snapshot st env m.mode ls s).1 ≡ true
        → ((send_sync st (serve now') now (lease_update now seq l ma) ma sa (m, s)).1 ≡ true)
          × Healed ma.sync_sequence ls
              (send_sync st (serve now') now (lease_update now seq l ma) ma sa (m, s)).0.0
              (send_sync st (serve now') now (lease_update now seq l ma) ma sa (m, s)).0.1
    send_sync-Healed now now' seq l ls ma m sa s trusts trusted good alone gap has done =
        let t = serve-Taken now' now ls ma (reset_snapshot m) s trusts done in
        let same = send_sync-gap now now' seq l ls ma m sa s trusts trusted gap has done in
        let P : (Manager × S) × Bool → Type 0 =
          λ r. (r.1 ≡ true) × Healed ma.sync_sequence ls r.0.0 r.0.1 in
        subst P (sym same) (
          refl,
          record {
            mirrors = λ k trimmed.
                ap (λ x. laws.get x k) t.store
                ∙ apply_snapshot-mirrors st laws env m.mode ls s k good trimmed alone done;
            sequence = t.sequence ∙ unfold mark_snapshot_done in refl;
          },
        )
