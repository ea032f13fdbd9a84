-- ===== src/Storage/Wal/Append.antt =====
-- `Append` of internal/storage/wal.go on an open log that ends with a whole record.
use monsoon.Prelude.{
  ℕ, suc, ◌+◌, ◌≤◌, ◌<◌, Bool, true, false, Option, none, some, List, [], ◌∷◌, ◌++◌, ◌≡◌, refl, sym,
  ◌⊎◌, inl, inr, Bool-cases, Option-cases, arith, leb, ltb, ltb→lt, ltb_false→le, if◌then◌else◌,
  length, take, take-all, append-nil, append_assoc, length-append,
}
use mathlib.Core.Path.{subst}
use monsoon.Bytes.{Bytes}
use monsoon.GoMap.{Map, insert, nat_eq}
use monsoon.Storage.Record.{Entry, encode}
use monsoon.Storage.Record.Replay.{encode_all, apply_all}
use monsoon.Storage.Wal.{
  open_file, Wal, Faults, WalError, content, is_open, not_opened, write_error, sync_error, rotate,
  rotate_if_needed, write, append, and_then, replay,
}
use monsoon.Storage.Wal.Segments.{Chain, end, HoldsAll-append}
use monsoon.Storage.Wal.Stored.{
  Stored, Holds, Stored-more, Holds-Stored, replay-Stored, encode_all-append, content_last,
  insert_last, Chain-files, end-files, content_next, insert_next,
}

module _ (f : Faults) (w : Wal) where
  rotated : Wal
  rotated = record w {
    file = open_file (suc w.segment_id);
    segment_id = suc w.segment_id;
    offset = 0;
    dir = insert (suc w.segment_id) (content (suc w.segment_id) w.dir) w.dir;
  }

  rotate_success :
      (i : ℕ) → (rotate f (open_file i) w).1 ≡ none → (rotate f (open_file i) w).0 ≡ rotated
  unfolding rotate rotated
  rotate_success i h = ground arith

  rotate_error-dir :
      (i : ℕ) {x : WalError}
      → (rotate f (open_file i) w).1 ≡ some x
      → (rotate f (open_file i) w).0.dir ≡ w.dir
  unfolding rotate
  rotate_error-dir i h = ground arith

  rotated-dir :
      (raw : Bytes) (older : Map ℕ Bytes)
      → Chain 0 older
      → end 0 older ≤ w.segment_id
      → w.dir ≡ older ++ (w.segment_id, raw) ∷ []
      → rotated.dir ≡ (older ++ (w.segment_id, raw) ∷ []) ++ (suc w.segment_id, []) ∷ []
  unfolding rotated
  rotated-dir raw older chain above e = rw (
    e,
    content_next w.segment_id raw older chain above,
    insert_next w.segment_id raw older chain above [],
  )

  -- a new and empty segment behind the others
  rotated-Holds : {es : List Entry} → Holds w es → Holds rotated es
  unfolding rotated
  rotated-Holds {es} h = record {
    older = h.older ++ (w.segment_id, h.current) ∷ [];
    current = [];
    older_entries = es;
    last = [];
    dir_is = rotated-dir h.current h.older h.chain h.above h.dir_is;
    chain = Chain-files w.segment_id h.current h.older h.chain h.above;
    above = end-files w.segment_id h.current h.older h.chain h.above;
    held = rw h.entries_are (HoldsAll-append w.segment_id h.last h.held h.encoded);
    encoded = unfold encode_all in refl;
    entries_are = sym (append-nil es);
    file_is = refl;
    offset_is = refl;
  }

data Rotation (r : Wal × Option WalError) (dir : Map ℕ Bytes) (es : List Entry) : Type 0 where
  rotation_done : r.1 ≡ none → Holds r.0 es → Rotation r dir es
  rotation_failed : {x : WalError} → r.1 ≡ some x → r.0.dir ≡ dir → Rotation r dir es

rotate-Rotation :
    (f : Faults) (w : Wal) (i : ℕ) {es : List Entry}
    → Holds w es
    → Rotation (rotate f (open_file i) w) w.dir es
rotate-Rotation f w i {es} h = elim (Option-cases (rotate f (open_file i) w).1) [
  | inl done ↦
      rotation_done done
        (subst (λ v. Holds v es) (sym (rotate_success f w i done)) (rotated-Holds f w h))
  | inr (x, failed) ↦ rotation_failed failed (rotate_error-dir f w i failed)
]

rotate_if_needed-Rotation :
    (f : Faults) (n : ℕ) (w : Wal) {es : List Entry}
    → Holds w es
    → Rotation (rotate_if_needed f n w) w.dir es
unfolding rotate_if_needed
rotate_if_needed-Rotation f n w {es} h =
    subst
      (λ file.
        Rotation
          (if is_open file
            then (if leb (w.offset + n) w.segment_size then (w, none) else rotate f file w)
            else (w, some not_opened))
          w.dir es)
      (sym h.file_is)
      (elim (Bool-cases (leb (w.offset + n) w.segment_size)) [
        | inl fits ↦ rw fits (rotation_done refl h)
        | inr full ↦ rw full (rotate-Rotation f w w.segment_id h)
      ])

-- What an append leaves: the log with the entry, or an error and files that replay without it or
-- with it.
pub data Outcome (r : Wal × Option WalError) (es : List Entry) (e : Entry) : Type 0 where
  appended : r.1 ≡ none → Holds r.0 (es ++ e ∷ []) → Outcome r es e
  unchanged : {x : WalError} → r.1 ≡ some x → Stored r.0.dir es → Outcome r es e
  unsure : {x : WalError} → r.1 ≡ some x → Stored r.0.dir (es ++ e ∷ []) → Outcome r es e

module _ (f : Faults) (e : Entry) (buf : Bytes) (enc : encode e ≡ some buf) (w : Wal) where
  dir_with : Bytes → Map ℕ Bytes
  dir_with tail = insert w.segment_id (content w.segment_id w.dir ++ tail) w.dir

  dir_with-eq :
      {es : List Entry} (h : Holds w es) (tail : Bytes)
      → dir_with tail ≡ h.older ++ (w.segment_id, h.current ++ tail) ∷ []
  unfolding dir_with
  dir_with-eq h tail =
      rw (h.dir_is, content_last w.segment_id h.current h.older h.chain h.above)
        (insert_last w.segment_id h.current h.older h.chain h.above (h.current ++ tail))

  -- the log behind a whole write
  written : Wal
  unfolding dir_with
  written = record w { dir = dir_with buf; offset = w.offset + length buf }

  written-Holds : {es : List Entry} → Holds w es → Holds written (es ++ e ∷ [])
  unfolding written
  written-Holds {es} h = record {
    older = h.older;
    current = h.current ++ buf;
    older_entries = h.older_entries;
    last = h.last ++ e ∷ [];
    dir_is = dir_with-eq h buf;
    chain = h.chain;
    above = h.above;
    held = h.held;
    encoded = encode_all-append h.last e h.encoded enc;
    entries_are = rw h.entries_are (append_assoc h.older_entries h.last (e ∷ []));
    file_is = h.file_is;
    offset_is = omega (arith, h.offset_is, length-append h.current buf);
  }

  cut-Stored :
      {es : List Entry} (n : ℕ) → Holds w es → n < length buf → Stored (dir_with (take n buf)) es
  cut-Stored {es} n h lt = rw append-nil at (
      Stored-more h (dir_with (take n buf)) h.current (take n buf) [] (dir_with-eq h (take n buf))
        (rw append-nil h.encoded)
        (record { entry = e; whole = buf; encoded = enc; cut = n; cut-lt = lt; is_cut = refl }))

  uncut-Stored :
      {es : List Entry} (n : ℕ)
      → Holds w es
      → length buf ≤ n
      → Stored (dir_with (take n buf)) (es ++ e ∷ [])
  unfolding dir_with written
  uncut-Stored {es} n h le = rw (take-all n buf le) (Holds-Stored (written-Holds h))

  written_in_part :
      {es : List Entry} (n : ℕ)
      → Holds w es
      → Outcome (record w { dir = dir_with (take n buf) }, some write_error) es e
  written_in_part n h = elim (Bool-cases (ltb n (length buf))) [
    | inl cut ↦ unchanged refl (cut-Stored n h (ltb→lt n (length buf) cut))
    | inr uncut ↦ unsure refl (uncut-Stored n h (ltb_false→le n (length buf) uncut))
  ]

  written_whole :
      {es : List Entry} (b : Bool)
      → Holds w es
      → Outcome (written, if b then some sync_error else none) es e
  written_whole true h = unsure refl (Holds-Stored (written-Holds h))
  written_whole false h = appended refl (written-Holds h)

  write-Outcome :
      {es : List Entry} → Holds w es → Outcome (write f (open_file w.segment_id) buf w) es e
  unfolding write written
  write-Outcome h = elim (Option-cases f.write_stops_at) [
    | inl whole ↦ rw whole (written_whole f.sync_fails h)
    | inr (n, part) ↦ rw part (written_in_part n h)
  ]

after-Rotation :
    (f : Faults) (e : Entry) (buf : Bytes)
    → encode e ≡ some buf
    → (dir : Map ℕ Bytes) {es : List Entry} (r : Wal × Option WalError) → Rotation r dir es
    → Stored dir es
    → Outcome (and_then r (λ w'. write f w'.file buf w')) es e
after-Rotation f e buf enc dir {es} (w, none) (rotation_done _ h) st =
    subst (λ file. Outcome (write f file buf w) es e) (sym h.file_is)
      (write-Outcome f e buf enc w h)
after-Rotation f e buf enc dir (w, some x) (rotation_done p h) st = cc
after-Rotation f e buf enc dir (w, none) (rotation_failed p d) st = cc
after-Rotation f e buf enc dir {es} (w, some x) (rotation_failed p d) st =
    unchanged refl (subst (λ k. Stored k es) (sym d) st)

pub append-Outcome :
    (f : Faults) (e : Entry) (w : Wal) {es : List Entry} → Holds w es → Outcome (append f e w) es e
unfolding append
append-Outcome f e w h = elim (Option-cases (encode e)) [
  | inl bad ↦ rw (bad, append) (unchanged refl (Holds-Stored h))
  | inr (buf, enc) ↦
      rw (enc, append)
        (after-Rotation f e buf enc w.dir _ (rotate_if_needed-Rotation f (length buf) w h)
          (Holds-Stored h))
]

module _ {S E : Type 0} (apply : Entry → S → S × Option E) where
  Outcome-replays :
      (r : Wal × Option WalError) (s : S) {es : List Entry} {e : Entry}
      → Outcome r es e
      → (replay apply r.0 s ≡ apply_all apply es s)
        ⊎ (replay apply r.0 s ≡ apply_all apply (es ++ e ∷ []) s)
  Outcome-replays r s (appended p h) = inr (replay-Stored apply r.0 s (Holds-Stored h))
  Outcome-replays r s (unchanged p st) = inl (replay-Stored apply r.0 s st)
  Outcome-replays r s (unsure p st) = inr (replay-Stored apply r.0 s st)

  -- An append to a log whose segments hold exactly some entries, open at its end and with no torn
  -- record there: whether the rotation, the write or the sync fails, the files that it leaves replay
  -- either those entries, or those and the new one. A log that a failed write has left with a torn
  -- record is not such a log.
  pub replay-append :
      (f : Faults) (e : Entry) (w : Wal) (s : S) {es : List Entry}
      → Holds w es
      → (replay apply (append f e w).0 s ≡ apply_all apply es s)
        ⊎ (replay apply (append f e w).0 s ≡ apply_all apply (es ++ e ∷ []) s)
  replay-append f e w s h = Outcome-replays (append f e w) s (append-Outcome f e w h)

Outcome-Holds :
    {r : Wal × Option WalError} {es : List Entry} {e : Entry}
    → Outcome r es e
    → r.1 ≡ none
    → Holds r.0 (es ++ e ∷ [])
Outcome-Holds (appended p h) q = h
Outcome-Holds (unchanged p st) q = ground arith
Outcome-Holds (unsure p st) q = ground arith

-- An append that reports no error leaves a log that holds the entry behind the ones before it.
pub append-Holds :
    (f : Faults) (e : Entry) (w : Wal) {es : List Entry}
    → Holds w es
    → (append f e w).1 ≡ none
    → Holds (append f e w).0 (es ++ e ∷ [])
append-Holds f e w h = Outcome-Holds (append-Outcome f e w h)
