-- ===== src/Ha/Witness/Atomic.antt =====
-- What `atomicWriteFile` of internal/ha/witness.go leaves of a witness file, wherever it fails.
use monsoon.Prelude.{
  ℕ, Bool, true, false, not, ◌&&◌, Option, none, some, [], ◌++◌, ◌≡◌, ◌≢◌, refl, sym, ◌∙◌, ap, ◌⊎◌,
  inl, inr, arith, if◌then◌else◌, if_intro, is_some, length, length-append,
}
use mathlib.Core.Path.{subst}
use monsoon.Bytes.{Bytes}
use monsoon.GoMap.{lookup, insert, bytes_eq}
use monsoon.Ha.Witness.{
  Files, FileFaults, Written, WitnessError, backup_suffix, stopped_at, rename, remove, replace_file,
  retry_rename, cleaned, atomic_write_file, rename_failed, replace_failed, chmod_failed,
  sync_failed, close_failed, write_failed,
}
use monsoon.Ha.Witness.View.{
  View, View-insert_tmp, View-erase_tmp, View-remove-backup, View-rename_tmp, View-rename_path,
  View-restore,
}

-- What a write of `raw` to `path` may come to. No error: the path holds `raw`. An error: the path holds what it held, or what it held is under the backup's name.
pub data Outcome (tmp path raw : Bytes) (fs : Files) (r : Written) : Type 0 where
  replaced : r.1 ≡ none → lookup path r.0 ≡ some raw → Outcome tmp path raw fs r
  kept :
      {x : WitnessError}
      → r.1 ≡ some x
      → lookup path r.0 ≡ lookup path fs
      → Outcome tmp path raw fs r
  moved_away :
      r.1 ≡ some rename_failed
      → lookup path r.0 ≡ none
      → lookup (path ++ backup_suffix) r.0 ≡ lookup path fs
      → Outcome tmp path raw fs r

module _ (f : FileFaults) (path raw : Bytes) (fs : Files) where
  abbrev backup : Bytes
  backup = path ++ backup_suffix

  -- The temporary file is gone, or an error was returned and its removal failed too.
  abbrev pub IsCleaned : Written → Type 0
  IsCleaned r =
      (lookup f.tmp_path r.0 ≡ none) ⊎ ((is_some r.1 ≡ true) × (f.remove_tmp_fails ≡ true))

  -- A written file: what became of the path and the temporary file, with other files as before.
  abbrev Result : Written → Type 0
  Result r =
      Outcome f.tmp_path path raw fs r
      × IsCleaned r
      × ((k : Bytes) → k ≢ f.tmp_path → k ≢ path → k ≢ backup → lookup k r.0 ≡ lookup k fs)

  module _ (tp : f.tmp_path ≢ path) (tb : f.tmp_path ≢ backup) (pb : path ≢ backup) where
    abbrev Seen : Files → Option Bytes → Option Bytes → Option Bytes → Type 0
    Seen fs' t p b = View f.tmp_path path backup fs fs' t p b

    cleaned-error : (fs' : Files) (x : WitnessError) → (cleaned f (fs', some x)).1 ≡ some x
    unfolding cleaned
    cleaned-error fs' x = refl

    -- what the removal of the temporary file leaves
    cleaned-View :
        {fs' : Files} {t p b : Option Bytes} (x : WitnessError)
        → Seen fs' t p b
        → (lookup path (cleaned f (fs', some x)).0 ≡ p)
          × (lookup backup (cleaned f (fs', some x)).0 ≡ b)
          × IsCleaned (cleaned f (fs', some x))
          × ((k : Bytes)
              → k ≢ f.tmp_path
              → k ≢ path
              → k ≢ backup
              → lookup k (cleaned f (fs', some x)).0 ≡ lookup k fs)
    unfolding cleaned remove
    cleaned-View {fs'} {t} {p} {b} x v = by_fault f.remove_tmp_fails refl
      where
        by_fault :
            (fails : Bool)
            → f.remove_tmp_fails ≡ fails
            → (lookup path (remove fails f.tmp_path fs') ≡ p)
              × (lookup backup (remove fails f.tmp_path fs') ≡ b)
              × IsCleaned (remove fails f.tmp_path fs', some x)
              × ((k : Bytes)
                  → k ≢ f.tmp_path
                  → k ≢ path
                  → k ≢ backup
                  → lookup k (remove fails f.tmp_path fs') ≡ lookup k fs)
        by_fault true fails = (v.at_path, v.at_backup, inr (refl, fails), v.others)
        by_fault false works =
            let w = View-erase_tmp f.tmp_path path backup tp tb pb v in
            (w.at_path, w.at_backup, inl w.at_tmp, w.others)

    -- an error that leaves the path as it was
    cleaned-kept :
        {fs' : Files} {t b : Option Bytes} (x : WitnessError)
        → Seen fs' t (lookup path fs) b
        → Result (cleaned f (fs', some x))
    cleaned-kept {fs'} x v =
        let (at_path, at_backup, tmp, others) = cleaned-View x v in
        (kept (cleaned-error fs' x) at_path, tmp, others)

    cleaned-replaced :
        {fs' : Files} {b : Option Bytes}
        → Seen fs' none (some raw) b
        → Result (cleaned f (fs', none))
    unfolding cleaned
    cleaned-replaced v = (replaced refl v.at_path, inl v.at_tmp, v.others)

    retry-here :
        {y : Bytes} {fs' : Files}
        → lookup path fs ≡ some y
        → Seen fs' (some raw) none (some y)
        → Result (cleaned f (retry_rename f path backup true fs'))
    unfolding retry_rename
    retry-here {y} {fs'} h v =
        if_intro (λ r. Result (cleaned f r)) f.retry_fails
          (λ failed.
            if_intro (λ fs'. Result (cleaned f (fs', some rename_failed))) (not f.restore_fails)
              (λ restored.
                let u = View-restore f.tmp_path path backup tp tb pb v in
                cleaned-kept rename_failed
                  (subst (λ p. Seen (rename backup path fs') (some raw) p none) (sym h) u))
              (λ stuck.
                let (at_path, at_backup, tmp, others) = cleaned-View rename_failed v in
                (
                  moved_away (cleaned-error fs' rename_failed) at_path (at_backup ∙ sym h),
                  tmp,
                  others,
                )))
          (λ done.
            let (b, w) =
              View-remove-backup f.tmp_path path backup tp tb pb f.remove_backup_fails
                (View-rename_tmp f.tmp_path path backup tp tb pb v) in
            cleaned-replaced w)

    retry-absent :
        {fs' : Files} {b : Option Bytes}
        → lookup path fs ≡ none
        → Seen fs' (some raw) none b
        → Result (cleaned f (retry_rename f path backup false fs'))
    unfolding retry_rename
    retry-absent {fs'} {b} h v =
        if_intro (λ r. Result (cleaned f r)) f.retry_fails
          (λ failed. cleaned-kept rename_failed (subst (λ p. Seen fs' (some raw) p b) (sym h) v))
          (λ done. cleaned-replaced (View-rename_tmp f.tmp_path path backup tp tb pb v))

    replace_file-Result :
        {fs' : Files} {b : Option Bytes}
        → Seen fs' (some raw) (lookup path fs) b
        → Result (cleaned f (replace_file f path fs'))
    unfolding replace_file
    replace_file-Result {fs'} v =
        let (b', w) = View-remove-backup f.tmp_path path backup tp tb pb f.remove_old_fails v in
        if_intro (λ r. Result (cleaned f r)) f.stat_fails (λ bad. cleaned-kept replace_failed w)
          (λ fine. rw w.at_path (by_current (lookup path fs) refl w))
      where
        by_current :
            {fs'' : Files} {b : Option Bytes} (p : Option Bytes)
            → lookup path fs ≡ p
            → Seen fs'' (some raw) p b
            → Result (
                cleaned f (
                  if is_some p && f.move_fails
                  then (fs'', some replace_failed)
                  else retry_rename f path backup
                      (is_some p)
                      (if is_some p then rename path backup fs'' else fs'')))
        by_current none absent w = retry-absent absent w
        by_current {fs''} {b} (some y) here w =
            if_intro (λ r. Result (cleaned f r)) f.move_fails
              (λ stuck.
                cleaned-kept replace_failed (subst (λ p. Seen fs'' (some raw) p b) (sym here) w))
              (λ moves. retry-here here (View-rename_path f.tmp_path path backup tp tb pb w))

    stopped-Result :
        {fs' : Files} (x : WitnessError)
        → Seen fs' (some raw) (lookup path fs) (lookup backup fs)
        → (b : Bool) (r : Written) → Result (cleaned f r)
        → Result (cleaned f (if b then (fs', some x) else r))
    stopped-Result x v b r res =
        if_intro (λ r. Result (cleaned f r)) b (λ h. cleaned-kept x v) (λ h. res)

    written-Result :
        {fs' : Files}
        → Seen fs' (some raw) (lookup path fs) (lookup backup fs)
        → Result (
            cleaned f (
              if f.rename_fails
              then replace_file f path fs'
              else (rename f.tmp_path path fs', none)))
    written-Result {fs'} v =
        if_intro (λ r. Result (cleaned f r)) f.rename_fails (λ h. replace_file-Result v)
          (λ h. cleaned-replaced (View-rename_tmp f.tmp_path path backup tp tb pb v))

  -- Wherever a write to a witness file fails: it returns no error only where the path holds the new
  -- content. After an error the path holds what it held, or, where the last rename and the undoing
  -- both failed, the file is missing and what it held is under the backup's name. The temporary file
  -- is gone, unless the write returned an error and the removal of that file failed as well; no
  -- other file but the backup is touched. This holds of a temporary name that is new.
  pub atomic_write_file-Outcome :
      f.tmp_path ≢ path
      → f.tmp_path ≢ path ++ backup_suffix
      → lookup f.tmp_path fs ≡ none
      → Outcome f.tmp_path path raw fs (atomic_write_file f path raw fs)
        × IsCleaned (atomic_write_file f path raw fs)
        × ((k : Bytes)
            → k ≢ f.tmp_path
            → k ≢ path
            → k ≢ path ++ backup_suffix
            → lookup k (atomic_write_file f path raw fs).0 ≡ lookup k fs)
  unfolding atomic_write_file
  atomic_write_file-Outcome tp tb new =
      if_intro Result f.create_fails (λ h. (kept refl refl, inl new, λ k kt kp kb. refl))
        (λ h.
          if_intro (λ r. Result (cleaned f r)) f.chmod_fails
            (λ h. cleaned-kept tp tb pb chmod_failed made) (λ h. by_write f.write_stops_at))
    where
      pb : path ≢ path ++ backup_suffix
      pb e = omega (arith, ap length e, length-append path backup_suffix)

      start : View f.tmp_path path backup fs fs none (lookup path fs) (lookup backup fs)
      start = record { at_tmp = new; at_path = refl; at_backup = refl; others = λ k kt kp kb. refl }

      made :
          View f.tmp_path path backup fs
            (insert f.tmp_path [] fs)
            (some [])
            (lookup path fs)
            (lookup backup fs)
      made = View-insert_tmp f.tmp_path path backup tp tb pb [] start

      by_write :
          (n : Option ℕ)
          → Result (
              cleaned f (
                if is_some n
                then (
                  insert f.tmp_path (stopped_at n raw) (insert f.tmp_path [] fs),
                  some write_failed,
                )
                else if f.sync_fails
                then (
                  insert f.tmp_path (stopped_at n raw) (insert f.tmp_path [] fs),
                  some sync_failed,
                )
                else if f.close_fails
                then (
                  insert f.tmp_path (stopped_at n raw) (insert f.tmp_path [] fs),
                  some close_failed,
                )
                else if f.rename_fails
                then replace_file f path
                    (insert f.tmp_path (stopped_at n raw) (insert f.tmp_path [] fs))
                else (
                  rename f.tmp_path path
                      (insert f.tmp_path (stopped_at n raw) (insert f.tmp_path [] fs)),
                  none,
                )))
      by_write (some n) =
          cleaned-kept tp tb pb write_failed
            (View-insert_tmp f.tmp_path path backup tp tb pb (stopped_at (some n) raw) made)
      by_write none =
          let v = View-insert_tmp f.tmp_path path backup tp tb pb raw made in
          stopped-Result tp tb pb sync_failed v f.sync_fails _
            (stopped-Result tp tb pb close_failed v f.close_fails _ (written-Result tp tb pb v))
