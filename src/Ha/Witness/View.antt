-- ===== src/Ha/Witness/View.antt =====
-- The three names that `atomicWriteFile` of internal/ha/witness.go touches: the temporary file, the
-- witness file and its backup, through removals and renames.
use monsoon.Prelude.{
  Bool, true, false, Option, none, some, ◌≡◌, ◌≢◌, refl, sym, ◌∙◌, arith, if◌then◌else◌,
}
use monsoon.Bytes.{Bytes}
use monsoon.GoMap.{lookup, insert, erase, bytes_eq}
use monsoon.GoMap.Laws.{lookup-insert, lookup-erase}
use monsoon.Ha.Witness.{Files, rename, remove}

-- The files under three names, and all others as they were in `fs0`.
pub record View (tmp path backup : Bytes) (fs0 fs : Files) (t p b : Option Bytes) : Type 0 where
  pub at_tmp : lookup tmp fs ≡ t
  pub at_path : lookup path fs ≡ p
  pub at_backup : lookup backup fs ≡ b
  pub others : (k : Bytes) → k ≢ tmp → k ≢ path → k ≢ backup → lookup k fs ≡ lookup k fs0

lookup-rename :
    (from to : Bytes) (raw k : Bytes) (fs : Files)
    → lookup from fs ≡ some raw
    → lookup k (rename from to fs)
      ≡ (if bytes_eq.beq to k then some raw else if bytes_eq.beq from k then none else lookup k fs)
unfolding rename
lookup-rename from to raw k fs h =
    rw (rename, h) (lookup-insert to k raw (erase from fs) ∙ rw (lookup-erase from k fs) refl)

differ : (a b : Bytes) → a ≢ b → bytes_eq.beq a b ≡ false
differ a b n = ground (arith, bytes_eq.beq_iff a b)

same : (a : Bytes) → bytes_eq.beq a a ≡ true
same a = ground (arith, bytes_eq.beq_iff a a)

module _ (tmp path backup : Bytes) (tp : tmp ≢ path) (tb : tmp ≢ backup) (pb : path ≢ backup) where
  pub View-insert_tmp :
      (x : Bytes) {fs0 fs : Files} {t p b : Option Bytes}
      → View tmp path backup fs0 fs t p b
      → View tmp path backup fs0 (insert tmp x fs) (some x) p b
  View-insert_tmp x {fs0} {fs} v = record {
    at_tmp = lookup-insert tmp tmp x fs ∙ rw (same tmp) refl;
    at_path = lookup-insert tmp path x fs ∙ rw (differ tmp path tp) v.at_path;
    at_backup = lookup-insert tmp backup x fs ∙ rw (differ tmp backup tb) v.at_backup;
    others = λ k kt kp kb.
        lookup-insert tmp k x fs ∙ rw (differ tmp k (λ e. kt (sym e))) (v.others k kt kp kb);
  }

  pub View-erase_tmp :
      {fs0 fs : Files} {t p b : Option Bytes}
      → View tmp path backup fs0 fs t p b
      → View tmp path backup fs0 (erase tmp fs) none p b
  View-erase_tmp {fs0} {fs} v = record {
    at_tmp = lookup-erase tmp tmp fs ∙ rw (same tmp) refl;
    at_path = lookup-erase tmp path fs ∙ rw (differ tmp path tp) v.at_path;
    at_backup = lookup-erase tmp backup fs ∙ rw (differ tmp backup tb) v.at_backup;
    others = λ k kt kp kb.
        lookup-erase tmp k fs ∙ rw (differ tmp k (λ e. kt (sym e))) (v.others k kt kp kb);
  }

  pub View-erase-backup :
      {fs0 fs : Files} {t p b : Option Bytes}
      → View tmp path backup fs0 fs t p b
      → View tmp path backup fs0 (erase backup fs) t p none
  View-erase-backup {fs0} {fs} v = record {
    at_tmp = lookup-erase backup tmp fs ∙ rw (differ backup tmp (λ e. tb (sym e))) v.at_tmp;
    at_path = lookup-erase backup path fs ∙ rw (differ backup path (λ e. pb (sym e))) v.at_path;
    at_backup = lookup-erase backup backup fs ∙ rw (same backup) refl;
    others = λ k kt kp kb.
        lookup-erase backup k fs ∙ rw (differ backup k (λ e. kb (sym e))) (v.others k kt kp kb);
  }

  -- a removal of the backup, that may fail
  pub View-remove-backup :
      (fails : Bool) {fs0 fs : Files} {t p b : Option Bytes}
      → View tmp path backup fs0 fs t p b
      → (b' : Option Bytes) × View tmp path backup fs0 (remove fails backup fs) t p b'
  unfolding remove
  View-remove-backup true {b = b} v = (b, v)
  View-remove-backup false v = (none, View-erase-backup v)

  -- the temporary file takes the path
  pub View-rename_tmp :
      {x : Bytes} {fs0 fs : Files} {p b : Option Bytes}
      → View tmp path backup fs0 fs (some x) p b
      → View tmp path backup fs0 (rename tmp path fs) none (some x) b
  View-rename_tmp {x} {fs0} {fs} v = record {
    at_tmp =
        lookup-rename tmp path x tmp fs v.at_tmp
        ∙ rw (differ path tmp (λ e. tp (sym e)), same tmp) refl;
    at_path = lookup-rename tmp path x path fs v.at_tmp ∙ rw (same path) refl;
    at_backup =
        lookup-rename tmp path x backup fs v.at_tmp
        ∙ rw (differ path backup pb, differ tmp backup tb) v.at_backup;
    others = λ k kt kp kb.
        lookup-rename tmp path x k fs v.at_tmp
        ∙ rw (differ path k (λ e. kp (sym e)), differ tmp k (λ e. kt (sym e)))
            (v.others k kt kp kb);
  }

  -- the current file goes to the backup
  pub View-rename_path :
      {y : Bytes} {fs0 fs : Files} {t b : Option Bytes}
      → View tmp path backup fs0 fs t (some y) b
      → View tmp path backup fs0 (rename path backup fs) t none (some y)
  View-rename_path {y} {fs0} {fs} v = record {
    at_tmp =
        lookup-rename path backup y tmp fs v.at_path
        ∙ rw (differ backup tmp (λ e. tb (sym e)), differ path tmp (λ e. tp (sym e))) v.at_tmp;
    at_path =
        lookup-rename path backup y path fs v.at_path
        ∙ rw (differ backup path (λ e. pb (sym e)), same path) refl;
    at_backup = lookup-rename path backup y backup fs v.at_path ∙ rw (same backup) refl;
    others = λ k kt kp kb.
        lookup-rename path backup y k fs v.at_path
        ∙ rw (differ backup k (λ e. kb (sym e)), differ path k (λ e. kp (sym e)))
            (v.others k kt kp kb);
  }

  -- the backup returns to the path
  pub View-restore :
      {y : Bytes} {fs0 fs : Files} {t p : Option Bytes}
      → View tmp path backup fs0 fs t p (some y)
      → View tmp path backup fs0 (rename backup path fs) t (some y) none
  View-restore {y} {fs0} {fs} v = record {
    at_tmp =
        lookup-rename backup path y tmp fs v.at_backup
        ∙ rw (differ path tmp (λ e. tp (sym e)), differ backup tmp (λ e. tb (sym e))) v.at_tmp;
    at_path = lookup-rename backup path y path fs v.at_backup ∙ rw (same path) refl;
    at_backup =
        lookup-rename backup path y backup fs v.at_backup
        ∙ rw (differ path backup pb, same backup) refl;
    others = λ k kt kp kb.
        lookup-rename backup path y k fs v.at_backup
        ∙ rw (differ path k (λ e. kp (sym e)), differ backup k (λ e. kb (sym e)))
            (v.others k kt kp kb);
  }
