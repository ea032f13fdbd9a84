-- ===== src/Auth/Lockout/Locks.antt =====
-- When the tracker of internal/auth/lockout.go locks an account, and for how long.
use monsoon.Prelude.{
  ℕ, suc, ◌+◌, ◌<◌, Bool, true, false, not, Option, none, some, List, [], ◌∷◌, ◌≡◌, ◌∙◌, ap, sym,
  refl, arith, ◌==◌, if◌then◌else◌, if_intro, leb, length, ℤ, pos, ltbℤ, ◌+ℤ◌,
}
use mathlib.Core.Path.{subst}
use monsoon.Bytes.{Bytes}
use monsoon.GoMap.{lookup, erase, bytes_eq}
use monsoon.GoMap.Laws.{lookup-insert_self}
use monsoon.Lease.{is_zero}
use monsoon.Auth.Lockout.{
  LockoutEntry, LockoutTracker, Checked, check_name, fail_name, fail_entry, count_failure,
  check_entry, entry_or_new,
}

if_not : (b : Bool) (x y : Checked) → (if not b then y else x) ≡ (if b then x else y)
if_not true x y = refl
if_not false x y = refl

module _ (name : Bytes) (named : (length name == 0) ≡ false) (max : ℕ) (duration : ℤ) where
  -- The account has failed `k` times, and is not locked.
  pub record Counts (k : ℕ) (t : LockoutTracker) : Type 0 where
    pub limit : t.max_failed_attempts ≡ max
    pub lasts : t.lockout_duration ≡ duration
    pub entry : entry_or_new (lookup name t.entries) ≡ record { failures = k; locked_until = pos 0 }

  -- The account is locked until then.
  pub record IsLocked (until : ℤ) (t : LockoutTracker) : Type 0 where
    pub failures : ℕ
    pub entry : lookup name t.entries ≡ some (record { failures = failures; locked_until = until })

  check_entry-Counts :
      (now : ℤ) (k : ℕ) (o : Option LockoutEntry) (t : LockoutTracker)
      → entry_or_new o ≡ record { failures = k; locked_until = pos 0 }
      → check_entry now name o t ≡ (t, none)
  unfolding check_entry
  check_entry-Counts now k none t h = refl
  check_entry-Counts now k (some e) t h =
      let open_ : is_zero e.locked_until ≡ true = ap (λ x. is_zero x.locked_until) h in
      if_intro (λ r. r ≡ (t, none)) (is_zero e.locked_until) (λ z. refl)
        (λ z. absurd (cc (z, open_)))

  -- an account that is not locked passes the check, which changes nothing
  pub check_name-Counts :
      (now : ℤ) (k : ℕ) (t : LockoutTracker) → Counts k t → check_name now name t ≡ (t, none)
  unfolding check_name
  check_name-Counts now k t c =
      rw named (check_entry-Counts now k (lookup name t.entries) t c.entry)

  fail_name-Counts :
      (now : ℤ) (k : ℕ) (t : LockoutTracker)
      → Counts k t
      → fail_name now name t
        ≡ count_failure now name (record { failures = k; locked_until = pos 0 }) t
  unfolding fail_name fail_entry
  fail_name-Counts now k t c = rw named (ap (λ e. fail_entry now name e t) c.entry)

  -- A failure below the limit is counted.
  pub fail_name-below :
      (now : ℤ) (k : ℕ) (t : LockoutTracker)
      → suc k < max
      → Counts k t
      → ((fail_name now name t).1 ≡ none) × Counts (suc k) (fail_name now name t).0
  unfolding count_failure
  fail_name-below now k t less c =
      let P : Checked → Type 0 = λ r. (r.1 ≡ none) × Counts (suc k) r.0 in
      subst P (sym (fail_name-Counts now k t c)) (
        if_intro P (leb t.max_failed_attempts (suc k))
          (λ full. absurd (ground (arith, full, c.limit)))
          (λ more. (
            refl,
            record {
              limit = c.limit;
              lasts = c.lasts;
              entry = ap entry_or_new (lookup-insert_self name _ t.entries);
            },
          )))

  -- The failure that reaches the limit locks the account.
  pub fail_name-at_limit :
      (now : ℤ) (k : ℕ) (t : LockoutTracker)
      → suc k ≡ max
      → Counts k t
      → ((fail_name now name t).1 ≡ some (now +ℤ duration))
        × IsLocked (now +ℤ duration) (fail_name now name t).0
  unfolding count_failure
  fail_name-at_limit now k t full c =
      let P : Checked → Type 0 =
        λ r. (r.1 ≡ some (now +ℤ duration)) × IsLocked (now +ℤ duration) r.0 in
      subst P (sym (fail_name-Counts now k t c)) (
        if_intro P (leb t.max_failed_attempts (suc k))
          (λ h. (
            ap (λ d. some (now +ℤ d)) c.lasts,
            record {
              failures = suc k;
              entry =
                  lookup-insert_self name _ t.entries
                  ∙ ap (λ d. some (record { failures = suc k; locked_until = now +ℤ d })) c.lasts;
            },
          ))
          (λ less. absurd (ground (arith, less, c.limit))))

  -- A locked account is refused until the lock's end, and then its entry is gone.
  pub check_name-IsLocked :
      (now until : ℤ) (t : LockoutTracker)
      → is_zero until ≡ false
      → IsLocked until t
      → check_name now name t ≡ (
          if ltbℤ now until
          then (t, some until)
          else (record t { entries = erase name t.entries }, none))
  unfolding check_name check_entry
  check_name-IsLocked now until t real l =
      rw (named, l.entry, check_entry, real) (if_not (ltbℤ now until) _ _)

  -- A failure of a locked account changes nothing.
  pub fail_name-IsLocked :
      (now until : ℤ) (t : LockoutTracker)
      → is_zero until ≡ false
      → ltbℤ now until ≡ true
      → IsLocked until t
      → fail_name now name t ≡ (t, some until)
  unfolding fail_name fail_entry
  fail_name-IsLocked now until t real early l = rw (named, l.entry, real, early) refl

  -- the tracker after failures at these times
  pub fail_all : List ℤ → LockoutTracker → LockoutTracker
  fail_all [] t = t
  fail_all (now ∷ times) t = fail_all times (fail_name now name t).0

  fail_all-Counts :
      (times : List ℤ) (k : ℕ) (t : LockoutTracker)
      → k + length times < max
      → Counts k t
      → Counts (k + length times) (fail_all times t)
  unfolding fail_all
  fail_all-Counts [] k t less c = subst (λ n. Counts n t) (omega arith) c
  fail_all-Counts (now ∷ times) k t less c =
      subst (λ n. Counts n (fail_all times (fail_name now name t).0)) (omega arith)
        (fail_all-Counts times (suc k) (fail_name now name t).0 (omega arith)
          (fail_name-below now k t (omega arith) c).1)

  -- The failed attempts on an account that reach the limit lock it: after one fewer than the limit
  -- the account is still open, the next one at the time `now` locks it for the tracker's duration,
  -- and from then on a check answers by the time alone, refusing until the lock's end and behind it
  -- forgetting the account. This holds of an end that is not the zero time.
  pub fail_all-locks :
      (times : List ℤ) (now later : ℤ) (t : LockoutTracker)
      → suc (length times) ≡ max
      → is_zero (now +ℤ duration) ≡ false
      → Counts 0 t
      → (check_name now name (fail_all times t) ≡ (fail_all times t, none))
        × ((fail_name now name (fail_all times t)).1 ≡ some (now +ℤ duration))
        × (check_name later name (fail_name now name (fail_all times t)).0 ≡ (
            if ltbℤ later (now +ℤ duration)
            then ((fail_name now name (fail_all times t)).0, some (now +ℤ duration))
            else (
              record (fail_name now name (fail_all times t)).0 {
                entries = erase name (fail_name now name (fail_all times t)).0.entries;
              },
              none,
            )))
  fail_all-locks times now later t full real c =
      let counted = fail_all-Counts times 0 t (omega (arith, full)) c in
      let (locks, locked) =
        fail_name-at_limit now (length times) (fail_all times t) full
          (subst (λ n. Counts n (fail_all times t)) (omega arith) counted) in
      (
        check_name-Counts now (0 + length times) (fail_all times t) counted,
        locks,
        check_name-IsLocked later (now +ℤ duration) (fail_name now name (fail_all times t)).0 real
            locked,
      )
