-- ===== src/Auth/Lockout.antt =====
-- The lockout of an account after failed attempts, internal/auth/lockout.go. The functions
-- on a name take one that is normalized; `Check`, `RecordFailure` and `Reset` normalize first.
pub mod Locks
use monsoon.Prelude.{
  ℕ, suc, ◌+◌, Bool, true, false, not, ◌&&◌, Option, none, some, List, [], ◌==◌, if◌then◌else◌, leb,
  ltb, length, ℤ, pos, negsuc, ltbℤ, is_not_positive, ◌+ℤ◌, time_sub, quot,
}
use monsoon.Bytes.{Bytes}
use monsoon.GoMap.{Map, lookup, insert, erase, bytes_eq}
use monsoon.Lease.{is_zero}
use monsoon.Auth.{normalize_username}

-- `lockoutEntry`; the counter never reaches the end of an int
pub record LockoutEntry : Type 0 where
  pub failures : ℕ
  pub locked_until : ℤ

-- `lockoutTracker`
pub record LockoutTracker : Type 0 where
  pub entries : Map Bytes LockoutEntry
  pub max_failed_attempts : ℕ
  pub lockout_duration : ℤ

abbrev positive_or : ℕ → ℤ → ℕ
positive_or d (pos n) = if leb n 0 then d else n
positive_or d (negsuc n) = d

-- `newLockoutTracker`
unfoldable pub new_lockout_tracker : ℤ → ℤ → LockoutTracker
new_lockout_tracker max duration = record {
  entries = [];
  max_failed_attempts = positive_or 5 max;
  lockout_duration = if is_not_positive duration then pos 900000000000 else duration;
}

-- `AccountLockedError.RetryAfter`, at a time that is given or the clock's
unfoldable pub retry_after : ℤ → ℤ → ℤ → ℤ
unfolding time_sub quot
retry_after until now clock =
    let seconds = quot (time_sub until (if is_zero now then clock else now)) 1000000000 in
    if is_zero until then pos 60 else if ltbℤ seconds (pos 1) then pos 1 else seconds

-- The results: the tracker, and the end of the lock where there is one.
abbrev pub Checked : Type 0
Checked = LockoutTracker × Option ℤ

unfoldable pub check_entry : ℤ → Bytes → Option LockoutEntry → LockoutTracker → Checked
check_entry now name none t = (t, none)
check_entry now name (some e) t =
    if is_zero e.locked_until
    then (t, none)
    else if not (ltbℤ now e.locked_until)
    then (record t { entries = erase name t.entries }, none)
    else (t, some e.locked_until)

unfoldable pub check_name : ℤ → Bytes → LockoutTracker → Checked
unfolding check_entry lookup
check_name now name t =
    if length name == 0 then (t, none) else check_entry now name (lookup name t.entries) t

-- the zero value of an entry that is not there, or whose lock is over
abbrev pub fresh_entry : LockoutEntry
fresh_entry = record { failures = 0; locked_until = pos 0 }

abbrev entry_or_new : Option LockoutEntry → LockoutEntry
entry_or_new none = fresh_entry
entry_or_new (some e) = e

-- the counting of a failure on an entry that is not locked
unfoldable pub count_failure : ℤ → Bytes → LockoutEntry → LockoutTracker → Checked
unfolding ◌+ℤ◌ insert
count_failure now name e t =
    let failures = suc e.failures in
    let until = now +ℤ t.lockout_duration in
    if leb t.max_failed_attempts failures
    then (
      record t {
        entries = insert name (record { failures = failures; locked_until = until }) t.entries;
      },
      some until,
    )
    else (
      record t {
        entries =
            insert name (record { failures = failures; locked_until = e.locked_until }) t.entries;
      },
      none,
    )

unfoldable pub fail_entry : ℤ → Bytes → LockoutEntry → LockoutTracker → Checked
unfolding count_failure
fail_entry now name e t =
    if not (is_zero e.locked_until) && ltbℤ now e.locked_until
    then (t, some e.locked_until)
    else count_failure now name
        (if not (is_zero e.locked_until) && not (ltbℤ now e.locked_until) then fresh_entry else e) t

unfoldable pub fail_name : ℤ → Bytes → LockoutTracker → Checked
unfolding fail_entry lookup
fail_name now name t =
    if length name == 0
    then (t, none)
    else fail_entry now name (entry_or_new (lookup name t.entries)) t

unfoldable pub reset_name : Bytes → LockoutTracker → LockoutTracker
unfolding erase
reset_name name t = if length name == 0 then t else record t { entries = erase name t.entries }

module _ (to_lower : Bytes → Bytes) where
  -- `Check`
  unfoldable pub check : ℤ → Bytes → LockoutTracker → Checked
  unfolding check_name normalize_username
  check now username t = check_name now (normalize_username to_lower username) t

  -- `RecordFailure`
  unfoldable pub record_failure : ℤ → Bytes → LockoutTracker → Checked
  unfolding fail_name normalize_username
  record_failure now username t = fail_name now (normalize_username to_lower username) t

  -- `Reset`
  unfoldable pub reset : Bytes → LockoutTracker → LockoutTracker
  unfolding reset_name normalize_username
  reset username t = reset_name (normalize_username to_lower username) t
