-- ===== src/Auth/Local/Attempts.antt =====
-- Attempts to log in, `AuthenticateLocal` of internal/auth/local.go.
use monsoon.Prelude.{
  ℕ, suc, ◌+◌, ◌<◌, true, false, Option, none, some, List, [], ◌∷◌, inr, ◌≡◌, ◌∙◌, ap, sym, refl,
  arith, ◌==◌, if_intro, length, ℤ, ltbℤ, ◌+ℤ◌,
}
use mathlib.Core.Path.{subst}
use monsoon.Bytes.{Bytes}
use monsoon.Lease.{is_zero}
use monsoon.Storage.Wal.{Faults}
use monsoon.Auth.{User, normalize_username}
use monsoon.Auth.Lockout
use monsoon.Auth.Lockout.{LockoutTracker}
use monsoon.Auth.Lockout.Locks.{
  Counts, IsLocked, check_name-Counts, fail_name-below, fail_name-at_limit, check_name-IsLocked,
}
use monsoon.Auth.Local
use monsoon.Auth.Local.{
  Crypto, Service, AuthError, account_locked, invalid_credentials, authenticate_local, get_user,
  compare_password,
}

module _ (c : Crypto) (os : ℕ → Faults) (username : Bytes) where
  abbrev name : Bytes
  name = normalize_username c.to_lower username

  -- the service after attempts at these times with these passwords
  pub attempt_all : List (ℤ × Bytes) → Service → Service
  attempt_all [] s = s
  attempt_all ((now, password) ∷ rest) s =
      attempt_all rest (authenticate_local c os now username password s).0

  -- No password of the list is the user's.
  abbrev pub AreWrong : User → List (ℤ × Bytes) → Type 0
  AreWrong user [] = Unit
  AreWrong user ((now, password) ∷ rest) =
      (c.compare_hash user.password_hash password ≡ false) × AreWrong user rest

  module _ (stable : normalize_username c.to_lower name ≡ name) (named : (length name == 0) ≡ false)
      (max : ℕ) (duration : ℤ) where
    abbrev Open : ℕ → Service → Type 0
    Open k s = Counts name named max duration k s.lockouts

    refused-lockouts :
        (s : Service) (r : LockoutTracker × Option ℤ)
        → (Local.refused c os s r).0 ≡ record s { lockouts = r.0 }
    refused-lockouts s (t, none) = refl
    refused-lockouts s (t, some until) = refl

    get_user-name : (s : Service) → get_user c os name s ≡ get_user c os username s
    unfolding get_user
    get_user-name s =
        ap (λ n. Local.user_of c os (Local.Engine.get Local.tree_users n s.store)) stable

    compare-wrong :
        (now : ℤ) (password : Bytes) (user : User) (s : Service)
        → c.compare_hash user.password_hash password ≡ false
        → (compare_password c os now name password (some user) s).0
          ≡ record s { lockouts = (Lockout.fail_name now name s.lockouts).0 }
    unfolding compare_password Lockout.record_failure
    compare-wrong now password user s wrong =
        if_intro {A = Local.Authenticated c os}
          (λ r. r.0 ≡ record s { lockouts = (Lockout.fail_name now name s.lockouts).0 })
          (c.compare_hash user.password_hash password) (λ h. absurd (cc (h, wrong)))
          (λ h.
            refused-lockouts s
              (Lockout.fail_name now (normalize_username c.to_lower name) s.lockouts)
            ∙ ap (λ n. record s { lockouts = (Lockout.fail_name now n s.lockouts).0 }) stable)

    authenticate-checked :
        (now : ℤ) (password : Bytes) (s : Service)
        → authenticate_local c os now username password s
          ≡ Local.checked c os now name password s (Lockout.check_name now name s.lockouts)
    unfolding authenticate_local Lockout.check
    authenticate-checked now password s =
        ap (λ n. Local.checked c os now name password s (Lockout.check_name now n s.lockouts))
          stable

    -- a wrong password of an open account is a failure of the tracker
    attempt-wrong :
        (now : ℤ) (password : Bytes) (user : User) (k : ℕ) (s : Service)
        → get_user c os username s ≡ some user
        → c.compare_hash user.password_hash password ≡ false
        → Open k s
        → (authenticate_local c os now username password s).0
          ≡ record s { lockouts = (Lockout.fail_name now name s.lockouts).0 }
    attempt-wrong now password user k s known wrong open_ =
        ap (λ r. r.0) (authenticate-checked now password s)
        ∙ ap (λ r. (Local.checked c os now name password s r).0)
            (check_name-Counts name named max duration now k s.lockouts open_)
        ∙ ap (λ o. (compare_password c os now name password o s).0) (get_user-name s ∙ known)
        ∙ compare-wrong now password user s wrong

    attempt-locked :
        (later until : ℤ) (password : Bytes) (s : Service)
        → is_zero until ≡ false
        → ltbℤ later until ≡ true
        → IsLocked name named max duration until s.lockouts
        → authenticate_local c os later username password s ≡ (s, inr (account_locked until))
    attempt-locked later until password s real early l =
        let locked : Lockout.check_name later name s.lockouts ≡ (s.lockouts, some until) =
          check_name-IsLocked name named max duration later until s.lockouts real l
          ∙ rw early refl in
        authenticate-checked later password s ∙ ap (Local.checked c os later name password s) locked

    attempt_all-Open :
        (tries : List (ℤ × Bytes)) (k : ℕ) (user : User) (s : Service)
        → k + length tries < max
        → get_user c os username s ≡ some user
        → AreWrong user tries
        → Open k s
        → Open (k + length tries) (attempt_all tries s)
          × (get_user c os username (attempt_all tries s) ≡ some user)
    unfolding attempt_all get_user
    attempt_all-Open [] k user s less known wrong open_ =
        (subst (λ n. Open n s) (omega arith) open_, known)
    attempt_all-Open ((now, password) ∷ tries) k user s less known (wrong, others) open_ =
        let same = attempt-wrong now password user k s known wrong open_ in
        let failed = record s { lockouts = (Lockout.fail_name now name s.lockouts).0 } in
        let counted =
          (fail_name-below name named max duration now k s.lockouts (omega arith) open_).1 in
        let rest = attempt_all-Open tries (suc k) user failed (omega arith) known others counted in
        let P : Service → Type 0 = λ x.
          Open (k + suc (length tries)) (attempt_all tries x)
          × (get_user c os username (attempt_all tries x) ≡ some user) in
        subst P (sym same)
          (subst (λ n. Open n (attempt_all tries failed)) (omega arith) rest.0, rest.1)

    -- Guessing is bounded: where as many wrong passwords as the tracker's limit are tried for an
    -- account that exists and had no failures, the last of them at the time `now`, every further
    -- attempt before the end of the lock is refused as locked, whatever the password, the right one
    -- included, and changes nothing. This holds of a name that normalizing twice leaves as once, and of
    -- an end of the lock that is not the zero time.
    pub attempt_all-locks :
        (tries : List (ℤ × Bytes)) (now later : ℤ) (last password : Bytes) (user : User)
        (s : Service)
        → suc (length tries) ≡ max
        → get_user c os username s ≡ some user
        → AreWrong user tries
        → c.compare_hash user.password_hash last ≡ false
        → Open 0 s
        → is_zero (now +ℤ duration) ≡ false
        → ltbℤ later (now +ℤ duration) ≡ true
        → authenticate_local c os later username password
            (authenticate_local c os now username last (attempt_all tries s)).0
          ≡ (
            (authenticate_local c os now username last (attempt_all tries s)).0,
            inr (account_locked (now +ℤ duration)),
          )
    attempt_all-locks tries now later last password user s full known wrong wrong_last open_ real
          early =
        let (counted, still) =
          attempt_all-Open tries 0 user s (omega (arith, full)) known wrong open_ in
        let counted' = subst (λ n. Open n (attempt_all tries s)) (omega arith) counted in
        let same =
          attempt-wrong now last user (0 + length tries) (attempt_all tries s) still wrong_last
            counted in
        let locked =
          (fail_name-at_limit name named max duration now (length tries)
            (attempt_all tries s).lockouts full counted').1 in
        let s' = (authenticate_local c os now username last (attempt_all tries s)).0 in
        attempt-locked later (now +ℤ duration) password s' real early (
          subst (λ x. IsLocked name named max duration (now +ℤ duration) x.lockouts) (sym same)
            locked)
