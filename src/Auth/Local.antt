-- ===== src/Auth/Local.antt =====
-- Local users, internal/auth/local.go and service.go, over the storage engine.
pub mod Attempts
use monsoon.Prelude.{
  ℕ, Bool, true, false, Option, none, some, List, [], ◌∷◌, ◌⊎◌, inl, inr, ◌==◌, ◌||◌, if◌then◌else◌,
  is_some, length, ℤ, pos,
}
use monsoon.Bytes.{Bytes, equal}
use monsoon.Text.{trim_space}
use monsoon.Lease.{is_zero}
use monsoon.Storage.Wal.{Faults}
use monsoon.Storage.Engine
use monsoon.Storage.Engine.{Engine, TxError}
use monsoon.Auth
use monsoon.Auth.{User, Identity, role_admin, normalize_username, sanitize_role}
use monsoon.Auth.Lockout
use monsoon.Auth.Lockout.{LockoutTracker}

-- "users"
abbrev pub tree_users : Bytes
tree_users = b'u' ∷ b's' ∷ b'e' ∷ b'r' ∷ b's' ∷ []

-- "session"
abbrev pub session_type : Bytes
session_type = b's' ∷ b'e' ∷ b's' ∷ b's' ∷ b'i' ∷ b'o' ∷ b'n' ∷ []

-- `strings.ToLower`, JSON on users, and bcrypt's comparison of a hash with a password and its hashing
pub record Crypto : Type 0 where
  pub to_lower : Bytes → Bytes
  pub marshal : User → Option Bytes
  pub unmarshal : Bytes → Option User
  pub compare_hash : Bytes → Bytes → Bool
  pub generate_hash : Bytes → Option Bytes

-- the part of `Service` that local users need
pub record Service : Type 0 where
  pub store : Engine
  pub lockouts : LockoutTracker

pub data AuthError : Type 0 where
  invalid_credentials bootstrap_unavailable hash_required password_required : AuthError
  names_required user_not_found hash_failed not_encoded : AuthError
  account_locked : ℤ → AuthError
  store_failed : TxError → AuthError

abbrev pub Done : Type 0
Done = Service × Option AuthError

module _ (c : Crypto) (os : ℕ → Faults) where
  abbrev user_of : Option Bytes → Option User
  user_of none = none
  user_of (some raw) = c.unmarshal raw

  -- `GetUser`, with `none` for an error
  unfoldable pub get_user : Bytes → Service → Option User
  unfolding Engine.get normalize_username
  get_user username s =
      user_of (Engine.get tree_users (normalize_username c.to_lower username) s.store)

  -- `HasUsers`: the callback stops at the first user
  unfoldable pub has_users : Service → Bool
  unfolding Engine.iterate
  has_users s =
      let fn : Bytes → Bytes → Bool → Bool × Bool = λ k v found. (true, false) in
      (Engine.iterate tree_users [] [] fn s.store false).0

  abbrev put_result : Service → Engine × Option TxError → Done
  put_result s (e, none) = (record s { store = e }, none)
  put_result s (e, some x) = (record s { store = e }, some (store_failed x))

  abbrev put_user : ℕ → Bytes → Service → Option Bytes → Done
  put_user now key s none = (s, some not_encoded)
  put_user now key s (some raw) = put_result s (Engine.put os now tree_users key raw s.store)

  -- `upsertUser`
  unfoldable pub upsert_user : ℕ → User → Service → Done
  unfolding Engine.put normalize_username sanitize_role trim_space
  upsert_user now user s =
      let name = normalize_username c.to_lower user.username in
      put_user now name s (
        c.marshal (record user {
          username = name;
          role = sanitize_role (trim_space user.role);
          created_at = if is_zero user.created_at then pos now else user.created_at;
          updated_at = pos now;
        }))

  abbrev new_admin : Bytes → Bytes → User
  new_admin name hash = record {
    username = name;
    role = role_admin;
    password_hash = hash;
    created_at = pos 0;
    updated_at = pos 0;
  }

  -- "admin" where no name is given
  abbrev admin_name : Bytes → Bytes
  admin_name name = if length name == 0 then role_admin else name

  -- `EnsureAdmin`
  unfoldable pub ensure_admin : ℕ → Bytes → Bytes → Service → Done
  unfolding get_user has_users upsert_user normalize_username trim_space
  ensure_admin now username password_hash s =
      let name = admin_name (normalize_username c.to_lower username) in
      let hash = trim_space password_hash in
      if is_some (get_user name s)
      then (s, none)
      else if has_users s
      then (s, none)
      else if length hash == 0
      then (s, some hash_required)
      else upsert_user now (new_admin name hash) s

  abbrev store_admin : ℕ → Bytes → Service → Option Bytes → Done
  store_admin now name s none = (s, some hash_failed)
  store_admin now name s (some hash) = upsert_user now (new_admin name hash) s

  -- `BootstrapAdmin`
  unfoldable pub bootstrap_admin : ℕ → Bytes → Bytes → Service → Done
  unfolding has_users upsert_user normalize_username trim_space
  bootstrap_admin now username password s =
      let name = admin_name (normalize_username c.to_lower username) in
      if length (trim_space password) == 0
      then (s, some password_required)
      else if has_users s
      then (s, some bootstrap_unavailable)
      else store_admin now name s (c.generate_hash password)

  abbrev store_password : ℕ → Service → User → Option Bytes → Done
  store_password now s user none = (s, some hash_failed)
  store_password now s user (some hash) =
      upsert_user now (record user { password_hash = hash; updated_at = pos now }) s

  abbrev change_password : ℕ → Bytes → Service → Option User → Done
  change_password now password s none = (s, some user_not_found)
  change_password now password s (some user) = store_password now s user (c.generate_hash password)

  -- `SetPassword`
  unfoldable pub set_password : ℕ → Bytes → Bytes → Service → Done
  unfolding get_user upsert_user normalize_username trim_space
  set_password now username password s =
      let name = normalize_username c.to_lower username in
      if length name == 0 || length (trim_space password) == 0
      then (s, some names_required)
      else change_password now password s (get_user name s)

  abbrev pub Authenticated : Type 0
  Authenticated = Service × (Identity ⊎ AuthError)

  abbrev pub refused : Service → LockoutTracker × Option ℤ → Authenticated
  refused s (t, some until) = (record s { lockouts = t }, inr (account_locked until))
  refused s (t, none) = (record s { lockouts = t }, inr invalid_credentials)

  abbrev identity_of : User → Identity
  identity_of user = record {
    username = user.username;
    role = user.role;
    auth_type = session_type;
    token_id = [];
  }

  -- the end of `AuthenticateLocal`, on the user that was found
  unfoldable pub compare_password : ℤ → Bytes → Bytes → Option User → Service → Authenticated
  unfolding Lockout.record_failure Lockout.reset
  compare_password now name password none s =
      refused s (Lockout.record_failure c.to_lower now name s.lockouts)
  compare_password now name password (some user) s =
      if c.compare_hash user.password_hash password
      then (
        record s { lockouts = Lockout.reset c.to_lower name s.lockouts },
        inl (identity_of user),
      )
      else refused s (Lockout.record_failure c.to_lower now name s.lockouts)

  abbrev pub checked : ℤ → Bytes → Bytes → Service → LockoutTracker × Option ℤ → Authenticated
  checked now name password s (t, some until) =
      (record s { lockouts = t }, inr (account_locked until))
  checked now name password s (t, none) =
      let s' = record s { lockouts = t } in compare_password now name password (get_user name s') s'

  -- `AuthenticateLocal`
  unfoldable pub authenticate_local : ℤ → Bytes → Bytes → Service → Authenticated
  unfolding Lockout.check compare_password get_user normalize_username
  authenticate_local now username password s =
      let name = normalize_username c.to_lower username in
      checked now name password s (Lockout.check c.to_lower now name s.lockouts)
