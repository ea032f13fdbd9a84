-- ===== src/Auth.antt =====
-- Users, roles, sessions and tokens of internal/auth: types.go and rbac.go here, the rest in the modules
-- below. JSON, bcrypt, SHA-256, random bytes and `strings.ToLower` are arguments.
pub mod Lockout
pub mod Session
pub mod Local
pub mod Token
pub mod Tests
use monsoon.Prelude.{
  ℕ, Bool, true, false, ◌||◌, Option, none, some, List, [], ◌∷◌, if◌then◌else◌, leb, ℤ,
}
use monsoon.Bytes.{Bytes, equal}
use monsoon.Text.{trim_space}

abbrev pub role_admin : Bytes
role_admin = b'a' ∷ b'd' ∷ b'm' ∷ b'i' ∷ b'n' ∷ []

abbrev pub role_operator : Bytes
role_operator = b'o' ∷ b'p' ∷ b'e' ∷ b'r' ∷ b'a' ∷ b't' ∷ b'o' ∷ b'r' ∷ []

abbrev pub role_viewer : Bytes
role_viewer = b'v' ∷ b'i' ∷ b'e' ∷ b'w' ∷ b'e' ∷ b'r' ∷ []

pub record User : Type 0 where
  pub username : Bytes
  pub role : Bytes
  pub password_hash : Bytes
  pub created_at : ℤ
  pub updated_at : ℤ

pub record Identity : Type 0 where
  pub username : Bytes
  pub role : Bytes
  pub auth_type : Bytes
  pub token_id : Bytes

-- `sanitizeRole`
unfoldable pub sanitize_role : Bytes → Bytes
unfolding equal
sanitize_role role =
    if equal role role_admin || equal role role_operator || equal role role_viewer
    then role
    else role_viewer

-- the map of `HasRole`, 0 for another key
unfoldable pub rank : Bytes → ℕ
unfolding equal
rank role =
    if equal role role_viewer
    then 1
    else if equal role role_operator
    then 2
    else if equal role role_admin
    then 3
    else 0

-- `HasRole`
unfoldable pub has_role : Bytes → Bytes → Bool
unfolding rank sanitize_role
has_role required actual = leb (rank (sanitize_role required)) (rank (sanitize_role actual))

-- `normalizeUsername`
unfoldable pub normalize_username : (Bytes → Bytes) → Bytes → Bytes
unfolding trim_space
normalize_username to_lower name = to_lower (trim_space name)
