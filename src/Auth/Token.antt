-- ===== src/Auth/Token.antt =====
-- API tokens, internal/auth/token.go: a tree of token records and a tree from the hashes of the tokens to
-- their identifiers, in the storage engine.
pub mod Revoked
use monsoon.Prelude.{
  ℕ, Bool, true, false, Option, none, some, List, [], ◌∷◌, ◌++◌, ◌⊎◌, inl, inr, ◌==◌, if◌then◌else◌,
  length, take, drop, ℤ, pos, ltbℤ,
}
use monsoon.Bytes.{Bytes, has_prefix}
use monsoon.Text.{trim_space}
use monsoon.Storage.Wal.{Faults}
use monsoon.Storage.Engine
use monsoon.Storage.Engine.{Engine, Mutation, TxError, tx_put, tx_delete}
use monsoon.Auth
use monsoon.Auth.{Identity, sanitize_role}

-- "api_tokens"
abbrev pub tree_tokens : Bytes
tree_tokens = b'a' ∷ b'p' ∷ b'i' ∷ b'_' ∷ b't' ∷ b'o' ∷ b'k' ∷ b'e' ∷ b'n' ∷ b's' ∷ []

-- "api_tokens_by_hash"
abbrev pub tree_tokens_by_hash : Bytes
tree_tokens_by_hash = tree_tokens ++ b'_' ∷ b'b' ∷ b'y' ∷ b'_' ∷ b'h' ∷ b'a' ∷ b's' ∷ b'h' ∷ []

-- `tokenRecord`
pub record TokenRecord : Type 0 where
  pub id : Bytes
  pub name : Bytes
  pub role : Bytes
  pub hash : Bytes
  pub shown : Bytes
  pub created_at : ℤ
  pub expires_at : Option ℤ
  pub last_used_at : Option ℤ
  pub description : Bytes

-- `APIToken`
pub record ApiToken : Type 0 where
  pub id : Bytes
  pub name : Bytes
  pub role : Bytes
  pub shown : Bytes
  pub created_at : ℤ
  pub expires_at : Option ℤ
  pub last_used_at : Option ℤ
  pub description : Bytes

-- JSON on records, and `tokenHash`
pub record TokenCodec : Type 0 where
  pub marshal : TokenRecord → Option Bytes
  pub unmarshal : Bytes → Option TokenRecord
  pub token_hash : Bytes → Bytes

pub data TokenError : Type 0 where
  name_required no_random not_encoded not_found bad_record invalid_credentials : TokenError
  store_failed : TxError → TokenError

-- `toPublicToken`
abbrev pub to_public_token : TokenRecord → ApiToken
to_public_token r = record {
  id = r.id;
  name = r.name;
  role = r.role;
  shown = r.shown;
  created_at = r.created_at;
  expires_at = r.expires_at;
  last_used_at = r.last_used_at;
  description = r.description;
}

-- "msn_"
abbrev pub token_prefix : Bytes
token_prefix = b'm' ∷ b's' ∷ b'n' ∷ b'_' ∷ []

-- `strings.TrimPrefix`
abbrev pub trim_prefix : Bytes → Bytes → Bytes
trim_prefix s p = if has_prefix s p then drop (length p) s else s

-- "token" and "token:"
abbrev pub token_type : Bytes
token_type = b't' ∷ b'o' ∷ b'k' ∷ b'e' ∷ b'n' ∷ []

abbrev pub is_over : ℤ → Option ℤ → Bool
is_over now none = false
is_over now (some t) = ltbℤ t now

-- what `RevokeToken` deletes
abbrev pub deletions : TokenRecord → List Mutation
deletions r = tx_delete tree_tokens_by_hash r.hash (tx_delete tree_tokens r.id [])

module _ (c : TokenCodec) (os : ℕ → Faults) where
  abbrev pub Issued : Type 0
  Issued = Engine × ((ApiToken × Bytes) ⊎ TokenError)

  abbrev issued : TokenRecord → Bytes → Engine × Option TxError → Issued
  issued r token (e, none) = (e, inl (to_public_token r, token_prefix ++ token))
  issued r token (e, some x) = (e, inr (store_failed x))

  abbrev store_token : ℕ → TokenRecord → Bytes → Engine → Option Bytes → Issued
  store_token now r token e none = (e, inr not_encoded)
  store_token now r token e (some raw) = issued r token (
      Engine.tx os now true
        (some (tx_put tree_tokens_by_hash r.hash r.id (tx_put tree_tokens r.id raw []))) e)

  abbrev with_random :
      ℕ → Bytes → Bytes → Option ℤ → Bytes → Option Bytes → Option Bytes → Engine → Issued
  with_random now name role expires_at description (some token) (some id) e =
      let r : TokenRecord = record {
        id = id;
        name = name;
        role = sanitize_role (trim_space role);
        hash = c.token_hash token;
        shown = take 8 token;
        created_at = pos now;
        expires_at = expires_at;
        last_used_at = none;
        description = trim_space description;
      } in
      store_token now r token e (c.marshal r)
  with_random now name role expires_at description (some token) none e = (e, inr no_random)
  with_random now name role expires_at description none id e = (e, inr no_random)

  -- `CreateToken`, with what `randomHex` gives for the token and its identifier
  unfoldable pub create_token :
      ℕ → Bytes → Bytes → Option ℤ → Bytes → Option Bytes → Option Bytes → Engine → Issued
  unfolding trim_space sanitize_role Engine.tx
  create_token now name role expires_at description token id e =
      if length (trim_space name) == 0
      then (e, inr name_required)
      else with_random now (trim_space name) role expires_at description token id e

  -- `ListTokens`
  unfoldable pub list_tokens : Engine → List ApiToken
  unfolding Engine.iterate
  list_tokens e =
      let fn : Bytes → Bytes → List ApiToken → List ApiToken × Bool = λ k v out.
        (elim (c.unmarshal v) [ none ↦ out | some r ↦ out ++ to_public_token r ∷ [] ], true) in
      (Engine.iterate tree_tokens [] [] fn e []).0

  abbrev pub Revocation : Type 0
  Revocation = Engine × Option TokenError

  abbrev pub revocation : Engine × Option TxError → Revocation
  revocation (e, none) = (e, none)
  revocation (e, some x) = (e, some (store_failed x))

  unfoldable pub revoke_record : ℕ → Engine → Option TokenRecord → Revocation
  unfolding Engine.tx
  revoke_record now e none = (e, some bad_record)
  revoke_record now e (some r) = revocation (Engine.tx os now true (some (deletions r)) e)

  unfoldable pub revoke_raw : ℕ → Engine → Option Bytes → Revocation
  unfolding revoke_record
  revoke_raw now e none = (e, some not_found)
  revoke_raw now e (some raw) = revoke_record now e (c.unmarshal raw)

  -- `RevokeToken`
  unfoldable pub revoke_token : ℕ → Bytes → Engine → Revocation
  unfolding revoke_raw Engine.get trim_space
  revoke_token now id e = revoke_raw now e (Engine.get tree_tokens (trim_space id) e)

  abbrev pub Authenticated : Type 0
  Authenticated = Engine × (Identity ⊎ TokenError)

  abbrev used_at : ℕ → TokenRecord → TokenRecord
  used_at now r = record r { last_used_at = some (pos now) }

  -- the record with the time of its use is written, and an error is ignored
  abbrev touched : ℕ → TokenRecord → Engine → Option Bytes → Engine
  touched now r e none = e
  touched now r e (some raw) = (Engine.put os now tree_tokens r.id raw e).0

  abbrev identity_of : TokenRecord → Identity
  identity_of r = record {
    username = token_type ++ b':' ∷ r.name;
    role = r.role;
    auth_type = token_type;
    token_id = r.id;
  }

  unfoldable pub accept_record : ℕ → Engine → Option TokenRecord → Authenticated
  unfolding Engine.put
  accept_record now e none = (e, inr bad_record)
  accept_record now e (some r) =
      if is_over (pos now) r.expires_at
      then (e, inr invalid_credentials)
      else (touched now r e (c.marshal (used_at now r)), inl (identity_of r))

  unfoldable pub accept_raw : ℕ → Engine → Option Bytes → Authenticated
  unfolding accept_record
  accept_raw now e none = (e, inr invalid_credentials)
  accept_raw now e (some raw) = accept_record now e (c.unmarshal raw)

  unfoldable pub accept_id : ℕ → Engine → Option Bytes → Authenticated
  unfolding accept_raw Engine.get
  accept_id now e none = (e, inr invalid_credentials)
  accept_id now e (some id) = accept_raw now e (Engine.get tree_tokens id e)

  -- `AuthenticateBearer`
  unfoldable pub authenticate_bearer : ℕ → Bytes → Engine → Authenticated
  unfolding accept_id Engine.get trim_space has_prefix
  authenticate_bearer now token e =
      let token' = trim_space token in
      if length token' == 0
      then (e, inr invalid_credentials)
      else accept_id now e
          (Engine.get tree_tokens_by_hash (c.token_hash (trim_prefix token' token_prefix)) e)
