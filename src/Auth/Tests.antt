-- ===== src/Auth/Tests.antt =====
-- The theorems on accounts, sessions and tokens at concrete values.
use monsoon.Prelude.{
  true, false, none, some, List, [], ◌∷◌, ◌≡◌, refl, inr, ◌==◌, length, ℤ, pos, ltbℤ, ◌+ℤ◌,
}
use monsoon.Bytes.{Bytes, equal, has_prefix, put_uint16, put_uint32}
use monsoon.GoMap.{lookup, insert, bytes_eq}
use monsoon.GoMap.Laws.{Distinct}
use monsoon.Text.{trim_space}
use monsoon.Lease.{is_zero}
use monsoon.Storage.BTree
use monsoon.Storage.Wal
use monsoon.Storage.Engine
use monsoon.Storage.Engine.{Engine, Mutation, make_tree_key}
use monsoon.Storage.Engine.Commit.{IsDurable, AreProper}
use monsoon.Storage.Engine.Recovery.{tx-IsDurable}
use monsoon.Storage.Engine.TreeKey.{IsTreeName}
use monsoon.Storage.Engine.Lookup.{lacks_sep, lacks_sep-IsTreeName}
use monsoon.Storage.LogTests.{quiet, engine, names, engine-IsDurable}
use monsoon.Storage.Numeric.{safe_uint16_from_int, safe_uint32_from_int}
use monsoon.Storage.Record.{encode}
use monsoon.Auth.{User, Identity, normalize_username, role_viewer}
use monsoon.Auth.Lockout.{LockoutTracker}
use monsoon.Auth.Lockout.Locks.{Counts}
use monsoon.Auth.Local.{Crypto, Service, authenticate_local, get_user, account_locked, tree_users}
use monsoon.Auth.Local.Attempts.{attempt_all, attempt_all-locks}
use monsoon.Auth.Session.{
  SessionCodec, SessionManager, validate, validate_entry, revoke_by_username,
}
use monsoon.Auth.Session.Revoke.{kept, lookup-revoke_by_username}
use monsoon.Auth.Token.{
  TokenCodec, TokenRecord, tree_tokens, token_prefix, trim_prefix, authenticate_bearer,
  revoke_token, invalid_credentials,
}
use monsoon.Auth.Token.Revoked.{revoke_token-refuses}

abbrev account : Bytes
account = b'u' ∷ []

abbrev user : User
user = record {
  username = account;
  role = role_viewer;
  password_hash = b'p' ∷ [];
  created_at = pos 1;
  updated_at = pos 1;
}

-- names are in lower case, and a hash is its password
abbrev crypto : Crypto
crypto = record {
  to_lower = λ s. s;
  marshal = λ u. some u.username;
  unmarshal = λ raw. some user;
  compare_hash = equal;
  generate_hash = λ s. some s;
}

abbrev tracker : LockoutTracker
tracker = record { entries = []; max_failed_attempts = 2; lockout_duration = pos 10 }

abbrev service : Service
service = record {
  store = record engine {
    trees = (tree_users, record { keys = account ∷ []; items = (account, b'x' ∷ []) ∷ [] }) ∷ [];
  };
  lockouts = tracker;
}

account-stable :
    normalize_username crypto.to_lower (normalize_username crypto.to_lower account)
    ≡ normalize_username crypto.to_lower account
unfolding normalize_username trim_space
account-stable = refl

account-named : (length (normalize_username crypto.to_lower account) == 0) ≡ false
unfolding normalize_username trim_space
account-named = refl

account-known : get_user crypto (λ i. quiet) account service ≡ some user
unfolding get_user lookup equal BTree.get
account-known = refl

wrong_password : crypto.compare_hash user.password_hash (b'q' ∷ []) ≡ false
unfolding equal
wrong_password = refl

tracker-open :
    Counts (normalize_username crypto.to_lower account) account-named 2 (pos 10) 0 tracker
unfolding lookup
tracker-open = record { limit = refl; lasts = refl; entry = refl }

lock_ends : is_zero (pos 101 +ℤ pos 10) ≡ false
unfolding ◌+ℤ◌
lock_ends = refl

lock_lasts : ltbℤ (pos 105) (pos 101 +ℤ pos 10) ≡ true
unfolding ◌+ℤ◌
lock_lasts = refl

abbrev tries : List (ℤ × Bytes)
tries = (pos 100, b'q' ∷ []) ∷ []

abbrev locked_service : Service
locked_service =
    (authenticate_local crypto (λ i. quiet) (pos 101) account (b'q' ∷ [])
      (attempt_all crypto (λ i. quiet) account tries service)).0

attempt_all-locks_example :
    authenticate_local crypto (λ i. quiet) (pos 105) account (b'p' ∷ []) locked_service
    ≡ (locked_service, inr (account_locked (pos 101 +ℤ pos 10)))
attempt_all-locks_example =
    attempt_all-locks crypto (λ i. quiet) account account-stable account-named 2 (pos 10) tries
      (pos 101) (pos 105) (b'q' ∷ []) (b'p' ∷ []) user service refl account-known
      (wrong_password, tt) wrong_password tracker-open lock_ends lock_lasts

abbrev identity : Bytes → Identity
identity name = record { username = name; role = role_viewer; auth_type = []; token_id = [] }

abbrev session_codec : SessionCodec
session_codec = record { marshal = λ e. none; unmarshal = λ raw. none }

abbrev sessions : SessionManager
sessions = record {
  sessions =
      (b'1' ∷ [], record { identity = identity account; expires_at = pos 50 })
      ∷ (b'2' ∷ [], record { identity = identity (b'v' ∷ []); expires_at = pos 50 })
      ∷ [];
  ttl = pos 10;
  store = engine;
}

sessions-Distinct : Distinct sessions.sessions
unfolding lookup equal
sessions-Distinct = (refl, (refl, tt))

lookup-revoke_by_username_example :
    (lookup
        (b'2' ∷ [])
        (revoke_by_username session_codec (λ i. quiet) 20 account sessions).0.sessions
      ≡ kept account (lookup (b'2' ∷ []) sessions.sessions))
    × ((validate session_codec
          (λ i. quiet)
          30
          (b'2' ∷ [])
          (revoke_by_username session_codec (λ i. quiet) 20 account sessions).0).1
        ≡ (validate_entry session_codec
            (λ i. quiet)
            30
            (b'2' ∷ [])
            (kept account (lookup (b'2' ∷ []) sessions.sessions))
            sessions).1)
lookup-revoke_by_username_example =
    lookup-revoke_by_username session_codec (λ i. quiet) 20 30 account sessions sessions-Distinct
      (b'2' ∷ [])

-- a token, whose hash is the token
abbrev token : TokenRecord
token = record {
  id = b'i' ∷ [];
  name = b'n' ∷ [];
  role = role_viewer;
  hash = b'h' ∷ [];
  shown = [];
  created_at = pos 1;
  expires_at = none;
  last_used_at = none;
  description = [];
}

abbrev token_codec : TokenCodec
token_codec = record {
  marshal = λ r. some r.id;
  unmarshal = λ raw. some token;
  token_hash = λ s. s;
}

-- the engine with the token's record
abbrev stored_record : List Mutation
stored_record = Engine.tx_put tree_tokens (b'i' ∷ []) (b'r' ∷ []) []

abbrev with_token : Engine
with_token = (Engine.tx (λ i. quiet) 5 true (some stored_record) engine).0

stored : (Engine.tx (λ i. quiet) 5 true (some stored_record) engine).1 ≡ none
unfolding Engine.tx Engine.commit_all Engine.commit_mutation Wal.append encode safe_uint16_from_int
    make_tree_key safe_uint32_from_int put_uint16 put_uint32 Wal.open_wal lookup
stored = refl

tokens_name : IsTreeName tree_tokens
unfolding lacks_sep
tokens_name = lacks_sep-IsTreeName _ _ refl

stored-AreProper : AreProper stored_record
stored-AreProper = (record { names = tokens_name; op_known = refl }, tt)

with_token-IsDurable : IsDurable (Engine.with_trees names []) with_token
with_token-IsDurable =
    (tx-IsDurable (Engine.with_trees names []) (λ i. quiet) 5 true stored_record engine
      stored-AreProper engine-IsDurable stored).0

token_here : Engine.get tree_tokens (trim_space (b'i' ∷ [])) with_token ≡ some (b'r' ∷ [])
unfolding Engine.get Engine.tx Engine.commit_all Engine.commit_mutation Wal.append encode
    safe_uint16_from_int make_tree_key safe_uint32_from_int put_uint16 put_uint32 Wal.open_wal
    lookup trim_space insert equal BTree.get BTree.set Engine.apply_mutation Engine.with_trees
token_here = refl

token_hashed :
    token_codec.token_hash (trim_prefix (trim_space (b'h' ∷ [])) token_prefix) ≡ token.hash
unfolding trim_space has_prefix
token_hashed = refl

abbrev without_token : Engine
without_token = (revoke_token token_codec (λ i. quiet) 6 (b'i' ∷ []) with_token).0

revoked : (revoke_token token_codec (λ i. quiet) 6 (b'i' ∷ []) with_token).1 ≡ none
unfolding revoke_token Engine.get Engine.tx Engine.commit_all Engine.commit_mutation Wal.append
    encode safe_uint16_from_int make_tree_key safe_uint32_from_int put_uint16 put_uint32
    Wal.open_wal lookup trim_space insert equal BTree.get BTree.set Engine.apply_mutation
    Engine.with_trees
revoked = refl

reopens : (Wal.open_wal quiet without_token.wal.dir).1 ≡ none
unfolding Wal.open_wal
reopens = refl

revoke_token-refuses_example :
    (authenticate_bearer token_codec (λ i. quiet) 7 (b'h' ∷ []) without_token
      ≡ (without_token, inr invalid_credentials))
    × ((e' : Engine) × (Engine.open_engine quiet without_token.wal.dir [] names ≡ Engine.opened e')
        × (authenticate_bearer token_codec (λ i. quiet) 7 (b'h' ∷ []) e'
            ≡ (e', inr invalid_credentials)))
revoke_token-refuses_example =
    revoke_token-refuses token_codec (λ i. quiet) [] names quiet 6 7 (b'i' ∷ []) (b'r' ∷ [])
      (b'h' ∷ []) token with_token with_token-IsDurable token_here refl token_hashed revoked reopens
