-- ===== src/Auth/Session.antt =====
-- Sessions, internal/auth/session.go: a map in memory, and a tree of the storage engine that `Create`,
-- `Revoke` and an expired `Validate` keep up with it. The JSON codec is an argument, and random
-- identifiers are too.
pub mod Revoke
use monsoon.Prelude.{
  ℕ, suc, Bool, true, false, Option, none, some, List, [], ◌∷◌, ◌++◌, if◌then◌else◌, ℤ, pos, ltbℤ,
  is_not_positive, ◌+ℤ◌,
}
use monsoon.Bytes.{Bytes, equal}
use monsoon.GoMap.{Map, lookup, insert, erase, bytes_eq}
use monsoon.Storage.Wal.{Faults}
use monsoon.Storage.Engine
use monsoon.Storage.Engine.{Engine, TxError}
use monsoon.Auth.{Identity}

-- "sessions"
abbrev pub tree_sessions : Bytes
tree_sessions = b's' ∷ b'e' ∷ b's' ∷ b's' ∷ b'i' ∷ b'o' ∷ b'n' ∷ b's' ∷ []

-- `sessionEntry`
pub record SessionEntry : Type 0 where
  pub identity : Identity
  pub expires_at : ℤ

pub record SessionManager : Type 0 where
  pub sessions : Map Bytes SessionEntry
  pub ttl : ℤ
  pub store : Engine

-- `json.Marshal` and `json.Unmarshal` on entries
pub record SessionCodec : Type 0 where
  pub marshal : SessionEntry → Option Bytes
  pub unmarshal : Bytes → Option SessionEntry

pub data SessionError : Type 0 where
  session_not_found no_random not_encoded : SessionError
  not_stored : TxError → SessionError

module _ (c : SessionCodec) (os : ℕ → Faults) where
  -- `deleteSession`, which ignores an error
  unfoldable pub delete_session : ℕ → Bytes → SessionManager → SessionManager
  unfolding Engine.delete
  delete_session now id m = record m { store = (Engine.delete os now tree_sessions id m.store).0 }

  abbrev pub Created : Type 0
  Created = SessionManager × Option SessionError

  abbrev persisted : Bytes → SessionManager → Engine × Option TxError → Created
  persisted id m (e, none) = (record m { store = e }, none)
  persisted id m (e, some x) =
      (record m { store = e; sessions = erase id m.sessions }, some (not_stored x))

  abbrev persist : ℕ → Bytes → SessionManager → Option Bytes → Created
  persist now id m none = (record m { sessions = erase id m.sessions }, some not_encoded)
  persist now id m (some raw) = persisted id m (Engine.put os now tree_sessions id raw m.store)

  -- `Create`, with the identifier that `randomHex` gives; the session expires at `now + ttl`
  unfoldable pub create : ℕ → Option Bytes → Identity → SessionManager → Created
  unfolding ◌+ℤ◌ insert erase Engine.put
  create now none identity m = (m, some no_random)
  create now (some id) identity m =
      let entry : SessionEntry = record { identity = identity; expires_at = pos now +ℤ m.ttl } in
      persist now id (record m { sessions = insert id entry m.sessions }) (c.marshal entry)

  unfoldable pub validate_entry :
      ℕ → Bytes → Option SessionEntry → SessionManager → SessionManager × Option Identity
  unfolding delete_session erase
  validate_entry now id none m = (m, none)
  validate_entry now id (some e) m =
      if ltbℤ e.expires_at (pos now)
      then (delete_session now id (record m { sessions = erase id m.sessions }), none)
      else (m, some e.identity)

  -- `Validate`, `none` being ErrSessionNotFound
  unfoldable pub validate : ℕ → Bytes → SessionManager → SessionManager × Option Identity
  unfolding validate_entry lookup
  validate now id m = validate_entry now id (lookup id m.sessions) m

  -- `Revoke`
  unfoldable pub revoke : ℕ → Bytes → SessionManager → SessionManager
  unfolding delete_session erase
  revoke now id m = delete_session now id (record m { sessions = erase id m.sessions })

  -- the loop of `RevokeByUsername` over the sessions that there were
  unfoldable pub revoke_each :
      ℕ → Bytes → Map Bytes SessionEntry → ℕ → SessionManager → SessionManager × ℕ
  unfolding revoke equal
  revoke_each now username [] n m = (m, n)
  revoke_each now username ((id, e) ∷ rest) n m =
      let step : SessionManager × ℕ =
        if equal e.identity.username username then (revoke now id m, suc n) else (m, n) in
      revoke_each now username rest step.1 step.0

  -- `RevokeByUsername`
  unfoldable pub revoke_by_username : ℕ → Bytes → SessionManager → SessionManager × ℕ
  unfolding revoke_each equal
  revoke_by_username now username m = revoke_each now username m.sessions 0 m
