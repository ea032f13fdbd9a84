-- ===== src/Auth/Session/Revoke.antt =====
-- What `RevokeByUsername` of internal/auth/session.go leaves.
use monsoon.Prelude.{
  ℕ, suc, Bool, true, false, Option, none, some, [], ◌∷◌, ◌≡◌, ◌∙◌, ap, sym, refl, if◌then◌else◌,
  if_intro, ltbℤ, pos, Bool-cases, inl, inr,
}
use monsoon.Bytes.{Bytes, equal}
use monsoon.GoMap.{Map, lookup, bytes_eq}
use monsoon.GoMap.Laws.{Distinct, lookup-erase}
use monsoon.Storage.Wal.{Faults}
use monsoon.Auth.Session.{
  SessionCodec, SessionEntry, SessionManager, validate, validate_entry, revoke, revoke_each,
  revoke_by_username, delete_session,
}

-- an entry that a revocation of the user's sessions leaves
abbrev pub kept : Bytes → Option SessionEntry → Option SessionEntry
kept username none = none
kept username (some e) = if equal e.identity.username username then none else some e

module _ (c : SessionCodec) (os : ℕ → Faults) where
  lookup-revoke :
      (now : ℕ) (id k : Bytes) (m : SessionManager)
      → lookup k (revoke c os now id m).sessions
        ≡ (if bytes_eq.beq id k then none else lookup k m.sessions)
  unfolding revoke delete_session
  lookup-revoke now id k m = lookup-erase id k m.sessions

  -- what is left of an entry when those of a list that are the user's have been revoked
  abbrev left : Bytes → Option SessionEntry → Option SessionEntry → Option SessionEntry
  left username none o = o
  left username (some e) o = if equal e.identity.username username then none else o

  revoked :
      (username : Bytes) (e : SessionEntry) (b : Bool) (o g : Option SessionEntry)
      → equal e.identity.username username ≡ true
      → (b ≡ true → o ≡ none)
      → left username o (if b then none else g) ≡ left username (if b then some e else o) g
  revoked username e true o g h k = rw (k refl, h) refl
  revoked username e false o g h k = refl

  spared :
      (username : Bytes) (e : SessionEntry) (b : Bool) (o g : Option SessionEntry)
      → equal e.identity.username username ≡ false
      → (b ≡ true → o ≡ none)
      → left username o g ≡ left username (if b then some e else o) g
  spared username e true o g h k = rw (k refl, h) refl
  spared username e false o g h k = refl

  same_entry :
      (later : ℕ) (id : Bytes) (o : Option SessionEntry) (m n : SessionManager)
      → (validate_entry c os later id o m).1 ≡ (validate_entry c os later id o n).1
  unfolding validate_entry
  same_entry later id none m n = refl
  same_entry later id (some e) m n = elim (Bool-cases (ltbℤ e.expires_at (pos later))) [
    | inl over ↦ rw over refl
    | inr running ↦ rw running refl
  ]

  lookup-revoke_each :
      (now : ℕ) (username : Bytes) (l : Map Bytes SessionEntry) (n : ℕ) (m : SessionManager)
      → Distinct l
      → (k : Bytes)
      → lookup k (revoke_each c os now username l n m).0.sessions
        ≡ left username (lookup k l) (lookup k m.sessions)
  unfolding revoke_each lookup
  lookup-revoke_each now username [] n m d k = refl
  lookup-revoke_each now username ((id, e) ∷ l) n m d k =
      let b = equal e.identity.username username in
      if_intro {A = SessionManager × ℕ}
        (λ p.
          lookup k (revoke_each c os now username l p.1 p.0).0.sessions
          ≡ left username (if bytes_eq.beq id k then some e else lookup k l) (lookup k m.sessions))
        b
        (λ h.
          lookup-revoke_each now username l (suc n) (revoke c os now id m) d.1 k
          ∙ ap (left username (lookup k l)) (lookup-revoke now id k m)
          ∙ revoked username e (bytes_eq.beq id k) (lookup k l) (lookup k m.sessions) h
              (λ same. absent same))
        (λ h.
          lookup-revoke_each now username l n m d.1 k
          ∙ spared username e (bytes_eq.beq id k) (lookup k l) (lookup k m.sessions) h
              (λ same. absent same))
    where
      absent : bytes_eq.beq id k ≡ true → lookup k l ≡ none
      absent same = ap (λ j. lookup j l) (sym ((bytes_eq.beq_iff id k).0 same)) ∙ d.0

  left_self : (username : Bytes) (o : Option SessionEntry) → left username o o ≡ kept username o
  left_self username none = refl
  left_self username (some e) = refl

  -- Revoking a user's sessions removes exactly those: the entry of an identifier is gone where it was
  -- the user's, and as it was otherwise, so that a session of the user is valid no more and every
  -- other one is as valid as before. This holds of a map that has each identifier once.
  pub lookup-revoke_by_username :
      (now later : ℕ) (username : Bytes) (m : SessionManager)
      → Distinct m.sessions
      → (id : Bytes)
      → (lookup id (revoke_by_username c os now username m).0.sessions
          ≡ kept username (lookup id m.sessions))
        × ((validate c os later id (revoke_by_username c os now username m).0).1
            ≡ (validate_entry c os later id (kept username (lookup id m.sessions)) m).1)
  unfolding revoke_by_username validate validate_entry
  lookup-revoke_by_username now later username m d id =
      let r = (revoke_by_username c os now username m).0 in
      let found =
        lookup-revoke_each now username m.sessions 0 m d id
        ∙ left_self username (lookup id m.sessions) in
      (
        found,
        ap (λ o. (validate_entry c os later id o r).1) found
            ∙ same_entry later id (kept username (lookup id m.sessions)) r m,
      )
