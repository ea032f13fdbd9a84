-- ===== src/Auth/Token/Revoked.antt =====
-- A revoked token of internal/auth/token.go.
use monsoon.Prelude.{
  ℕ, true, Option, none, some, List, inr, ◌≡◌, ◌∙◌, ap, sym, refl, ◌==◌, if_intro, length,
}
use mathlib.Core.Path.{subst}
use monsoon.Bytes.{Bytes}
use monsoon.GoMap.{Map}
use monsoon.Text.{trim_space}
use monsoon.Storage.BTree.{BTree}
use monsoon.Storage.Wal
use monsoon.Storage.Wal.{Faults}
use monsoon.Storage.Engine
use monsoon.Storage.Engine.{Engine, TxError, opened}
use monsoon.Storage.Engine.TreeKey.{IsTreeName}
use monsoon.Storage.Engine.Commit.{AreProper, IsDurable, apply_mutations}
use monsoon.Storage.Engine.Recovery.{tx-IsDurable, open_engine-IsDurable}
use monsoon.Storage.Engine.Lookup.{get_in, get_in-delete, lacks_sep, lacks_sep-IsTreeName}
use monsoon.Auth.Token
use monsoon.Auth.Token.{
  TokenCodec, TokenRecord, tree_tokens, tree_tokens_by_hash, token_prefix, trim_prefix, deletions,
  authenticate_bearer, revoke_record, revoke_token, invalid_credentials,
}

tokens_name : IsTreeName tree_tokens
unfolding lacks_sep
tokens_name = lacks_sep-IsTreeName _ _ refl

hashes_name : IsTreeName tree_tokens_by_hash
unfolding lacks_sep
hashes_name = lacks_sep-IsTreeName _ _ refl

deletions-AreProper : (r : TokenRecord) → AreProper (deletions r)
deletions-AreProper r = (
  record { names = tokens_name; op_known = refl },
  (record { names = hashes_name; op_known = refl }, tt),
)

-- the hash is gone behind the deletions
deletions-gone :
    (r : TokenRecord) (trees : Map Bytes BTree)
    → get_in tree_tokens_by_hash r.hash (apply_mutations (deletions r) trees) ≡ none
unfolding apply_mutations
deletions-gone r trees = get_in-delete tree_tokens_by_hash r.hash _

module _ (c : TokenCodec) (os : ℕ → Faults) where
  -- a token whose hash is not stored
  bearer-refused :
      (now : ℕ) (token hash : Bytes) (e : Engine)
      → c.token_hash (trim_prefix (trim_space token) token_prefix) ≡ hash
      → get_in tree_tokens_by_hash hash e.trees ≡ none
      → authenticate_bearer c os now token e ≡ (e, inr invalid_credentials)
  unfolding authenticate_bearer Engine.get
  bearer-refused now token hash e is gone =
      let P : Token.Authenticated c os → Type 0 = λ x. x ≡ (e, inr invalid_credentials) in
      if_intro P (length (trim_space token) == 0) (λ empty. refl)
        (λ there.
          ap (λ h. Token.accept_id c os now e (get_in tree_tokens_by_hash h e.trees)) is
          ∙ ap (Token.accept_id c os now e) gone
          ∙ unfold Token.accept_id in refl)

  revocation-none :
      (r : Engine × Option TxError)
      → (Token.revocation c os r).1 ≡ none
      → (r.1 ≡ none) × ((Token.revocation c os r).0 ≡ r.0)
  revocation-none (e, none) h = (refl, refl)
  revocation-none (e, some x) h = absurd cc

  -- an engine without the hash
  record Forgets (base : Map Bytes BTree) (hash : Bytes) (e : Engine) : Type 0 where
    durable : IsDurable base e
    gone : get_in tree_tokens_by_hash hash e.trees ≡ none

  revoke_record-Forgets :
      (base : Map Bytes BTree) (now : ℕ) (r : TokenRecord) (e : Engine)
      → IsDurable base e
      → (revoke_record c os now e (some r)).1 ≡ none
      → Forgets base r.hash (revoke_record c os now e (some r)).0
  unfolding revoke_record
  revoke_record-Forgets base now r e d done =
      let (fine, same) = revocation-none (Engine.tx os now true (some (deletions r)) e) done in
      let (durable, trees) =
        tx-IsDurable base os now true (deletions r) e (deletions-AreProper r) d fine in
      subst (Forgets base r.hash) (sym same) (record {
        durable = durable;
        gone = ap (get_in tree_tokens_by_hash r.hash) trees ∙ deletions-gone r e.trees;
      })

  revoke_token-found :
      (now : ℕ) (id raw : Bytes) (r : TokenRecord) (e : Engine)
      → Engine.get tree_tokens (trim_space id) e ≡ some raw
      → c.unmarshal raw ≡ some r
      → revoke_token c os now id e ≡ revoke_record c os now e (some r)
  unfolding revoke_token Token.revoke_raw
  revoke_token-found now id raw r e here decoded =
      ap (Token.revoke_raw c os now e) here ∙ ap (revoke_record c os now e) decoded

  module _ (snapshot : Map Bytes BTree) (names : List Bytes) where
    -- A token whose revocation reported no error is refused from then on: by the engine at hand, and
    -- by the one that opening its files again returns, at any time, so that a restart does not bring
    -- it back. This holds of a durable engine over the snapshot and the named trees that has the
    -- token's record, and of any faults.
    pub revoke_token-refuses :
        (f : Faults) (now later : ℕ) (id raw token : Bytes) (r : TokenRecord) (e : Engine)
        → IsDurable (Engine.with_trees names snapshot) e
        → Engine.get tree_tokens (trim_space id) e ≡ some raw
        → c.unmarshal raw ≡ some r
        → c.token_hash (trim_prefix (trim_space token) token_prefix) ≡ r.hash
        → (revoke_token c os now id e).1 ≡ none
        → (Wal.open_wal f (revoke_token c os now id e).0.wal.dir).1 ≡ none
        → (authenticate_bearer c os later token (revoke_token c os now id e).0
            ≡ ((revoke_token c os now id e).0, inr invalid_credentials))
          × ((e' : Engine) × (Engine.open_engine f
                  (revoke_token c os now id e).0.wal.dir
                  snapshot
                  names
                ≡ opened e')
              × (authenticate_bearer c os later token e' ≡ (e', inr invalid_credentials)))
    revoke_token-refuses f now later id raw token r e d here decoded is done can =
        let base = Engine.with_trees names snapshot in
        let same = revoke_token-found now id raw r e here decoded in
        let forgets =
          subst (λ x. Forgets base r.hash x.0) (sym same)
            (revoke_record-Forgets base now r e d (ap (λ x. x.1) (sym same) ∙ done)) in
        let e1 = (revoke_token c os now id e).0 in
        let again = open_engine-IsDurable snapshot names f e1 forgets.durable can in
        (
          bearer-refused later token r.hash e1 is forgets.gone,
          (
            again.engine,
            again.opens,
            bearer-refused later token r.hash again.engine is
                (ap (get_in tree_tokens_by_hash r.hash) again.trees_are ∙ forgets.gone),
          ),
        )
