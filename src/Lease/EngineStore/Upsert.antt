-- ===== src/Lease/EngineStore/Upsert.antt =====
-- A lease that `Upsert` of internal/lease/store.go has stored is found again, also by an engine that is
-- opened on the files.
use monsoon.Prelude.{
  ℕ, Bool, Option, none, some, List, ◌≡◌, ◌⊎◌, inl, inr, refl, sym, ap, ◌∙◌, arith, ◌==◌,
  Bool-cases, length, pos,
}
use mathlib.Core.Path.{subst}
use monsoon.Bytes.{Bytes}
use monsoon.GoMap.{Map, bytes_eq}
use monsoon.Text.{trim_space}
use monsoon.Lease.{Lease, normalize_defaults}
use monsoon.Lease.EngineStore
use monsoon.Lease.EngineStore.{
  Codec, StoreError, not_found, ip_required, bad_lease, tx_failed, tree_leases, tree_lease_by_mac,
  tree_lease_by_client, tree_lease_by_subnet, tree_lease_by_expiry, index_sep,
}
use monsoon.Storage.BTree
use monsoon.Storage.BTree.{BTree}
use monsoon.Storage.Wal
use monsoon.Storage.Wal.{Faults}
use monsoon.Storage.Engine
use monsoon.Storage.Engine.{
  Engine, Mutation, TxError, opened, must_tree, tx_put, tx_delete, apply_mutation, tree_key_sep,
}
use monsoon.Storage.Engine.Commit.{IsDurable}
use monsoon.Storage.Engine.Recovery.{tx-IsDurable, open_engine-IsDurable}
use monsoon.Storage.Engine.Lookup.{get_in, get-set_self}
use monsoon.Storage.Engine.Committed.{get_in-must_tree}
use monsoon.Lease.EngineStore.Mutations.{Does-upsert_mutations, tx_result-none, tx_result-engine}

module _ (c : Codec) where
  -- What a stored lease leaves: a durable engine in which the address has the encoding of the lease.
  record Put (base : Map Bytes BTree) (l : Lease) (r : Engine × Option StoreError) : Type 0 where
    raw : Bytes
    encoded : c.marshal l ≡ some raw
    durable : IsDurable base r.0
    found : get_in tree_leases l.ip r.0.trees ≡ some raw

  module _ (base : Map Bytes BTree) (os : ℕ → Faults) (now : ℕ) (notify : Bool) where
    tx-Put :
        (l : Lease) {raw : Bytes} (old : Option Lease) (e : Engine)
        → c.marshal l ≡ some raw
        → IsDurable base e
        → (EngineStore.tx_result c
            (Engine.tx os now notify (some (EngineStore.upsert_mutations c l raw old)) e)).1
          ≡ none
        → Put base l (
            EngineStore.tx_result c
              (Engine.tx os now notify (some (EngineStore.upsert_mutations c l raw old)) e))
    tx-Put l {raw} old e h d done =
        let ms = EngineStore.upsert_mutations c l raw old in
        let (proper, sets) = Does-upsert_mutations c l raw old in
        let r = Engine.tx os now notify (some ms) e in
        let (durable, trees) =
          tx-IsDurable base os now notify ms e proper d (tx_result-none c r done) in
        let same = tx_result-engine c r in
        record {
          raw = raw;
          encoded = h;
          durable = subst (IsDurable base) (sym same) durable;
          found =
              ap (λ x. get_in tree_leases l.ip x.trees) same
              ∙ get_in-must_tree tree_leases l.ip r.0.trees
              ∙ ap (λ x. BTree.get (must_tree tree_leases x) l.ip) trees
              ∙ ap (λ t. BTree.get t l.ip) (sets e.trees)
              ∙ get-set_self _ l.ip raw;
        }

    upsert_found-Put :
        (l : Lease) {raw : Bytes} (found : Lease ⊎ StoreError) (e : Engine)
        → c.marshal l ≡ some raw
        → IsDurable base e
        → (EngineStore.upsert_found c os now notify l raw found e).1 ≡ none
        → Put base l (EngineStore.upsert_found c os now notify l raw found e)
    unfolding EngineStore.upsert_found
    upsert_found-Put l (inl old) e h d done = tx-Put l (some old) e h d done
    upsert_found-Put l (inr not_found) e h d done = tx-Put l none e h d done
    upsert_found-Put l (inr ip_required) e h d done = cc
    upsert_found-Put l (inr bad_lease) e h d done = cc
    upsert_found-Put l (inr (tx_failed x)) e h d done = cc

    upsert_normal-Put :
        (l : Lease) (raw : Option Bytes) (e : Engine)
        → c.marshal l ≡ raw
        → IsDurable base e
        → (EngineStore.upsert_normal c os now notify l raw e).1 ≡ none
        → Put base l (EngineStore.upsert_normal c os now notify l raw e)
    unfolding EngineStore.upsert_normal
    upsert_normal-Put l none e h d done = cc
    upsert_normal-Put l (some raw) e h d done =
        upsert_found-Put l (EngineStore.get_by_ip c l.ip e) e h d done

    -- the lease as `upsert` completes it
    abbrev stored : Lease → Lease
    stored l = normalize_defaults (pos now) (pos 43200000000000) l

    upsert-Put :
        (l : Lease) (e : Engine)
        → IsDurable base e
        → (EngineStore.upsert c os now notify l e).1 ≡ none
        → Put base (stored l) (EngineStore.upsert c os now notify l e)
    unfolding EngineStore.upsert
    upsert-Put l e d done = elim (Bool-cases (length (trim_space l.ip) == 0)) [
      | inl h ↦ absurd (ground (arith, done))
      | inr h ↦ rw h (upsert_normal-Put (stored l) _ e refl d (ground (arith, done)))
    ]

    Put-get_by_ip :
        (l : Lease) (r : Engine × Option StoreError)
        → ((raw : Bytes) → c.marshal l ≡ some raw → c.unmarshal raw ≡ some l)
        → Put base l r
        → (e : Engine) → e.trees ≡ r.0.trees
        → EngineStore.get_by_ip c l.ip e ≡ inl l
    unfolding EngineStore.get_by_ip EngineStore.decode_lease Engine.get
    Put-get_by_ip l r codec p e same =
        let has = ap (get_in tree_leases l.ip) same ∙ p.found in
        rw (has, EngineStore.decode_lease, codec p.raw p.encoded) refl

module _ (c : Codec) (snapshot : Map Bytes BTree) (names : List Bytes) where
  -- An upsert that reports no error leaves a durable engine in which `GetByIP` finds under the
  -- address of the lease the lease as completed by `NormalizeDefaults`. Opening the files that it
  -- leaves succeeds, where the operating system lets the log's file be opened, and the engine that
  -- it returns finds the same lease. This holds of a durable engine over the snapshot and the named
  -- trees, of any faults, and of a codec that reads what it has written of that lease.
  pub upsert-get_by_ip :
      (os : ℕ → Faults) (now : ℕ) (notify : Bool) (f : Faults) (l : Lease) (e : Engine)
      → ((raw : Bytes)
          → c.marshal (normalize_defaults (pos now) (pos 43200000000000) l) ≡ some raw
          → c.unmarshal raw ≡ some (normalize_defaults (pos now) (pos 43200000000000) l))
      → IsDurable (Engine.with_trees names snapshot) e
      → (EngineStore.upsert c os now notify l e).1 ≡ none
      → (Wal.open_wal f (EngineStore.upsert c os now notify l e).0.wal.dir).1 ≡ none
      → IsDurable (Engine.with_trees names snapshot) (EngineStore.upsert c os now notify l e).0
        × (EngineStore.get_by_ip c l.ip (EngineStore.upsert c os now notify l e).0
            ≡ inl (normalize_defaults (pos now) (pos 43200000000000) l))
        × ((e' : Engine) × (Engine.open_engine f
                (EngineStore.upsert c os now notify l e).0.wal.dir
                snapshot
                names
              ≡ opened e')
            × (EngineStore.get_by_ip c l.ip e'
                ≡ inl (normalize_defaults (pos now) (pos 43200000000000) l)))
  unfolding normalize_defaults
  upsert-get_by_ip os now notify f l e codec d done can =
      let base = Engine.with_trees names snapshot in
      let r = EngineStore.upsert c os now notify l e in
      let l' = normalize_defaults (pos now) (pos 43200000000000) l in
      let p = upsert-Put c base os now notify l e d done in
      let again = open_engine-IsDurable snapshot names f r.0 p.durable can in
      (
        p.durable,
        Put-get_by_ip c base os now notify l' r codec p r.0 refl,
        (
          again.engine,
          again.opens,
          Put-get_by_ip c base os now notify l' r codec p again.engine again.trees_are,
        ),
      )
