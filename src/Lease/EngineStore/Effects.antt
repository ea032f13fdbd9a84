-- ===== src/Lease/EngineStore/Effects.antt =====
-- What an upsert and a deletion of internal/lease/store.go that report no error do to the tree of leases.
use monsoon.Prelude.{
  ◌⊎◌, inl, inr, ℕ, false, Option, none, some, List, ◌≡◌, refl, sym, ap, ◌∙◌, ◌==◌, if_intro,
  Option-cases, length, pos,
}
use monsoon.Bytes.{Bytes}
use monsoon.Text.{trim_space}
use monsoon.GoMap.{bytes_eq}
use monsoon.Lease.{Lease, normalize_defaults}
use monsoon.Lease.EngineStore
use monsoon.Lease.EngineStore.{Codec, StoreError, tree_leases}
use monsoon.Lease.EngineStore.Mutations.{
  Does-upsert_mutations, Does-delete_mutations, tx_result-none, tx_result-engine,
}
use monsoon.Storage.BTree
use monsoon.Storage.BTree.{BTree}
use monsoon.Storage.Wal.{Faults}
use monsoon.Storage.Engine
use monsoon.Storage.Engine.{Engine, must_tree, Mutation, TxError}
use monsoon.Storage.Engine.Lookup.{get_in}
use monsoon.Storage.Engine.Committed.{tx-trees, get_in-must_tree}
use monsoon.Lease.EngineStore.Leases.{leases_of}

module _ (c : Codec) where
  module _ (os : ℕ → Faults) (now : ℕ) where
    -- A transaction of the store that reports no error has done this to the tree of the leases.
    tx-leases :
        (g : BTree → BTree) (ms : List Mutation) (e : Engine)
        → EngineStore.Mutations.Does g ms
        → (EngineStore.tx_result c (Engine.tx os now false (some ms) e)).1 ≡ none
        → leases_of (EngineStore.tx_result c (Engine.tx os now false (some ms) e)).0
          ≡ g (leases_of e)
    tx-leases g ms e (proper, does) h =
        let r = Engine.tx os now false (some ms) e in
        ap leases_of (tx_result-engine c r)
        ∙ ap (must_tree tree_leases) (tx-trees os now false ms e (tx_result-none c r h))
        ∙ does e.trees

    -- What an upsert without an error leaves.
    pub record Put (l : Lease) (e : Engine) (r : Engine × Option StoreError) : Type 0 where
      pub raw : Bytes
      pub encoded : c.marshal l ≡ some raw
      pub tree : leases_of r.0 ≡ BTree.set (leases_of e) l.ip raw

    upsert_found-Put :
        (l : Lease) (raw : Bytes) (found : Lease ⊎ StoreError) (e : Engine)
        → c.marshal l ≡ some raw
        → (EngineStore.upsert_found c os now false l raw found e).1 ≡ none
        → Put l e (EngineStore.upsert_found c os now false l raw found e)
    unfolding EngineStore.upsert_found
    upsert_found-Put l raw (inl old) e m h = record {
      raw = raw;
      encoded = m;
      tree = tx-leases (λ t. BTree.set t l.ip raw) _ e (Does-upsert_mutations c l raw (some old)) h;
    }
    upsert_found-Put l raw (inr EngineStore.not_found) e m h = record {
      raw = raw;
      encoded = m;
      tree = tx-leases (λ t. BTree.set t l.ip raw) _ e (Does-upsert_mutations c l raw none) h;
    }
    upsert_found-Put l raw (inr EngineStore.ip_required) e m h = cc
    upsert_found-Put l raw (inr EngineStore.bad_lease) e m h = cc
    upsert_found-Put l raw (inr (EngineStore.tx_failed x)) e m h = cc

    upsert_normal-Put :
        (l : Lease) (raw : Option Bytes) (e : Engine)
        → c.marshal l ≡ raw
        → (EngineStore.upsert_normal c os now false l raw e).1 ≡ none
        → Put l e (EngineStore.upsert_normal c os now false l raw e)
    unfolding EngineStore.upsert_normal
    upsert_normal-Put l none e m h = cc
    upsert_normal-Put l (some raw) e m h =
        upsert_found-Put l raw (EngineStore.get_by_ip c l.ip e) e m h

    pub upsert-Put :
        (l : Lease) (e : Engine)
        → (EngineStore.upsert c os now false l e).1 ≡ none
        → Put
            (normalize_defaults (pos now) (pos 43200000000000) l)
            e
            (EngineStore.upsert c os now false l e)
    unfolding EngineStore.upsert
    upsert-Put l e =
        let l' = normalize_defaults (pos now) (pos 43200000000000) l in
        if_intro {A = Engine × Option StoreError} (λ r. r.1 ≡ none → Put l' e r)
          (length (trim_space l.ip) == 0) (λ blank h. cc)
          (λ ip. upsert_normal-Put l' (c.marshal l') e refl)

    -- What a deletion without an error leaves.
    pub data Dropped (ip : Bytes) (e : Engine) (r : Engine × Option StoreError) : Type 0 where
      gone : leases_of r.0 ≡ (BTree.delete (leases_of e) ip).0 → Dropped ip e r
      absent : r.0 ≡ e → BTree.get (leases_of e) ip ≡ none → Dropped ip e r

    decoded-not_found :
        (o : Option Bytes) → EngineStore.decode_lease c o ≡ inr EngineStore.not_found → o ≡ none
    unfolding EngineStore.decode_lease
    decoded-not_found none h = refl
    decoded-not_found (some raw) h = elim (Option-cases (c.unmarshal raw)) [
      | inl bad ↦
          let e : inr EngineStore.bad_lease ≡ inr EngineStore.not_found =
            sym (rw (EngineStore.decode_lease, bad) refl) ∙ h in
          cc
      | inr (l, good) ↦
          let e : inl l ≡ inr EngineStore.not_found =
            sym (rw (EngineStore.decode_lease, good) refl) ∙ h in
          cc
    ]

    found-none :
        (ip : Bytes) (e : Engine)
        → EngineStore.get_by_ip c ip e ≡ inr EngineStore.not_found
        → BTree.get (leases_of e) ip ≡ none
    unfolding EngineStore.get_by_ip Engine.get
    found-none ip e h =
        sym (get_in-must_tree tree_leases ip e.trees)
        ∙ decoded-not_found (get_in tree_leases ip e.trees) h

    delete_found-Dropped :
        (ip : Bytes) (found : Lease ⊎ StoreError) (e : Engine)
        → EngineStore.get_by_ip c ip e ≡ found
        → (EngineStore.delete_found c os now false ip found e).1 ≡ none
        → Dropped ip e (EngineStore.delete_found c os now false ip found e)
    unfolding EngineStore.delete_found
    delete_found-Dropped ip (inl l) e f h =
        gone (tx-leases (λ t. (BTree.delete t ip).0) _ e (Does-delete_mutations c ip l) h)
    delete_found-Dropped ip (inr EngineStore.not_found) e f h = absent refl (found-none ip e f)
    delete_found-Dropped ip (inr EngineStore.ip_required) e f h = cc
    delete_found-Dropped ip (inr EngineStore.bad_lease) e f h = cc
    delete_found-Dropped ip (inr (EngineStore.tx_failed x)) e f h = cc

    pub delete-Dropped :
        (ip : Bytes) (e : Engine)
        → (EngineStore.delete c os now false ip e).1 ≡ none
        → Dropped ip e (EngineStore.delete c os now false ip e)
    unfolding EngineStore.delete
    delete-Dropped ip e h = delete_found-Dropped ip (EngineStore.get_by_ip c ip e) e refl h
