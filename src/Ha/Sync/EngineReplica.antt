-- ===== src/Ha/Sync/EngineReplica.antt =====
-- The store over the storage engine, internal/lease/store.go, as the store that replication writes:
-- `ListAll`, `UpsertSilent` and `DeleteSilent` keep the laws that the snapshots rest on.
use monsoon.Prelude.{
  inl, inr, ℕ, Bool, true, false, Option, none, some, List, ◌≡◌, refl, sym, ap, ◌∙◌, arith,
  if◌then◌else◌, Bool-cases, pos,
}
use mathlib.Core.Path.{subst}
use monsoon.Bytes.{Bytes, equal}
use monsoon.Bytes.Order.{equal_iff}
use monsoon.GoMap.{bytes_eq}
use monsoon.Lease.{Lease, normalize_defaults}
use monsoon.Lease.EngineStore
use monsoon.Lease.EngineStore.{Codec, StoreError, tree_leases}
use monsoon.Storage.BTree
use monsoon.Storage.BTree.{BTree}
use monsoon.Storage.Wal.{Faults}
use monsoon.Storage.Engine.{Engine}
use monsoon.Ha.Sync.{Replica}
use monsoon.Ha.Sync.Mirror.{StoreLaws}
use monsoon.Lease.EngineStore.Leases.{
  leases_of, ReadsIp, IsKeyed, read, get, completed, get-set, get-delete, set-IsKeyed,
  delete-IsKeyed, read_back-is, has_ip,
}
use monsoon.Lease.EngineStore.Effects.{upsert-Put, Dropped, gone, absent, delete-Dropped}
use monsoon.Lease.EngineStore.Listing.{get-unlisted}

abbrev done : Engine × Option StoreError → Engine × Bool
done (e, none) = (e, true)
done (e, some x) = (e, false)

abbrev pub engine_replica : Codec → (ℕ → Faults) → ℕ → Replica Engine
engine_replica c os now = record {
  list_all = λ e. some (EngineStore.list_all c e);
  upsert = λ l e. done (EngineStore.upsert c os now false l e);
  delete = λ ip e. done (EngineStore.delete c os now false ip e);
}

done-true : (r : Engine × Option StoreError) → (done r).1 ≡ true → (r.1 ≡ none) × ((done r).0 ≡ r.0)
done-true (e, none) h = (refl, refl)
done-true (e, some x) h = cc

module _ (c : Codec) where
  module _ (os : ℕ → Faults) (now : ℕ) (reads : ReadsIp c) where
    pub upsert-law :
        (l : Lease) (e : Engine)
        → IsKeyed c (leases_of e)
        → ((engine_replica c os now).upsert l e).1 ≡ true
        → IsKeyed c (leases_of ((engine_replica c os now).upsert l e).0)
          × ((k : Bytes)
              → get c ((engine_replica c os now).upsert l e).0 k
                ≡ (if equal l.ip k then some (completed c now l) else get c e k))
    unfolding normalize_defaults
    upsert-law l e g h =
        let l' = normalize_defaults (pos now) (pos 43200000000000) l in
        let (fine, same) = done-true (EngineStore.upsert c os now false l e) h in
        let p = upsert-Put c os now l e fine in
        let (back, u, own) = reads l' p.raw p.encoded in
        let tree = ap leases_of same ∙ p.tree in
        let is : completed c now l ≡ back = read_back-is c l' back p.raw p.encoded u in
        (
          subst (IsKeyed c) (sym tree) (set-IsKeyed c (leases_of e) l'.ip p.raw g u own),
          λ k.
              ap (λ t. read c (BTree.get t k)) tree
              ∙ ap (read c) (get-set c (leases_of e) l'.ip p.raw k)
              ∙ by_key (equal l.ip k) (BTree.get (leases_of e) k) (u ∙ ap some (sym is)),
        )
      where
        by_key :
            (b : Bool) (o : Option Bytes) {raw : Bytes} {l : Lease}
            → c.unmarshal raw ≡ some l
            → read c (if b then some raw else o) ≡ (if b then some l else read c o)
        by_key true o h = h
        by_key false o h = refl

    pub delete-law :
        (ip : Bytes) (e : Engine)
        → IsKeyed c (leases_of e)
        → ((engine_replica c os now).delete ip e).1 ≡ true
        → IsKeyed c (leases_of ((engine_replica c os now).delete ip e).0)
          × ((k : Bytes)
              → get c ((engine_replica c os now).delete ip e).0 k
                ≡ (if equal ip k then none else get c e k))
    delete-law ip e g h =
        let (fine, same) = done-true (EngineStore.delete c os now false ip e) h in
        by_result (delete-Dropped c os now ip e fine) same
      where
        by_key :
            (b : Bool) (o : Option Bytes)
            → read c (if b then none else o) ≡ (if b then none else read c o)
        by_key true o = refl
        by_key false o = refl

        by_result :
            Dropped c os now ip e (EngineStore.delete c os now false ip e)
            → ((engine_replica c os now).delete ip e).0 ≡ (EngineStore.delete c os now false ip e).0
            → IsKeyed c (leases_of ((engine_replica c os now).delete ip e).0)
              × ((k : Bytes)
                  → get c ((engine_replica c os now).delete ip e).0 k
                    ≡ (if equal ip k then none else get c e k))
        by_result (gone t) same =
            let tree = ap leases_of same ∙ t in
            (
              subst (IsKeyed c) (sym tree) (delete-IsKeyed c (leases_of e) ip g),
              λ k.
                  ap (λ t. read c (BTree.get t k)) tree
                  ∙ ap (read c) (get-delete c (leases_of e) ip k)
                  ∙ by_key (equal ip k) (BTree.get (leases_of e) k),
            )
        by_result (absent x none_here) same =
            let tree = ap leases_of (same ∙ x) in
            (
              subst (IsKeyed c) (sym tree) g,
              λ k. ap (λ t. read c (BTree.get t k)) tree ∙ (elim (Bool-cases (equal ip k)) [
                | inl hit ↦ rw hit (
                    ap (λ j. read c (BTree.get (leases_of e) j)) (sym ((equal_iff ip k).0 hit))
                    ∙ ap (read c) none_here)
                | inr other ↦ rw other refl
              ]),
            )

    pub unlisted :
        (e : Engine) (ls : List Lease) (k : Bytes)
        → IsKeyed c (leases_of e)
        → (engine_replica c os now).list_all e ≡ some ls
        → has_ip k ls ≡ false
        → get c e k ≡ none
    unlisted e ls k g s h =
        let same : EngineStore.list_all c e ≡ ls = ground (arith, s) in
        get-unlisted c e k g (ap (has_ip k) same ∙ h)

    -- The store over the engine keeps the laws, in every state where each lease is stored under its
    -- own address, where its codec reads back at least the address of what it has written.
    abbrev pub engine_laws : StoreLaws (engine_replica c os now)
    engine_laws = record {
      IsGood = λ e. IsKeyed c (leases_of e);
      get = get c;
      completed = completed c now;
      upsert-IsGood = λ l e g h. (upsert-law l e g h).0;
      delete-IsGood = λ ip e g h. (delete-law ip e g h).0;
      get-upsert = λ l e g h. (upsert-law l e g h).1;
      get-delete = λ ip e g h. (delete-law ip e g h).1;
      get-list_all = λ e ls g s k h. unlisted e ls k g s h;
    }
