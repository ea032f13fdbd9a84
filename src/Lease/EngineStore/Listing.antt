-- ===== src/Lease/EngineStore/Listing.antt =====
-- `ListAll` of internal/lease/store.go leaves out no lease that is found under its address.
use monsoon.Prelude.{
  inl, inr, Bool, true, false, Option, none, some, List, [], ◌∷◌, ◌++◌, ◌≡◌, refl, sym, ap, ◌∙◌,
  arith, Bool-cases, Option-cases,
}
use monsoon.Bytes.{Bytes, equal}
use monsoon.Bytes.Order.{equal_iff}
use monsoon.GoMap.{lookup, bytes_eq}
use monsoon.Lease.{Lease}
use monsoon.Lease.EngineStore
use monsoon.Lease.EngineStore.{Codec, StoreError, tree_leases}
use monsoon.Storage.BTree
use monsoon.Storage.BTree.{BTree}
use monsoon.Storage.BTree.Valid.{IsValid}
use monsoon.Storage.BTree.Entries.{Entries, find, get-eq-find}
use monsoon.Storage.BTree.Walk.{walk, iterate-walk_all}
use monsoon.Storage.Engine
use monsoon.Storage.Engine.{Engine, must_tree, Mutation, TxError}
use monsoon.Lease.EngineStore.Leases.{leases_of, IsKeyed, read, get, has_ip}

module _ (c : Codec) where
  has_ip-append :
      (k : Bytes) (xs : List Lease) (l : Lease)
      → has_ip k (xs ++ l ∷ []) ≡ false
      → (has_ip k xs ≡ false) × (equal l.ip k ≡ false)
  unfolding has_ip
  has_ip-append k [] l h = (refl, ground (arith, h))
  has_ip-append k (x ∷ xs) l h = elim (Bool-cases (equal x.ip k)) [
    | inl same ↦ absurd (ground (arith, h, same))
    | inr other ↦ let (a, b) = has_ip-append k xs l (sym (rw other refl) ∙ h) in (rw other a, b)
  ]

  -- the callback of `ListAll`
  abbrev collect : Bytes → Bytes → List Lease → List Lease × Bool
  collect k v ls = (EngineStore.add_decoded c (c.unmarshal v) ls, true)

  -- a list without an address leaves out no entry whose lease has it
  collect-has_ip :
      (k : Bytes) (es : Entries) (out : List Lease)
      → has_ip k (walk collect es out) ≡ false
      → (has_ip k out ≡ false)
        × ((j raw : Bytes) (l : Lease)
            → find j es ≡ some raw
            → c.unmarshal raw ≡ some l
            → equal l.ip k ≡ false)
  unfolding walk find EngineStore.add_decoded
  collect-has_ip k [] out h = (h, λ j raw l f u. cc)
  collect-has_ip k ((x, w) ∷ es) out h = elim (Option-cases (c.unmarshal w)) [
    | inl bad ↦
        let (a, rest) = collect-has_ip k es out (sym (rw bad refl) ∙ h) in
        (
          a,
          λ j raw l f u. elim (Bool-cases (equal x j)) [
            | inl hit ↦ absurd (ground (arith, hit, f, u, bad))
            | inr miss ↦ rest j raw l (sym (rw miss refl) ∙ f) u
          ],
        )
    | inr (l', good) ↦
        let (a, rest) = collect-has_ip k es (out ++ l' ∷ []) (sym (rw good refl) ∙ h) in
        let (b, own) = has_ip-append k out l' a in
        (
          b,
          λ j raw l f u. elim (Bool-cases (equal x j)) [
            | inl hit ↦ let same : l' ≡ l = cc in ap (λ y. equal y.ip k) (sym same) ∙ own
            | inr miss ↦ rest j raw l (sym (rw miss refl) ∙ f) u
          ],
        )
  ]

  list_all-walk :
      (e : Engine)
      → IsKeyed c (leases_of e)
      → EngineStore.list_all c e ≡ walk collect (BTree.snapshot (leases_of e)) []
  unfolding EngineStore.list_all Engine.iterate must_tree
  list_all-walk e g = by_tree (lookup tree_leases e.trees) g.valid
    where
      by_tree :
          (o : Option BTree)
          → IsValid (Engine.tree_or_new o)
          → (elim o as (λ _. List Lease × Bool) [
            | none ↦ ([], false)
            | some t ↦ (BTree.iterate t [] [] collect [], true)
          ]).0
            ≡ walk collect (BTree.snapshot (Engine.tree_or_new o)) []
      by_tree none v = unfold walk BTree.snapshot BTree.snapshot_keys in refl
      by_tree (some t) v = iterate-walk_all t collect [] v

  pub get-unlisted :
      (e : Engine) (k : Bytes)
      → IsKeyed c (leases_of e)
      → has_ip k (EngineStore.list_all c e) ≡ false
      → get c e k ≡ none
  get-unlisted e k g h = by_entry (BTree.get (leases_of e) k) refl
    where
      listed : has_ip k (walk collect (BTree.snapshot (leases_of e)) []) ≡ false
      listed = ap (has_ip k) (sym (list_all-walk e g)) ∙ h

      by_entry : (o : Option Bytes) → BTree.get (leases_of e) k ≡ o → read c o ≡ none
      by_entry none found = refl
      by_entry (some raw) found =
          let (l, u, own) = g.keyed k raw found in
          let missed =
            (collect-has_ip k (BTree.snapshot (leases_of e)) [] listed).1 k raw l
              (sym (get-eq-find (leases_of e) k g.valid) ∙ found) u in
          absurd (ground (arith, missed, (equal_iff l.ip k).1 own))
