-- ===== src/Lease/EngineStore/Leases.antt =====
-- The tree of leases of internal/lease/store.go: each lease stands under its own address, as it is read.
use monsoon.Prelude.{
  inl, inr, ℕ, Bool, true, false, Option, none, some, List, [], ◌∷◌, ◌≡◌, refl, sym, ap, ◌∙◌, arith,
  if◌then◌else◌, Bool-cases, pos,
}
use mathlib.Core.Path.{subst}
use monsoon.Bytes.{Bytes, equal}
use monsoon.Bytes.Order.{equal_iff}
use monsoon.GoMap.{bytes_eq}
use monsoon.GoMap.Laws.{lookup-insert, lookup-erase}
use monsoon.Lease.{Lease, normalize_defaults}
use monsoon.Lease.EngineStore.{Codec, tree_leases}
use monsoon.Storage.BTree
use monsoon.Storage.BTree.{BTree}
use monsoon.Storage.BTree.Valid.{IsValid, set-IsValid, delete-IsValid}
use monsoon.Storage.Engine.{Engine, must_tree}

-- whether a lease of a list has this address
unfoldable pub has_ip : Bytes → List Lease → Bool
has_ip k [] = false
has_ip k (l ∷ ls) = let rest = has_ip k ls in if bytes_eq.beq l.ip k then true else rest

-- the tree of the leases
abbrev pub leases_of : Engine → BTree
leases_of e = must_tree tree_leases e.trees

module _ (c : Codec) where
  -- A codec that reads what it has written, at least the address.
  abbrev pub ReadsIp : Type 0
  ReadsIp =
      (l : Lease) (raw : Bytes)
      → c.marshal l ≡ some raw
      → (l' : Lease) × (c.unmarshal raw ≡ some l') × (l'.ip ≡ l.ip)

  -- Every stored lease is read back under its own address.
  pub record IsKeyed (t : BTree) : Type 0 where
    pub valid : IsValid t
    pub keyed :
        (k raw : Bytes)
        → BTree.get t k ≡ some raw
        → (l : Lease) × (c.unmarshal raw ≡ some l) × (l.ip ≡ k)

  -- what is read under an address
  abbrev pub read : Option Bytes → Option Lease
  read none = none
  read (some raw) = c.unmarshal raw

  abbrev pub get : Engine → Bytes → Option Lease
  get e k = read (BTree.get (leases_of e) k)

  -- what is read back of a lease
  abbrev pub read_back : Lease → Option Bytes → Lease
  read_back l none = l
  read_back l (some raw) = elim (c.unmarshal raw) [ none ↦ l | some l' ↦ l' ]

  -- a lease as the store completes it, and reads it back
  abbrev pub completed : ℕ → Lease → Lease
  completed now l =
      let l' = normalize_defaults (pos now) (pos 43200000000000) l in read_back l' (c.marshal l')

  pub get-set :
      (t : BTree) (k v j : Bytes)
      → BTree.get (BTree.set t k v) j ≡ (if equal k j then some v else BTree.get t j)
  unfolding BTree.get BTree.set
  get-set t k v j = lookup-insert k j v t.items

  pub get-delete :
      (t : BTree) (k j : Bytes)
      → BTree.get (BTree.delete t k).0 j ≡ (if equal k j then none else BTree.get t j)
  unfolding BTree.get BTree.delete
  get-delete t k j = ground (arith, lookup-erase k j t.items, equal_iff k j)

  pub set-IsKeyed :
      (t : BTree) (k raw : Bytes) {l : Lease}
      → IsKeyed t
      → c.unmarshal raw ≡ some l
      → l.ip ≡ k
      → IsKeyed (BTree.set t k raw)
  set-IsKeyed t k raw {l} g u own = record {
    valid = set-IsValid t k raw g.valid;
    keyed = λ j w h. elim (Bool-cases (equal k j)) [
      | inl same ↦
          let e : some raw ≡ some w = sym (get-set t k raw j ∙ rw same refl) ∙ h in
          let e' : raw ≡ w = ground (arith, e) in
          (l, subst (λ r. c.unmarshal r ≡ some l) e' u, own ∙ (equal_iff k j).0 same)
      | inr other ↦ g.keyed j w (sym (get-set t k raw j ∙ rw other refl) ∙ h)
    ];
  }

  pub delete-IsKeyed : (t : BTree) (k : Bytes) → IsKeyed t → IsKeyed (BTree.delete t k).0
  delete-IsKeyed t k g = record {
    valid = delete-IsValid t k g.valid;
    keyed = λ j w h. elim (Bool-cases (equal k j)) [
      | inl same ↦ absurd (ground (arith, get-delete t k j, same, h))
      | inr other ↦ g.keyed j w (sym (get-delete t k j ∙ rw other refl) ∙ h)
    ];
  }

  pub read_back-is :
      (l back : Lease) (raw : Bytes)
      → c.marshal l ≡ some raw
      → c.unmarshal raw ≡ some back
      → read_back l (c.marshal l) ≡ back
  read_back-is l back raw m u = ap (read_back l) m ∙ rw (read_back, u) refl
