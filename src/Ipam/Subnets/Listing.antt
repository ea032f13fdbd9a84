-- ===== src/Ipam/Subnets/Listing.antt =====
-- `ListSubnets` of internal/ipam/engine.go lists every subnet that the tree holds, so the loop of
-- `ValidateSubnet` compares a new subnet with each of them.
use monsoon.Prelude.{
  ◌⊎◌, inl, inr, false, none, some, List, [], ◌∷◌, ◌++◌, ◌≡◌, refl, sym, ◌∙◌, arith, Ordering,
  Bool-cases, Option-cases,
}
use mathlib.Core.Path.{subst}
use monsoon.Bytes.{Bytes, equal, bytes_compare}
use monsoon.Bytes.Order.{equal_iff}
use monsoon.GoMap.{lookup, bytes_eq}
use monsoon.Storage.BTree
use monsoon.Storage.BTree.{BTree}
use monsoon.Storage.BTree.Valid.{IsValid}
use monsoon.Storage.BTree.Entries.{Entries, find, get-eq-find}
use monsoon.Storage.BTree.Walk.{walk, iterate-walk_all}
use monsoon.Storage.Engine
use monsoon.Storage.Engine.{Engine}
use monsoon.Ipam.{overlaps}
use monsoon.Ipam.Subnets
use monsoon.Ipam.Subnets.{Subnet, Codec, tree_subnets, collect, insert_sorted, sort, first_overlap}

abbrev pub All : (Subnet → Type 0) → List Subnet → Type 0
All P [] = Unit
All P (s ∷ ss) = P s × All P ss

module _ (P : Subnet → Type 0) where
  All-append : (xs ys : List Subnet) → All P (xs ++ ys) → All P xs × All P ys
  All-append [] ys h = (tt, h)
  All-append (x ∷ xs) ys h = let (a, b) = All-append xs ys h.1 in ((h.0, a), b)

  All-insert_sorted : (s : Subnet) (xs : List Subnet) → All P (insert_sorted s xs) → P s × All P xs
  unfolding insert_sorted
  All-insert_sorted s [] h = (h.0, tt)
  All-insert_sorted s (x ∷ xs) h = go (bytes_compare x.cidr s.cidr) (All-insert_sorted s xs) h
    where
      go :
          (o : Ordering)
          → (All P (insert_sorted s xs) → P s × All P xs)
          → All P (elim o [ Ordering.lt ↦ x ∷ insert_sorted s xs | _ ↦ s ∷ x ∷ xs ])
          → P s × (P x × All P xs)
      go Ordering.lt rec h = let (a, b) = rec h.1 in (a, (h.0, b))
      go Ordering.eq rec h = h
      go Ordering.gt rec h = h

  All-sort : (ss : List Subnet) → All P (sort ss) → All P ss
  unfolding sort
  All-sort [] h = tt
  All-sort (s ∷ ss) h = let (a, b) = All-insert_sorted s (sort ss) h in (a, All-sort ss b)

  module _ (c : Codec) where
    walk_bad :
        (x w : Bytes) (es : Entries) (out : List Subnet)
        → c.unmarshal w ≡ none
        → walk (collect c) ((x, w) ∷ es) out ≡ walk (collect c) es out
    unfolding walk collect
    walk_bad x w es out h = ground (arith, h)

    walk_good :
        (x w : Bytes) (es : Entries) (out : List Subnet) {s : Subnet}
        → c.unmarshal w ≡ some s
        → walk (collect c) ((x, w) ∷ es) out ≡ walk (collect c) es (out ++ s ∷ [])
    unfolding walk collect
    walk_good x w es out h = ground (arith, h)

    collect-walk :
        (es : Entries) (out : List Subnet)
        → All P (walk (collect c) es out)
        → All P out
          × ((k raw : Bytes) (s : Subnet) → find k es ≡ some raw → c.unmarshal raw ≡ some s → P s)
    unfolding walk collect find
    collect-walk [] out h = (h, λ k raw s f u. absurd (ground arith))
    collect-walk ((x, w) ∷ es) out h = elim (Option-cases (c.unmarshal w)) [
      | inl bad ↦
          let (a, rest) = collect-walk es out (subst (All P) (walk_bad x w es out bad) h) in
          (
            a,
            λ k raw s f u. elim (Bool-cases (equal x k)) [
              | inl hit ↦ absurd (ground (arith, hit, f, u, bad))
              | inr miss ↦ rest k raw s (sym (rw miss refl) ∙ f) u
            ],
          )
      | inr (s', good) ↦
          let (a, rest) =
            collect-walk es (out ++ s' ∷ []) (subst (All P) (walk_good x w es out good) h) in
          let (b, own) = All-append out (s' ∷ []) a in
          (
            b,
            λ k raw s f u. elim (Bool-cases (equal x k)) [
              | inl hit ↦ let same : s' ≡ s = cc in subst P same own.0
              | inr miss ↦ rest k raw s (sym (rw miss refl) ∙ f) u
            ],
          )
    ]

    iterated :
        (e : Engine) (t : BTree)
        → lookup tree_subnets e.trees ≡ some t
        → (Engine.iterate tree_subnets [] [] (collect c) e []).0
          ≡ BTree.iterate t [] [] (collect c) []
    unfolding Engine.iterate
    iterated e t has = rw (Engine.iterate, has) refl

    pub list-listed :
        (e : Engine) (t : BTree) (k raw : Bytes) (s : Subnet)
        → lookup tree_subnets e.trees ≡ some t
        → IsValid t
        → All P (Subnets.list_subnets c e)
        → BTree.get t k ≡ some raw
        → c.unmarshal raw ≡ some s
        → P s
    unfolding Subnets.list_subnets Engine.iterate
    list-listed e t k raw s has valid all found u =
        let walked : BTree.iterate t [] [] (collect c) [] ≡ walk (collect c) (BTree.snapshot t) [] =
          iterate-walk_all t (collect c) [] valid in
        let listed : All P (walk (collect c) (BTree.snapshot t) []) =
          subst (All P) (iterated e t has ∙ walked) (All-sort _ all) in
        (collect-walk (BTree.snapshot t) [] listed).1 k raw s (sym (get-eq-find t k valid) ∙ found)
          u

module _ (c : Codec) where
  -- what `first_overlap` says of a listed subnet where it finds none
  abbrev pub Clear : Bytes → Subnet → Type 0
  Clear cidr s = (s.cidr ≡ cidr) ⊎ (overlaps (c.parse_prefix s.cidr) (c.parse_prefix cidr) ≡ false)

  pub first_overlap-Clear :
      (cidr : Bytes) (ss : List Subnet) → first_overlap c cidr ss ≡ none → All (Clear cidr) ss
  unfolding first_overlap
  first_overlap-Clear cidr [] h = tt
  first_overlap-Clear cidr (s ∷ ss) h = elim (Bool-cases (equal s.cidr cidr)) [
    | inl same ↦
        (inl ((equal_iff s.cidr cidr).0 same), first_overlap-Clear cidr ss (sym (rw same refl) ∙ h))
    | inr other ↦ elim (Bool-cases (overlaps (c.parse_prefix s.cidr) (c.parse_prefix cidr))) [
      | inl hit ↦ absurd (ground (arith, other, hit, h))
      | inr miss ↦ (inr miss, first_overlap-Clear cidr ss (ground (arith, other, miss, h)))
    ]
  ]
