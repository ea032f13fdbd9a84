-- ===== src/Ipam/Subnets/Disjoint.antt =====
-- `UpsertSubnet` and `DeleteSubnet` of internal/ipam/engine.go keep the stored subnets apart.
use monsoon.Prelude.{
  ◌⊎◌, inl, inr, ℕ, true, false, Option, none, some, ◌≡◌, refl, sym, ap, ◌∙◌, arith, if◌then◌else◌,
  Bool-cases, Option-cases, pos,
}
use mathlib.Core.Path.{subst}
use monsoon.Bytes.{Bytes, equal}
use monsoon.Bytes.Order.{equal_iff}
use monsoon.GoMap.{lookup, bytes_eq}
use monsoon.GoMap.Laws.{lookup-insert, lookup-erase}
use monsoon.Storage.BTree
use monsoon.Storage.BTree.{BTree}
use monsoon.Storage.BTree.Valid.{IsValid, set-IsValid, delete-IsValid}
use monsoon.Storage.Wal.{Faults}
use monsoon.Storage.Engine
use monsoon.Storage.Engine.{
  Engine, Mutation, TxError, tree_or_new, must_tree, with_tree, apply_mutation,
}
use monsoon.Storage.Engine.OneMutation.{tx-Kept}
use monsoon.Ipam.{Addr, IpPrefix, masked, contains, overlaps}
use monsoon.Ipam.Cidr.{overlaps-contains}
use monsoon.Ipam.Subnets
use monsoon.Ipam.Subnets.{
  Codec, Subnet, put_result, SubnetError, UpsertSubnetInput, tree_subnets, validate_subnet,
  upsert_subnet,
}
use monsoon.Ipam.Subnets.Accepted.{validate_subnet-IsAccepted}
use monsoon.Ipam.Subnets.Listing.{All, Clear, list-listed}

-- the subnets tree of an engine, where the code's `mustTree` gives one
abbrev pub subnets_of : Engine → BTree
subnets_of e = must_tree tree_subnets e.trees

module _ (c : Codec) where
  -- Every stored subnet is read back under its own CIDR, which parses, and no address is in two.
  pub record IsDisjoint (t : BTree) : Type 0 where
    pub valid : IsValid t
    pub keyed :
        (k raw : Bytes)
        → BTree.get t k ≡ some raw
        → (s : Subnet) × (c.unmarshal raw ≡ some s) × (s.cidr ≡ k)
    pub apart :
        (j k : Bytes) (v w : Bytes) (a b : IpPrefix) (x : Addr)
        → BTree.get t j ≡ some v
        → BTree.get t k ≡ some w
        → c.parse_prefix j ≡ some a
        → c.parse_prefix k ≡ some b
        → contains a x ≡ true
        → contains b x ≡ true
        → j ≡ k

  -- what is asked of the codec: it reads back the CIDR of a subnet that it has written
  abbrev pub ReadsCidr : Subnet → Type 0
  ReadsCidr s =
      (raw : Bytes)
      → c.marshal s ≡ some raw
      → (s' : Subnet) × (c.unmarshal raw ≡ some s') × (s'.cidr ≡ s.cidr)

  get-set :
      (t : BTree) (k v j : Bytes)
      → BTree.get (BTree.set t k v) j ≡ (if equal k j then some v else BTree.get t j)
  unfolding BTree.get BTree.set
  get-set t k v j = lookup-insert k j v t.items

  get-delete :
      (t : BTree) (k j : Bytes) {w : Bytes}
      → BTree.get (BTree.delete t k).0 j ≡ some w
      → BTree.get t j ≡ some w
  unfolding BTree.get BTree.delete
  get-delete t k j h = ground (arith, h, lookup-erase k j t.items)

  -- the new subnet shares no address with a stored one that has another CIDR
  abbrev IsNew : BTree → Bytes → Type 0
  IsNew t cidr =
      (k w : Bytes) (a b : IpPrefix) (x : Addr)
      → BTree.get t k ≡ some w
      → c.parse_prefix cidr ≡ some a
      → c.parse_prefix k ≡ some b
      → contains a x ≡ true
      → contains b x ≡ true
      → cidr ≡ k

  -- what a key of the tree has behind `Set`: the new value or, under another key, the old one
  set-cases :
      (t : BTree) (k v j : Bytes) {w : Bytes}
      → BTree.get (BTree.set t k v) j ≡ some w
      → ((k ≡ j) × (v ≡ w)) ⊎ (BTree.get t j ≡ some w)
  set-cases t k v j {w} h = elim (Bool-cases (equal k j)) [
    | inl same ↦
        let e : some v ≡ some w = sym (get-set t k v j ∙ rw same refl) ∙ h in
        inl ((equal_iff k j).0 same, ground (arith, e))
    | inr other ↦ inr (sym (get-set t k v j ∙ rw other refl) ∙ h)
  ]

  set-IsDisjoint :
      (t : BTree) (cidr raw : Bytes) {s : Subnet}
      → IsDisjoint t
      → IsNew t cidr
      → c.unmarshal raw ≡ some s
      → s.cidr ≡ cidr
      → IsDisjoint (BTree.set t cidr raw)
  set-IsDisjoint t cidr raw {s} d new u own = record {
    valid = set-IsValid t cidr raw d.valid;
    keyed = λ k w h. elim (set-cases t cidr raw k h) [
      | inl (here, same) ↦ (s, subst (λ r. c.unmarshal r ≡ some s) same u, own ∙ here)
      | inr old ↦ d.keyed k w old
    ];
    apart = λ j k v w a b x hj hk pj pk xa xb. elim (set-cases t cidr raw j hj) [
      | inl (here, _) ↦ elim (set-cases t cidr raw k hk) [
        | inl (there, _) ↦ sym here ∙ there
        | inr old ↦ sym here ∙ new k w a b x old (ap c.parse_prefix here ∙ pj) pk xa xb
      ]
      | inr old' ↦ elim (set-cases t cidr raw k hk) [
        | inl (there, _) ↦ sym (new j v b a x old' (ap c.parse_prefix there ∙ pk) pj xb xa) ∙ there
        | inr old ↦ d.apart j k v w a b x old' old pj pk xa xb
      ]
    ];
  }

  delete-IsDisjoint : (t : BTree) (k : Bytes) → IsDisjoint t → IsDisjoint (BTree.delete t k).0
  delete-IsDisjoint t k d = record {
    valid = delete-IsValid t k d.valid;
    keyed = λ j raw h. d.keyed j raw (get-delete t k j h);
    apart =
        λ i j v w a b x hi hj. d.apart i j v w a b x (get-delete t k i hi) (get-delete t k j hj);
  }

  -- a listing without an overlap has no other subnet with an address of the new one
  first_overlap-IsNew :
      (e : Engine) (cidr : Bytes)
      → IsDisjoint (subnets_of e)
      → All (Clear c cidr) (Subnets.list_subnets c e)
      → IsNew (subnets_of e) cidr
  unfolding must_tree
  first_overlap-IsNew e cidr d all_clear k w a b x found pa pb xa xb =
      elim (Option-cases (lookup tree_subnets e.trees)) [
        | inl missing ↦ absurd (ground (arith, empty k, rw missing at found))
        | inr (t, has) ↦
            let (s, u, own) = d.keyed k w found in
            let clear =
              list-listed (Clear c cidr) c e t k w s has
                (subst (λ o. IsValid (tree_or_new o)) has d.valid) all_clear (rw has at found) u in
            settled s clear own
      ]
    where
      empty : (k : Bytes) → BTree.get BTree.new k ≡ none
      empty k = unfold BTree.get lookup in refl

      settled : (s : Subnet) → Clear c cidr s → s.cidr ≡ k → cidr ≡ k
      settled s (inl same) own = sym same ∙ own
      settled s (inr miss) own =
          let hit = (overlaps-contains b a).1 (x, xb, xa) in
          let miss' : overlaps (some b) (some a) ≡ false = sym (rw (own, pa, pb) refl) ∙ miss in
          absurd (ground (arith, hit, miss'))

  put_result-engine :
      (s : Subnet) (r : Engine × Option TxError) → (Subnets.put_result c s r).0 ≡ r.0
  put_result-engine s (e, none) = refl
  put_result-engine s (e, some x) = refl

  stamped-cidr :
      (now : ℕ) (s : Subnet) (r : Subnet ⊎ SubnetError)
      → (Subnets.stamped c (pos now) s r).cidr ≡ s.cidr
  unfolding Subnets.stamped
  stamped-cidr now s (inl old) = refl
  stamped-cidr now s (inr x) = refl

  module _ (os : ℕ → Faults) (now : ℕ) where
    put_subnet-IsDisjoint :
        (s : Subnet) (raw : Option Bytes) (e : Engine)
        → IsDisjoint (subnets_of e)
        → IsNew (subnets_of e) s.cidr
        → ReadsCidr s
        → c.marshal s ≡ raw
        → IsDisjoint (subnets_of (Subnets.put_subnet c os now s raw e).0)
    unfolding Subnets.put_subnet Engine.put
    put_subnet-IsDisjoint s none e d new reads h = d
    put_subnet-IsDisjoint s (some raw) e d new reads h =
        let (s', u, own) = reads raw h in
        subst (λ e'. IsDisjoint (subnets_of e')) (sym (put_result-engine s _))
          (elim (tx-Kept os now true _ e) [
            | inl kept ↦ subst IsDisjoint (sym kept) d
            | inr done ↦
                subst IsDisjoint (sym done) (set-IsDisjoint (subnets_of e) s.cidr raw d new u own)
          ])

    upsert_valid-IsDisjoint :
        (r : Subnet ⊎ SubnetError) (e : Engine)
        → ((s : Subnet) (p : IpPrefix) → s.cidr ≡ c.prefix_text p → ReadsCidr s)
        → IsDisjoint (subnets_of e)
        → ((s : Subnet)
            → r ≡ inl s
            → (p : IpPrefix) × (s.cidr ≡ c.prefix_text p) × IsNew (subnets_of e) s.cidr)
        → IsDisjoint (subnets_of (Subnets.upsert_valid c os now r e).0)
    unfolding Subnets.upsert_valid
    upsert_valid-IsDisjoint (inr x) e codec d accepted = d
    upsert_valid-IsDisjoint (inl s) e codec d accepted =
        let (p, text, new) = accepted s refl in
        let s' = Subnets.stamped c (pos now) s (Subnets.get_subnet c s.cidr e) in
        let same = stamped-cidr now s (Subnets.get_subnet c s.cidr e) in
        put_subnet-IsDisjoint s' (c.marshal s') e d (subst (IsNew (subnets_of e)) (sym same) new)
          (codec s' p (same ∙ text)) refl

    -- `UpsertSubnet`, whatever it returns, and `DeleteSubnet` leave no address in two stored
    -- subnets, and every subnet under its own CIDR, where this held before and the JSON codec reads
    -- back the CIDR of a subnet that it has written, being the text of a prefix.
    pub upsert_subnet-IsDisjoint :
        (input : UpsertSubnetInput) (cidr : Bytes) (e : Engine)
        → ((s : Subnet) (p : IpPrefix) → s.cidr ≡ c.prefix_text p → ReadsCidr s)
        → IsDisjoint (subnets_of e)
        → IsDisjoint (subnets_of (upsert_subnet c os now input e).0)
          × IsDisjoint (subnets_of (Subnets.delete_subnet c os now cidr e).0)
    unfolding upsert_subnet validate_subnet Subnets.delete_subnet Engine.delete
    upsert_subnet-IsDisjoint input cidr e codec d = (
      upsert_valid-IsDisjoint (validate_subnet c input e) e codec d (λ s h.
          let (a, clear) = validate_subnet-IsAccepted c input e s h in
          (masked a.prefix, a.text, first_overlap-IsNew e s.cidr d clear)),
      elim (tx-Kept os now true _ e) [
        | inl kept ↦ subst IsDisjoint (sym kept) d
        | inr done ↦ subst IsDisjoint (sym done) (delete-IsDisjoint (subnets_of e) _ d)
      ],
    )
