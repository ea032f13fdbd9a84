-- ===== src/Ipam/Cidr.antt =====
-- What the prefix functions of internal/ipam/cidr.go say of the addresses in a prefix.
use monsoon.Bytes.{Bytes}
use monsoon.Prelude.{
  ◌&&◌, ◌||◌, ◌%◌, leb, ltb, not, if◌then◌else◌, ◌==◌, ==_iff, ℕ, ◌+◌, ◌-◌, ◌/◌, ◌^◌, ◌≤◌, ◌<◌,
  Bool, true, false, Option, none, some, ◌≡◌, ◌↔◌, ◌⊎◌, inl, inr, refl, sym, ap, ◌∙◌, arith, [],
  ◌∷◌,
}
use monsoon.Net.{is_nil}
use monsoon.Ipam.{
  Addr, IpPrefix, same_family, host_bits, masked, contains, overlaps, address_count, nth_address,
}
use monsoon.Ipam.Quotients.{coarser, aligned, lt_or_le, le_total, div-bounds, last_below}
use mathlib.Core.Path.{subst}
use native.Mathlib.Nat.{mod-eq_of_lt}

record IsIn (p : IpPrefix) (a : Addr) : Type 0 where
  family : p.addr.is4 ≡ a.is4
  no_zone : a.zone ≡ []
  same : p.addr.value / 2 ^ host_bits p ≡ a.value / 2 ^ host_bits p

==_refl : (a b : ℕ) → a ≡ b → (a == b) ≡ true
==_refl a b h = ground arith

and-true : (a b : Bool) → (a && b) ≡ true → (a ≡ true) × (b ≡ true)
and-true true b h = (refl, h)
and-true false b h = ground arith

is_nil-eq : (s : Bytes) → is_nil s ≡ true → s ≡ []
unfolding is_nil
is_nil-eq [] h = refl
is_nil-eq (c ∷ s) h = ground arith

same_family_iff : (a b : Bool) → (same_family a b ≡ true) ↔ (a ≡ b)
same_family_iff true true = (λ _. refl, λ _. refl)
same_family_iff true false = ground arith
same_family_iff false true = ground arith
same_family_iff false false = (λ _. refl, λ _. refl)

contains-IsIn : (p : IpPrefix) (a : Addr) → contains p a ≡ true → IsIn p a
unfolding contains is_nil
contains-IsIn p a h =
    let (f, r) = and-true _ _ h in
    let (z, e) = and-true _ _ r in
    record {
      family = (same_family_iff p.addr.is4 a.is4).0 f;
      no_zone = is_nil-eq a.zone z;
      same = (==_iff _ _).0 e;
    }

IsIn-contains : (p : IpPrefix) (a : Addr) → IsIn p a → contains p a ≡ true
unfolding contains is_nil
IsIn-contains p a h =
    rw ((same_family_iff p.addr.is4 a.is4).1 h.family, h.no_zone, ==_refl _ _ h.same) refl

masked-IsIn : (p : IpPrefix) (a : Addr) → IsIn (masked p) a → IsIn p a
unfolding masked
masked-IsIn p a h = record {
  family = h.family;
  no_zone = h.no_zone;
  same = sym (aligned (host_bits p) p.addr.value) ∙ h.same;
}

masked-addr : (p : IpPrefix) → IsIn p (masked p).addr
unfolding masked
masked-addr p = record {
  family = refl;
  no_zone = refl;
  same = sym (aligned (host_bits p) p.addr.value);
}

-- Two prefixes with a common address: the one of more host bits has the masked address of the other.
wider-has :
    (a b : IpPrefix) (x : Addr)
    → host_bits b ≤ host_bits a
    → IsIn a x
    → IsIn b x
    → IsIn (masked a) (masked b).addr
unfolding masked
wider-has a b x le ha hb = record {
  family = ha.family ∙ sym hb.family;
  no_zone = refl;
  same =
      aligned (host_bits a) a.addr.value
      ∙ (ha.same
          ∙ (sym (coarser (host_bits b) (host_bits a) b.addr.value x.value le hb.same)
              ∙ coarser (host_bits b) (host_bits a) b.addr.value _ le
                  (sym (aligned (host_bits b) b.addr.value))));
}

or-true : (a b : Bool) → (a || b) ≡ true → (a ≡ true) ⊎ (b ≡ true)
or-true true b h = inl refl
or-true false b h = inr h

or_left : (a b : Bool) → a ≡ true → (a || b) ≡ true
or_left a b h = rw h refl

or_right : (a b : Bool) → b ≡ true → (a || b) ≡ true
or_right true b h = refl
or_right false b h = h

-- `Overlaps` tells exactly whether some address is in both prefixes.
pub overlaps-contains :
    (a b : IpPrefix)
    → (overlaps (some a) (some b) ≡ true)
      ↔ ((x : Addr) × (contains a x ≡ true) × (contains b x ≡ true))
unfolding overlaps
overlaps-contains a b = (forth, back)
  where
    both :
        (x : Addr)
        → IsIn a x
        → IsIn b x
        → (x : Addr) × (contains a x ≡ true) × (contains b x ≡ true)
    both x ha hb = (x, IsIn-contains a x ha, IsIn-contains b x hb)

    forth :
        overlaps (some a) (some b) ≡ true
        → (x : Addr) × (contains a x ≡ true) × (contains b x ≡ true)
    forth h = elim (or-true _ _ h) [
      | inl l ↦ both (masked b).addr (masked-IsIn a _ (contains-IsIn _ _ l)) (masked-addr b)
      | inr r ↦ both (masked a).addr (masked-addr a) (masked-IsIn b _ (contains-IsIn _ _ r))
    ]

    back :
        (x : Addr) × (contains a x ≡ true) × (contains b x ≡ true)
        → overlaps (some a) (some b) ≡ true
    back (x, ha, hb) = elim (le_total (host_bits b) (host_bits a)) [
      | inl le ↦ or_left _ _ (
          IsIn-contains (masked a) _
            (wider-has a b x le (contains-IsIn a x ha) (contains-IsIn b x hb)))
      | inr le ↦ or_right _ _ (
          IsIn-contains (masked b) _
            (wider-has b a x le (contains-IsIn b x hb) (contains-IsIn a x ha)))
    ]

address_count-pow : (p : IpPrefix) → host_bits p ≤ 32 → address_count p ≡ 2 ^ host_bits p
unfolding address_count
address_count-pow p h = let big : leb 64 (host_bits p) ≡ false = ground arith in rw big refl

host_bits_four : (p : IpPrefix) → p.addr.is4 ≡ true → host_bits p ≤ 32
host_bits_four p four = rw four (omega arith)

guards_pass :
    (a b c : Bool) {x : Option Addr}
    → a ≡ false
    → b ≡ false
    → c ≡ false
    → (if a then none else if b then none else if c then none else x) ≡ x
guards_pass a b c h k l = rw (h, k, l) refl

guards_stop :
    (a b : Bool) (x : Option Addr) → b ≡ true → (if a then none else if b then none else x) ≡ none
guards_stop true b x h = refl
guards_stop false b x h = rw h refl

-- the address that the number of a prefix stands for, where it is a uint32
record Numbered (p : IpPrefix) (n : ℕ) : Type 0 where
  exact : ((masked p).addr.value + n) % 2 ^ 64 ≡ (masked p).addr.value + n
  small : (masked p).addr.value + n < 2 ^ 32
  quotient : p.addr.value / 2 ^ host_bits p ≡ ((masked p).addr.value + n) / 2 ^ host_bits p

numbered :
    (p : IpPrefix) (n : ℕ)
    → host_bits p ≤ 32
    → p.addr.value < 2 ^ 32
    → n < 2 ^ host_bits p
    → Numbered p n
unfolding masked
numbered p n le small h =
    let below = last_below (host_bits p) p.addr.value n le small h in
    record {
      exact = mod-eq_of_lt (omega arith);
      small = below;
      quotient = sym (div-bounds (host_bits p) p.addr.value n h);
    }

-- `NthAddress` numbers the addresses of an IPv4 prefix: below the count it gives an address of the
-- prefix, another one for another number, and from the count on it gives none.
pub nth_address-contains :
    (p : IpPrefix) (n : ℕ)
    → p.addr.is4 ≡ true
    → p.addr.value < 2 ^ 32
    → ((a : Addr) × (nth_address p n ≡ some a)
        × (contains p a ≡ true)
        × (a.value ≡ (masked p).addr.value + n)
        × (n < address_count p))
      ⊎ ((nth_address p n ≡ none) × (address_count p ≤ n))
unfolding nth_address
nth_address-contains p n four small =
    let le = host_bits_four p four in
    let count = address_count-pow p le in
    elim (lt_or_le n (address_count p)) [
      | inl lt ↦
          let q = numbered p n le small (subst (λ c. n < c) count lt) in
          let low = q.small in
          let a : Addr = record {
            is4 = true;
            value = ((masked p).addr.value + n) % 2 ^ 64;
            zone = [];
          } in
          inl (
            a,
            guards_pass (not p.addr.is4) (leb (address_count p) n) (ltb (2 ^ 32 - 1) a.value)
                (rw four refl) (ground arith) (rw q.exact (ground arith)),
            IsIn-contains p a (record {
              family = four;
              no_zone = refl;
              same = q.quotient ∙ ap (λ x. x / 2 ^ host_bits p) (sym q.exact);
            }),
            q.exact,
            lt,
          )
      | inr le' ↦ inr (guards_stop (not p.addr.is4) (leb (address_count p) n) _ (ground arith), le')
    ]
