-- ===== src/Ipam/Subnets/Accepted.antt =====
-- What `ValidateSubnet` of internal/ipam/engine.go makes sure of.
use monsoon.Prelude.{
  ◌⊎◌, inl, inr, Bool, true, false, not, ◌||◌, Option, none, some, ◌≡◌, refl, arith, if◌then◌else◌,
  Bool-cases, pos, ltbℤ,
}
use mathlib.Core.Path.{subst}
use monsoon.Bytes.{Bytes}
use monsoon.Text.{trim_space}
use monsoon.Storage.Engine.{Engine}
use monsoon.Ipam.{Addr, IpPrefix, masked, contains}
use monsoon.Ipam.Subnets
use monsoon.Ipam.Subnets.{
  Codec, Subnet, SubnetError, UpsertSubnetInput, is_after, validate_subnet, first_overlap,
}
use monsoon.Ipam.Subnets.Listing.{All, Clear, first_overlap-Clear}

module _ (c : Codec) where
  first_error-inl :
      (o : Option SubnetError) (r : Subnet ⊎ SubnetError) {s : Subnet}
      → Subnets.first_error c o r ≡ inl s
      → (o ≡ none) × (r ≡ inl s)
  unfolding Subnets.first_error
  first_error-inl none r h = (refl, h)
  first_error-inl (some x) r h = cc

  chosen :
      (b : Bool) (x : SubnetError) {s s' : Subnet}
      → (if b then inr x else inl s) ≡ inl s'
      → (b ≡ false) × (s ≡ s')
  chosen true x h = cc
  chosen false x h = (refl, ground (arith, h))

  -- the pool of a subnet: both ends are addresses of the prefix, in order
  pub record HasPool (prefix : IpPrefix) (pool_start pool_end : Bytes) : Type 0 where
    pub start : Addr
    pub end : Addr
    pub start_is : c.parse_addr pool_start ≡ some start
    pub end_is : c.parse_addr pool_end ≡ some end
    pub start_in : contains prefix start ≡ true
    pub end_in : contains prefix end ≡ true
    pub ordered : is_after start end ≡ false

  check_range-none :
      (prefix : IpPrefix) (a b : Addr)
      → Subnets.check_range c prefix a b ≡ none
      → (contains prefix a ≡ true) × (contains prefix b ≡ true) × (is_after a b ≡ false)
  unfolding Subnets.check_range
  check_range-none prefix a b h = tests (contains prefix a) (contains prefix b) (is_after a b) h
    where
      tests :
          (x y z : Bool)
          → (if not x || not y
              then some Subnets.pool_outside
              else if z
              then some Subnets.pool_reversed
              else none)
            ≡ none
          → (x ≡ true) × (y ≡ true) × (z ≡ false)
      tests true true false h = (refl, refl, refl)
      tests true true true h = cc
      tests true false z h = cc
      tests false y z h = cc

  check_pool-HasPool :
      (prefix : IpPrefix) (input : UpsertSubnetInput)
      → input.dhcp_enable ≡ true
      → Subnets.check_pool c prefix input ≡ none
      → HasPool prefix (trim_space input.pool_start) (trim_space input.pool_end)
  unfolding Subnets.check_pool
  check_pool-HasPool prefix input on h =
      ends (c.parse_addr (trim_space input.pool_start)) (c.parse_addr (trim_space input.pool_end))
        refl refl (rw on at h)
    where
      ends :
          (o p : Option Addr)
          → c.parse_addr (trim_space input.pool_start) ≡ o
          → c.parse_addr (trim_space input.pool_end) ≡ p
          → elim o [
            | none ↦ some Subnets.invalid_pool_start
            | some start ↦ elim p [
              | none ↦ some Subnets.invalid_pool_end
              | some end ↦ Subnets.check_range c prefix start end
            ]
          ]
            ≡ none
          → HasPool prefix (trim_space input.pool_start) (trim_space input.pool_end)
      ends none p s e h = cc
      ends (some a) none s e h = cc
      ends (some a) (some b) s e h =
          let (x, y, z) = check_range-none prefix a b h in
          record {
            start = a;
            end = b;
            start_is = s;
            end_is = e;
            start_in = x;
            end_in = y;
            ordered = z;
          }

  pub record IsAccepted (input : UpsertSubnetInput) (s : Subnet) : Type 0 where
    pub prefix : IpPrefix
    pub parsed : c.parse_prefix (trim_space input.cidr) ≡ some prefix
    pub text : s.cidr ≡ c.prefix_text (masked prefix)
    pub pool : (s.dhcp.enabled ≡ false) ⊎ HasPool prefix s.dhcp.pool_start s.dhcp.pool_end
    pub vlan_from_zero : ltbℤ s.vlan (pos 0) ≡ false
    pub vlan_to_4094 : ltbℤ (pos 4094) s.vlan ≡ false

  or-false : (a b : Bool) → (a || b) ≡ false → (a ≡ false) × (b ≡ false)
  or-false true b h = cc
  or-false false b h = (refl, h)

  validate_parsed-IsAccepted :
      (o : Option IpPrefix) (input : UpsertSubnetInput) {s : Subnet}
      → c.parse_prefix (trim_space input.cidr) ≡ o
      → Subnets.validate_parsed c o input ≡ inl s
      → IsAccepted input s
  unfolding Subnets.validate_parsed Subnets.normalized
  validate_parsed-IsAccepted none input is h = cc
  validate_parsed-IsAccepted (some p) input is h =
      let (gateway, h1) = first_error-inl (Subnets.check_gateway c p input.gateway) _ h in
      let (pool, h2) = first_error-inl (Subnets.check_pool c p input) _ h1 in
      let (vlan, same) =
        chosen (ltbℤ input.vlan (pos 0) || ltbℤ (pos 4094) input.vlan) Subnets.invalid_vlan h2 in
      let (low, high) = or-false (ltbℤ input.vlan (pos 0)) _ vlan in
      subst (IsAccepted input) same (record {
        prefix = p;
        parsed = is;
        text = refl;
        pool = elim (Bool-cases input.dhcp_enable) [
          | inl on ↦ inr (check_pool-HasPool p input on pool)
          | inr off ↦ inl off
        ];
        vlan_from_zero = low;
        vlan_to_4094 = high;
      })

  check_overlap-inl :
      (s : Subnet) (o : Option Bytes) {s' : Subnet}
      → Subnets.check_overlap c s o ≡ inl s'
      → (o ≡ none) × (s ≡ s')
  unfolding Subnets.check_overlap
  check_overlap-inl s none h = (refl, ground (arith, h))
  check_overlap-inl s (some x) h = cc

  -- A subnet that `ValidateSubnet` accepts has the text of the masked prefix that its CIDR parses to
  -- and a VLAN from 0 to 4094. Where DHCP is enabled, the ends of its pool parse to addresses of the
  -- prefix, the first not behind the last. No listed subnet of another CIDR overlaps it.
  pub validate_subnet-IsAccepted :
      (input : UpsertSubnetInput) (e : Engine) (s : Subnet)
      → validate_subnet c input e ≡ inl s
      → IsAccepted input s × All (Clear c s.cidr) (Subnets.list_subnets c e)
  unfolding validate_subnet
  validate_subnet-IsAccepted input e s h = listed (Subnets.validate_input c input) refl h
    where
      listed :
          (r : Subnet ⊎ SubnetError)
          → Subnets.validate_input c input ≡ r
          → Subnets.check_listed c r e ≡ inl s
          → IsAccepted input s × All (Clear c s.cidr) (Subnets.list_subnets c e)
      listed (inr x) valid h = unfold Subnets.check_listed in cc
      listed (inl s') valid h =
          let (clear, same) = check_overlap-inl s' _ (unfold Subnets.check_listed in h) in
          subst (λ s. IsAccepted input s × All (Clear c s.cidr) (Subnets.list_subnets c e)) same
            (
              validate_parsed-IsAccepted (c.parse_prefix (trim_space input.cidr)) input refl
                  (unfold Subnets.validate_input in valid),
              first_overlap-Clear c s'.cidr (Subnets.list_subnets c e) clear,
            )
