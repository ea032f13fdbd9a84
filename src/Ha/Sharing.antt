-- ===== src/Ha/Sharing.antt =====
-- The address pools of internal/dhcpv4/pool.go under the scopes that the two nodes of a load-sharing pair
-- give them, `AllocationScope` of internal/ha/failover.go.
use monsoon.Prelude.{
  ℕ, ◌≤◌, ◌<◌, Bool, true, false, not, ◌&&◌, ◌||◌, Option, none, some, ◌≡◌, ◌∙◌, ap, sym, ◌⊎◌, inl,
  inr, arith, ltb, if_intro, Option-cases,
}
use mathlib.Core.Path.{subst}
use monsoon.Bytes.{Bytes}
use monsoon.Ha
use monsoon.Ha.{Role, primary, secondary, unknown}
use monsoon.Ha.Scope.{split_scope, Within, split_scope-Splits}
use monsoon.Ha.Manager
use monsoon.Ha.Manager.{Environment, Manager, connected}
use monsoon.Dhcpv4.Pool
use monsoon.Dhcpv4.Pool.{SubnetPool, ScopeProvider, bit}
use monsoon.Dhcpv4.Pool.Allocation.{IsPool, effective_range-inside}
use monsoon.Dhcpv4.Pool.Scan.{next_free-IsLowest}

-- An address that `Allocate` would take from a pool: the next free one, or one that was asked for.
abbrev pub Offers : ScopeProvider → SubnetPool → ℕ → Type 0
Offers scope pool u =
    (Pool.next_free (some scope) pool ≡ some u) ⊎ (Pool.is_free_in (some scope) pool u ≡ true)

clamp-inside :
    (pool : SubnetPool) (a b s e : ℕ) → Pool.clamp pool (a, b) ≡ some (s, e) → (a ≤ s) × (e ≤ b)
unfolding Pool.clamp
clamp-inside pool a b s e h = ground arith

abbrev InRange : ScopeProvider → SubnetPool → ℕ → Type 0
InRange scope pool u = (r : ℕ × ℕ) × (Pool.effective_range (some scope) pool ≡ some r) × Within r u

next_free-InRange :
    (scope : ScopeProvider) (pool : SubnetPool) (u : ℕ)
    → IsPool pool
    → Pool.next_free (some scope) pool ≡ some u
    → InRange scope pool u
unfolding Pool.next_free
next_free-InRange scope pool u p e = elim (Option-cases (Pool.effective_range (some scope) pool)) [
  | inl absent ↦ let h : none ≡ some u = rw (absent, Pool.next_free) at e in absurd cc
  | inr ((start, end), found) ↦
      let (low, high, order) = effective_range-inside (some scope) pool start end p found in
      let lowest =
        (next_free-IsLowest (some scope) pool start end found (omega (arith, p.1)) order).0 u e in
      ((start, end), found, (lowest.0, lowest.1))
]

is_free_in-InRange :
    (scope : ScopeProvider) (pool : SubnetPool) (u : ℕ)
    → Pool.is_free_in (some scope) pool u ≡ true
    → InRange scope pool u
unfolding Pool.is_free_in
is_free_in-InRange scope pool u e = elim (Option-cases (Pool.effective_range (some scope) pool)) [
  | inl absent ↦ let h : false ≡ true = rw (absent, Pool.is_free_in) at e in absurd cc
  | inr ((start, end), found) ↦
      let h : (not (ltb u start || ltb end u) && not (bit pool u)) ≡ true =
        rw (found, Pool.is_free_in) at e in
      ((start, end), found, within start end (bit pool u) h)
]
  where
    within :
        (start end : ℕ) (b : Bool)
        → (not (ltb u start || ltb end u) && not b) ≡ true
        → Within (start, end) u
    within start end b h = ground arith

Offers-InRange :
    (scope : ScopeProvider) (pool : SubnetPool) (u : ℕ)
    → IsPool pool
    → Offers scope pool u
    → InRange scope pool u
Offers-InRange scope pool u p (inl e) = next_free-InRange scope pool u p e
Offers-InRange scope pool u p (inr e) = is_free_in-InRange scope pool u e

abbrev InScope : ScopeProvider → SubnetPool → ℕ → Type 0
InScope scope pool u = (r : ℕ × ℕ) × (scope pool.id pool.start pool.end ≡ some r) × Within r u

-- An offered address is in the scope.
Offers-InScope :
    (scope : ScopeProvider) (pool : SubnetPool) (u : ℕ)
    → IsPool pool
    → Offers scope pool u
    → InScope scope pool u
unfolding Pool.effective_range
Offers-InScope scope pool u p o =
    let ((s, e), found, within) = Offers-InRange scope pool u p o in
    elim (Option-cases (scope pool.id pool.start pool.end)) [
      | inl absent ↦ let h : none ≡ some (s, e) = rw absent at found in absurd cc
      | inr ((a, b), scoped) ↦
          let h : Pool.clamp pool (a, b) ≡ some (s, e) = rw scoped at found in
          let (la, hb) = clamp-inside pool a b s e h in
          ((a, b), scoped, (omega (arith, la, within.0), omega (arith, hb, within.1)))
    ]

-- the range of a node whose peer is there
scope-shared :
    (env : Environment) (m : Manager) (id : Bytes) (start end : ℕ) (r : ℕ × ℕ)
    → Ha.is_load_sharing env.to_lower m.mode ≡ true
    → m.peer ≡ connected
    → Manager.allocation_scope env m id start end ≡ some r
    → Manager.share_of env m.role (split_scope start end) ≡ some r
unfolding Manager.allocation_scope
scope-shared env m id start end r shares here =
    let Goal : Option (ℕ × ℕ) → Type 0 =
      λ x. x ≡ some r → Manager.share_of env m.role (split_scope start end) ≡ some r in
    if_intro Goal (ltb end start) (λ h e. absurd cc)
      (λ ordered.
        if_intro Goal m.fenced (λ h e. absurd cc)
          (λ free.
            if_intro Goal (Ha.is_load_sharing env.to_lower m.mode)
              (λ h.
                if_intro Goal (Manager.is_connected m.peer) (λ h e. e)
                  (λ lost. absurd (ground (arith, lost, ap Manager.is_connected here))))
              (λ other. absurd (cc (other, shares)))))

upper-some : (env : Environment) (x r : ℕ × ℕ) → Manager.upper_scope env x ≡ some r → r ≡ x
upper-some env (a, b) (c, d) h = ground arith

share-primary :
    (env : Environment) (role : Role) (x : (ℕ × ℕ) × (ℕ × ℕ)) (r : ℕ × ℕ)
    → role ≡ primary
    → Manager.share_of env role x ≡ some r
    → r ≡ x.0
share-primary env primary (a, b) r e h = cc
share-primary env secondary (a, b) r e h = absurd cc
share-primary env unknown (a, b) r e h = absurd cc

share-secondary :
    (env : Environment) (role : Role) (x : (ℕ × ℕ) × (ℕ × ℕ)) (r : ℕ × ℕ)
    → role ≡ secondary
    → Manager.share_of env role x ≡ some r
    → r ≡ x.1
share-secondary env secondary (a, b) r e h = upper-some env b r h
share-secondary env primary (a, b) r e h = absurd cc
share-secondary env unknown (a, b) r e h = absurd cc

module _ (env : Environment) (ma mb : Manager) (pa pb : SubnetPool) where
  -- Two nodes of a load-sharing pair that see one another, one of them primary and the other secondary,
  -- never take the same address of a pool: an address that the pool of the one may give out under its
  -- scope, be it the next free one or one that a client asked for, differs from every such address
  -- of the other's pool with the same range.
  pub Offers-apart :
      IsPool pa
      → IsPool pb
      → pa.start ≡ pb.start
      → pa.end ≡ pb.end
      → Ha.is_load_sharing env.to_lower ma.mode ≡ true
      → Ha.is_load_sharing env.to_lower mb.mode ≡ true
      → ma.peer ≡ connected
      → mb.peer ≡ connected
      → ma.role ≡ primary
      → mb.role ≡ secondary
      → (u v : ℕ) → Offers (Manager.allocation_scope env ma) pa u
      → Offers (Manager.allocation_scope env mb) pb v
      → u < v
  Offers-apart ka kb starts ends sa sb ca cb leads follows u v ou ov =
      let (ra, ea, wa) = Offers-InScope (Manager.allocation_scope env ma) pa u ka ou in
      let (rb, eb, wb) = Offers-InScope (Manager.allocation_scope env mb) pb v kb ov in
      let sha = scope-shared env ma pa.id pa.start pa.end ra sa ca ea in
      let shb = scope-shared env mb pb.id pb.start pb.end rb sb cb eb in
      let both = split_scope-Splits pa.start pa.end ka.0 ka.1 in
      let ranges =
        ap (λ x. split_scope x pb.end) (sym starts) ∙ ap (split_scope pa.start) (sym ends) in
      let lower = share-primary env ma.role (split_scope pa.start pa.end) ra leads sha in
      let upper =
        share-secondary env mb.role (split_scope pb.start pb.end) rb follows shb
        ∙ ap (λ x. x.1) ranges in
      both.apart u v (subst (λ r. Within r u) lower wa) (subst (λ r. Within r v) upper wb)
