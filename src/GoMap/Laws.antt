-- ===== src/GoMap/Laws.antt =====
-- What a map holds after an insertion or a deletion, and that it holds each key once.
use monsoon.Prelude.{
  suc, true, none, some, [], ◌∷◌, ◌≡◌, refl, arith, if◌then◌else◌, length, is_some, inl, inr,
  Bool-cases,
}
use monsoon.GoMap.{Eq, Map, lookup, insert, erase}

pub beq_refl {ℓ} : {K : Type ℓ} ⦃e : Eq K⦄ (k : K) → e.beq k k ≡ true
beq_refl ⦃e⦄ k = (e.beq_iff k k).1 refl

module _ {ℓ κ} {K : Type ℓ} {V : Type κ} ⦃e : Eq K⦄ where
  pub lookup-insert :
      (k j : K) (v : V) (m : Map K V)
      → lookup j (insert k v m) ≡ (if e.beq k j then some v else lookup j m)
  unfolding lookup insert
  lookup-insert k j v [] = refl
  lookup-insert k j v ((i, w) ∷ m) =
      ground (arith, e.beq_iff k j, e.beq_iff i k, e.beq_iff i j, lookup-insert k j v m)

  pub lookup-erase :
      (k j : K) (m : Map K V) → lookup j (erase k m) ≡ (if e.beq k j then none else lookup j m)
  unfolding lookup erase
  lookup-erase k j [] = ground arith
  lookup-erase k j ((i, w) ∷ m) =
      ground (arith, e.beq_iff k j, e.beq_iff i k, e.beq_iff i j, lookup-erase k j m)

  pub lookup-insert_self : (k : K) (v : V) (m : Map K V) → lookup k (insert k v m) ≡ some v
  lookup-insert_self k v m = ground (arith, lookup-insert k k v m, beq_refl k)

  pub length-insert_found :
      (k : K) (v : V) (m : Map K V) → is_some (lookup k m) ≡ true → length (insert k v m) ≡ length m
  unfolding lookup insert
  length-insert_found k v [] h = cc
  length-insert_found k v ((i, w) ∷ m) h = ground (arith, length-insert_found k v m)

  pub length-insert_fresh :
      (k : K) (v : V) (m : Map K V) → lookup k m ≡ none → length (insert k v m) ≡ suc (length m)
  unfolding lookup insert
  length-insert_fresh k v [] h = refl
  length-insert_fresh k v ((i, w) ∷ m) h = ground (arith, length-insert_fresh k v m)

-- Each key stands once.
abbrev pub Distinct {ℓ κ} : {K : Type ℓ} {V : Type κ} ⦃e : Eq K⦄ → Map K V → Type κ
Distinct [] = Unit
Distinct ((k, v) ∷ m) = (lookup k m ≡ none) × Distinct m

module _ {ℓ κ} {K : Type ℓ} {V : Type κ} ⦃e : Eq K⦄ where
  pub Distinct-insert : (k : K) (v : V) (m : Map K V) → Distinct m → Distinct (insert k v m)
  unfolding insert
  Distinct-insert k v [] d = (unfold lookup in refl, tt)
  Distinct-insert k v ((i, w) ∷ m) d = elim (Bool-cases (e.beq i k)) [
    | inl same ↦ rw same d
    | inr other ↦ rw other (
      ground (arith, lookup-insert k i v m, e.beq_iff k i, e.beq_iff i k),
      Distinct-insert k v m d.1,
    )
  ]

  pub Distinct-erase : (k : K) (m : Map K V) → Distinct m → Distinct (erase k m)
  unfolding erase
  Distinct-erase k [] d = tt
  Distinct-erase k ((i, w) ∷ m) d = elim (Bool-cases (e.beq i k)) [
    | inl same ↦ rw same (Distinct-erase k m d.1)
    | inr other ↦ rw other (ground (arith, lookup-erase k i m), Distinct-erase k m d.1)
  ]

  erase_fresh : (k : K) (m : Map K V) → lookup k m ≡ none → erase k m ≡ m
  unfolding lookup erase
  erase_fresh k [] h = refl
  erase_fresh k ((i, w) ∷ m) h = ground (arith, erase_fresh k m)

  pub length-erase_found :
      (k : K) (m : Map K V)
      → Distinct m
      → is_some (lookup k m) ≡ true
      → suc (length (erase k m)) ≡ length m
  unfolding lookup erase
  length-erase_found k [] d h = cc
  length-erase_found k ((i, w) ∷ m) d h =
      ground (arith, length-erase_found k m d.1, erase_fresh k m, e.beq_iff i k)
