-- ===== src/Ha/Sync/Wanted.antt =====
-- The leases of a snapshot that a node wants, the first loop of `applySnapshot` of internal/ha/sync.go:
-- the last lease under each address.
use monsoon.Prelude.{
  Bool, true, false, not, ◌&&◌, Option, none, some, List, [], ◌∷◌, ◌≡◌, ◌∙◌, sym, inl, inr, refl,
  ◌==◌, if◌then◌else◌, if_intro, length, Bool-cases,
}
use monsoon.Bytes.{Bytes}
use monsoon.GoMap.{Map, lookup, insert, bytes_eq}
use monsoon.GoMap.Laws.{Distinct, Distinct-insert, lookup-insert}
use monsoon.Text.{trim_space}
use monsoon.Lease.{Lease}
use monsoon.Ha.Sync.{desired_leases}

-- The last lease of a list that has this address, spaces around it apart; an empty one does not count.
pub last_with : Bytes → List Lease → Option Lease
last_with k [] = none
last_with k (l ∷ ls) =
    let ip = trim_space l.ip in
    elim (last_with k ls) [
      | some x ↦ some x
      | none ↦
          if not (length ip == 0) && bytes_eq.beq ip k then some (record l { ip = ip }) else none
    ]

abbrev pub or_else : Option Lease → Option Lease → Option Lease
or_else none o = o
or_else (some l) o = some l

-- the wanted leases of a snapshot are the last ones
pub desired_leases-last :
    (k : Bytes) (ls : List Lease) (m : Map Bytes Lease)
    → lookup k (desired_leases ls m) ≡ or_else (last_with k ls) (lookup k m)
unfolding desired_leases last_with
desired_leases-last k [] m = refl
desired_leases-last k (l ∷ ls) m =
    desired_leases-last k ls (
      if length (trim_space l.ip) == 0
      then m
      else insert (trim_space l.ip) (record l { ip = trim_space l.ip }) m)
    ∙ by_rest (last_with k ls)
  where
    by_key :
        (b : Bool) (x : Lease)
        → (if b then some x else lookup k m) ≡ or_else (if b then some x else none) (lookup k m)
    by_key true x = refl
    by_key false x = refl

    by_rest :
        (o : Option Lease)
        → or_else o (
            lookup k (
              if length (trim_space l.ip) == 0
              then m
              else insert (trim_space l.ip) (record l { ip = trim_space l.ip }) m))
          ≡ or_else
              (elim o [
                | some x ↦ some x
                | none ↦
                    if not (length (trim_space l.ip) == 0) && bytes_eq.beq (trim_space l.ip) k
                    then some (record l { ip = trim_space l.ip })
                    else none
              ])
              (lookup k m)
    by_rest (some x) = refl
    by_rest none = elim (Bool-cases (length (trim_space l.ip) == 0)) [
      | inl blank ↦ rw blank refl
      | inr ip ↦ rw ip (
          lookup-insert (trim_space l.ip) k _ m
          ∙ by_key (bytes_eq.beq (trim_space l.ip) k) (record l { ip = trim_space l.ip }))
    ]

-- Each lease stands under its address.
abbrev pub IsKeyed : Map Bytes Lease → Type 0
IsKeyed [] = Unit
IsKeyed ((ip, l) ∷ m) = (l.ip ≡ ip) × IsKeyed m

IsKeyed-insert :
    (ip : Bytes) (l : Lease) (m : Map Bytes Lease) → l.ip ≡ ip → IsKeyed m → IsKeyed (insert ip l m)
unfolding insert
IsKeyed-insert ip l [] e p = (e, tt)
IsKeyed-insert ip l ((j, x) ∷ m) e p = elim (Bool-cases (bytes_eq.beq j ip)) [
  | inl same ↦ rw same (e ∙ sym ((bytes_eq.beq_iff j ip).0 same), p.1)
  | inr other ↦ rw other (p.0, IsKeyed-insert ip l m e p.1)
]

pub desired-IsKeyed :
    (ls : List Lease) (m : Map Bytes Lease)
    → IsKeyed m
    → Distinct m
    → IsKeyed (desired_leases ls m) × Distinct (desired_leases ls m)
unfolding desired_leases
desired-IsKeyed [] m p d = (p, d)
desired-IsKeyed (l ∷ ls) m p d =
    if_intro (λ x. IsKeyed (desired_leases ls x) × Distinct (desired_leases ls x))
      (length (trim_space l.ip) == 0) (λ blank. desired-IsKeyed ls m p d)
      (λ ip.
        desired-IsKeyed ls _ (IsKeyed-insert (trim_space l.ip) _ m refl p)
          (Distinct-insert _ _ m d))

-- an address is found as the last lease of the snapshot that has it
abbrev pub last_completed : (Lease → Lease) → Option Lease → Option Lease
last_completed completed none = none
last_completed completed (some l) = some (completed l)
