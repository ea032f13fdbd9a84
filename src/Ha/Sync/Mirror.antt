-- ===== src/Ha/Sync/Mirror.antt =====
-- A snapshot of a peer's leases, `applySnapshot` of internal/ha/sync.go: what the store holds behind it,
-- by what its operations promise.
use monsoon.Prelude.{
  Bool, true, false, not, ◌&&◌, Option, none, some, List, [], ◌∷◌, ◌≡◌, ◌∙◌, ap, sym, refl, arith,
  if◌then◌else◌, if_intro, is_some,
}
use mathlib.Core.Path.{subst}
use monsoon.Bytes.{Bytes}
use monsoon.GoMap.{Map, lookup, bytes_eq}
use monsoon.GoMap.Laws.{Distinct}
use monsoon.Text.{trim_space}
use monsoon.Lease.{Lease}
use monsoon.Lease.EngineStore.Leases.{has_ip}
use monsoon.Ha
use monsoon.Ha.Manager.{Environment}
use monsoon.Ha.Sync.Wanted.{
  last_with, or_else, desired_leases-last, IsKeyed, desired-IsKeyed, last_completed,
}
use monsoon.Ha.Sync.{
  Replica, and_then, desired_leases, upsert_all, delete_others, apply_snapshot, prune,
}

-- What a store promises of the states that it comes to: a lease that is put is found under its address,
-- as the store completes it; a deleted one is not; the list has every lease.
pub record StoreLaws {S : Type 0} (st : Replica S) : Type 1 where
  pub IsGood : S → Type 0
  pub get : S → Bytes → Option Lease
  pub completed : Lease → Lease
  pub upsert-IsGood :
      (l : Lease) (s : S) → IsGood s → (st.upsert l s).1 ≡ true → IsGood (st.upsert l s).0
  pub delete-IsGood :
      (ip : Bytes) (s : S) → IsGood s → (st.delete ip s).1 ≡ true → IsGood (st.delete ip s).0
  pub get-upsert :
      (l : Lease) (s : S)
      → IsGood s
      → (st.upsert l s).1 ≡ true
      → (k : Bytes)
      → get (st.upsert l s).0 k ≡ (if bytes_eq.beq l.ip k then some (completed l) else get s k)
  pub get-delete :
      (ip : Bytes) (s : S)
      → IsGood s
      → (st.delete ip s).1 ≡ true
      → (k : Bytes) → get (st.delete ip s).0 k ≡ (if bytes_eq.beq ip k then none else get s k)
  pub get-list_all :
      (s : S) (ls : List Lease)
      → IsGood s
      → st.list_all s ≡ some ls
      → (k : Bytes) → has_ip k ls ≡ false
      → get s k ≡ none

-- what a map of wanted leases makes of a store's view
abbrev pub wanted_or : (Lease → Lease) → Option Lease → Option Lease → Option Lease
wanted_or completed none rest = rest
wanted_or completed (some l) rest = some (completed l)

head_wanted :
    (completed : Lease → Lease) (l : Lease) (b : Bool) (o g : Option Lease)
    → (b ≡ true → o ≡ none)
    → wanted_or completed o (if b then some (completed l) else g)
      ≡ wanted_or completed (if b then some l else o) g
head_wanted completed l true o g h = ap (λ x. wanted_or completed x (some (completed l))) (h refl)
head_wanted completed l false o g h = refl

kept_test :
    (b r w : Bool) (g : Option Lease)
    → (b ≡ true → w ≡ true)
    → (if r && not w then none else g) ≡ (if (if b then true else r) && not w then none else g)
kept_test b r w g h = ground (arith)

gone_test :
    (b r w : Bool) (g : Option Lease)
    → (b ≡ true → w ≡ false)
    → (if r && not w then none else (if b then none else g))
      ≡ (if (if b then true else r) && not w then none else g)
gone_test b r w g h = ground (arith)

complete_test :
    (r w : Bool) (g : Option Lease)
    → (r ≡ false → g ≡ none)
    → (if r && not w then none else g) ≡ (if w then g else none)
complete_test r w g h = ground (arith)

last_test :
    (completed : Lease → Lease) (o g : Option Lease)
    → (if is_some o then wanted_or completed o g else none) ≡ last_completed completed o
last_test completed none g = refl
last_test completed (some l) g = refl

module _ {S : Type 0} (st : Replica S) (laws : StoreLaws st) where
  and_then-true :
      (rest : S → S × Bool) (r : S × Bool)
      → (and_then st rest r).1 ≡ true
      → (r.1 ≡ true) × ((rest r.0).1 ≡ true) × (and_then st rest r ≡ rest r.0)
  and_then-true rest (s, true) h = (refl, h, refl)
  and_then-true rest (s, false) h = absurd cc

  get-upsert_all :
      (m : Map Bytes Lease) (s : S)
      → laws.IsGood s
      → IsKeyed m
      → Distinct m
      → (upsert_all st m s).1 ≡ true
      → laws.IsGood (upsert_all st m s).0
        × ((k : Bytes)
            → laws.get (upsert_all st m s).0 k
              ≡ wanted_or laws.completed (lookup k m) (laws.get s k))
  unfolding upsert_all lookup
  get-upsert_all [] s good p d h = (good, λ k. refl)
  get-upsert_all ((ip, l) ∷ m) s good p d h =
      let (one, more, same) = and_then-true (upsert_all st m) (st.upsert l s) h in
      let (good', rest) =
        get-upsert_all m (st.upsert l s).0 (laws.upsert-IsGood l s good one) p.1 d.1 more in
      (
        subst (λ r. laws.IsGood r.0) (sym same) good',
        λ k.
            ap (λ r. laws.get r.0 k) same
            ∙ rest k
            ∙ ap (wanted_or laws.completed (lookup k m)) (laws.get-upsert l s good one k)
            ∙ ap
                (λ j.
                  wanted_or laws.completed (lookup k m)
                    (if bytes_eq.beq j k then some (laws.completed l) else laws.get s k))
                p.0
            ∙ head_wanted laws.completed l (bytes_eq.beq ip k) (lookup k m) (laws.get s k)
                (λ e. ap (λ j. lookup j m) (sym ((bytes_eq.beq_iff ip k).0 e)) ∙ d.0),
      )

  -- the leases that are not wanted are gone, and the others as they were
  get-delete_others :
      (wanted : Map Bytes Lease) (ls : List Lease) (s : S)
      → laws.IsGood s
      → (delete_others st wanted ls s).1 ≡ true
      → (k : Bytes)
      → laws.get (delete_others st wanted ls s).0 k ≡ (
          if has_ip k ls && not (is_some (lookup (trim_space k) wanted))
          then none
          else laws.get s k)
  unfolding delete_others has_ip
  get-delete_others wanted [] s good h k = refl
  get-delete_others wanted (l ∷ ls) s good h k =
      let w = is_some (lookup (trim_space k) wanted) in
      if_intro {A = S × Bool}
        (λ r.
          r.1 ≡ true
          → laws.get r.0 k ≡ (
              if (if bytes_eq.beq l.ip k then true else has_ip k ls) && not w
              then none
              else laws.get s k))
        (is_some (lookup (trim_space l.ip) wanted))
        (λ kept h.
          get-delete_others wanted ls s good h k
          ∙ kept_test (bytes_eq.beq l.ip k) (has_ip k ls) w (laws.get s k)
              (λ e. sym (at_key e) ∙ kept))
        (λ gone h.
          let (one, more, same) = and_then-true (delete_others st wanted ls) (st.delete l.ip s) h in
          ap (λ r. laws.get r.0 k) same
          ∙ get-delete_others wanted ls (st.delete l.ip s).0 (laws.delete-IsGood l.ip s good one)
              more k
          ∙ ap (λ g. if has_ip k ls && not w then none else g) (laws.get-delete l.ip s good one k)
          ∙ gone_test (bytes_eq.beq l.ip k) (has_ip k ls) w (laws.get s k)
              (λ e. sym (at_key e) ∙ gone))
        h
    where
      at_key :
          bytes_eq.beq l.ip k ≡ true
          → is_some (lookup (trim_space l.ip) wanted) ≡ is_some (lookup (trim_space k) wanted)
      at_key e = ap (λ j. is_some (lookup (trim_space j) wanted)) ((bytes_eq.beq_iff l.ip k).0 e)

  prune-true :
      (wanted : Map Bytes Lease) (s : S) (o : Option (List Lease))
      → laws.IsGood s
      → st.list_all s ≡ o
      → (prune st wanted s o).1 ≡ true
      → (k : Bytes)
      → laws.get (prune st wanted s o).0 k
        ≡ (if is_some (lookup (trim_space k) wanted) then laws.get s k else none)
  prune-true wanted s none good e h k = cc
  prune-true wanted s (some ls) good e h k =
      get-delete_others wanted ls s good h k
      ∙ complete_test (has_ip k ls) (is_some (lookup (trim_space k) wanted)) (laws.get s k)
          (laws.get-list_all s ls good e k)

  -- A node in the active-passive mode that has taken over a snapshot without an error has exactly the
  -- leases of the snapshot: an address without spaces around it is found if and only if a lease of
  -- the snapshot has it, spaces apart, and what is found is the last such lease, with its address
  -- trimmed, as the store completes it. This holds of a store with `StoreLaws`, which the store over
  -- the storage engine has, in a state that is good for it.
  pub apply_snapshot-mirrors :
      (env : Environment) (mode : Bytes) (ls : List Lease) (s : S) (k : Bytes)
      → laws.IsGood s
      → trim_space k ≡ k
      → Ha.is_load_sharing env.to_lower mode ≡ false
      → (apply_snapshot st env mode ls s).1 ≡ true
      → laws.get (apply_snapshot st env mode ls s).0 k
        ≡ last_completed laws.completed (last_with k ls)
  unfolding apply_snapshot
  apply_snapshot-mirrors env mode ls s k good trimmed alone = rw alone (λ h.
      let wanted = desired_leases ls [] in
      let (keyed, distinct) = desired-IsKeyed ls [] tt tt in
      let s1 = (upsert_all st wanted s).0 in
      let (one, more, same) =
        and_then-true (λ s'. prune st wanted s' (st.list_all s')) (upsert_all st wanted s) h in
      let (good1, found) = get-upsert_all wanted s good keyed distinct one in
      ap (λ r. laws.get r.0 k) same
      ∙ prune-true wanted s1 (st.list_all s1) good1 refl more k
      ∙ ap (λ j. if is_some (lookup j wanted) then laws.get s1 k else none) trimmed
      ∙ ap (λ g. if is_some (lookup k wanted) then g else none) (found k)
      ∙ last_test laws.completed (lookup k wanted) (laws.get s k)
      ∙ ap (last_completed laws.completed) (desired_leases-last k ls [] ∙ or_none (last_with k ls)))
    where
      or_none : (o : Option Lease) → or_else o none ≡ o
      or_none none = refl
      or_none (some l) = refl
