-- ===== src/Ipam/Addresses/Merge.antt =====
-- Merging records of one address (internal/ipam/engine.go) never hides the graver state.
use monsoon.Prelude.{
  ◌≤◌, Bool, true, false, ◌≡◌, ◌≢◌, ◌⊎◌, inl, inr, Bool-cases, arith, ltb, if◌then◌else◌,
}
use monsoon.Bytes.{Bytes, equal}
use monsoon.Bytes.Order.{equal_iff}
use monsoon.Ipam.Addresses.{
  IpState, available, dhcp, reserved, conflict, quarantine, other_state, AddressRecord, rank_state,
  is_empty, fill, merge_state, merge_address_record,
}

rank_state-le : (s : IpState) → rank_state s ≤ rank_state conflict
unfolding rank_state
rank_state-le available = omega arith
rank_state-le dhcp = omega arith
rank_state-le reserved = omega arith
rank_state-le conflict = omega arith
rank_state-le quarantine = omega arith
rank_state-le (other_state s) = omega arith

abbrev chosen : Bool → Bool → IpState → IpState → IpState
chosen clash higher s t = if clash then conflict else if higher then t else s

chosen-rank :
    (clash : Bool) (s t : IpState)
    → (rank_state s ≤ rank_state (chosen clash (ltb (rank_state s) (rank_state t)) s t))
      × (rank_state t ≤ rank_state (chosen clash (ltb (rank_state s) (rank_state t)) s t))
chosen-rank true s t = (rank_state-le s, rank_state-le t)
chosen-rank false s t = (ground arith, ground arith)

module _ (contains_text : Bytes → Bytes → Bool) where
  merge_state_clash :
      (m n : Bytes) (s t : IpState)
      → is_empty m ≡ false
      → is_empty n ≡ false
      → m ≢ n
      → merge_state contains_text (fill m n) n s t ≡ conflict
  unfolding merge_state
  merge_state_clash m n s t hm hn other = ground (arith, equal_iff m n, hm, hn, other)

  clash-cases :
      (m n : Bytes) (s t : IpState)
      → ((is_empty m ≡ true) ⊎ (is_empty n ≡ true) ⊎ (m ≡ n))
        ⊎ (merge_state contains_text (fill m n) n s t ≡ conflict)
  clash-cases m n s t = elim (Bool-cases (is_empty m)) [
    | inl no_m ↦ inl (inl no_m)
    | inr has_m ↦ elim (Bool-cases (is_empty n)) [
      | inl no_n ↦ inl (inr (inl no_n))
      | inr has_n ↦ elim (Bool-cases (equal m n)) [
        | inl same ↦ inl (inr (inr ((equal_iff m n).0 same)))
        | inr other ↦ inr (
            merge_state_clash m n s t has_m has_n
              (λ e. absurd (ground (arith, equal_iff m n, e, other))))
      ]
    ]
  ]

  -- Behind a merge of two records with the address of the first set, the state ranks as high as
  -- that of either, and it is the conflict unless one of the records lacks a MAC address or both
  -- have the same.
  pub merge_address_record-rank :
      (current next : AddressRecord)
      → is_empty current.ip ≡ false
      → (rank_state current.state
          ≤ rank_state (merge_address_record contains_text current next).state)
        × (rank_state next.state
            ≤ rank_state (merge_address_record contains_text current next).state)
        × (((is_empty current.mac ≡ true) ⊎ (is_empty next.mac ≡ true) ⊎ (current.mac ≡ next.mac))
            ⊎ ((merge_address_record contains_text current next).state ≡ conflict))
  unfolding merge_address_record merge_state
  merge_address_record-rank current next h = rw h (
    (chosen-rank _ current.state next.state).0,
    (chosen-rank _ current.state next.state).1,
    clash-cases current.mac next.mac current.state next.state,
  )
