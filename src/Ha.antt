-- ===== src/Ha.antt =====
-- The election of the primary of a pair, internal/ha/election.go. `strings.ToLower` is an argument,
-- and times are integers with 0 for the zero time.
pub mod Election
pub mod Scope
pub mod Witness
pub mod Manager
pub mod Failover
pub mod Sync
pub mod Sharing
pub mod Tests
pub mod FailoverTests
pub mod SyncTests
use monsoon.Prelude.{
  ℕ, Bool, true, false, not, ◌&&◌, ◌||◌, List, [], ◌∷◌, ◌==◌, if◌then◌else◌, length, ℤ, pos, ltbℤ,
  is_not_positive, Ordering,
}
use monsoon.Bytes.{Bytes, equal, bytes_compare}
use monsoon.Text.{trim_space}
use monsoon.Lease.{is_zero}

pub data Role : Type 0 where
  unknown primary secondary : Role

-- "local"
abbrev pub local_name : Bytes
local_name = 108 ∷ 111 ∷ 99 ∷ 97 ∷ 108 ∷ []

-- "load-sharing"
abbrev pub load_sharing : Bytes
load_sharing = 108 ∷ 111 ∷ 97 ∷ 100 ∷ 45 ∷ 115 ∷ 104 ∷ 97 ∷ 114 ∷ 105 ∷ 110 ∷ 103 ∷ []

-- a priority that is not positive gives way to 100
abbrev pub priority : ℤ → ℤ
priority p = if is_not_positive p then pos 100 else p

-- `a <= b` on strings
abbrev pub not_after : Bytes → Bytes → Bool
not_after a b = elim (bytes_compare a b) [ Ordering.gt ↦ false | _ ↦ true ]

module _ (to_lower : Bytes → Bytes) where
  -- `normalizeMode`: whether the mode is the load-sharing one, active-passive being the other
  unfoldable pub is_load_sharing : Bytes → Bool
  unfolding trim_space equal
  is_load_sharing mode = equal (trim_space (to_lower mode)) load_sharing

  -- the name that the tie is decided by
  unfoldable pub node_name : Bytes → Bytes
  unfolding trim_space
  node_name node = to_lower (trim_space node)

  -- the end of `electRole`, on the two names
  unfoldable pub elect_by_name : Bytes → Bytes → Bytes → Role
  unfolding is_load_sharing
  elect_by_name local remote mode =
      let local' = if length local == 0 then local_name else local in
      if length remote == 0
      then primary
      else if not_after local' remote
      then primary
      else if is_load_sharing mode
      then secondary
      else secondary

  -- the part of `electRole` for two peers that are both there
  unfoldable pub elect_by_priority : Bytes → Bytes → Bytes → ℤ → ℤ → Role
  unfolding elect_by_name
  elect_by_priority local remote mode local_priority remote_priority =
      if ltbℤ local_priority remote_priority
      then primary
      else if ltbℤ remote_priority local_priority
      then secondary
      else elect_by_name local remote mode

  -- `electRole`
  unfoldable pub elect_role : Bytes → Bytes → Bytes → Bool → ℤ → ℤ → Bool → ℤ → ℤ → Role
  unfolding elect_by_priority node_name trim_space
  elect_role local_node remote_node mode peer_connected step_down_until now peer_draining lp rp =
      if peer_connected && not (is_zero step_down_until) && ltbℤ now step_down_until
      then secondary
      else if not peer_connected || length (trim_space remote_node) == 0
      then primary
      else if peer_draining
      then primary
      else elect_by_priority (node_name local_node) (node_name remote_node) mode (priority lp)
          (priority rp)
