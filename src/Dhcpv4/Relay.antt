-- ===== src/Dhcpv4/Relay.antt =====
-- The relay agent information, internal/dhcpv4/relay.go.
use monsoon.Prelude.{ℕ, zero, suc, [], ◌∷◌, ltb, ◌==◌, if◌then◌else◌, length, take, drop}
use monsoon.Bytes.{Bytes}
use monsoon.Text.{trim_space}

pub record RelayInfo : Type 0 where
  pub raw : Bytes
  pub circuit_id : Bytes
  pub remote_id : Bytes

-- the `switch` on the code of a sub-option
unfoldable pub store_sub_option : ℕ → Bytes → RelayInfo → RelayInfo
unfolding trim_space
store_sub_option sub_code content info =
    if sub_code == 1
    then record info { circuit_id = trim_space content }
    else if sub_code == 2
    then record info { remote_id = trim_space content }
    else info

-- `for i := 0; i+2 <= len(raw);`: a round reads at least two bytes
unfoldable pub relay_loop : ℕ → Bytes → RelayInfo → RelayInfo
unfolding store_sub_option
relay_loop zero rest info = info
relay_loop (suc fuel) [] info = info
relay_loop (suc fuel) (_ ∷ []) info = info
relay_loop (suc fuel) (sub_code ∷ sub_len ∷ rest) info =
    let next =
      relay_loop fuel (drop sub_len rest) (store_sub_option sub_code (take sub_len rest) info) in
    if ltb (length rest) sub_len then info else next

-- `ParseRelayAgentInfo`
unfoldable pub parse_relay_agent_info : Bytes → RelayInfo
unfolding relay_loop
parse_relay_agent_info raw =
    relay_loop (length raw) raw (record { raw = raw; circuit_id = []; remote_id = [] })
