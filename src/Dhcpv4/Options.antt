-- ===== src/Dhcpv4/Options.antt =====
-- The options of a DHCPv4 message, internal/dhcpv4/options.go and rapid_commit.go: a map from
-- codes to values, its decoder, its encoder and its accessors. The list that stands for the map
-- has an order, which is the order in which `Encode` happens to walk it.
pub mod RoundTrip
use monsoon.Prelude.{
  ℕ, zero, suc, Bool, true, false, ◌||◌, Option, none, some, List, [], ◌∷◌, ◌++◌, ltb, ◌==◌, ◌>>=◌,
  if◌then◌else◌, length, take, drop, is_some,
}
use monsoon.Bytes.{Bytes, put_uint32}
use monsoon.GoMap.{Map, lookup, insert, nat_eq}
use monsoon.Net.{to4}

abbrev pub option_pad : ℕ
option_pad = 0

abbrev pub option_subnet_mask : ℕ
option_subnet_mask = 1

abbrev pub option_router : ℕ
option_router = 3

abbrev pub option_domain_name_server : ℕ
option_domain_name_server = 6

abbrev pub option_host_name : ℕ
option_host_name = 12

abbrev pub option_requested_ip : ℕ
option_requested_ip = 50

abbrev pub option_ip_address_lease_time : ℕ
option_ip_address_lease_time = 51

abbrev pub option_message_type : ℕ
option_message_type = 53

abbrev pub option_server_identifier : ℕ
option_server_identifier = 54

abbrev pub option_message : ℕ
option_message = 56

abbrev pub option_renewal_time_value : ℕ
option_renewal_time_value = 58

abbrev pub option_rebinding_time_value : ℕ
option_rebinding_time_value = 59

abbrev pub option_vendor_class_id : ℕ
option_vendor_class_id = 60

abbrev pub option_client_identifier : ℕ
option_client_identifier = 61

abbrev pub option_user_class : ℕ
option_user_class = 77

abbrev pub option_rapid_commit : ℕ
option_rapid_commit = 80

abbrev pub option_relay_agent_info : ℕ
option_relay_agent_info = 82

abbrev pub option_end : ℕ
option_end = 255

abbrev pub message_discover : ℕ
message_discover = 1

abbrev pub message_offer : ℕ
message_offer = 2

abbrev pub message_request : ℕ
message_request = 3

abbrev pub message_decline : ℕ
message_decline = 4

abbrev pub message_ack : ℕ
message_ack = 5

abbrev pub message_nak : ℕ
message_nak = 6

abbrev pub message_release : ℕ
message_release = 7

abbrev pub message_inform : ℕ
message_inform = 8

abbrev pub Options : Type 0
Options = Map ℕ Bytes

-- what `DecodeOptions` returns: the options, or an error
pub data Decoded : Type 0 where
  ok : Options → Decoded
  truncated_length : Decoded
  truncated_option : ℕ → Decoded

-- an option of `code` behind its code: its length and its value, then the rest of the loop
unfoldable pub decode_value : (Bytes → Options → Decoded) → ℕ → Bytes → Options → Decoded
unfolding insert
decode_value rest code [] opts = truncated_length
decode_value rest code (l ∷ body) opts =
    if ltb (length body) l
    then truncated_option code
    else rest (drop l body) (insert code (take l body) opts)

-- `for i := 0; i < len(raw);`: a round reads at least one byte, so the bytes left bound the rounds
unfoldable pub decode_loop : ℕ → Bytes → Options → Decoded
unfolding decode_value
decode_loop zero raw opts = ok opts
decode_loop (suc fuel) [] opts = ok opts
decode_loop (suc fuel) (code ∷ raw) opts =
    let padded = decode_loop fuel raw opts in
    if code == option_pad
    then padded
    else if code == option_end
    then ok opts
    else decode_value (λ raw' opts'. decode_loop fuel raw' opts') code raw opts

-- `DecodeOptions`
unfoldable pub decode_options : Bytes → Decoded
unfolding decode_loop
decode_options raw = decode_loop (length raw) raw []

-- `Options.Encode`: the options in the order of the walk, then the end; `none` where a value is
-- longer than a length byte can say
unfoldable pub encode : Options → Option Bytes
encode [] = some (option_end ∷ [])
encode ((code, val) ∷ o) =
    let rest = encode o in
    if code == option_pad || code == option_end
    then rest
    else if ltb 255 (length val)
    then none
    else rest >>= λ out. some (code ∷ length val ∷ val ++ out)

-- `MessageType`
unfoldable pub message_type : Options → Option ℕ
unfolding lookup
message_type o = elim (lookup option_message_type o) [ some (t ∷ []) ↦ some t | _ ↦ none ]

unfoldable pub set_message_type : ℕ → Options → Options
unfolding insert
set_message_type t o = insert option_message_type (t ∷ []) o

-- `RequestedIP`: four bytes, or nil
unfoldable pub requested_ip : Options → Bytes
unfolding lookup
requested_ip o = elim (lookup option_requested_ip o) [
  | none ↦ []
  | some v ↦ if length v == 4 then v else []
]

-- a value, or nothing where the option is missing: `ClientIdentifier`, `Hostname`, `VendorClass`
-- and `UserClass`
unfoldable pub value_or_empty : ℕ → Options → Bytes
unfolding lookup
value_or_empty code o = elim (lookup code o) [ none ↦ [] | some v ↦ v ]

unfoldable pub client_identifier : Options → Bytes
unfolding value_or_empty
client_identifier o = value_or_empty option_client_identifier o

unfoldable pub hostname : Options → Bytes
unfolding value_or_empty
hostname o = value_or_empty option_host_name o

unfoldable pub vendor_class : Options → Bytes
unfolding value_or_empty
vendor_class o = value_or_empty option_vendor_class_id o

unfoldable pub user_class : Options → Bytes
unfolding value_or_empty
user_class o = value_or_empty option_user_class o

-- `SetIPv4`
unfoldable pub set_ipv4 : ℕ → Bytes → Options → Options
unfolding insert to4
set_ipv4 code ip o = insert code (to4 ip) o

unfoldable pub concat_ipv4 : List Bytes → Bytes
unfolding to4
concat_ipv4 [] = []
concat_ipv4 (ip ∷ ips) = to4 ip ++ concat_ipv4 ips

-- `SetIPv4List`
unfoldable pub set_ipv4_list : ℕ → List Bytes → Options → Options
unfolding insert concat_ipv4
set_ipv4_list code ips o = insert code (concat_ipv4 ips) o

-- `SetDurationSeconds`
unfoldable pub set_duration_seconds : ℕ → ℕ → Options → Options
unfolding insert put_uint32
set_duration_seconds code sec o = insert code (put_uint32 sec) o

-- `SetString`
unfoldable pub set_string : ℕ → Bytes → Options → Options
unfolding insert
set_string code s o = insert code s o

-- `HasRapidCommit`
unfoldable pub has_rapid_commit : Options → Bool
unfolding lookup
has_rapid_commit o = is_some (lookup option_rapid_commit o)

-- `EnableRapidCommit`
unfoldable pub enable_rapid_commit : Options → Options
unfolding insert
enable_rapid_commit o = insert option_rapid_commit [] o
