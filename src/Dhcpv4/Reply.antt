-- ===== src/Dhcpv4/Reply.antt =====
-- Where a reply goes, internal/dhcpv4/broadcast.go, and the test of the zero address.
use monsoon.Prelude.{ℕ, Bool, true, ◌&&◌, Option, some, ◌∷◌, ◌==◌, not, if◌then◌else◌}
use monsoon.Bytes.{Bytes}
use monsoon.Net.{to4, is_nil}
use monsoon.Dhcpv4.Packet.{Packet}

-- the part of a `net.UDPAddr` that a server fills in
pub record UdpAddr : Type 0 where
  pub ip : Bytes
  pub port : ℕ

unfoldable pub all_zero : Bytes → Bool
all_zero (a ∷ b ∷ c ∷ d ∷ _) = a == 0 && b == 0 && c == 0 && d == 0
all_zero _ = true

-- `isZeroIPv4`
unfoldable pub is_zero_ipv4 : Bytes → Bool
unfolding all_zero to4
is_zero_ipv4 ip = all_zero (to4 ip)

abbrev is_set : Bytes → Bool
is_set ip = not (is_nil ip) && not (is_zero_ipv4 ip)

-- `ResponseTarget`; `remote` may be nil
unfoldable pub response_target : Packet → Option UdpAddr → Packet → Option UdpAddr
unfolding is_nil is_zero_ipv4 to4
response_target req remote resp =
    if is_set req.giaddr
    then some (record { ip = to4 req.giaddr; port = 67 })
    else if is_set req.ciaddr
    then some (record { ip = to4 req.ciaddr; port = 68 })
    else if is_set resp.yiaddr
    then some (record { ip = to4 resp.yiaddr; port = 68 })
    else remote
