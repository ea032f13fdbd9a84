-- ===== src/Dhcpv4/Packet.antt =====
-- A DHCPv4 message, internal/dhcpv4/packet.go: the BOOTP header, the cookie and the options.
pub mod RoundTrip
use monsoon.Prelude.{
  ℕ, ◌+◌, ◌-◌, Bool, ◌||◌, Option, some, List, [], ◌∷◌, ◌++◌, ltb, ◌==◌, ◌>>=◌, not, if◌then◌else◌,
  length, take, drop, replicate, get_or,
}
use monsoon.Bytes.{Bytes, uint16, uint32, put_uint16, put_uint32}
use monsoon.Net.{to4}
use monsoon.Dhcpv4.Options
use monsoon.Dhcpv4.Options.{Options}

abbrev pub bootp_header_len : ℕ
bootp_header_len = 236

abbrev pub magic_cookie : ℕ
magic_cookie = 1669485411

pub record Packet : Type 0 where
  pub op : ℕ
  pub htype : ℕ
  pub hlen : ℕ
  pub hops : ℕ
  pub xid : ℕ
  pub secs : ℕ
  pub flags : ℕ
  pub ciaddr : Bytes
  pub yiaddr : Bytes
  pub siaddr : Bytes
  pub giaddr : Bytes
  pub chaddr : Bytes  -- [16]byte
  pub sname : Bytes  -- [64]byte
  pub file : Bytes  -- [128]byte
  pub options : Options

-- `raw[from:to]`
abbrev pub slice : ℕ → ℕ → Bytes → Bytes
slice from to raw = take (to - from) (drop from raw)

-- `copy(out[..], src)` into `n` bytes that are zero
abbrev pub copy_into : ℕ → Bytes → Bytes
copy_into n src = take n src ++ replicate (n - length src) 0

-- what `DecodePacket` returns
pub data Decoded : Type 0 where
  ok : Packet → Decoded
  too_short : Decoded
  invalid_cookie : ℕ → Decoded
  bad_options : Options.Decoded → Decoded

-- the fields of the header
unfoldable pub decode_header : Bytes → Options → Packet
unfolding uint16 uint32 to4
decode_header raw opts = record {
  op = get_or raw 0 0;
  htype = get_or raw 1 0;
  hlen = get_or raw 2 0;
  hops = get_or raw 3 0;
  xid = uint32 (slice 4 8 raw);
  secs = uint16 (slice 8 10 raw);
  flags = uint16 (slice 10 12 raw);
  ciaddr = to4 (slice 12 16 raw);
  yiaddr = to4 (slice 16 20 raw);
  siaddr = to4 (slice 20 24 raw);
  giaddr = to4 (slice 24 28 raw);
  chaddr = slice 28 44 raw;
  sname = slice 44 108 raw;
  file = slice 108 236 raw;
  options = opts;
}

-- the options of a packet with the right cookie
unfoldable pub with_options : Bytes → Options.Decoded → Decoded
with_options raw (Options.ok opts) = ok (decode_header raw opts)
with_options raw e = bad_options e

-- `DecodePacket`
unfoldable pub decode_packet : Bytes → Decoded
unfolding with_options uint32 Options.decode_options
decode_packet raw =
    let cookie = uint32 (slice 236 240 raw) in
    if ltb (length raw) (bootp_header_len + 4)
    then too_short
    else if not (cookie == magic_cookie)
    then invalid_cookie cookie
    else with_options raw (Options.decode_options (drop 240 raw))

-- the 240 bytes in front of the options
unfoldable pub encode_header : Packet → Bytes
unfolding put_uint16 put_uint32 to4
encode_header p =
    p.op ∷ p.htype ∷ p.hlen ∷ p.hops ∷ put_uint32 p.xid
    ++ put_uint16 p.secs
    ++ put_uint16 p.flags
    ++ copy_into 4 (to4 p.ciaddr)
    ++ copy_into 4 (to4 p.yiaddr)
    ++ copy_into 4 (to4 p.siaddr)
    ++ copy_into 4 (to4 p.giaddr)
    ++ copy_into 16 p.chaddr
    ++ copy_into 64 p.sname
    ++ copy_into 128 p.file
    ++ put_uint32 magic_cookie

-- `Packet.Encode`
unfoldable pub encode : Packet → Option Bytes
unfolding encode_header Options.encode
encode p = Options.encode p.options >>= λ opt. some (encode_header p ++ opt)

-- `ClientMAC`
unfoldable pub client_mac : Packet → Bytes
client_mac p = let hlen = if p.hlen == 0 || ltb 16 p.hlen then 6 else p.hlen in take hlen p.chaddr
