-- ===== src/Dhcpv4/Packet/RoundTrip.antt =====
-- Decoding an encoded packet gives the packet back.
use monsoon.Prelude.{
  ℕ, ◌≢◌, ◌+◌, ◌-◌, ◌^◌, ◌<◌, ◌≤◌, some, [], ◌∷◌, ◌++◌, ◌≡◌, refl, ap, sym, ◌∙◌, arith, ltb, false,
  length, take, drop, replicate, length-append, take-length-append, drop-length-append, drop-add,
  append_assoc, append-nil, take-length, >>=-eq-some,
}
use monsoon.Bytes.{Bytes, put_uint16, put_uint32, uint16, uint32}
use monsoon.Bytes.BigEndian.{uint32-put}
use monsoon.Net.{to4}
use monsoon.Dhcpv4.Options
use monsoon.Dhcpv4.Options.{Options}
use monsoon.Dhcpv4.Options.RoundTrip.{decode-encode}
use monsoon.GoMap.{lookup, nat_eq}
use monsoon.GoMap.Laws.{Distinct}
use monsoon.Dhcpv4.Packet
use monsoon.Dhcpv4.Packet.{Packet, ok, slice, copy_into}

-- Reading `raw` from `m` on, `t` is what stands there.
abbrev At : Bytes → ℕ → Bytes → Type 0
At raw m t = (drop m raw ≡ t) × (m + length t ≡ length raw)

At-start : (raw : Bytes) → At raw 0 raw
At-start raw = (refl, omega arith)

At-next :
    (raw : Bytes) (m n k : ℕ) (a b : Bytes)
    → At raw m (a ++ b)
    → length a ≡ n
    → k ≡ m + n
    → At raw k b
At-next raw m n k a b (d, l) h e = (
  ap (λ i. drop i raw) e ∙ drop-add m n raw ∙ ap (drop n) d ∙ rw (sym h) (drop-length-append a b),
  omega (arith, length-append a b),
)

At-slice :
    (raw : Bytes) (m n k : ℕ) (a b : Bytes)
    → At raw m (a ++ b)
    → length a ≡ n
    → k - m ≡ n
    → slice m k raw ≡ a
At-slice raw m n k a b (d, l) h e =
    ap (λ i. take i (drop m raw)) e ∙ ap (take n) d ∙ rw (sym h) (take-length-append a b)

minus_self : (n : ℕ) → n - n ≡ 0
minus_self n = omega arith

-- The fields of a packet have the widths that its Go types give them.
abbrev pub IsFramed : Packet → Type 0
IsFramed p =
    (p.xid < 2 ^ 32)
    × (p.secs < 2 ^ 16)
    × (p.flags < 2 ^ 16)
    × (length p.ciaddr ≡ 4)
    × (length p.yiaddr ≡ 4)
    × (length p.siaddr ≡ 4)
    × (length p.giaddr ≡ 4)
    × (length p.chaddr ≡ 16)
    × (length p.sname ≡ 64)
    × (length p.file ≡ 128)

to4-four : (ip : Bytes) → length ip ≡ 4 → to4 ip ≡ ip
unfolding to4
to4-four ip h = ground arith

copy_into-exact : (n : ℕ) (src : Bytes) → length src ≡ n → copy_into n src ≡ src
copy_into-exact n src h = rw (sym h) (
    ap (λ k. take (length src) src ++ replicate k 0) (minus_self (length src))
    ∙ append-nil (take (length src) src)
    ∙ take-length src)

-- an encoded packet with its fields as they stand
abbrev plain : Packet → Bytes → Bytes
plain p opt =
    (p.op ∷ p.htype ∷ p.hlen ∷ p.hops ∷ [])
    ++ (put_uint32 p.xid
        ++ (put_uint16 p.secs
            ++ (put_uint16 p.flags
                ++ (p.ciaddr
                    ++ (p.yiaddr
                        ++ (p.siaddr
                            ++ (p.giaddr
                                ++ (p.chaddr
                                    ++ (p.sname
                                        ++ (p.file
                                            ++ (put_uint32 Packet.magic_cookie ++ opt)))))))))))

encode_header-plain :
    (p : Packet) (opt : Bytes) → IsFramed p → Packet.encode_header p ++ opt ≡ plain p opt
unfolding Packet.encode_header
encode_header-plain p opt (x, s, f, ci, yi, si, gi, ch, sn, fi) =
    rw (to4-four p.ciaddr ci, to4-four p.yiaddr yi, to4-four p.siaddr si, to4-four p.giaddr gi)
      (rw
        (
          copy_into-exact 4 p.ciaddr ci,
          copy_into-exact 4 p.yiaddr yi,
          copy_into-exact 4 p.siaddr si,
          copy_into-exact 4 p.giaddr gi,
          copy_into-exact 16 p.chaddr ch,
          copy_into-exact 64 p.sname sn,
          copy_into-exact 128 p.file fi,
        )
        (simp append_assoc))

length-put_uint32 : (v : ℕ) → length (put_uint32 v) ≡ 4
unfolding put_uint32
length-put_uint32 v = refl

length-put_uint16 : (v : ℕ) → length (put_uint16 v) ≡ 2
unfolding put_uint16
length-put_uint16 v = refl

uint16-put : (v : ℕ) → v < 2 ^ 16 → uint16 (put_uint16 v) ≡ v
unfolding uint16 put_uint16
uint16-put v h = omega arith

-- What the decoder finds in an encoded packet.
abbrev Found : Packet → Bytes → Bytes → Type 0
Found p opt raw =
    (240 ≤ length raw)
    × (drop 240 raw ≡ opt)
    × (uint32 (slice 236 240 raw) ≡ Packet.magic_cookie)
    × ((o : Options) → Packet.decode_header raw o ≡ record p { options = o })

plain-Found : (p : Packet) (opt : Bytes) → IsFramed p → Found p opt (plain p opt)
plain-Found p opt (x, s, f, ci, yi, si, gi, ch, sn, fi) =
    let raw = plain p opt in
    let t236 : Bytes = put_uint32 Packet.magic_cookie ++ opt in
    let t108 : Bytes = p.file ++ t236 in
    let t44 : Bytes = p.sname ++ t108 in
    let t28 : Bytes = p.chaddr ++ t44 in
    let t24 : Bytes = p.giaddr ++ t28 in
    let t20 : Bytes = p.siaddr ++ t24 in
    let t16 : Bytes = p.yiaddr ++ t20 in
    let t12 : Bytes = p.ciaddr ++ t16 in
    let t10 : Bytes = put_uint16 p.flags ++ t12 in
    let t8 : Bytes = put_uint16 p.secs ++ t10 in
    let t4 : Bytes = put_uint32 p.xid ++ t8 in
    let a4 =
      At-next raw 0 4 4 (p.op ∷ p.htype ∷ p.hlen ∷ p.hops ∷ []) t4 (At-start raw) refl
        (omega arith) in
    let a8 = At-next raw 4 4 8 (put_uint32 p.xid) t8 a4 (length-put_uint32 p.xid) (omega arith) in
    let a10 =
      At-next raw 8 2 10 (put_uint16 p.secs) t10 a8 (length-put_uint16 p.secs) (omega arith) in
    let a12 =
      At-next raw 10 2 12 (put_uint16 p.flags) t12 a10 (length-put_uint16 p.flags) (omega arith) in
    let a16 = At-next raw 12 4 16 p.ciaddr t16 a12 ci (omega arith) in
    let a20 = At-next raw 16 4 20 p.yiaddr t20 a16 yi (omega arith) in
    let a24 = At-next raw 20 4 24 p.siaddr t24 a20 si (omega arith) in
    let a28 = At-next raw 24 4 28 p.giaddr t28 a24 gi (omega arith) in
    let a44 = At-next raw 28 16 44 p.chaddr t44 a28 ch (omega arith) in
    let a108 = At-next raw 44 64 108 p.sname t108 a44 sn (omega arith) in
    let a236 = At-next raw 108 128 236 p.file t236 a108 fi (omega arith) in
    let a240 =
      At-next raw 236 4 240 (put_uint32 Packet.magic_cookie) opt a236
        (length-put_uint32 Packet.magic_cookie) (omega arith) in
    (
      omega (arith, a240.1),
      a240.0,
      ap uint32 (
            At-slice raw 236 4 240 (put_uint32 Packet.magic_cookie) opt a236
              (length-put_uint32 Packet.magic_cookie) (omega arith))
          ∙ uint32-put Packet.magic_cookie (omega arith),
      λ o.
          unfold Packet.decode_header in
          rw
            (
              At-slice raw 4 4 8 (put_uint32 p.xid) t8 a4 (length-put_uint32 p.xid) (omega arith),
              At-slice raw 8 2 10 (put_uint16 p.secs) t10 a8 (length-put_uint16 p.secs)
                  (omega arith),
              At-slice raw 10 2 12 (put_uint16 p.flags) t12 a10 (length-put_uint16 p.flags)
                  (omega arith),
              At-slice raw 12 4 16 p.ciaddr t16 a12 ci (omega arith),
              At-slice raw 16 4 20 p.yiaddr t20 a16 yi (omega arith),
              At-slice raw 20 4 24 p.siaddr t24 a20 si (omega arith),
              At-slice raw 24 4 28 p.giaddr t28 a24 gi (omega arith),
              At-slice raw 28 16 44 p.chaddr t44 a28 ch (omega arith),
              At-slice raw 44 64 108 p.sname t108 a44 sn (omega arith),
              At-slice raw 108 128 236 p.file t236 a108 fi (omega arith),
              uint32-put p.xid x,
              uint16-put p.secs s,
              uint16-put p.flags f,
              to4-four p.ciaddr ci,
              to4-four p.yiaddr yi,
              to4-four p.siaddr si,
              to4-four p.giaddr gi,
            )
            refl,
    )

long_enough : (n : ℕ) → 240 ≤ n → ltb n (Packet.bootp_header_len + 4) ≡ false
long_enough n h = ground arith

some-raw : (a raw : Bytes) → some a ≡ some raw → raw ≡ a
some-raw a raw h = cc

decode_packet-Found :
    (p : Packet) (opt raw : Bytes) (o : Options)
    → Found p opt raw
    → Options.decode_options opt ≡ Options.ok o
    → Packet.decode_packet raw ≡ ok (record p { options = o })
unfolding Packet.decode_packet Packet.with_options
decode_packet-Found p opt raw o (long, rest, cookie, header) e =
    rw (cookie, rest, e, long_enough (length raw) long) (ap ok (header o))

-- Decoding an encoded packet gives its header back, field by field, and options with the same
-- values, if its fields have their widths, its addresses four bytes and its options no code twice.
pub decode_packet-encode :
    (p : Packet) (raw : Bytes)
    → IsFramed p
    → Distinct p.options
    → Packet.encode p ≡ some raw
    → (o : Options) × (Packet.decode_packet raw ≡ ok (record p { options = o }))
      × ((k : ℕ) → k ≢ 0 → k ≢ 255 → lookup k o ≡ lookup k p.options)
unfolding Packet.encode
decode_packet-encode p raw framed d e =
    let (opt, eo, er) = >>=-eq-some (Options.encode p.options) _ e in
    let (o, decoded, same) = decode-encode p.options opt d eo in
    let r : raw ≡ plain p opt = some-raw _ raw er ∙ encode_header-plain p opt framed in
    (
      o,
      ap Packet.decode_packet r
          ∙ decode_packet-Found p opt (plain p opt) o (plain-Found p opt framed) decoded,
      same,
    )
