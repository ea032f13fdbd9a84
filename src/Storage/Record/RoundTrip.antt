-- ===== src/Storage/Record/RoundTrip.antt =====
-- A payload is read back as it was written.
use monsoon.Prelude.{
  ℕ, ◌+◌, ◌^◌, ◌<◌, ◌≤◌, some, ◌++◌, ◌≡◌, refl, arith, length, get_or, drop, length-append,
  take-length-append, drop-length-append, take-length, drop-add,
}
use monsoon.Bytes.{Bytes, put_uint16, put_uint32, uint16}
use monsoon.Bytes.BigEndian.{uint16-put_uint16, uint32-put_uint32}
use monsoon.Storage.Numeric.{safe_uint16_from_int, safe_uint32_from_int}
use monsoon.Storage.Record.{Entry, payload_of, marshal_payload, ok, decode_payload}

-- the lengths that the format can hold
pub record Fits (e : Entry) : Type 0 where
  pub key_fits : length e.key ≤ 0xffff
  pub value_fits : length e.value ≤ 0xffffffff

pub marshal_payload-some :
    (e : Entry) {p : Bytes}
    → marshal_payload e ≡ some p
    → Fits e × (p ≡ payload_of e (length e.key) (length e.value))
unfolding marshal_payload safe_uint16_from_int safe_uint32_from_int
marshal_payload-some e h =
    (record { key_fits = ground arith; value_fits = ground arith }, ground arith)

pub marshal_payload-Fits :
    (e : Entry) → Fits e → marshal_payload e ≡ some (payload_of e (length e.key) (length e.value))
unfolding marshal_payload safe_uint16_from_int safe_uint32_from_int
marshal_payload-Fits e f = ground (arith, f.key_fits, f.value_fits)

pub length-payload_of :
    (e : Entry) (k v : ℕ) → length (payload_of e k v) ≡ 7 + length e.key + length e.value
unfolding payload_of put_uint16 put_uint32
length-payload_of e k v = omega (arith, length-append e.key (put_uint32 v ++ e.value))

module _ (e : Entry) (k v : ℕ) where
  get_or-payload_of : get_or (payload_of e k v) 0 0 ≡ e.op
  unfolding payload_of
  get_or-payload_of = refl

  uint16-payload_of : k < 2 ^ 16 → uint16 (drop 1 (payload_of e k v)) ≡ k
  unfolding payload_of
  uint16-payload_of h = uint16-put_uint16 k _ h

  drop-payload_of_key : drop 3 (payload_of e k v) ≡ e.key ++ (put_uint32 v ++ e.value)
  unfolding payload_of put_uint16
  drop-payload_of_key = refl

module _ (e : Entry) (v : ℕ) where
  drop-payload_of-length :
      drop (3 + length e.key) (payload_of e (length e.key) v) ≡ put_uint32 v ++ e.value
  drop-payload_of-length =
      rw (drop-add 3 (length e.key), drop-payload_of_key) (drop-length-append e.key _)

  drop-payload_of_value : drop (3 + length e.key + 4) (payload_of e (length e.key) v) ≡ e.value
  unfolding put_uint32
  drop-payload_of_value = rw (drop-add (3 + length e.key) 4, drop-payload_of-length) refl

-- Reading a payload that was written gives back the operation, the key and the value.
pub decode_payload-payload_of :
    {E : Type 0} (e : Entry)
    → Fits e
    → decode_payload {E = E} (payload_of e (length e.key) (length e.value)) ≡ ok e
unfolding decode_payload
decode_payload-payload_of {E} e f =
    let k = length e.key in
    let v = length e.value in
    rw
      (
        uint16-payload_of e k v (omega (arith, f.key_fits)),
        drop-payload_of-length e v,
        uint32-put_uint32 v e.value (omega (arith, f.value_fits)),
        drop-payload_of_value e v,
        drop-payload_of_key e k v,
        take-length-append e.key,
        take-length e.value,
      )
      (ground (arith, length-payload_of e k v, get_or-payload_of e k v))

-- What `marshalPayload` writes is read back as the operation, the key and the value that were
-- written.
pub decode-marshal_payload :
    {E : Type 0} (e : Entry) {p : Bytes}
    → marshal_payload e ≡ some p
    → decode_payload {E = E} p ≡ ok e
decode-marshal_payload e h =
    let (f, q) = marshal_payload-some e h in rw q (decode_payload-payload_of e f)
