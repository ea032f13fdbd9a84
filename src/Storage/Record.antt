-- ===== src/Storage/Record.antt =====
-- The records of internal/storage/wal.go: a record is the length of its payload and the payload's
-- checksum, four bytes each, and the payload. A file is the list of its bytes.
pub mod RoundTrip
pub mod Replay
use monsoon.Prelude.{
  ℕ, zero, suc, ◌+◌, ◌*◌, ◌%◌, ◌<◌, ◌≤◌, Bool, Option, none, some, List, [], ◌∷◌, ◌++◌, ◌==◌, ltb,
  not, ◌>>=◌, if◌then◌else◌, length, get_or, take, drop,
}
use monsoon.Bytes.{Bytes, put_uint16, put_uint32, uint16, uint32}
use monsoon.Storage.Numeric.{safe_uint16_from_int, safe_uint32_from_int}
use monsoon.Storage.Crc32.{checksum_ieee}

-- `OpType`, a byte
abbrev pub op_put : ℕ
op_put = 1

abbrev pub op_del : ℕ
op_del = 2

-- what one call of `Append` writes
pub record Entry : Type 0 where
  pub op : ℕ
  pub key : Bytes
  pub value : Bytes

-- The body of the payload with both lengths known.
pub payload_of : Entry → ℕ → ℕ → Bytes
payload_of e key_len value_len =
    e.op ∷ (put_uint16 key_len ++ (e.key ++ (put_uint32 value_len ++ e.value)))

-- `marshalPayload`; `none` is an error
unfoldable pub marshal_payload : Entry → Option Bytes
unfolding payload_of
marshal_payload e = do
  key_len ← safe_uint16_from_int (length e.key)
  value_len ← safe_uint32_from_int (length e.value)
  some (payload_of e key_len value_len)

-- The buffer of `Append`: header and payload.
unfoldable pub frame : ℕ → Bytes → Bytes
frame payload_len payload =
    put_uint32 payload_len ++ (put_uint32 (checksum_ieee payload) ++ payload)

frame_checked : Bytes → Option Bytes
unfolding frame
frame_checked payload = do
  payload_len ← safe_uint32_from_int (length payload)
  some (frame payload_len payload)

-- the part of `Append` before the file is written
unfoldable pub encode : Entry → Option Bytes
unfolding marshal_payload frame_checked
encode e = do payload ← marshal_payload e; frame_checked payload

pub data ReplayError (E : Type 0) : Type 0 where
  crc_mismatch invalid_payload invalid_key_length invalid_value_length : ReplayError E
  apply_failed : E → ReplayError E

pub data Decoded (E : Type 0) : Type 0 where
  ok : Entry → Decoded E
  err : ReplayError E → Decoded E

-- The checks of `replayFile` on the lengths in a payload, and its slices.
unfoldable pub decode_payload : {E : Type 0} → Bytes → Decoded E
decode_payload payload =
    let klen = uint16 (drop 1 payload) in
    let vlen_pos = 3 + klen in
    let vlen = uint32 (drop vlen_pos payload) in
    if ltb (length payload) 7
    then err invalid_payload
    else if ltb (length payload) (3 + klen + 4)
    then err invalid_key_length
    else if ltb (length payload) (vlen_pos + 4 + vlen)
    then err invalid_value_length
    else ok (record {
      op = get_or payload 0 0;
      key = take klen (drop 3 payload);
      value = take vlen (drop (vlen_pos + 4) payload);
    })

-- what became of the state, and the error that stopped the replay
abbrev pub Replayed : Type 0 → Type 0 → Type 0
Replayed S E = S × Option (ReplayError E)

module _ {S E : Type 0} (apply : Entry → S → S × Option E) where
  -- `apply(op, key, value)` and the rest of the loop where it returns no error
  unfoldable pub apply_then : (S → Replayed S E) → S × Option E → Replayed S E
  apply_then rest (s, none) = rest s
  apply_then rest (s, some e) = (s, some (apply_failed e))

  -- a whole payload: the checksum, the lengths, the callback
  unfoldable pub replay_payload : (S → Replayed S E) → Bytes → ℕ → S → Replayed S E
  unfolding apply_then
  replay_payload rest payload expected_crc s =
      if not (checksum_ieee payload == expected_crc)
      then (s, some crc_mismatch)
      else elim (decode_payload payload) [
        | ok e ↦ apply_then rest (apply e s)
        | err x ↦ (s, some x)
      ]

  -- `for { ... }`: a round reads at least eight bytes, so the bytes left bound the rounds. A header
  -- or a payload that the file cuts off ends the loop with no error.
  unfoldable pub replay_loop : ℕ → Bytes → S → Replayed S E
  replay_loop zero raw s = (s, none)
  replay_loop (suc fuel) raw s =
      let payload_len = uint32 raw in
      let expected_crc = uint32 (drop 4 raw) in
      let rest = drop 8 raw in
      if ltb (length raw) 8
      then (s, none)
      else if payload_len == 0
      then (s, none)
      else if ltb (length rest) payload_len
      then (s, none)
      else replay_payload (λ s'. replay_loop fuel (drop payload_len rest) s')
          (take payload_len rest) expected_crc s

  -- `replayFile` on the content of one file
  unfoldable pub replay_file : Bytes → S → Replayed S E
  unfolding replay_loop replay_payload
  replay_file raw s = replay_loop (suc (length raw)) raw s
