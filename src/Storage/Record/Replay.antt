-- ===== src/Storage/Record/Replay.antt =====
-- Replaying a file that holds whole records, and perhaps the beginning of one more, applies the
-- whole records in order.
use monsoon.Prelude.{
  ℕ, zero, suc, ◌+◌, ◌-◌, ◌^◌, ◌<◌, ◌≤◌, Option, none, some, List, [], ◌∷◌, ◌++◌, ◌≡◌, refl, ap,
  inl, inr, Bool-cases, arith, ltb, ◌>>=◌, >>=-eq-some, ltb→lt, ltb_false→le, length, take, drop,
  length-append, length-take, take-length-append, drop-length-append, take-append, append_assoc,
  append-nil,
}
use mathlib.Core.Path.{fun_ext}
use monsoon.Bytes.{Bytes, put_uint32, uint32}
use monsoon.Bytes.BigEndian.{uint32-put_uint32}
use monsoon.Storage.Numeric.{safe_uint32_from_int}
use monsoon.Storage.Crc32.{checksum_ieee, checksum_ieee-lt}
use monsoon.Storage.Record.{
  Entry, payload_of, marshal_payload, frame, frame_checked, encode, decode_payload, ok, Replayed,
  apply_then, replay_payload, replay_loop, replay_file,
}
use monsoon.Storage.Record.RoundTrip.{
  Fits, marshal_payload-some, length-payload_of, decode_payload-payload_of,
}

-- the records one after the other, where all can be encoded
unfoldable pub encode_all : List Entry → Option Bytes
encode_all [] = some []
encode_all (e ∷ es) = do r ← encode e; rest ← encode_all es; some (r ++ rest)

pub encode_all-cons :
    (e : Entry) (es : List Entry) {raw : Bytes}
    → encode_all (e ∷ es) ≡ some raw
    → (r rest : Bytes) × (encode e ≡ some r) × (encode_all es ≡ some rest) × (raw ≡ r ++ rest)
unfolding encode_all
encode_all-cons e es h =
    let (r, enc, later) = >>=-eq-some (encode e) _ h in
    let (rest, encs, out) = >>=-eq-some (encode_all es) _ later in
    (r, rest, enc, encs, ground arith)

-- A proper beginning of a record: what a crash during `Append` leaves at the end of a file.
pub record IsTorn (torn : Bytes) : Type 0 where
  pub entry : Entry
  pub whole : Bytes
  pub encoded : encode entry ≡ some whole
  pub cut : ℕ
  pub cut-lt : cut < length whole
  pub is_cut : torn ≡ take cut whole

-- what `encode` gives: a header before a payload that fits its length field
pub record IsFrame (e : Entry) (r : Bytes) : Type 0 where
  pub payload : Bytes
  pub is_frame : r ≡ frame (length payload) payload
  pub is_payload : payload ≡ payload_of e (length e.key) (length e.value)
  pub fits : Fits e
  pub positive : 0 < length payload
  pub bounded : length payload < 2 ^ 32

frame_checked-IsFrame :
    (e : Entry) (p : Bytes) {r : Bytes}
    → frame_checked p ≡ some r
    → Fits e × (p ≡ payload_of e (length e.key) (length e.value))
    → IsFrame e r
unfolding frame_checked safe_uint32_from_int
frame_checked-IsFrame e p h (f, q) = record {
  payload = p;
  is_frame = ground arith;
  is_payload = q;
  fits = f;
  positive = omega (arith, ap length q, length-payload_of e (length e.key) (length e.value));
  bounded = ground arith;
}

pub encode-IsFrame : (e : Entry) {r : Bytes} → encode e ≡ some r → IsFrame e r
unfolding encode
encode-IsFrame e h =
    let (p, q, k) = >>=-eq-some (marshal_payload e) frame_checked h in
    frame_checked-IsFrame e p k (marshal_payload-some e q)

module _ (p rest : Bytes) where
  pub length-frame : length (frame (length p) p ++ rest) ≡ 8 + length p + length rest
  unfolding frame put_uint32
  length-frame = omega (arith, length-append p rest)

  uint32-frame : length p < 2 ^ 32 → uint32 (frame (length p) p ++ rest) ≡ length p
  unfolding frame
  uint32-frame h = rw (append_assoc (put_uint32 (length p))) (uint32-put_uint32 (length p) _ h)

  uint32-drop-frame : uint32 (drop 4 (frame (length p) p ++ rest)) ≡ checksum_ieee p
  unfolding frame put_uint32
  uint32-drop-frame = uint32-put_uint32 (checksum_ieee p) (p ++ rest) (checksum_ieee-lt p)

  drop-frame : drop 8 (frame (length p) p ++ rest) ≡ p ++ rest
  unfolding frame put_uint32
  drop-frame = refl

pub length-IsFrame : {e : Entry} {r : Bytes} → IsFrame e r → 8 < length r
length-IsFrame f = omega (
  arith,
  f.positive,
  ap length f.is_frame,
  ap length (append-nil (frame (length f.payload) f.payload)),
  length-frame f.payload [],
)

pub take-frame :
    (n : ℕ) (p : Bytes)
    → 8 ≤ n
    → take n (frame (length p) p)
      ≡ put_uint32 (length p) ++ (put_uint32 (checksum_ieee p) ++ take (n - 8) p)
unfolding frame put_uint32
take-frame n p h = take-append n (put_uint32 (length p) ++ put_uint32 (checksum_ieee p)) p h

module _ {S E : Type 0} (apply : Entry → S → S × Option E) where
  -- every entry in order, up to the first error
  unfoldable pub apply_all : List Entry → S → Replayed S E
  apply_all [] s = (s, none)
  apply_all (e ∷ es) s = apply_then apply (apply_all es) (apply e s)

  replay_payload-decoded :
      (e : Entry) (rest : S → Replayed S E) (p : Bytes) (s : S)
      → decode_payload {E = E} p ≡ ok e
      → replay_payload apply rest p (checksum_ieee p) s ≡ apply_then apply rest (apply e s)
  unfolding replay_payload
  replay_payload-decoded e rest p s h = rw h (ground arith)

  replay_loop-whole :
      (e : Entry) (fuel : ℕ) (p rest : Bytes) (s : S)
      → decode_payload {E = E} p ≡ ok e
      → 0 < length p
      → length p < 2 ^ 32
      → replay_loop apply (suc fuel) (frame (length p) p ++ rest) s
        ≡ apply_then apply (replay_loop apply fuel rest) (apply e s)
  unfolding replay_loop
  replay_loop-whole e fuel p rest s d pos b =
      rw
        (
          uint32-frame p rest b,
          drop-frame p rest,
          uint32-drop-frame p rest,
          take-length-append p rest,
          drop-length-append p rest,
        )
        (ground (
          arith,
          replay_payload-decoded e (λ s'. replay_loop apply fuel rest s') p s d,
          length-frame p rest,
          length-append p rest,
        ))

  pub replay_loop-frame :
      (e : Entry) (fuel : ℕ) (rest : Bytes) (s : S) {r : Bytes}
      → IsFrame e r
      → replay_loop apply (suc fuel) (r ++ rest) s
        ≡ apply_then apply (replay_loop apply fuel rest) (apply e s)
  replay_loop-frame e fuel rest s f = rw f.is_frame (
      replay_loop-whole e fuel f.payload rest s
        (rw f.is_payload (decode_payload-payload_of e f.fits)) f.positive f.bounded)

  replay_loop-cut :
      (fuel n c : ℕ) (q : Bytes) (s : S)
      → n < 2 ^ 32
      → length q < n
      → replay_loop apply (suc fuel) (put_uint32 n ++ (put_uint32 c ++ q)) s ≡ (s, none)
  unfolding replay_loop
  replay_loop-cut fuel n c q s b h =
      rw (uint32-put_uint32 n (put_uint32 c ++ q) b) (unfold put_uint32 in ground arith)

  replay_loop-short :
      (fuel : ℕ) (raw : Bytes) (s : S) → length raw < 8 → replay_loop apply fuel raw s ≡ (s, none)
  unfolding replay_loop
  replay_loop-short zero raw s h = refl
  replay_loop-short (suc fuel) raw s h = ground arith

  replay_loop-torn_frame :
      (fuel n : ℕ) (p : Bytes) (s : S)
      → length p < 2 ^ 32
      → n < 8 + length p
      → replay_loop apply (suc fuel) (take n (frame (length p) p)) s ≡ (s, none)
  replay_loop-torn_frame fuel n p s b h = elim (Bool-cases (ltb n 8)) [
    | inl short ↦
        replay_loop-short (suc fuel) (take n (frame (length p) p)) s
          (omega (arith, length-take n (frame (length p) p), ltb→lt n 8 short))
    | inr long ↦
        let past = ltb_false→le n 8 long in
        rw (take-frame n p past) (
          replay_loop-cut fuel (length p) (checksum_ieee p) (take (n - 8) p) s b
            (omega (arith, length-take (n - 8) p)))
  ]

  replay_loop-torn :
      (torn : Bytes) (fuel : ℕ) (s : S) → IsTorn torn → replay_loop apply fuel torn s ≡ (s, none)
  replay_loop-torn torn zero s t = unfold replay_loop in refl
  replay_loop-torn torn (suc fuel) s t =
      let f = encode-IsFrame t.entry t.encoded in
      rw (t.is_cut, f.is_frame)
        (replay_loop-torn_frame fuel t.cut f.payload s f.bounded (
          omega (
            arith,
            t.cut-lt,
            ap length f.is_frame,
            length-frame f.payload [],
            ap length (append-nil (frame (length f.payload) f.payload)),
          )))

  replay_loop-encode_all :
      (es : List Entry) (fuel : ℕ) (torn raw : Bytes) (s : S)
      → IsTorn torn
      → encode_all es ≡ some raw
      → length raw < fuel
      → replay_loop apply fuel (raw ++ torn) s ≡ apply_all es s
  unfolding encode_all apply_all
  replay_loop-encode_all [] fuel torn raw s t h l =
      let e : [] ≡ raw = ground arith in rw (← e) (replay_loop-torn torn fuel s t)
  replay_loop-encode_all (e ∷ es) zero torn raw s t h l = absurd (omega arith)
  replay_loop-encode_all (e ∷ es) (suc fuel) torn raw s t h l =
      let (r, rest, enc, encs, joined) = encode_all-cons e es h in
      let f = encode-IsFrame e enc in
      rw (joined, append_assoc r rest torn, replay_loop-frame e fuel (rest ++ torn) s f)
        (ap (λ k. apply_then apply k (apply e s))
          (fun_ext (λ s'.
            replay_loop-encode_all es fuel torn rest s' t encs
              (omega (arith, ap length joined, length-append r rest, length-IsFrame f)))))

  -- `replayFile`, on whole records with a torn one behind them: the callback gets the entries of
  -- the whole records in order, and the replay ends with no error but the callback's.
  pub replay_file-encode_all :
      (es : List Entry) (torn raw : Bytes) (s : S)
      → IsTorn torn
      → encode_all es ≡ some raw
      → replay_file apply (raw ++ torn) s ≡ apply_all es s
  unfolding replay_file
  replay_file-encode_all es torn raw s t h =
      replay_loop-encode_all es (suc (length (raw ++ torn))) torn raw s t h
        (omega (arith, length-append raw torn))
