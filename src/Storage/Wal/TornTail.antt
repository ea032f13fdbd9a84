-- ===== src/Storage/Wal/TornTail.antt =====
-- What follows a torn record in a file of internal/storage/wal.go. `OpenWAL` does not cut a torn
-- record off, and appends behind it; the replay then reads its payload on into the next record.
use monsoon.Prelude.{
  ℕ, zero, suc, ◌+◌, ◌-◌, ◌^◌, ◌≤◌, ◌<◌, Option, none, some, List, [], ◌∷◌, ◌++◌, ◌≡◌, ◌≢◌, refl,
  sym, ◌∙◌, ap, arith, length, take, drop, length-append, append_assoc, append-nil,
}
use mathlib.Core.Path.{fun_ext}
use monsoon.Bytes.{Bytes, put_uint32, uint32}
use monsoon.Bytes.BigEndian.{uint32-put_uint32}
use monsoon.Storage.Crc32.{checksum_ieee, checksum_ieee-lt}
use monsoon.Storage.Record.{
  Entry, frame, encode, crc_mismatch, apply_then, replay_payload, replay_loop, replay_file,
}
use monsoon.Storage.Record.Replay.{
  encode_all, encode_all-cons, encode-IsFrame, IsFrame, length-IsFrame, take-frame, length-frame,
  apply_all, replay_loop-frame,
}
use monsoon.Storage.Wal.{replay_then}
use monsoon.Storage.Wal.Segments.{replay_then-apply_then}

length-encode_all :
    (es : List Entry) {raw : Bytes} → encode_all es ≡ some raw → length es ≤ length raw
length-encode_all [] h = omega arith
length-encode_all (e ∷ es) h =
    let (r, rest, enc, encs, joined) = encode_all-cons e es h in
    omega (
      arith,
      length-encode_all es encs,
      ap length joined,
      length-append r rest,
      length-IsFrame (encode-IsFrame e enc),
    )

drop-frame_header : (n : ℕ) (p : Bytes) → drop 8 (frame n p) ≡ p
unfolding frame put_uint32
drop-frame_header n p = refl

module _ (n c : ℕ) (q : Bytes) where
  drop-header : drop 8 (put_uint32 n ++ (put_uint32 c ++ q)) ≡ q
  unfolding put_uint32
  drop-header = refl

  length-header : length (put_uint32 n ++ (put_uint32 c ++ q)) ≡ 8 + length q
  unfolding put_uint32
  length-header = omega arith

  uint32-drop-header : c < 2 ^ 32 → uint32 (drop 4 (put_uint32 n ++ (put_uint32 c ++ q))) ≡ c
  uint32-drop-header h = unfold put_uint32 in uint32-put_uint32 c q h

module _ {S E : Type 0} (apply : Entry → S → S × Option E) where
  -- The loop over whole records goes on with what follows them.
  replay_loop-behind :
      (es : List Entry) (fuel k : ℕ) (tail raw : Bytes) (s : S)
      → encode_all es ≡ some raw
      → fuel ≡ length es + k
      → replay_loop apply fuel (raw ++ tail) s
        ≡ replay_then (replay_loop apply k tail) (apply_all apply es s)
  unfolding encode_all apply_all
  replay_loop-behind [] fuel k tail raw s h q =
      let e : [] ≡ raw = ground arith in let l : fuel ≡ k = omega arith in rw (← e, l) refl
  replay_loop-behind (e ∷ es) zero k tail raw s h q = absurd (omega arith)
  replay_loop-behind (e ∷ es) (suc fuel) k tail raw s h q =
      let (r, rest, enc, encs, joined) = encode_all-cons e es h in
      rw
        (
          joined,
          append_assoc r rest tail,
          replay_loop-frame apply e fuel (rest ++ tail) s (encode-IsFrame e enc),
          ← replay_then-apply_then apply (replay_loop apply k tail) (apply_all apply es)
              (apply e s),
        )
        (ap (λ f. apply_then apply f (apply e s))
          (fun_ext (λ s'. replay_loop-behind es fuel k tail rest s' encs (omega arith))))

  replay_loop-mismatch :
      (k n c : ℕ) (q : Bytes) (s : S)
      → 0 < n
      → n < 2 ^ 32
      → c < 2 ^ 32
      → n ≤ length q
      → checksum_ieee (take n q) ≢ c
      → replay_loop apply (suc k) (put_uint32 n ++ (put_uint32 c ++ q)) s ≡ (s, some crc_mismatch)
  unfolding replay_loop replay_payload
  replay_loop-mismatch k n c q s pos b bc le ne =
      rw (uint32-put_uint32 n (put_uint32 c ++ q) b, drop-header n c q, uint32-drop-header n c q bc)
        (ground (arith, length-header n c q))

  torn_shape :
      (p : Bytes) (cut : ℕ) (more : Bytes)
      → 8 ≤ cut
      → take cut (frame (length p) p) ++ more
        ≡ put_uint32 (length p) ++ (put_uint32 (checksum_ieee p) ++ (take (cut - 8) p ++ more))
  unfolding put_uint32
  torn_shape p cut more h = rw (take-frame cut p h)

  torn_mismatch :
      {e : Entry} {whole : Bytes} (f : IsFrame e whole) (cut : ℕ) (more : Bytes) (k : ℕ) (s : S)
      → 8 ≤ cut
      → length whole ≤ length (take cut whole ++ more)
      → checksum_ieee (take (length whole - 8) (drop 8 (take cut whole ++ more)))
        ≢ checksum_ieee (drop 8 whole)
      → replay_loop apply (suc k) (take cut whole ++ more) s ≡ (s, some crc_mismatch)
  torn_mismatch {whole} f cut more k s h le ne =
      let p = f.payload in
      let c = checksum_ieee p in
      let q = take (cut - 8) p ++ more in
      let shape : take cut whole ++ more ≡ put_uint32 (length p) ++ (put_uint32 c ++ q) =
        ap (λ w. take cut w ++ more) f.is_frame ∙ torn_shape p cut more h in
      let n : length whole ≡ 8 + length p =
        ap length f.is_frame
        ∙ ap length (sym (append-nil (frame (length p) p)))
        ∙ length-frame p []
        ∙ omega arith in
      let n' : length whole - 8 ≡ length p = omega (arith, n) in
      rw shape (
        replay_loop-mismatch k (length p) c q s f.positive f.bounded (checksum_ieee-lt p)
          (omega (arith, le, ap length shape, length-header (length p) c q, n))
          (λ same. ne (
            ap (λ x. checksum_ieee (take (length whole - 8) (drop 8 x))) shape
            ∙ ap (λ x. checksum_ieee (take (length whole - 8) x)) (drop-header (length p) c q)
            ∙ ap (λ x. checksum_ieee (take x q)) n'
            ∙ same
            ∙ ap checksum_ieee (sym (drop-frame_header (length p) p))
            ∙ ap (λ w. checksum_ieee (drop 8 w)) (sym f.is_frame))))

  -- A record that is cut off in its payload, and then bytes enough to fill it up: the replay of the
  -- whole records in front goes through and then stops, with the error of a wrong checksum, unless
  -- the filled payload happens to have the checksum of the one that was cut off.
  pub replay_file-behind_torn :
      (es : List Entry) (e : Entry) (cut : ℕ) (more raw whole : Bytes) (s s' : S)
      → encode_all es ≡ some raw
      → apply_all apply es s ≡ (s', none)
      → encode e ≡ some whole
      → 8 ≤ cut
      → length whole ≤ length (take cut whole ++ more)
      → checksum_ieee (take (length whole - 8) (drop 8 (take cut whole ++ more)))
        ≢ checksum_ieee (drop 8 whole)
      → replay_file apply (raw ++ (take cut whole ++ more)) s ≡ (s', some crc_mismatch)
  unfolding replay_file
  replay_file-behind_torn es e cut more raw whole s s' encs done enc h le ne =
      let tail = take cut whole ++ more in
      let k = length (raw ++ tail) - length es in
      replay_loop-behind es (suc (length (raw ++ tail))) (suc k) tail raw s encs
        (omega (arith, length-encode_all es encs, length-append raw tail))
      ∙ rw done (torn_mismatch (encode-IsFrame e enc) cut more k s' h le ne)
