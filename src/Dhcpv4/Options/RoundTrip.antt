-- ===== src/Dhcpv4/Options/RoundTrip.antt =====
-- Decoding what `Encode` writes gives the options back.
use monsoon.Prelude.{
  ℕ, zero, suc, ◌≤◌, false, ◌||◌, some, none, [], ◌∷◌, ◌++◌, ◌≡◌, ◌≢◌, refl, ap, ◌∙◌, arith, ltb,
  ◌==◌, ==_iff, if◌then◌else◌, ◌>>=◌, length, is_some, length-append, take-length-append,
  drop-length-append, >>=-eq-some, inl, inr, Bool-cases, Option-cases,
}
use monsoon.Bytes.{Bytes}
use monsoon.GoMap.{lookup, insert, nat_eq}
use monsoon.GoMap.Laws.{Distinct, lookup-insert}
use monsoon.Dhcpv4.Options
use monsoon.Dhcpv4.Options.{Options, Decoded, ok}

-- the options that a decoder collects from a walk over `o`, on top of `acc`
abbrev pub merge : Options → Options → Options
merge [] acc = acc
merge ((code, val) ∷ o) acc =
    let rest = merge o (insert code val acc) in
    let skipped = merge o acc in if code == 0 || code == 255 then skipped else rest

-- No value is longer than a length byte can say.
abbrev pub AreShort : Options → Type 0
AreShort [] = Unit
AreShort ((code, val) ∷ o) = (length val ≤ 255) × AreShort o

pub encode-AreShort : (o : Options) → AreShort o → (raw : Bytes) × (Options.encode o ≡ some raw)
unfolding Options.encode
encode-AreShort [] h = (_, refl)
encode-AreShort ((c, v) ∷ o) h =
    let (raw, e) = encode-AreShort o h.1 in
    elim (Bool-cases (c == 0 || c == 255)) [
      | inl s ↦ (raw, rw s e)
      | inr k ↦ (c ∷ length v ∷ v ++ raw, ground arith)
    ]

decode_loop-step :
    (f c : ℕ) (v out : Bytes) (acc : Options)
    → (c == 0 || c == 255) ≡ false
    → Options.decode_loop (suc f) (c ∷ length v ∷ v ++ out) acc
      ≡ Options.decode_loop f out (insert c v acc)
unfolding Options.decode_loop Options.decode_value
decode_loop-step f c v out acc n =
    ground (arith, length-append v out, take-length-append v out, drop-length-append v out)

-- A walk that starts with `v` is read back if the rest of it is.
read_value :
    (f c : ℕ) (v out : Bytes) (o acc : Options) (raw : Bytes)
    → raw ≡ c ∷ length v ∷ v ++ out
    → (c == 0 || c == 255) ≡ false
    → length raw ≤ f
    → ((g : ℕ)
        → length out ≤ g
        → Options.decode_loop g out (insert c v acc) ≡ ok (merge o (insert c v acc)))
    → Options.decode_loop f raw acc ≡ ok (merge o (insert c v acc))
read_value zero c v out o acc raw r n h rest = absurd (omega (arith, ap length r))
read_value (suc f) c v out o acc raw r n h rest =
    rw r
      (decode_loop-step f c v out acc n ∙ rest f (omega (arith, ap length r, length-append v out)))

-- The decoder reads an encoded walk back.
decode_loop-encode :
    (f : ℕ) (o acc : Options) (raw : Bytes)
    → Options.encode o ≡ some raw
    → length raw ≤ f
    → Options.decode_loop f raw acc ≡ ok (merge o acc)
unfolding Options.encode
decode_loop-encode zero [] acc raw e h =
    let r : 255 ∷ [] ≡ raw = cc in absurd (omega (arith, ap length r))
decode_loop-encode (suc f) [] acc raw e h =
    let r : raw ≡ 255 ∷ [] = cc in rw r (unfold Options.decode_loop in refl)
decode_loop-encode f ((c, v) ∷ o) acc raw e h = elim (Bool-cases (c == 0 || c == 255)) [
  | inl s ↦
      let e' : Options.encode o ≡ some raw = rw s at e in rw s (decode_loop-encode f o acc raw e' h)
  | inr n ↦ elim (Bool-cases (ltb 255 (length v))) [
    | inl long ↦ let absent : none ≡ some raw = rw long at (rw n at e) in cc
    | inr short ↦
        let e' : (Options.encode o >>= λ out. some (c ∷ length v ∷ v ++ out)) ≡ some raw =
          rw short at (rw n at e) in
        let (out, eo, er) = >>=-eq-some (Options.encode o) _ e' in
        let r : raw ≡ c ∷ length v ∷ v ++ out = cc in
        rw n (
          read_value f c v out o acc raw r n h
            (λ g k. decode_loop-encode g o (insert c v acc) out eo k))
  ]
]

lookup-merge :
    (k : ℕ) (o acc : Options)
    → Distinct o
    → k ≢ 0
    → k ≢ 255
    → lookup k (merge o acc) ≡ (if is_some (lookup k o) then lookup k o else lookup k acc)
unfolding lookup
lookup-merge k [] acc d z e = refl
lookup-merge k ((c, v) ∷ o) acc d z e = elim (Bool-cases (c == 0 || c == 255)) [
  | inl s ↦ rw s (ground (arith, ==_iff c k, lookup-merge k o acc d.1 z e))
  | inr n ↦ rw n (
      ground
        (arith, ==_iff c k, lookup-insert c k v acc, lookup-merge k o (insert c v acc) d.1 z e))
]

lookup-merge_nil :
    (k : ℕ) (o : Options) → Distinct o → k ≢ 0 → k ≢ 255 → lookup k (merge o []) ≡ lookup k o
lookup-merge_nil k o d z n = elim (Option-cases (lookup k o)) [
  | inl absent ↦ lookup-merge k o [] d z n ∙ rw absent (unfold lookup in refl)
  | inr (v, found) ↦ lookup-merge k o [] d z n ∙ rw found refl
]

-- Decoding what `Encode` writes gives options with the same value under every code but the pad
-- (0) and the end (255), which `Encode` leaves out, in whatever order the map is walked.
pub decode-encode :
    (o : Options) (raw : Bytes)
    → Distinct o
    → Options.encode o ≡ some raw
    → (o' : Options) × (Options.decode_options raw ≡ ok o')
      × ((k : ℕ) → k ≢ 0 → k ≢ 255 → lookup k o' ≡ lookup k o)
unfolding Options.decode_options
decode-encode o raw d e = (
  merge o [],
  decode_loop-encode (length raw) o [] raw e (omega arith),
  λ k z n. lookup-merge_nil k o d z n,
)
