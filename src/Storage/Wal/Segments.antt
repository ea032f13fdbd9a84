-- ===== src/Storage/Wal/Segments.antt =====
-- The segment files in the order of their ids hold the entries that were appended.
use monsoon.Prelude.{
  ℕ, suc, ◌≤◌, Option, none, some, List, [], ◌∷◌, ◌++◌, ◌≡◌, refl, sym, ap, arith, append-nil,
  append_assoc,
}
use mathlib.Core.Path.{fun_ext}
use monsoon.Bytes.{Bytes, put_uint16, put_uint32}
use monsoon.Storage.Numeric.{safe_uint16_from_int, safe_uint32_from_int}
use monsoon.GoMap.{Map, lookup, insert, nat_eq}
use monsoon.Storage.Record.{Entry, encode, Replayed, apply_then}
use monsoon.Storage.Record.Replay.{encode_all, IsTorn, apply_all, replay_file-encode_all}
use monsoon.Storage.Wal.{segment_paths, replay_then, replay_segments}

-- The ids rise from `lo` on.
abbrev pub Chain : ℕ → Map ℕ Bytes → Type 0
Chain lo [] = Unit
Chain lo ((i, raw) ∷ rest) = (lo ≤ i) × Chain (suc i) rest

-- the least id that may follow
abbrev pub end : ℕ → Map ℕ Bytes → ℕ
end lo [] = lo
end lo ((i, raw) ∷ rest) = end (suc i) rest

pub le-end : (lo : ℕ) (segs : Map ℕ Bytes) → Chain lo segs → lo ≤ end lo segs
le-end lo [] c = omega arith
le-end lo ((i, raw) ∷ rest) c = omega (arith, le-end (suc i) rest c.1, c.0)

pub Chain-append :
    (lo id : ℕ) (raw : Bytes) (segs : Map ℕ Bytes)
    → Chain lo segs
    → end lo segs ≤ id
    → Chain lo (segs ++ (id, raw) ∷ [])
Chain-append lo id raw [] c h = (h, tt)
Chain-append lo id raw ((i, r) ∷ rest) c h = (c.0, Chain-append (suc i) id raw rest c.1 h)

pub end-append :
    (lo id : ℕ) (raw : Bytes) (segs : Map ℕ Bytes) → end lo (segs ++ (id, raw) ∷ []) ≡ suc id
end-append lo id raw [] = refl
end-append lo id raw ((i, r) ∷ rest) = end-append (suc i) id raw rest

-- Files whose ids rise are in order already.
pub segment_paths-Chain : (lo : ℕ) (segs : Map ℕ Bytes) → Chain lo segs → segment_paths segs ≡ segs
unfolding segment_paths
segment_paths-Chain lo [] c = refl
segment_paths-Chain lo ((i, r) ∷ []) c = refl
segment_paths-Chain lo ((i, r) ∷ (j, q) ∷ rest) c =
    rw (segment_paths-Chain (suc i) ((j, q) ∷ rest) c.1) (ground arith)

module _ (id : ℕ) (raw : Bytes) (tail : Map ℕ Bytes) where
  pub insert_behind :
      (lo : ℕ) (segs : Map ℕ Bytes)
      → Chain lo segs
      → end lo segs ≤ id
      → insert id raw (segs ++ tail) ≡ segs ++ insert id raw tail
  unfolding insert
  insert_behind lo [] c h = refl
  insert_behind lo ((i, r) ∷ rest) c h =
      ground (arith, insert_behind (suc i) rest c.1, le-end (suc i) rest c.1)

module _ (id : ℕ) (tail : Map ℕ Bytes) where
  pub lookup_behind :
      (lo : ℕ) (segs : Map ℕ Bytes)
      → Chain lo segs
      → end lo segs ≤ id
      → lookup id (segs ++ tail) ≡ lookup id tail
  unfolding lookup
  lookup_behind lo [] c h = refl
  lookup_behind lo ((i, r) ∷ rest) c h =
      ground (arith, lookup_behind (suc i) rest c.1, le-end (suc i) rest c.1)

-- Each file holds whole records, and together they hold `es` in order.
pub data HoldsAll : Map ℕ Bytes → List Entry → Type 0 where
  nil : HoldsAll [] []
  cons :
      {id : ℕ} {raw : Bytes} {segs : Map ℕ Bytes} (es rest : List Entry) {all : List Entry}
      → encode_all es ≡ some raw
      → HoldsAll segs rest
      → all ≡ es ++ rest
      → HoldsAll ((id, raw) ∷ segs) all

pub HoldsAll-append :
    (id : ℕ) {raw : Bytes} {segs : Map ℕ Bytes} {es : List Entry} (last : List Entry)
    → HoldsAll segs es
    → encode_all last ≡ some raw
    → HoldsAll (segs ++ (id, raw) ∷ []) (es ++ last)
HoldsAll-append id last nil h = cons last [] h nil (sym (append-nil last))
HoldsAll-append id last (cons a b e t q) h =
    cons a (b ++ last) e (HoldsAll-append id last t h) (rw q (append_assoc a b last))

-- Nothing at all is the beginning of a record.
pub IsTorn-nil : IsTorn []
unfolding encode safe_uint16_from_int safe_uint32_from_int put_uint16 put_uint32
IsTorn-nil = record {
  entry = record { op = 1; key = []; value = [] };
  whole = _;
  encoded = refl;
  cut = 0;
  cut-lt = omega arith;
  is_cut = refl;
}

pub replay_then-apply_then :
    {S E : Type 0} (apply : Entry → S → S × Option E) (k f : S → Replayed S E) (r : S × Option E)
    → apply_then apply (λ s. replay_then k (f s)) r ≡ replay_then k (apply_then apply f r)
unfolding apply_then
replay_then-apply_then apply k f (s, none) = refl
replay_then-apply_then apply k f (s, some e) = refl

replay_then-pure : {S E : Type 0} (r : Replayed S E) → replay_then (λ s. (s, none)) r ≡ r
replay_then-pure (s, none) = refl
replay_then-pure (s, some e) = refl

module _ {S E : Type 0} (apply : Entry → S → S × Option E) where
  pub apply_all-append :
      (a b : List Entry) (s : S)
      → apply_all apply (a ++ b) s ≡ replay_then (apply_all apply b) (apply_all apply a s)
  unfolding apply_all
  apply_all-append [] b s = refl
  apply_all-append (e ∷ a) b s =
      rw (fun_ext (apply_all-append a b))
        (replay_then-apply_then apply (apply_all apply b) (apply_all apply a) (apply e s))

  -- Files of whole records, the last of them perhaps with a torn one at its end.
  pub replay_segments-HoldsAll :
      (id : ℕ) {raw torn : Bytes} {segs : Map ℕ Bytes} {es : List Entry} (last : List Entry) (s : S)
      → HoldsAll segs es
      → encode_all last ≡ some raw
      → IsTorn torn
      → replay_segments apply (segs ++ (id, raw ++ torn) ∷ []) s ≡ apply_all apply (es ++ last) s
  unfolding replay_segments
  replay_segments-HoldsAll id {torn} last s nil h t =
      rw (replay_file-encode_all apply last torn _ s t h)
        (replay_then-pure (apply_all apply last s))
  replay_segments-HoldsAll id {torn} last s (cons {raw = r} a b e l q) h t =
      rw
        (
          ← append-nil r,
          replay_file-encode_all apply a [] r s IsTorn-nil e,
          q,
          append_assoc a b last,
          apply_all-append a (b ++ last) s,
        )
        (ap (λ k. replay_then k (apply_all apply a s))
          (fun_ext (λ s'. replay_segments-HoldsAll id last s' l h t)))
