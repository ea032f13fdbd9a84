-- ===== src/Storage/Snapshot/RoundTrip.antt =====
-- Reading a snapshot gives back the rows of every tree that was written.
use monsoon.Prelude.{
  ℕ, suc, ◌+◌, ◌^◌, ◌<◌, false, Option, none, some, List, [], ◌∷◌, ◌++◌, ◌≡◌, inl, inr, refl, sym,
  ap, ◌∙◌, arith, ltb, if◌then◌else◌, ◌>>=◌, >>=-eq-some, length, length-append, take-length-append,
  drop-length-append, append_assoc, Option-cases, is_some,
}
use mathlib.Core.Path.{subst}
use monsoon.Bytes.{Bytes, uint16, put_uint16, put_uint32}
use monsoon.Bytes.BigEndian.{uint32-put}
use monsoon.GoMap.{Map, lookup, insert, bytes_eq}
use monsoon.GoMap.Laws.{Distinct, lookup-insert}
use monsoon.Storage.BTree
use monsoon.Storage.BTree.{BTree}
use monsoon.Storage.Numeric.{safe_uint16_from_int, safe_uint32_from_int}
use monsoon.Storage.Snapshot

some_inj {ℓ} : {A : Type ℓ} {a b : A} → some a ≡ some b → a ≡ b
some_inj h = cc

bind {ℓ κ} :
    {A : Type ℓ} {B : Type κ} {m : Option A} {a : A} {r : Option B} (f : A → Option B)
    → m ≡ some a
    → f a ≡ r
    → (m >>= f) ≡ r
bind f e h = ap (λ x. x >>= f) e ∙ h

append_two : (a b c : Bytes) → (a ++ b) ++ c ≡ a ++ (b ++ c)
append_two a b c = simp append_assoc

append_three : (a b c d : Bytes) → ((a ++ b) ++ c) ++ d ≡ a ++ (b ++ (c ++ d))
append_three a b c d = simp append_assoc

append_four : (a b c d e : Bytes) → (((a ++ b) ++ c) ++ d) ++ e ≡ a ++ (b ++ (c ++ (d ++ e)))
append_four a b c d e = simp append_assoc

safe_uint32-bound : (n c : ℕ) → safe_uint32_from_int n ≡ some c → (c ≡ n) × (n < 2 ^ 32)
unfolding safe_uint32_from_int
safe_uint32-bound n c h = ground arith

safe_uint16-bound : (n c : ℕ) → safe_uint16_from_int n ≡ some c → (c ≡ n) × (n < 2 ^ 16)
unfolding safe_uint16_from_int
safe_uint16-bound n c h = ground arith

not_short : (n m : ℕ) → ltb (n + m) n ≡ false
not_short n m = ground arith

read_full-append : (a b : Bytes) → Snapshot.read_full (length a) (a ++ b) ≡ some (a, b)
unfolding Snapshot.read_full
read_full-append a b =
    rw
      (
        length-append a b,
        not_short (length a) (length b),
        take-length-append a b,
        drop-length-append a b,
      )
      refl

read_uint32-put :
    (n : ℕ) (b : Bytes) → n < 2 ^ 32 → Snapshot.read_uint32 (put_uint32 n ++ b) ≡ some (n, b)
unfolding Snapshot.read_uint32
read_uint32-put n b h =
    let four : length (put_uint32 n) ≡ 4 = unfold put_uint32 in refl in
    let r : Snapshot.read_full 4 (put_uint32 n ++ b) ≡ some (put_uint32 n, b) =
      subst (λ k. Snapshot.read_full k (put_uint32 n ++ b) ≡ some (put_uint32 n, b)) four
        (read_full-append (put_uint32 n) b) in
    rw (r, uint32-put n h) refl

uint16-put : (v : ℕ) → v < 2 ^ 16 → uint16 (put_uint16 v) ≡ v
unfolding uint16 put_uint16
uint16-put v h = omega arith

read_uint16-put :
    (n : ℕ) (b : Bytes) → n < 2 ^ 16 → Snapshot.read_uint16 (put_uint16 n ++ b) ≡ some (n, b)
unfolding Snapshot.read_uint16
read_uint16-put n b h =
    let two : length (put_uint16 n) ≡ 2 = unfold put_uint16 in refl in
    let r : Snapshot.read_full 2 (put_uint16 n ++ b) ≡ some (put_uint16 n, b) =
      subst (λ k. Snapshot.read_full k (put_uint16 n ++ b) ≡ some (put_uint16 n, b)) two
        (read_full-append (put_uint16 n) b) in
    rw (r, uint16-put n h) refl

read_block-plain :
    (s b : Bytes)
    → length s < 2 ^ 32
    → Snapshot.read_block (put_uint32 (length s) ++ s ++ b) ≡ some (s, b)
unfolding Snapshot.read_block
read_block-plain s b h =
    rw (append_assoc, read_uint32-put (length s) (s ++ b) h) (read_full-append s b)

-- What a written block is.
written_block :
    (s r : Bytes)
    → Snapshot.write_block s ≡ some r
    → (r ≡ put_uint32 (length s) ++ s) × (length s < 2 ^ 32)
unfolding Snapshot.write_block
written_block s r e =
    let (n, en, er) = >>=-eq-some (safe_uint32_from_int (length s)) _ e in
    let (same, small) = safe_uint32-bound (length s) n en in
    (sym (some_inj er) ∙ ap (λ k. put_uint32 k ++ s) same, small)

read_block-write :
    (s r b : Bytes) → Snapshot.write_block s ≡ some r → Snapshot.read_block (r ++ b) ≡ some (s, b)
read_block-write s r b e =
    let (same, small) = written_block s r e in
    subst (λ x. Snapshot.read_block (x ++ b) ≡ some (s, b)) (sym same) (read_block-plain s b small)

-- the rows put into a tree in their order
abbrev pub set_all : List (Bytes × Bytes) → BTree → BTree
set_all [] t = t
set_all ((k, v) ∷ rows) t = set_all rows (BTree.set t k v)

read_rows-write :
    (rows : List (Bytes × Bytes)) (t : BTree) (r b : Bytes)
    → Snapshot.write_rows rows ≡ some r
    → Snapshot.read_rows (length rows) t (r ++ b) ≡ some (set_all rows t, b)
unfolding Snapshot.write_rows Snapshot.read_rows Snapshot.write_row
read_rows-write [] t r b e = ap (λ x. some (t, x ++ b)) (sym (some_inj e))
read_rows-write ((k, v) ∷ rows) t r b e =
    let (row, erow, e1) = >>=-eq-some (Snapshot.write_row (k, v)) _ e in
    let (rs, ers, e2) = >>=-eq-some (Snapshot.write_rows rows) _ e1 in
    let (kb, ekb, e3) = >>=-eq-some (Snapshot.write_block k) _ erow in
    let (vb, evb, e4) = >>=-eq-some (Snapshot.write_block v) _ e3 in
    let whole : (kb ++ vb) ++ rs ≡ r = ap (λ x. x ++ rs) (some_inj e4) ∙ some_inj e2 in
    step kb vb rs r whole ekb evb (read_rows-write rows (BTree.set t k v) rs b ers)
  where
    step :
        (kb vb rs r : Bytes)
        → (kb ++ vb) ++ rs ≡ r
        → Snapshot.write_block k ≡ some kb
        → Snapshot.write_block v ≡ some vb
        → Snapshot.read_rows (length rows) (BTree.set t k v) (rs ++ b)
          ≡ some (set_all rows (BTree.set t k v), b)
        → Snapshot.read_rows (suc (length rows)) t (r ++ b)
          ≡ some (set_all rows (BTree.set t k v), b)
    step kb vb rs r whole ekb evb h =
        ap (Snapshot.read_rows (suc (length rows)) t)
          (ap (λ x. x ++ b) (sym whole) ∙ append_three kb vb rs b)
        ∙ bind _ (read_block-write k kb (vb ++ (rs ++ b)) ekb)
            (bind _ (read_block-write v vb (rs ++ b) evb) h)

-- The tree that a reader builds from what was written of `t`.
abbrev pub rebuilt : BTree → BTree
rebuilt t = set_all (BTree.snapshot t) BTree.new

read_tree-plain :
    (name : Bytes) (t : BTree) (rs b : Bytes)
    → length name < 2 ^ 16
    → length (BTree.snapshot t) < 2 ^ 32
    → Snapshot.read_rows (length (BTree.snapshot t)) BTree.new (rs ++ b) ≡ some (rebuilt t, b)
    → Snapshot.read_tree (
        put_uint16 (length name) ++ (name ++ (put_uint32 (length (BTree.snapshot t)) ++ (rs ++ b))))
      ≡ some ((name, rebuilt t), b)
unfolding Snapshot.read_tree
read_tree-plain name t rs b n16 c32 h =
    let tail = put_uint32 (length (BTree.snapshot t)) ++ (rs ++ b) in
    bind _ (read_uint16-put (length name) (name ++ tail) n16) (
      bind _ (read_full-append name tail)
        (bind _ (read_uint32-put (length (BTree.snapshot t)) (rs ++ b) c32) (bind _ h refl)))

read_tree-write :
    (name : Bytes) (t : BTree) (r b : Bytes)
    → Snapshot.write_tree (name, t) ≡ some r
    → Snapshot.read_tree (r ++ b) ≡ some ((name, rebuilt t), b)
unfolding Snapshot.write_tree
read_tree-write name t r b e =
    let rows = BTree.snapshot t in
    let (n, en, e1) = >>=-eq-some (safe_uint16_from_int (length name)) _ e in
    let (c, ec, e2) = >>=-eq-some (safe_uint32_from_int (length rows)) _ e1 in
    let (rs, ers, e3) = >>=-eq-some (Snapshot.write_rows rows) _ e2 in
    let (sn, n16) = safe_uint16-bound (length name) n en in
    let (sc, c32) = safe_uint32-bound (length rows) c ec in
    let shape : r ++ b
        ≡ put_uint16 (length name) ++ (name ++ (put_uint32 (length rows) ++ (rs ++ b))) =
      ap (λ x. x ++ b) (sym (some_inj e3))
      ∙ append_four (put_uint16 n) name (put_uint32 c) rs b
      ∙ ap (λ i. put_uint16 i ++ (name ++ (put_uint32 c ++ (rs ++ b)))) sn
      ∙ ap (λ i. put_uint16 (length name) ++ (name ++ (put_uint32 i ++ (rs ++ b)))) sc in
    ap Snapshot.read_tree shape
    ∙ read_tree-plain name t rs b n16 c32 (read_rows-write rows BTree.new rs b ers)

-- the map that a reader builds, on top of `acc`
abbrev pub read_all : Map Bytes BTree → Map Bytes BTree → Map Bytes BTree
read_all [] acc = acc
read_all ((name, t) ∷ ts) acc = read_all ts (insert name (rebuilt t) acc)

read_trees-write :
    (ts acc : Map Bytes BTree) (r : Bytes)
    → Snapshot.write_trees ts ≡ some r
    → Snapshot.read_trees (length ts) acc r ≡ some (read_all ts acc)
unfolding Snapshot.write_trees Snapshot.read_trees
read_trees-write [] acc r e = refl
read_trees-write ((name, t) ∷ ts) acc r e =
    let (one, e0, e1) = >>=-eq-some (Snapshot.write_tree (name, t)) _ e in
    let (rs, ers, e2) = >>=-eq-some (Snapshot.write_trees ts) _ e1 in
    ap (Snapshot.read_trees (suc (length ts)) acc) (sym (some_inj e2))
    ∙ bind _ (read_tree-write name t one rs e0)
        (read_trees-write ts (insert name (rebuilt t) acc) rs ers)

-- `rebuilt` under the value of a lookup
abbrev pub map_rebuilt : Option BTree → Option BTree
map_rebuilt none = none
map_rebuilt (some t) = some (rebuilt t)

lookup-read_all :
    (k : Bytes) (ts acc : Map Bytes BTree)
    → Distinct ts
    → lookup k (read_all ts acc)
      ≡ (if is_some (lookup k ts) then map_rebuilt (lookup k ts) else lookup k acc)
unfolding lookup
lookup-read_all k [] acc d = refl
lookup-read_all k ((name, t) ∷ ts) acc d = ground (
  arith,
  bytes_eq.beq_iff name k,
  lookup-insert name k (rebuilt t) acc,
  lookup-read_all k ts (insert name (rebuilt t) acc) d.1,
)

lookup-read_all_nil :
    (k : Bytes) (ts : Map Bytes BTree)
    → Distinct ts
    → lookup k (read_all ts []) ≡ map_rebuilt (lookup k ts)
lookup-read_all_nil k ts d = elim (Option-cases (lookup k ts)) [
  | inl absent ↦ lookup-read_all k ts [] d ∙ rw absent (unfold lookup in refl)
  | inr (t, found) ↦ lookup-read_all k ts [] d ∙ rw found refl
]

read_snapshot-plain :
    (ts : Map Bytes BTree) (rs : Bytes)
    → length ts < 2 ^ 32
    → Snapshot.write_trees ts ≡ some rs
    → Snapshot.read_snapshot (Snapshot.snapshot_magic ++ (put_uint32 (length ts) ++ rs))
      ≡ some (read_all ts [])
unfolding Snapshot.read_snapshot Snapshot.read_counted
read_snapshot-plain ts rs small e =
    bind _ (read_full-append Snapshot.snapshot_magic (put_uint32 (length ts) ++ rs))
      (bind _ (read_uint32-put (length ts) rs small) (read_trees-write ts [] rs e))

-- Reading a snapshot that was written gives a tree under every name that had one, and no other:
-- the tree that the written rows make when they are put into an empty one in their order.
pub read_snapshot-write_snapshot :
    (ts : Map Bytes BTree) (raw : Bytes)
    → Distinct ts
    → Snapshot.write_snapshot ts ≡ some raw
    → (out : Map Bytes BTree) × (Snapshot.read_snapshot raw ≡ some out)
      × ((name : Bytes) → lookup name out ≡ map_rebuilt (lookup name ts))
unfolding Snapshot.write_snapshot
read_snapshot-write_snapshot ts raw d e =
    let (n, en, e1) = >>=-eq-some (safe_uint32_from_int (length ts)) _ e in
    let (rs, ers, e2) = >>=-eq-some (Snapshot.write_trees ts) _ e1 in
    let (same, small) = safe_uint32-bound (length ts) n en in
    let shape : raw ≡ Snapshot.snapshot_magic ++ (put_uint32 (length ts) ++ rs) =
      sym (some_inj e2)
      ∙ append_two Snapshot.snapshot_magic (put_uint32 n) rs
      ∙ ap (λ i. Snapshot.snapshot_magic ++ (put_uint32 i ++ rs)) same in
    (
      read_all ts [],
      ap Snapshot.read_snapshot shape ∙ read_snapshot-plain ts rs small ers,
      λ name. lookup-read_all_nil name ts d,
    )
