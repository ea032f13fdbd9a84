-- ===== src/Storage/Snapshot/Rows.antt =====
-- A tree that is rebuilt from its written rows has the same rows.
use monsoon.Prelude.{true, List, [], ◌∷◌, ◌++◌, ◌≡◌, refl, sym, ap, ◌∙◌, append-nil}
use mathlib.Core.Path.{subst}
use monsoon.Bytes.{Bytes}
use monsoon.GoMap.{Map}
use monsoon.Storage.BTree
use monsoon.Storage.BTree.{BTree, less, item, snapshot_keys}
use monsoon.Storage.BTree.Sorted.{AllAbove, IsSorted}
use monsoon.Storage.BTree.Valid.{IsValid, new-IsValid, set-IsValid}
use monsoon.Storage.BTree.Entries.{Entries, ordered_put, snapshot-set}
use monsoon.Storage.Snapshot.RoundTrip.{set_all, rebuilt}

-- Every key of the entries is less than `k`.
abbrev Below : Bytes → Entries → Type 0
Below k [] = Unit
Below k ((x, w) ∷ es) = (less x k ≡ true) × Below k es

-- Each row stands above the entries and the rows in front of it.
abbrev Follows : Entries → Entries → Type 0
Follows es [] = Unit
Follows es ((k, v) ∷ rows) = Below k es × Follows (es ++ (k, v) ∷ []) rows

-- All keys are above the entries.
abbrev AreAbove : Entries → List Bytes → Type 0
AreAbove es [] = Unit
AreAbove es (k ∷ ks) = Below k es × AreAbove es ks

ordered_put_last :
    (k v : Bytes) (es : Entries) → Below k es → ordered_put k v es ≡ es ++ (k, v) ∷ []
unfolding ordered_put
ordered_put_last k v [] b = refl
ordered_put_last k v ((x, w) ∷ es) b = rw b.0 (ap (◌∷◌ (x, w)) (ordered_put_last k v es b.1))

append_one : (es rows : Entries) (r : Bytes × Bytes) → (es ++ r ∷ []) ++ rows ≡ es ++ r ∷ rows
append_one [] rows r = refl
append_one (e ∷ es) rows r = ap (◌∷◌ e) (append_one es rows r)

snapshot-set_all :
    (rows : Entries) (t : BTree)
    → IsValid t
    → Follows (BTree.snapshot t) rows
    → BTree.snapshot (set_all rows t) ≡ BTree.snapshot t ++ rows
snapshot-set_all [] t valid f = sym (append-nil (BTree.snapshot t))
snapshot-set_all ((k, v) ∷ rows) t valid f =
    let grown : BTree.snapshot (BTree.set t k v) ≡ BTree.snapshot t ++ (k, v) ∷ [] =
      snapshot-set t k v valid ∙ ordered_put_last k v (BTree.snapshot t) f.0 in
    snapshot-set_all rows (BTree.set t k v) (set-IsValid t k v valid)
      (subst (λ es. Follows es rows) (sym grown) f.1)
    ∙ ap (λ es. es ++ rows) grown
    ∙ append_one (BTree.snapshot t) rows (k, v)

Below-append :
    (x k v : Bytes) (es : Entries) → Below x es → less k x ≡ true → Below x (es ++ (k, v) ∷ [])
Below-append x k v [] b h = (h, tt)
Below-append x k v (e ∷ es) b h = (b.0, Below-append x k v es b.1 h)

AreAbove-append :
    (k v : Bytes) (es : Entries) (ks : List Bytes)
    → AreAbove es ks
    → AllAbove k ks
    → AreAbove (es ++ (k, v) ∷ []) ks
AreAbove-append k v es [] a h = tt
AreAbove-append k v es (x ∷ ks) a h =
    (Below-append x k v es a.0 h.0, AreAbove-append k v es ks a.1 h.1)

snapshot_keys-Follows :
    (m : Map Bytes Bytes) (es : Entries) (ks : List Bytes)
    → IsSorted ks
    → AreAbove es ks
    → Follows es (snapshot_keys m ks)
unfolding snapshot_keys
snapshot_keys-Follows m es [] s a = tt
snapshot_keys-Follows m es (k ∷ ks) s a = (
  a.0,
  snapshot_keys-Follows m (es ++ (k, item m k) ∷ []) ks s.1
      (AreAbove-append k (item m k) es ks a.1 s.0),
)

AreAbove-nil : (ks : List Bytes) → AreAbove [] ks
AreAbove-nil [] = tt
AreAbove-nil (k ∷ ks) = (tt, AreAbove-nil ks)

-- The tree that a reader builds from the written rows of a well-formed tree has the same rows, in
-- the same order.
pub snapshot-rebuilt : (t : BTree) → IsValid t → BTree.snapshot (rebuilt t) ≡ BTree.snapshot t
unfolding BTree.snapshot
snapshot-rebuilt t valid =
    snapshot-set_all (BTree.snapshot t) BTree.new new-IsValid
      (snapshot_keys-Follows t.items [] t.keys valid.sorted (AreAbove-nil t.keys))
