-- ===== src/Storage/BTree/Valid.antt =====
-- The tree's invariant: the key slice is sorted and holds the keys of the hash map, each once.
-- `Set` and `Delete` keep it.
use monsoon.Prelude.{◌≡◌, refl, ◌∙◌, inl, inr, Bool-cases, arith, if◌then◌else◌, is_some, length}
use monsoon.Bytes.{Bytes}
use monsoon.Bytes.Order.{equal_iff}
use monsoon.GoMap.{lookup, erase, bytes_eq}
use monsoon.GoMap.Laws.{
  lookup-insert, lookup-erase, Distinct, Distinct-insert, Distinct-erase, length-insert_fresh,
  length-insert_found, length-erase_found,
}
use monsoon.Storage.BTree.{BTree, new, set, delete}
use monsoon.Storage.BTree.Sorted.{
  IsSorted, mem, position-lower_bound, ordered_insert, insert_at-lower_bound, mem-ordered_insert,
  IsSorted-ordered_insert, ordered_remove, remove_at-lower_bound, length-ordered_insert,
  length-ordered_remove, stands_at-lower_bound, IsSorted-ordered_remove, mem-ordered_remove,
}

pub record IsValid (t : BTree) : Type 0 where
  pub sorted : IsSorted t.keys
  pub distinct : Distinct t.items
  pub same_keys : (k : Bytes) → mem k t.keys ≡ is_some (lookup k t.items)
  pub same_length : length t.keys ≡ length t.items

pub new-IsValid : IsValid new
unfolding lookup
new-IsValid = record { sorted = tt; distinct = tt; same_keys = λ k. refl; same_length = refl }

pub keys-set :
    (t : BTree) (k v : Bytes)
    → IsValid t
    → (set t k v).keys ≡ (if is_some (lookup k t.items) then t.keys else ordered_insert k t.keys)
unfolding set
keys-set t k v h =
    ground (arith, position-lower_bound k t.keys h.sorted, insert_at-lower_bound k t.keys)

pub keys-delete :
    (t : BTree) (k : Bytes)
    → IsValid t
    → (delete t k).0.keys ≡ (if is_some (lookup k t.items) then ordered_remove k t.keys else t.keys)
unfolding delete
keys-delete t k h = ground (
  arith,
  position-lower_bound k t.keys h.sorted,
  remove_at-lower_bound k t.keys,
  stands_at-lower_bound k t.keys h.sorted,
  h.same_keys k,
)

pub items-delete :
    (t : BTree) (k : Bytes)
    → (delete t k).0.items ≡ (if is_some (lookup k t.items) then erase k t.items else t.items)
unfolding delete
items-delete t k = ground arith

set-same_keys :
    (t : BTree) (k v : Bytes) (j : Bytes)
    → IsValid t
    → mem j (set t k v).keys ≡ is_some (lookup j (set t k v).items)
set-same_keys t k v j h = rw (keys-set t k v h) (
    unfold set in
    ground (
      arith,
      lookup-insert k j v t.items,
      h.same_keys j,
      h.same_keys k,
      mem-ordered_insert j k t.keys,
      equal_iff k j,
    ))

-- `Set` keeps a tree valid.
pub set-IsValid : (t : BTree) (k v : Bytes) → IsValid t → IsValid (set t k v)
set-IsValid t k v h = record {
  sorted = rw (keys-set t k v h) (elim (Bool-cases (is_some (lookup k t.items))) [
    | inl found ↦ rw found h.sorted
    | inr fresh ↦ rw fresh (IsSorted-ordered_insert k t.keys h.sorted (h.same_keys k ∙ fresh))
  ]);
  distinct = unfold set in Distinct-insert k v t.items h.distinct;
  same_keys = λ j. set-same_keys t k v j h;
  same_length = rw (keys-set t k v h) (
      unfold set in
      ground (
        arith,
        h.same_length,
        length-insert_found k v t.items,
        length-insert_fresh k v t.items,
        length-ordered_insert k t.keys,
      ));
}

delete-same_keys :
    (t : BTree) (k : Bytes) (j : Bytes)
    → IsValid t
    → mem j (delete t k).0.keys ≡ is_some (lookup j (delete t k).0.items)
delete-same_keys t k j h =
    rw (keys-delete t k h, items-delete t k)
      (ground (
        arith,
        lookup-erase k j t.items,
        h.same_keys j,
        h.same_keys k,
        mem-ordered_remove j k t.keys h.sorted,
        equal_iff k j,
      ))

-- `Delete` keeps a tree valid.
pub delete-IsValid : (t : BTree) (k : Bytes) → IsValid t → IsValid (delete t k).0
delete-IsValid t k h = record {
  sorted = rw (keys-delete t k h) (elim (Bool-cases (is_some (lookup k t.items))) [
    | inl found ↦ rw found (IsSorted-ordered_remove k t.keys h.sorted)
    | inr fresh ↦ rw fresh h.sorted
  ]);
  distinct = rw (items-delete t k) (elim (Bool-cases (is_some (lookup k t.items))) [
    | inl found ↦ rw found (Distinct-erase k t.items h.distinct)
    | inr fresh ↦ rw fresh h.distinct
  ]);
  same_keys = λ j. delete-same_keys t k j h;
  same_length =
      rw (keys-delete t k h, items-delete t k)
        (ground (
          arith,
          h.same_length,
          h.same_keys k,
          length-erase_found k t.items h.distinct,
          length-ordered_remove k t.keys h.sorted,
        ));
}
