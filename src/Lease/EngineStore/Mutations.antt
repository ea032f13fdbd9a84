-- ===== src/Lease/EngineStore/Mutations.antt =====
-- The mutations that `upsert` of internal/lease/store.go writes: the lease and its references.
use monsoon.Prelude.{
  Bool, true, false, Option, none, some, List, [], ◌∷◌, ◌++◌, ◌≡◌, ◌≢◌, refl, ap, ◌∙◌, arith, ltb,
  length, not,
}
use monsoon.Bytes.{Bytes}
use monsoon.GoMap.{Map, bytes_eq}
use monsoon.Lease.{Lease, is_zero}
use monsoon.Lease.EngineStore
use monsoon.Lease.EngineStore.{
  Codec, StoreError, not_found, ip_required, bad_lease, tx_failed, tree_leases, tree_lease_by_mac,
  tree_lease_by_client, tree_lease_by_subnet, tree_lease_by_expiry, index_sep,
}
use monsoon.Storage.BTree
use monsoon.Storage.BTree.{BTree}
use monsoon.Storage.Engine.{Engine, Mutation, TxError, must_tree, tx_put, tx_delete, apply_mutation}
use monsoon.Storage.Engine.TreeKey.{IsTreeName}
use monsoon.Storage.Engine.Lookup.{lacks_sep, lacks_sep-IsTreeName}
use monsoon.Storage.Engine.OneMutation.{must_tree-apply_mutation}
use monsoon.Storage.Engine.Committed.{must_tree-other}
use monsoon.Storage.Engine.Commit.{IsProper, AreProper, apply_mutations}

-- The mutations are proper, and what they do to the tree of the leases is `g`.
abbrev pub Does : (BTree → BTree) → List Mutation → Type 0
Does g ms =
    AreProper ms
    × ((trees : Map Bytes BTree)
        → must_tree tree_leases (apply_mutations ms trees) ≡ g (must_tree tree_leases trees))

-- A mutation of another tree than that of the leases.
abbrev IsReference : Mutation → Type 0
IsReference m = IsProper m × (m.tree ≢ tree_leases)

AreProper-append :
    (ms : List Mutation) (m : Mutation) → AreProper ms → IsProper m → AreProper (ms ++ m ∷ [])
AreProper-append [] m p q = (q, tt)
AreProper-append (n ∷ ms) m p q = (p.0, AreProper-append ms m p.1 q)

apply_mutations-append :
    (ms : List Mutation) (m : Mutation) (trees : Map Bytes BTree)
    → apply_mutations (ms ++ m ∷ []) trees ≡ apply_mutation m (apply_mutations ms trees)
unfolding apply_mutations
apply_mutations-append [] m trees = refl
apply_mutations-append (n ∷ ms) m trees = apply_mutations-append ms m (apply_mutation n trees)

Does-append :
    (g : BTree → BTree) (ms : List Mutation) (m : Mutation)
    → Does g ms
    → IsReference m
    → Does g (ms ++ m ∷ [])
Does-append g ms m (p, s) (q, n) = (
  AreProper-append ms m p q,
  λ trees.
      ap (must_tree tree_leases) (apply_mutations-append ms m trees)
      ∙ must_tree-other tree_leases m (apply_mutations ms trees) n
      ∙ s trees,
)

-- The trees of a lease and of its references have proper names, and differ.
leases_name : IsTreeName tree_leases
unfolding lacks_sep
leases_name = lacks_sep-IsTreeName _ _ refl

IsReferenceTree : Bytes → Type 0
IsReferenceTree tree = IsTreeName tree × (tree ≢ tree_leases)

mac_tree : IsReferenceTree tree_lease_by_mac
unfolding lacks_sep IsReferenceTree
mac_tree = (lacks_sep-IsTreeName _ _ refl, λ h. omega (arith, ap length h))

client_tree : IsReferenceTree tree_lease_by_client
unfolding lacks_sep IsReferenceTree
client_tree = (lacks_sep-IsTreeName _ _ refl, λ h. omega (arith, ap length h))

subnet_tree : IsReferenceTree tree_lease_by_subnet
unfolding lacks_sep IsReferenceTree
subnet_tree = (lacks_sep-IsTreeName _ _ refl, λ h. omega (arith, ap length h))

expiry_tree : IsReferenceTree tree_lease_by_expiry
unfolding lacks_sep IsReferenceTree
expiry_tree = (lacks_sep-IsTreeName _ _ refl, λ h. omega (arith, ap length h))

Does-put : (ip raw : Bytes) → Does (λ t. BTree.set t ip raw) (tx_put tree_leases ip raw [])
unfolding apply_mutations
Does-put ip raw = (
  (record { names = leases_name; op_known = refl }, tt),
  λ trees. must_tree-apply_mutation _ trees,
)

Does-delete : (ip : Bytes) → Does (λ t. (BTree.delete t ip).0) (tx_delete tree_leases ip [])
unfolding apply_mutations
Does-delete ip = (
  (record { names = leases_name; op_known = refl }, tt),
  λ trees. must_tree-apply_mutation _ trees,
)

module _ (c : Codec) where
  pub tx_result-none :
      (r : Engine × Option TxError) → (EngineStore.tx_result c r).1 ≡ none → r.1 ≡ none
  unfolding EngineStore.tx_result
  tx_result-none (e, none) h = refl
  tx_result-none (e, some x) h = cc

  pub tx_result-engine : (r : Engine × Option TxError) → (EngineStore.tx_result c r).0 ≡ r.0
  unfolding EngineStore.tx_result
  tx_result-engine (e, none) = refl
  tx_result-engine (e, some x) = refl

  Does-put_if :
      (wanted : Bool) (tree key : Bytes) (g : BTree → BTree) (l : Lease) (ms : List Mutation)
      → IsReferenceTree tree
      → Does g ms
      → Does g (EngineStore.put_if c wanted tree key l ms)
  unfolding EngineStore.put_if IsReferenceTree
  Does-put_if true tree key g l ms (p, n) s =
      Does-append g ms _ s (record { names = p; op_known = refl }, n)
  Does-put_if false tree key g l ms p s = s

  Does-delete_if :
      (wanted : Bool) (tree key : Bytes) (g : BTree → BTree) (ms : List Mutation)
      → IsReferenceTree tree
      → Does g ms
      → Does g (EngineStore.delete_if c wanted tree key ms)
  unfolding EngineStore.delete_if IsReferenceTree
  Does-delete_if true tree key g ms (p, n) s =
      Does-append g ms _ s (record { names = p; op_known = refl }, n)
  Does-delete_if false tree key g ms p s = s

  Does-add :
      (l : Lease) (g : BTree → BTree) (ms : List Mutation)
      → Does g ms
      → Does g (EngineStore.add_secondary_indexes c l ms)
  unfolding EngineStore.add_secondary_indexes
  Does-add l g ms s =
      Does-put_if (not (is_zero l.expiry_time)) tree_lease_by_expiry (EngineStore.expiry_key c l) g
        l _ expiry_tree
        (Does-put_if (ltb 0 (length l.subnet_id)) tree_lease_by_subnet
          (l.subnet_id ++ index_sep ∷ l.ip) g l _ subnet_tree
          (Does-put_if (ltb 0 (length l.client_id)) tree_lease_by_client
            (l.client_id ++ index_sep ∷ l.ip) g l _ client_tree
            (Does-put_if (ltb 0 (length l.mac)) tree_lease_by_mac (EngineStore.mac_key c l) g l ms
              mac_tree s)))

  Does-remove :
      (l : Lease) (g : BTree → BTree) (ms : List Mutation)
      → Does g ms
      → Does g (EngineStore.remove_secondary_indexes c l ms)
  unfolding EngineStore.remove_secondary_indexes
  Does-remove l g ms s =
      Does-delete_if (not (is_zero l.expiry_time)) tree_lease_by_expiry (EngineStore.expiry_key c l)
        g _ expiry_tree
        (Does-delete_if (ltb 0 (length l.subnet_id)) tree_lease_by_subnet
          (l.subnet_id ++ index_sep ∷ l.ip) g _ subnet_tree
          (Does-delete_if (ltb 0 (length l.client_id)) tree_lease_by_client
            (l.client_id ++ index_sep ∷ l.ip) g _ client_tree
            (Does-delete_if (ltb 0 (length l.mac)) tree_lease_by_mac (EngineStore.mac_key c l) g ms
              mac_tree s)))

  pub Does-upsert_mutations :
      (l : Lease) (raw : Bytes) (old : Option Lease)
      → Does (λ t. BTree.set t l.ip raw) (EngineStore.upsert_mutations c l raw old)
  unfolding EngineStore.upsert_mutations
  Does-upsert_mutations l raw none = Does-add l (λ t. BTree.set t l.ip raw) _ (Does-put l.ip raw)
  Does-upsert_mutations l raw (some old) =
      Does-add l (λ t. BTree.set t l.ip raw) _
        (Does-remove old (λ t. BTree.set t l.ip raw) _ (Does-put l.ip raw))

  pub Does-delete_mutations :
      (ip : Bytes) (old : Lease)
      → Does
          (λ t. (BTree.delete t ip).0)
          (EngineStore.remove_secondary_indexes c old (tx_delete tree_leases ip []))
  Does-delete_mutations ip old = Does-remove old (λ t. (BTree.delete t ip).0) _ (Does-delete ip)
