-- ===== src/Lease/EngineStore.antt =====
-- The lease store of internal/lease/store.go over the storage engine: a tree of leases and four
-- trees of references to them. The JSON codec, `strings.ToUpper` on an address and the decimal
-- form of a time are arguments.
pub mod Mutations
pub mod Upsert
pub mod Leases
pub mod Effects
pub mod Listing
pub mod Tests
use monsoon.Prelude.{
  ◌⊎◌, inl, inr, ℕ, Bool, true, false, not, Option, none, some, List, [], ◌∷◌, ◌++◌, ◌==◌,
  if◌then◌else◌, ltb, length, ℤ, pos,
}
use monsoon.Bytes.{Bytes, has_prefix}
use monsoon.Text.{trim_space}
use monsoon.Lease.{Lease, is_zero, normalize_defaults}
use monsoon.Storage.Wal.{Faults}
use monsoon.Storage.Engine
use monsoon.Storage.Engine.{Engine, Mutation, TxError, TxEvent, tx_put, tx_delete}

-- "leases"
abbrev pub tree_leases : Bytes
tree_leases = b'l' ∷ b'e' ∷ b'a' ∷ b's' ∷ b'e' ∷ b's' ∷ []

-- "leases_by_mac"
abbrev pub tree_lease_by_mac : Bytes
tree_lease_by_mac = tree_leases ++ b'_' ∷ b'b' ∷ b'y' ∷ b'_' ∷ b'm' ∷ b'a' ∷ b'c' ∷ []

-- "leases_by_expiry"
abbrev pub tree_lease_by_expiry : Bytes
tree_lease_by_expiry =
    tree_leases ++ b'_' ∷ b'b' ∷ b'y' ∷ b'_' ∷ b'e' ∷ b'x' ∷ b'p' ∷ b'i' ∷ b'r' ∷ b'y' ∷ []

-- "leases_by_subnet"
abbrev pub tree_lease_by_subnet : Bytes
tree_lease_by_subnet =
    tree_leases ++ b'_' ∷ b'b' ∷ b'y' ∷ b'_' ∷ b's' ∷ b'u' ∷ b'b' ∷ b'n' ∷ b'e' ∷ b't' ∷ []

-- "leases_by_client"
abbrev pub tree_lease_by_client : Bytes
tree_lease_by_client =
    tree_leases ++ b'_' ∷ b'b' ∷ b'y' ∷ b'_' ∷ b'c' ∷ b'l' ∷ b'i' ∷ b'e' ∷ b'n' ∷ b't' ∷ []

abbrev pub index_sep : ℕ
index_sep = 31

-- `json.Marshal` and `json.Unmarshal` on leases, and the texts that the index keys are made of:
-- `normalizeMAC`'s `strings.ToUpper` and `fmt.Sprintf("%020d", t.Unix())`
pub record Codec : Type 0 where
  pub marshal : Lease → Option Bytes
  pub unmarshal : Bytes → Option Lease
  pub to_upper : Bytes → Bytes
  pub unix_text : ℤ → Bytes

pub data StoreError : Type 0 where
  ip_required not_found bad_lease : StoreError
  tx_failed : TxError → StoreError

module _ (c : Codec) where
  unfoldable pub normalize_mac : Bytes → Bytes
  unfolding trim_space
  normalize_mac mac = c.to_upper (trim_space mac)

  unfoldable pub mac_key : Lease → Bytes
  unfolding normalize_mac
  mac_key l = normalize_mac l.mac ++ index_sep ∷ l.ip

  unfoldable pub expiry_key : Lease → Bytes
  expiry_key l = c.unix_text l.expiry_time ++ index_sep ∷ l.ip

  unfoldable pub put_if : Bool → Bytes → Bytes → Lease → List Mutation → List Mutation
  put_if wanted tree key l ms = if wanted then tx_put tree key l.ip ms else ms

  unfoldable pub delete_if : Bool → Bytes → Bytes → List Mutation → List Mutation
  delete_if wanted tree key ms = if wanted then tx_delete tree key ms else ms

  -- `addSecondaryIndexes`
  unfoldable pub add_secondary_indexes : Lease → List Mutation → List Mutation
  unfolding put_if mac_key expiry_key
  add_secondary_indexes l ms =
      let m1 = put_if (ltb 0 (length l.mac)) tree_lease_by_mac (mac_key l) l ms in
      let m2 =
        put_if (ltb 0 (length l.client_id)) tree_lease_by_client (l.client_id ++ index_sep ∷ l.ip) l
          m1 in
      let m3 =
        put_if (ltb 0 (length l.subnet_id)) tree_lease_by_subnet (l.subnet_id ++ index_sep ∷ l.ip) l
          m2 in
      put_if (not (is_zero l.expiry_time)) tree_lease_by_expiry (expiry_key l) l m3

  -- `removeSecondaryIndexes`
  unfoldable pub remove_secondary_indexes : Lease → List Mutation → List Mutation
  unfolding delete_if mac_key expiry_key
  remove_secondary_indexes l ms =
      let m1 = delete_if (ltb 0 (length l.mac)) tree_lease_by_mac (mac_key l) ms in
      let m2 =
        delete_if (ltb 0 (length l.client_id)) tree_lease_by_client
          (l.client_id ++ index_sep ∷ l.ip) m1 in
      let m3 =
        delete_if (ltb 0 (length l.subnet_id)) tree_lease_by_subnet
          (l.subnet_id ++ index_sep ∷ l.ip) m2 in
      delete_if (not (is_zero l.expiry_time)) tree_lease_by_expiry (expiry_key l) m3

  unfoldable pub decode_lease : Option Bytes → Lease ⊎ StoreError
  decode_lease none = inr not_found
  decode_lease (some raw) = elim (c.unmarshal raw) [ none ↦ inr bad_lease | some l ↦ inl l ]

  -- `GetByIP`
  unfoldable pub get_by_ip : Bytes → Engine → Lease ⊎ StoreError
  unfolding decode_lease Engine.get
  get_by_ip ip e = decode_lease (Engine.get tree_leases ip e)

  -- the transaction of `upsert`, with the lease that was found under the address
  unfoldable pub upsert_mutations : Lease → Bytes → Option Lease → List Mutation
  unfolding add_secondary_indexes remove_secondary_indexes
  upsert_mutations l raw none = add_secondary_indexes l (tx_put tree_leases l.ip raw [])
  upsert_mutations l raw (some old) =
      add_secondary_indexes l (remove_secondary_indexes old (tx_put tree_leases l.ip raw []))

  abbrev pub Stored : Type 0
  Stored = Engine × Option StoreError

  unfoldable pub tx_result : Engine × Option TxError → Stored
  tx_result (e, none) = (e, none)
  tx_result (e, some x) = (e, some (tx_failed x))

  module _ (os : ℕ → Faults) (now : ℕ) where
    unfoldable pub upsert_found : Bool → Lease → Bytes → Lease ⊎ StoreError → Engine → Stored
    unfolding tx_result upsert_mutations Engine.tx
    upsert_found notify l raw (inl old) e =
        tx_result (Engine.tx os now notify (some (upsert_mutations l raw (some old))) e)
    upsert_found notify l raw (inr not_found) e =
        tx_result (Engine.tx os now notify (some (upsert_mutations l raw none)) e)
    upsert_found notify l raw (inr x) e = (e, some x)

    unfoldable pub upsert_normal : Bool → Lease → Option Bytes → Engine → Stored
    unfolding upsert_found get_by_ip
    upsert_normal notify l none e = (e, some bad_lease)
    upsert_normal notify l (some raw) e = upsert_found notify l raw (get_by_ip l.ip e) e

    -- `upsert`: `Upsert` notifies, `UpsertSilent` does not; the default duration is twelve hours
    unfoldable pub upsert : Bool → Lease → Engine → Stored
    unfolding upsert_normal normalize_defaults trim_space
    upsert notify l e =
        let l' = normalize_defaults (pos now) (pos 43200000000000) l in
        if length (trim_space l.ip) == 0
        then (e, some ip_required)
        else upsert_normal notify l' (c.marshal l') e

    unfoldable pub delete_found : Bool → Bytes → Lease ⊎ StoreError → Engine → Stored
    unfolding tx_result remove_secondary_indexes Engine.tx
    delete_found notify ip (inl l) e = tx_result (
        Engine.tx os now notify (some (remove_secondary_indexes l (tx_delete tree_leases ip []))) e)
    delete_found notify ip (inr not_found) e = (e, none)
    delete_found notify ip (inr x) e = (e, some x)

    -- `delete`: `Delete` notifies, `DeleteSilent` does not
    unfoldable pub delete : Bool → Bytes → Engine → Stored
    unfolding delete_found get_by_ip
    delete notify ip e = delete_found notify ip (get_by_ip ip e) e

  unfoldable pub cons_lease : Lease → List Lease ⊎ StoreError → List Lease ⊎ StoreError
  cons_lease l (inl ls) = inl (l ∷ ls)
  cons_lease l (inr x) = inr x

  unfoldable pub fetch_one : Lease ⊎ StoreError → List Lease ⊎ StoreError → List Lease ⊎ StoreError
  unfolding cons_lease
  fetch_one (inl l) rest = cons_lease l rest
  fetch_one (inr not_found) rest = rest
  fetch_one (inr x) rest = inr x

  -- `fetchByIPs`
  unfoldable pub fetch_by_ips : List Bytes → Engine → List Lease ⊎ StoreError
  unfolding fetch_one get_by_ip
  fetch_by_ips [] e = inl []
  fetch_by_ips (ip ∷ ips) e = fetch_one (get_by_ip ip e) (fetch_by_ips ips e)

  -- `fetchBySecondaryPrefix`; the callback collects the addresses under keys with the prefix
  unfoldable pub fetch_by_secondary_prefix : Bytes → Bytes → Engine → List Lease ⊎ StoreError
  unfolding fetch_by_ips Engine.iterate has_prefix
  fetch_by_secondary_prefix tree prefix e =
      let fn : Bytes → Bytes → List Bytes → List Bytes × Bool =
        λ k v ips. if has_prefix k prefix then (ips ++ v ∷ [], true) else (ips, false) in
      let (ips, found) = Engine.iterate tree prefix [] fn e [] in
      if found then fetch_by_ips ips e else inl []

  -- `GetByMAC`, `GetByClientID` and `ListBySubnet`
  unfoldable pub get_by_mac : Bytes → Engine → List Lease ⊎ StoreError
  unfolding fetch_by_secondary_prefix normalize_mac
  get_by_mac mac e =
      fetch_by_secondary_prefix tree_lease_by_mac (normalize_mac mac ++ index_sep ∷ []) e

  unfoldable pub get_by_client_id : Bytes → Engine → List Lease ⊎ StoreError
  unfolding fetch_by_secondary_prefix
  get_by_client_id client_id e =
      fetch_by_secondary_prefix tree_lease_by_client (client_id ++ index_sep ∷ []) e

  unfoldable pub list_by_subnet : Bytes → Engine → List Lease ⊎ StoreError
  unfolding fetch_by_secondary_prefix
  list_by_subnet subnet_id e =
      fetch_by_secondary_prefix tree_lease_by_subnet (subnet_id ++ index_sep ∷ []) e

  -- `ListExpiringBefore`
  unfoldable pub list_expiring_before : ℤ → Engine → List Lease ⊎ StoreError
  unfolding fetch_by_ips Engine.iterate
  list_expiring_before t e =
      let fn : Bytes → Bytes → List Bytes → List Bytes × Bool = λ k v ips. (ips ++ v ∷ [], true) in
      fetch_by_ips (Engine.iterate tree_lease_by_expiry [] (c.unix_text t) fn e []).0 e

  unfoldable pub add_decoded : Option Lease → List Lease → List Lease
  add_decoded none ls = ls
  add_decoded (some l) ls = ls ++ l ∷ []

  -- `ListAll`, which leaves out what it cannot read
  unfoldable pub list_all : Engine → List Lease
  unfolding add_decoded Engine.iterate
  list_all e =
      let fn : Bytes → Bytes → List Lease → List Lease × Bool =
        λ k v ls. (add_decoded (c.unmarshal v) ls, true) in
      (Engine.iterate tree_leases [] [] fn e []).0
