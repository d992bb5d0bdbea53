-- ===== src/Fragments/Minting.antt =====
-- pallets/fragments/src/lib.rs: `mint_fragments`.
use clamor.Fragments.Types.{
  Edition, FragmentDefinition, FragmentInstance, PublishingData, FragmentBuyOptions, quantity,
  unique_data, inventory_added, Error, not_found, max_supply_reached, published_quantity_reached,
  params_not_valid, systematic_failure, unique_data_exists, State, Chain, InstanceId,
}
use clamor.Base.{
  ℕ, zero, suc, ◌+◌, ◌-◌, ◌%◌, ◌^◌, Bool, true, not, ◌&&◌, Option, none, some, [], ◌∷◌, ◌++◌, ltb,
  if◌then◌else◌, is_some, get_or, ◌==◌, length, nat_eq, bytes_eq, pair_eq, List,
}
use clamor.Exec.{
  Exec, Call, ◌>>=◌, ◌>>◌, return, fail, ensure, ok_or, gets, modify, insert, mutate, append, put₂,
  append₂, StorageMap,
}
use clamor.Host.{AccountId, Hash256, Hash128, BlockNumber, add_u64, Host, System}

module _ {L E : Type 0} where
  abbrev pub modify_fragments : (State → State) → Call (Chain L) E
  modify_fragments f = modify (λ c. record c { fragments = f c.fragments })

abbrev pub schedule :
    Option BlockNumber
    → Hash128
    → InstanceId
    → StorageMap BlockNumber (List (Hash128 × InstanceId))
    → StorageMap BlockNumber (List (Hash128 × InstanceId))
schedule none class id expirations = expirations
schedule (some block) class id expirations = append expirations block (class, id)

-- One round of the loop: the instance `id`, copy 1, of a definition.
unfoldable pub mint_one : AccountId → Hash128 → FragmentInstance → Edition → State → State
mint_one to class instance_data id s = record s {
  fragments = put₂ s.fragments class (id, 1) (some instance_data);
  copies_count = put₂ s.copies_count class id (some 1);
  inventory = append₂ s.inventory to class (id, 1);
  owners = append₂ s.owners class to (id, 1);
  expirations = schedule instance_data.expiring_at class (id, 1) s.expirations;
  events = s.events ++ inventory_added to class (id, 1) ∷ [];
}

-- `for id in first..(first + rounds)`, with `id + 1` in its body
unfoldable pub mint_loop : AccountId → Hash128 → FragmentInstance → ℕ → Edition → State → State
mint_loop to class instance_data zero first s = s
mint_loop to class instance_data (suc rounds) first s =
    mint_loop to class instance_data rounds (first + 1)
      (mint_one to class instance_data (add_u64 first 1) s)

-- The hash and the size of unique data, if the definition allows such.
unfoldable pub unique_part :
    {L : Type 0}
    → Host
    → Hash128
    → FragmentDefinition
    → FragmentBuyOptions
    → ℕ
    → Exec (Chain L) Error (Option (Hash256 × ℕ))
unique_part h class definition (unique_data bytes) n = do
  ensure (is_some definition.unique && n == 1) params_not_valid
  let data_hash = h.blake2_256 bytes
  ensure (not (is_some (← gets (λ c. c.fragments.unique_data2edition class data_hash))))
      unique_data_exists
  return (some (data_hash, length bytes))
unique_part h class definition (quantity m) n = do
  ensure (not (is_some definition.unique)) params_not_valid
  return none

-- In a sale the units left are reduced; else the supply is limited.
unfoldable pub take_units :
    {L : Type 0}
    → Hash128
    → FragmentDefinition
    → Option PublishingData
    → ℕ
    → Edition
    → Call (Chain L) Error
take_units class definition (some sale) n existing = elim sale.units_left [
  | none ↦ return tt
  | some units_left ↦
      if ltb units_left n
      then fail published_quantity_reached
      else modify_fragments (λ s. record s {
        publishing =
            mutate s.publishing class (λ p. record p { units_left = some (units_left - n) });
      })
]
take_units class definition none n existing = elim definition.max_supply [
  | none ↦ return tt
  | some max ↦ if ltb (max - existing) n then fail max_supply_reached else return tt
]

abbrev pub data_hash_of : Option (Hash256 × ℕ) → Option Hash256
data_hash_of none = none
data_hash_of (some (hash, size)) = some hash

-- `UniqueData2Edition` and the index of the data
unfoldable pub record_unique : Hash128 → ℕ → Edition → Option (Hash256 × ℕ) → State → State
record_unique class extrinsic existing none s = s
record_unique class extrinsic existing (some (hash, size)) s = record s {
  unique_data2edition = put₂ s.unique_data2edition class hash (some existing);
  indexed = s.indexed ++ (extrinsic, size % 2 ^ 32, hash) ∷ [];
}

-- what is written when all checks are done
unfoldable pub write_minted :
    AccountId → Hash128 → FragmentInstance → ℕ → ℕ → Edition → Option (Hash256 × ℕ) → State → State
unfolding mint_loop record_unique
write_minted to class instance_data n extrinsic existing data_part s =
    let total = add_u64 existing n in
    let t =
      record_unique class extrinsic existing data_part
        (mint_loop to class instance_data (total - existing) existing s) in
    record t { editions_count = insert t.editions_count class total }

abbrev pub expires_later : Option BlockNumber → BlockNumber → Bool
expires_later none now = true
expires_later (some block) now = ltb now block

-- `mint_fragments` from the count of editions on: the units, and then the writes
unfoldable pub finish_minting :
    {L : Type 0}
    → AccountId
    → Hash128
    → Option PublishingData
    → ℕ
    → FragmentDefinition
    → FragmentInstance
    → ℕ
    → Option (Hash256 × ℕ)
    → Call (Chain L) Error
unfolding take_units
finish_minting to class sale n definition instance_data extrinsic_index data_part = do
  existing ← gets (λ c. get_or (c.fragments.editions_count class) 0)
  take_units class definition sale n existing
  modify_fragments (write_minted to class instance_data n extrinsic_index existing data_part)

unfoldable pub mint_fragments :
    {L : Type 0}
    → Host
    → System
    → AccountId
    → Hash128
    → Option PublishingData
    → FragmentBuyOptions
    → ℕ
    → Option BlockNumber
    → Option Edition
    → Call (Chain L) Error
unfolding unique_part
mint_fragments h sys to class sale options n expiring_at amount = do
  ensure (expires_later expiring_at sys.block_number) params_not_valid
  definition ← ok_or (← gets (λ c. c.fragments.definitions class)) not_found
  extrinsic_index ← ok_or sys.extrinsic_index systematic_failure
  data_part ← unique_part h class definition options n
  finish_minting to class sale n definition
      (record {
        permissions = definition.permissions;
        created_at = sys.block_number;
        custom_data = data_hash_of data_part;
        expiring_at = expiring_at;
        amount = amount;
      })
      extrinsic_index data_part
