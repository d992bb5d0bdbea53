-- ===== src/Fragments/Types.antt =====
-- pallets/fragments/src/lib.rs: the data types, storage items, events and errors.
use clamor.Protos.Types as Protos
use clamor.Base.{ℕ, Bool, Option, List}
use clamor.Exec.{StorageMap, StorageDoubleMap}
use clamor.Host.{Bytes, AccountId, Hash256, Hash128, BlockNumber}

-- `Unit` of the source: editions, copies and amounts are u64
abbrev pub Edition : Type 0
Edition = ℕ

-- edition and copy
abbrev pub InstanceId : Type 0
InstanceId = ℕ × ℕ

-- the bits of the flags
abbrev pub FragmentPerms : Type 0
FragmentPerms = ℕ

pub record FragmentMetadata : Type 0 where
  pub name : Bytes
  pub currency : Option ℕ

pub record UniqueOptions : Type 0 where
  pub mutable : Bool

pub record FragmentDefinition : Type 0 where
  pub proto_hash : Hash256
  pub metadata : FragmentMetadata
  pub permissions : FragmentPerms
  pub unique : Option UniqueOptions
  pub max_supply : Option Edition
  pub creator : AccountId
  pub created_at : BlockNumber

pub record FragmentInstance : Type 0 where
  pub permissions : FragmentPerms
  pub created_at : BlockNumber
  pub custom_data : Option Hash256
  pub expiring_at : Option BlockNumber
  pub amount : Option Edition

pub record PublishingData : Type 0 where
  pub price : ℕ
  pub units_left : Option Edition
  pub expiration : Option BlockNumber
  pub amount : Option Edition

pub data FragmentBuyOptions : Type 0 where
  quantity : Edition → FragmentBuyOptions
  unique_data : Bytes → FragmentBuyOptions

pub data Event : Type 0 where
  definition_created published unpublished : Hash128 → Event
  inventory_added inventory_removed expired : AccountId → Hash128 → InstanceId → Event

pub data Error : Type 0 where
  proto_not_found proto_owner_not_found no_permission detached already_exist not_found : Error
  sale_expired insufficient_balance sold_out sale_already_open max_supply_reached : Error
  published_quantity_reached params_not_valid systematic_failure unique_data_exists : Error

pub record State : Type 0 where
  pub proto2fragments : StorageMap Hash256 (List Hash128)
  pub definitions : StorageMap Hash128 FragmentDefinition
  pub publishing : StorageMap Hash128 PublishingData
  pub editions_count : StorageMap Hash128 Edition
  pub copies_count : StorageDoubleMap Hash128 Edition Edition
  pub fragments : StorageDoubleMap Hash128 InstanceId FragmentInstance
  pub unique_data2edition : StorageDoubleMap Hash128 Hash256 Edition
  pub owners : StorageDoubleMap Hash128 AccountId (List InstanceId)
  pub inventory : StorageDoubleMap AccountId Hash128 (List InstanceId)
  pub expirations : StorageMap BlockNumber (List (Hash128 × InstanceId))
  pub events : List Event
  -- the calls of `transaction_index::index`: extrinsic index, size and hash
  pub indexed : List (ℕ × ℕ × Hash256)

-- The storage that the calls of this pallet read and write.
pub record Chain (Ledger : Type 0) : Type 0 where
  pub base : Protos.Chain
  pub fragments : State
  pub ledger : Ledger
