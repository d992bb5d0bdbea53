-- ===== src/Protos/Types.antt =====
-- pallets/protos/src/lib.rs: the data types, storage items, events and errors.
use clamor.Accounts.Types as Accounts
use clamor.Detach.Types as Detach
use clamor.Base.{ℕ, ◌≡◌, ◌↔◌, Bool, true, false, ◌&&◌, Option, List, arith, Eq, ◌==◌, nat_eq}
use clamor.Exec.{StorageMap, StorageDoubleMap}
use clamor.Host.{Bytes, AccountId, Hash256, H160, Balance, BlockNumber, Categories}

pub data LinkSource : Type 0 where
  evm : ℕ → ℕ → ℕ → LinkSource

pub data LinkedAsset : Type 0 where
  erc721 : H160 → ℕ → LinkSource → LinkedAsset

pub data ProtoOwner : Type 0 where
  user : AccountId → ProtoOwner
  external_asset : LinkedAsset → ProtoOwner

unfoldable pub owner_beq : ProtoOwner → ProtoOwner → Bool
owner_beq (user a) (user b) = a == b
owner_beq (user a) (external_asset y) = false
owner_beq (external_asset x) (user b) = false
owner_beq (external_asset (erc721 a t (evm s n c))) (external_asset (erc721 b u (evm r m d))) =
    a == b && t == u && s == r && n == m && c == d

pub owner_beq_iff : (p q : ProtoOwner) → (owner_beq p q ≡ true) ↔ (p ≡ q)
unfolding owner_beq
owner_beq_iff (user a) (user b) = ground arith
owner_beq_iff (user a) (external_asset y) = ground arith
owner_beq_iff (external_asset x) (user b) = ground arith
owner_beq_iff (external_asset (erc721 a t (evm s n c))) (external_asset (erc721 b u (evm r m d))) =
    ground arith

instance abbrev pub owner_eq : Eq ProtoOwner
owner_eq = record { equal = owner_beq; equal_iff = owner_beq_iff }

pub record ProtoPatch : Type 0 where
  pub block : BlockNumber
  pub data_hash : Hash256
  pub references : List Hash256

pub record AccountsInfo : Type 0 where
  pub active_accounts : ℕ
  pub lifetime_accounts : ℕ

-- a `Compact<u64>` is its number; a `BTreeMap` is only read by key
pub record Proto : Type 0 where
  pub block : BlockNumber
  pub patches : List ProtoPatch
  pub include_cost : Option ℕ
  pub creator : AccountId
  pub owner : ProtoOwner
  pub references : List Hash256
  pub category : Categories
  pub tags : List ℕ
  pub metadata : StorageMap ℕ Hash256
  pub accounts_info : AccountsInfo

pub data Event : Type 0 where
  uploaded patched metadata_changed : Hash256 → Bytes → Event
  transferred : Hash256 → AccountId → Event
  staked unstaked : Hash256 → AccountId → Balance → Event

pub data Error : Type 0 where
  systematic_failure proto_not_found proto_exists detached unauthorized not_enough_staked : Error
  stake_not_found reference_not_found insufficient_balance stake_locked no_frag_link : Error

pub record State : Type 0 where
  pub tags : StorageMap Bytes ℕ
  pub tags_index : ℕ
  pub meta_keys : StorageMap Bytes ℕ
  pub meta_keys_index : ℕ
  pub protos : StorageMap Hash256 Proto
  pub protos_by_category : StorageMap Categories (List Hash256)
  pub protos_by_owner : StorageMap ProtoOwner (List Hash256)
  pub proto_stakes : StorageDoubleMap Hash256 AccountId (Balance × BlockNumber)
  pub account_stakes : StorageMap AccountId (List Hash256)
  pub events : List Event
  -- the calls of `transaction_index::index`: extrinsic index, size and hash
  pub indexed : List (ℕ × ℕ × Hash256)

-- The storage that the calls of this pallet read and write.
pub record Chain : Type 0 where
  pub accounts : Accounts.State
  pub detach : Detach.State
  pub protos : State
