-- ===== src/Accounts/Types.antt =====
-- pallets/accounts/src/lib.rs: the storage items, events and errors.
use clamor.Base.{ℕ, Bool, List, ◌≡◌, ◌↔◌, true, arith, Eq, ◌==◌, nat_eq, bytes_eq, pair_eq}
use clamor.Exec.{StorageMap}
use clamor.Host.{AccountId, H160, Balance, BlockNumber, Hash256}

-- the payload of `internal_lock_update`
pub record EthLockUpdate : Type 0 where
  pub public : ℕ
  pub amount : ℕ
  pub sender : H160
  pub signature : ℕ
  pub lock : Bool
  pub block_number : ℕ

pub record EthLock : Type 0 where
  pub amount : Balance
  pub block_number : BlockNumber

pub data ExternalId : Type 0 where
  discord : ℕ → ExternalId

unfoldable pub external_id_equal : ExternalId → ExternalId → Bool
external_id_equal (discord m) (discord n) = m == n

pub external_id_equal_iff : (a b : ExternalId) → (external_id_equal a b ≡ true) ↔ (a ≡ b)
unfolding external_id_equal
external_id_equal_iff (discord m) (discord n) = ground arith

instance abbrev pub external_id_eq : Eq ExternalId
external_id_eq = record { equal = external_id_equal; equal_iff = external_id_equal_iff }

pub record AccountInfo : Type 0 where
  pub account_id : AccountId
  pub created_at : ℕ

pub data Event : Type 0 where
  linked unlinked : AccountId → H160 → Event
  locked unlocked : H160 → Balance → Event
  sponsored_account : AccountId → AccountId → ExternalId → Event

pub data Error : Type 0 where
  systematic_failure verification_failed link_already_processed link_not_found : Error
  account_already_linked account_not_linked different_account_linked : Error
  account_already_exists too_many_proxies : Error

pub record State : Type 0 where
  pub eth_locked_frag : StorageMap H160 EthLock
  pub evm_links : StorageMap AccountId H160
  pub evm_links_reverse : StorageMap H160 AccountId
  pub frag_usage : StorageMap AccountId Balance
  pub evm_link_voting : StorageMap Hash256 ℕ
  pub evm_link_voting_closed : StorageMap Hash256 BlockNumber
  pub pending_unlinks : List AccountId
  pub frag_keys : List ℕ
  pub external_id2account : StorageMap ExternalId AccountInfo
  pub events : List Event
