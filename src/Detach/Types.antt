-- ===== src/Detach/Types.antt =====
-- pallets/detach/src/lib.rs: the data types, storage items and events.
use clamor.Base.{ℕ, ◌≡◌, ◌↔◌, Bool, true, false, Option, List, arith, Eq}
use clamor.Exec.{StorageMap, StorageDoubleMap}
use clamor.Host.{Bytes, Hash256}

pub data SupportedChains : Type 0 where
  ethereum_mainnet ethereum_rinkeby ethereum_goerli : SupportedChains

unfoldable pub chain_beq : SupportedChains → SupportedChains → Bool
chain_beq ethereum_mainnet ethereum_mainnet = true
chain_beq ethereum_rinkeby ethereum_rinkeby = true
chain_beq ethereum_goerli ethereum_goerli = true
chain_beq _ _ = false

pub chain_beq_iff : (a b : SupportedChains) → (chain_beq a b ≡ true) ↔ (a ≡ b)
unfolding chain_beq
chain_beq_iff a b = ground arith

instance abbrev pub chain_eq : Eq SupportedChains
chain_eq = record { equal = chain_beq; equal_iff = chain_beq_iff }

pub record DetachRequest : Type 0 where
  pub hash : Hash256
  pub target_chain : SupportedChains
  pub target_account : Bytes

pub record DetachInternalData : Type 0 where
  pub public : ℕ
  pub hash : Hash256
  pub target_chain : SupportedChains
  pub target_account : Bytes
  pub remote_signature : Bytes
  pub nonce : ℕ

pub record ExportData : Type 0 where
  pub chain : SupportedChains
  pub owner : Bytes
  pub nonce : ℕ

pub data Event : Type 0 where
  detached : Hash256 → Bytes → Event

-- the calls of the pallet return no error of their own: only `bad_origin`
pub data Error : Type 0 where
  already_detached no_validator signing_failed : Error

pub record State : Type 0 where
  pub detach_requests : List DetachRequest
  pub detach_nonces : StorageDoubleMap Bytes SupportedChains ℕ
  pub detached_hashes : StorageMap Hash256 ExportData
  pub ethereum_authorities : List ℕ
  pub frag_keys : List ℕ
  pub events : List Event
  -- the entry "fragments-detach-requests" of the off-chain database
  pub offchain_requests : Option (List DetachRequest)
