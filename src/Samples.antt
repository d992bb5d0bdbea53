-- ===== src/Samples.antt =====
-- Functions that stand for the host's in the tests: a digest that tells the inputs of the tests
-- apart, a recovery that takes the signature for the key, and encodings that are injective.
use clamor.Base.{ℕ, ◌+◌, ◌*◌, ◌%◌, [], ◌∷◌, none, some, get_or, if◌then◌else◌}
use clamor.Detach.Types.{State}
use clamor.Host.{Bytes, Host, System, Currencies}

abbrev pub digest : Bytes → ℕ
digest [] = 7
digest (b ∷ bs) = (b + 1 + 31 * digest bs) % 1000003

abbrev pub sample_host : Host
sample_host = record {
  blake2_256 = digest;
  blake2_128 = digest;
  keccak_256 = digest;
  ecdsa_recover = λ signature hash. some (signature ∷ []);
  to_base58 = λ bytes. bytes;
  encode_account = λ a. a ∷ [];
  decode_account = λ hash. some hash;
  encode_bytes = λ bytes. bytes;
  encode_asset = λ asset. get_or asset 0 ∷ [];
  encode_u64 = λ n. n ∷ [];
  encode_lock = λ amount sender signature lock block.
      amount ∷ sender ∷ signature ∷ (if lock then 1 else 0) ∷ block ∷ [];
  eth_chain_id = 1;
  threshold = 2;
  stake_lockup_period = 10;
  perm_edit = 1;
  perm_copy = 2;
  perm_transfer = 4;
}

-- the first extrinsic of block 5
abbrev pub in_block : System
in_block = record { block_number = 5; extrinsic_index = some 0 }

-- a ledger that is the one balance of everybody, in a currency without fees
abbrev pub sample_currencies : Currencies ℕ
sample_currencies = record {
  minimum_balance = 1;
  free_balance = λ ledger a. ledger;
  transfer = λ a b amount ledger. some ledger;
  reserve = λ a amount ledger. some ledger;
  deposit_minimum = 1;
  deposit_reserve = λ a amount ledger. some ledger;
  asset_minimum = λ asset. 1;
  asset_balance = λ ledger asset a. ledger;
  asset_transfer = λ asset a b amount ledger. some ledger;
}

-- the storage of the pallet `detach` before any call
abbrev pub no_detach : State
no_detach = record {
  detach_requests = [];
  detach_nonces = λ a c. none;
  detached_hashes = λ k. none;
  ethereum_authorities = [];
  frag_keys = [];
  events = [];
  offchain_requests = none;
}
