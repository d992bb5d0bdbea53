-- ===== src/Host.antt =====
-- What the pallets take from outside the repository: the host's hash functions and signature
-- recovery, the SCALE codec, base58, and the configuration constants. Hashes, accounts, Ethereum
-- addresses and categories are only compared, so each is a number; a byte string is a list of
-- numbers.
use Prim.Native.Char.{code}
use Prim.Native.String.{String}
use clamor.Base.{ℕ, zero, suc, ◌+◌, ◌-◌, ◌*◌, ◌/◌, ◌%◌, ◌^◌, Bool, Option, List, [], ◌∷◌}

abbrev pub Bytes : Type 0
Bytes = List ℕ

abbrev pub AccountId : Type 0
AccountId = ℕ

-- `[u8; 32]`, read as a number with the most significant byte first
abbrev pub Hash256 : Type 0
Hash256 = ℕ

abbrev pub Hash128 : Type 0
Hash128 = ℕ

abbrev pub H160 : Type 0
H160 = ℕ

abbrev pub Balance : Type 0
Balance = ℕ

abbrev pub BlockNumber : Type 0
BlockNumber = ℕ

-- the enum of the crate `protos`, of which the pallets only compare values
abbrev pub Categories : Type 0
Categories = ℕ

abbrev pub u64_mod : ℕ
u64_mod = 2 ^ 64

abbrev pub u128_mod : ℕ
u128_mod = 2 ^ 128

-- u64 and u128 arithmetic of a release build: it wraps
abbrev pub add_u64 : ℕ → ℕ → ℕ
add_u64 a b = (a + b) % u64_mod

abbrev pub sub_u128 : ℕ → ℕ → ℕ
sub_u128 a b = (a + u128_mod - b) % u128_mod

-- The bytes of an ASCII literal, `b"…"`.
abbrev pub ascii : String → Bytes
ascii String.[] = []
ascii (String.◌∷◌ c s) = code c ∷ ascii s

-- `n` bytes of a number, most significant first
unfoldable pub be_bytes : ℕ → ℕ → Bytes
be_bytes zero x = []
be_bytes (suc n) x = (x / 2 ^ (8 * n)) % 256 ∷ be_bytes n x

pub record Host : Type 0 where
  pub blake2_256 : Bytes → Hash256
  pub blake2_128 : Bytes → Hash128
  pub keccak_256 : Bytes → ℕ
  -- `secp256k1_ecdsa_recover`: signature, message hash, public key
  pub ecdsa_recover : ℕ → ℕ → Option Bytes
  pub to_base58 : Bytes → Bytes
  pub encode_account : AccountId → Bytes
  pub decode_account : Hash256 → Option AccountId
  pub encode_bytes : Bytes → Bytes
  pub encode_asset : Option ℕ → Bytes
  pub encode_u64 : ℕ → Bytes
  -- the tuple (amount, sender, signature, lock, block number) that a vote is counted for
  pub encode_lock : ℕ → H160 → ℕ → Bool → ℕ → Bytes
  -- `Config` of the pallets
  pub eth_chain_id : ℕ
  pub threshold : ℕ
  pub stake_lockup_period : ℕ
  -- the flags of `FragmentPerms` of the crate `protos`
  pub perm_edit : ℕ
  pub perm_copy : ℕ
  pub perm_transfer : ℕ

-- frame_system, as a call reads it
pub record System : Type 0 where
  pub block_number : BlockNumber
  pub extrinsic_index : Option ℕ

-- The pallets `balances` and `assets`, over a ledger of their own. Of a call that fails only the
-- fact is used.
pub record Currencies (Ledger : Type 0) : Type 0 where
  pub minimum_balance : Balance
  pub free_balance : Ledger → AccountId → Balance
  pub transfer : AccountId → AccountId → Balance → Ledger → Option Ledger
  pub reserve : AccountId → Balance → Ledger → Option Ledger
  -- `Currency` of the configuration of `assets`
  pub deposit_minimum : Balance
  pub deposit_reserve : AccountId → Balance → Ledger → Option Ledger
  -- `fungibles` of `assets`
  pub asset_minimum : ℕ → Balance
  pub asset_balance : Ledger → ℕ → AccountId → Balance
  pub asset_transfer : ℕ → AccountId → AccountId → Balance → Ledger → Option Ledger
