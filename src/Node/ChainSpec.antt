-- ===== src/Node/ChainSpec.antt =====
-- node/src/chain_spec.rs and `load_spec` of node/src/command.rs: the chain specifications.
use clamor.Exec.{Exec, ◌>>=◌, return, ok_or, unwrap}
use clamor.Base.{
  ℕ, ◌*◌, ◌^◌, ◌||◌, Option, none, some, List, [], ◌∷◌, ◌++◌, map, if◌then◌else◌, ◌==◌, nat_eq,
  bytes_eq, pair_eq,
}
use clamor.Host.{Bytes, AccountId, Balance, ascii, be_bytes, Host}

-- `Pair` of sp_core: `from_string(…).public()` for each scheme, signing with an ed25519 pair, and
-- the ECDSA key of a seed. `none` is an error.
pub record Pairs : Type 0 where
  pub sr25519_from_string : Bytes → Option ℕ
  pub ed25519_from_string : Bytes → Option ℕ
  pub ecdsa_from_string : Bytes → Option ℕ
  pub ed25519_sign : Bytes → Bytes → Bytes
  pub ecdsa_from_seed_slice : Bytes → Option ℕ
  -- `AccountPublic::from(…).into_account()` of an sr25519 key
  pub into_account : ℕ → AccountId

-- The keys of an authority.
pub record AuthorityKeys : Type 0 where
  pub aura_id : ℕ
  pub grandpa_id : ℕ
  pub upload_id : ℕ
  pub eth_id : ℕ
  pub detach_id : ℕ

-- The parts of the genesis configuration that the specifications set.
pub record GenesisConfig : Type 0 where
  pub code : Bytes
  pub balances : List (AccountId × Balance)
  pub aura_authorities : List ℕ
  pub grandpa_authorities : List (ℕ × ℕ)
  pub sudo_key : Option AccountId
  pub detach_eth_authorities : List ℕ
  pub detach_keys : List ℕ
  pub accounts_keys : List ℕ

pub data ChainType : Type 0 where
  development local_net live : ChainType

-- What reading a specification, or making its genesis, comes to: an error is a text.
abbrev pub Spec : Type 0 → Type 0
Spec A = Exec (Unit {0}) Bytes A

pub record ChainSpec : Type 0 where
  pub name : Bytes
  pub id : Bytes
  pub chain_type : ChainType
  -- the closure that makes the genesis configuration
  pub genesis : Spec GenesisConfig

unfoldable pub get_from_seed : (Bytes → Option ℕ) → Bytes → Spec ℕ
get_from_seed from_string seed = unwrap (from_string (ascii "//" ++ seed))

unfoldable pub get_from_seed_to_eth : Host → Pairs → Bytes → Spec ℕ
get_from_seed_to_eth h p seed = do
  public ← unwrap (p.ed25519_from_string (ascii "//" ++ seed))
  let message = ascii "fragments-frag-ecdsa-keys" ++ be_bytes 32 public
  let hash = h.keccak_256 (p.ed25519_sign (ascii "//" ++ seed) message)
  unwrap (p.ecdsa_from_seed_slice (be_bytes 32 hash))

unfoldable pub get_account_id_from_seed : Pairs → Bytes → Spec AccountId
unfolding get_from_seed
get_account_id_from_seed p seed = do
  public ← get_from_seed p.sr25519_from_string seed
  return (p.into_account public)

unfoldable pub authority_keys_from_seed : Host → Pairs → Bytes → Spec AuthorityKeys
unfolding get_from_seed get_from_seed_to_eth
authority_keys_from_seed h p s = do
  aura ← get_from_seed p.sr25519_from_string s
  grandpa ← get_from_seed p.ed25519_from_string s
  upload ← get_from_seed p.ecdsa_from_string s
  eth ← get_from_seed_to_eth h p s
  detach ← get_from_seed p.ed25519_from_string s
  return (record {
    aura_id = aura;
    grandpa_id = grandpa;
    upload_id = upload;
    eth_id = eth;
    detach_id = detach;
  })

-- `vec![f(a), f(b), …]`
unfoldable pub each : {A : Type 0} → (Bytes → Spec A) → List Bytes → Spec (List A)
each f [] = return []
each f (s ∷ ss) = do a ← f s; rest ← each f ss; return (a ∷ rest)

unfoldable pub testnet_genesis :
    Bytes → List AuthorityKeys → AccountId → List AccountId → GenesisConfig
testnet_genesis wasm_binary initial_authorities root_key endowed_accounts = record {
  code = wasm_binary;
  balances = map (λ k. (k, 1000000000 * 10 ^ 12)) endowed_accounts;
  aura_authorities = map (λ (x : AuthorityKeys). x.aura_id) initial_authorities;
  grandpa_authorities = map (λ (x : AuthorityKeys). (x.grandpa_id, 1)) initial_authorities;
  sudo_key = some root_key;
  detach_eth_authorities = map (λ (x : AuthorityKeys). x.eth_id) initial_authorities;
  detach_keys = map (λ (x : AuthorityKeys). x.detach_id) initial_authorities;
  accounts_keys = map (λ (x : AuthorityKeys). x.detach_id) initial_authorities;
}

-- the genesis of the authorities Alice and Bob, with Alice as root
abbrev alice_and_bob : Host → Pairs → Bytes → List Bytes → Spec GenesisConfig
alice_and_bob h p wasm_binary endowed = do
  authorities ← each (authority_keys_from_seed h p) (ascii "Alice" ∷ ascii "Bob" ∷ [])
  root_key ← get_account_id_from_seed p (ascii "Alice")
  accounts ← each (get_account_id_from_seed p) endowed
  return (testnet_genesis wasm_binary authorities root_key accounts)

unfoldable pub development_config : Host → Pairs → Option Bytes → Spec ChainSpec
development_config h p wasm_binary = do
  code ← ok_or wasm_binary (ascii "Development wasm not available")
  return (record {
    name = ascii "Development";
    id = ascii "dev";
    chain_type = development;
    genesis = alice_and_bob h p code (
        ascii "Alice"
        ∷ ascii "Bob"
        ∷ ascii "Alice//stash"
        ∷ ascii "Bob//stash"
        ∷ ascii "Dave"
        ∷ []);
  })

unfoldable pub local_testnet_config : Host → Pairs → Option Bytes → Spec ChainSpec
local_testnet_config h p wasm_binary = do
  code ← ok_or wasm_binary (ascii "Development wasm not available")
  return (record {
    name = ascii "Local Testnet";
    id = ascii "local_testnet";
    chain_type = local_net;
    genesis = alice_and_bob h p code (
        ascii "Alice"
        ∷ ascii "Bob"
        ∷ ascii "Charlie"
        ∷ ascii "Dave"
        ∷ ascii "Eve"
        ∷ ascii "Ferdie"
        ∷ ascii "Alice//stash"
        ∷ ascii "Bob//stash"
        ∷ ascii "Charlie//stash"
        ∷ ascii "Dave//stash"
        ∷ ascii "Eve//stash"
        ∷ ascii "Ferdie//stash"
        ∷ []);
  })

unfoldable pub live_config : Option Bytes → Spec ChainSpec
live_config wasm_binary = do
  code ← ok_or wasm_binary (ascii "Development wasm not available")
  return (record {
    name = ascii "Live Network";
    id = ascii "live";
    chain_type = live;
    genesis = return (record {
      code = code;
      balances = [];
      aura_authorities = [];
      grandpa_authorities = [];
      sudo_key = none;
      detach_eth_authorities = [];
      detach_keys = [];
      accounts_keys = [];
    });
  })

-- `from_json_file` reads the specification of any other name.
unfoldable pub load_spec :
    Host → Pairs → Option Bytes → (Bytes → Spec ChainSpec) → Bytes → Spec ChainSpec
load_spec h p wasm_binary from_json_file id =
    if id == ascii "dev"
    then development_config h p wasm_binary
    else if id == [] || id == ascii "local"
    then local_testnet_config h p wasm_binary
    else if id == ascii "live"
    then live_config wasm_binary
    else from_json_file id
