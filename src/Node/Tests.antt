-- ===== src/Node/Tests.antt =====
-- The theorems on the chains that the node starts, at concrete inputs.
use clamor.Fragments.Types as Fragments
use clamor.Samples.{digest, sample_host, in_block}
use clamor.Exec.{items₂, signed, ok}
use clamor.Runtime.Keeping.{Expired}
use clamor.Node.ChainSpec.{
  Pairs, AuthorityKeys, GenesisConfig, get_from_seed, get_from_seed_to_eth,
  authority_keys_from_seed, testnet_genesis,
}
use clamor.Node.Genesis.{genesis_storage, StartsWith, genesis_storage-total}
use clamor.Node.AuthorityKeys.{HoldsSeed, find_authority-genesis}
use clamor.Node.Chains.{genesis-IsConsistent}
use clamor.Detach.Generation.{
  KeyMaker, Ring, generate_seed_from_ed_key, generate_each, generate_keys,
}
use clamor.Detach.Worker.{find_authority}
use clamor.Runtime.Tests.{world}
use clamor.Runtime.Calls.{protos_call, dispatch}
use clamor.Runtime.Steps.{called, here, next}
use clamor.Runtime.Consistency.{IsConsistent}
use clamor.Protos.Atomic.{upload_call}
use clamor.Base.{
  ℕ, ◌≡◌, ◌⊎◌, refl, true, false, none, some, [], ◌∷◌, ◌++◌, arith, is_some, ==_refl, contains,
  nat_eq, bytes_eq, pair_eq,
}
use clamor.Host.{AccountId, Hash128, Bytes, ascii, be_bytes}

-- pairs whose keys are digests of their phrases, and that sign with them
abbrev pairs : Pairs
pairs = record {
  sr25519_from_string = λ phrase. some (digest phrase);
  ed25519_from_string = λ phrase. some (digest phrase);
  ecdsa_from_string = λ phrase. some (digest phrase);
  ed25519_sign = λ phrase message. digest phrase ∷ message;
  ecdsa_from_seed_slice = λ bytes. some (digest bytes);
  into_account = λ public. public;
}

abbrev alice_key : ℕ
alice_key = digest (ascii "//Alice")

abbrev without_prefix : Bytes → Bytes
without_prefix (a ∷ b ∷ bytes) = bytes
without_prefix bytes = bytes

-- the keystore of the authority Alice
abbrev maker : KeyMaker
maker = record {
  ed25519_public_keys = alice_key ∷ [];
  ed25519_sign = λ key message. some (key ∷ message);
  hex_text = λ bytes. bytes;
  ecdsa_generate = λ text made. digest (without_prefix text) ∷ made;
}

abbrev alice : AuthorityKeys
alice = record {
  aura_id = alice_key;
  grandpa_id = alice_key;
  upload_id = alice_key;
  eth_id = digest (
      be_bytes 32
        (digest (alice_key ∷ ascii "fragments-frag-ecdsa-keys" ++ be_bytes 32 alice_key)));
  detach_id = alice_key;
}

abbrev config : GenesisConfig
config = testnet_genesis (1 ∷ []) (alice ∷ []) 5 (5 ∷ 6 ∷ [])

alice-keys : authority_keys_from_seed sample_host pairs (ascii "Alice") tt ≡ (ok alice, tt)
unfolding authority_keys_from_seed get_from_seed get_from_seed_to_eth
alice-keys = refl

maker-HoldsSeed : HoldsSeed pairs maker (ascii "Alice") alice_key
maker-HoldsSeed = record {
  listed = refl;
  signs = λ message. refl;
  generates = λ bytes k made e. ground (arith, e, ==_refl k);
  keeps = λ text k made e. ground (arith, e);
}

abbrev no_keys : Ring
no_keys = record { ecdsa_keys = []; stored_keys = none }

making : (generate_keys sample_host maker no_keys).0 ≡ true
unfolding generate_keys generate_each generate_seed_from_ed_key
making = refl

abbrev genesis_chain : Fragments.Chain ℕ
genesis_chain = (genesis_storage-total config 9).0

genesis_storage-total_example :
    (c : Fragments.Chain ℕ) × (genesis_storage config 9 ≡ some c) × StartsWith config c
genesis_storage-total_example = genesis_storage-total config 9

find_authority-genesis_example :
    let ring = (generate_keys sample_host maker no_keys).1 in
    (contains ring.ecdsa_keys alice.eth_id ≡ true)
    × (contains genesis_chain.base.detach.ethereum_authorities alice.eth_id ≡ true)
    × (is_some (find_authority genesis_chain.base.detach.ethereum_authorities ring.ecdsa_keys)
        ≡ true)
find_authority-genesis_example =
    find_authority-genesis sample_host pairs maker (ascii "Alice") (1 ∷ []) alice [] [] 5
      (5 ∷ 6 ∷ []) no_keys 9 genesis_chain alice-keys maker-HoldsSeed refl making
      (genesis_storage-total config 9).1

-- Account 1 uploads to the chain of Alice.
genesis-IsConsistent_example :
    let d =
      dispatch world in_block 0
        (signed 1)
        (protos_call (upload_call [] 3 [] none none (1 ∷ 2 ∷ [])))
        genesis_chain in
    IsConsistent d
    × ((a : AccountId) (k : Hash128) (i : Fragments.InstanceId)
        → (contains (items₂ d.fragments.inventory a k) i ≡ false)
          ⊎ (is_some (d.fragments.fragments k i) ≡ true)
          ⊎ Expired world false genesis_chain d a k i)
genesis-IsConsistent_example =
    genesis-IsConsistent world false config 9 genesis_chain _ (genesis_storage-total config 9).1
      (next here (called in_block 0 (signed 1) _ genesis_chain (λ e. cc)))
