-- ===== src/Node/Genesis.antt =====
-- `GenesisBuild` of the pallets accounts and detach (pallets/accounts/src/lib.rs,
-- pallets/detach/src/lib.rs): the storage that a chain starts with.
use clamor.Accounts.Types as Accounts
use clamor.Accounts.Runs as AccountsRuns
use clamor.Accounts.Validation as AccountsKeys
use clamor.Detach.Types as Detach
use clamor.Detach.Validation as DetachKeys
use clamor.Protos.Types as Protos
use clamor.Fragments.Types as Fragments
use clamor.Exec.{items₂, Outcome, ok, err, panic, insert_keys, insert_keys-contains}
use clamor.Node.ChainSpec.{GenesisConfig}
use clamor.Runtime.Consistency.{IsSound, IsConsistent}
use clamor.Base.{
  ℕ, ◌≡◌, refl, false, Option, none, some, List, [], ◌∷◌, arith, contains, nat_eq, bytes_eq,
  pair_eq,
}
use clamor.Host.{AccountId, Hash128, Hash256, H160}

abbrev no_detach : Detach.State
no_detach = record {
  detach_requests = [];
  detach_nonces = λ a c. none;
  detached_hashes = λ k. none;
  ethereum_authorities = [];
  frag_keys = [];
  events = [];
  offchain_requests = none;
}

abbrev no_protos : Protos.State
no_protos = record {
  tags = λ t. none;
  tags_index = 0;
  meta_keys = λ k. none;
  meta_keys_index = 0;
  protos = λ k. none;
  protos_by_category = λ c. none;
  protos_by_owner = λ o. none;
  proto_stakes = λ k a. none;
  account_stakes = λ a. none;
  events = [];
  indexed = [];
}

abbrev no_fragments : Fragments.State
no_fragments = record {
  proto2fragments = λ k. none;
  definitions = λ c. none;
  publishing = λ c. none;
  editions_count = λ c. none;
  copies_count = λ c e. none;
  fragments = λ c i. none;
  unique_data2edition = λ c k. none;
  owners = λ c a. none;
  inventory = λ a c. none;
  expirations = λ n. none;
  events = [];
  indexed = [];
}

-- the storage after a call, unless it panics
abbrev built : {S E A : Type 0} → Outcome E A × S → Option S
built (ok a, s) = some s
built (err e, s) = none
built (panic, s) = none

unfoldable pub build_accounts : List ℕ → Option Accounts.State
build_accounts keys = built (AccountsKeys.initialize_keys keys AccountsRuns.genesis)

unfoldable pub build_detach : List ℕ → List ℕ → Option Detach.State
build_detach eth_authorities keys =
    elim (built (DetachKeys.initialize_eth_authorities eth_authorities no_detach)) [
      | none ↦ none
      | some s ↦ built (DetachKeys.initialize_keys keys s)
    ]

-- the storage of the pallets at genesis, with the ledger that the others build
unfoldable pub genesis_storage : {L : Type 0} → GenesisConfig → L → Option (Fragments.Chain L)
genesis_storage config l = elim (build_detach config.detach_eth_authorities config.detach_keys) [
  | none ↦ none
  | some detach ↦ elim (build_accounts config.accounts_keys) [
    | none ↦ none
    | some accounts ↦ some (record {
      base = record { accounts = accounts; detach = detach; protos = no_protos };
      fragments = no_fragments;
      ledger = l;
    })
  ]
]

-- What the pallets start with: nothing but the keys of the configuration.
pub record StartsWith {L : Type 0} (config : GenesisConfig) (c : Fragments.Chain L) : Type 0 where
  pub accounts_keys :
      (k : ℕ) → contains c.base.accounts.frag_keys k ≡ contains config.accounts_keys k
  pub detach_keys : (k : ℕ) → contains c.base.detach.frag_keys k ≡ contains config.detach_keys k
  pub eth_authorities :
      (k : ℕ)
      → contains c.base.detach.ethereum_authorities k ≡ contains config.detach_eth_authorities k
  pub unmarked : (k : Hash256) → c.base.detach.detached_hashes k ≡ none
  pub unlocked : (e : H160) → c.base.accounts.eth_locked_frag e ≡ none
  pub unheld :
      (a : AccountId) (k : Hash128) (i : Fragments.InstanceId)
      → contains (items₂ c.fragments.inventory a k) i ≡ false
  pub consistent : IsConsistent c

build_accounts-keys :
    (ks : List ℕ)
    → build_accounts ks ≡ some (record AccountsRuns.genesis { frag_keys = insert_keys ks [] })
unfolding build_accounts AccountsKeys.initialize_keys
build_accounts-keys [] = refl
build_accounts-keys (k ∷ ks) = refl

build_detach-keys :
    (es ks : List ℕ)
    → build_detach es ks
      ≡ some (record no_detach {
        ethereum_authorities = insert_keys es [];
        frag_keys = insert_keys ks [];
      })
unfolding build_detach DetachKeys.initialize_keys DetachKeys.initialize_eth_authorities
build_detach-keys [] [] = refl
build_detach-keys [] (k ∷ ks) = refl
build_detach-keys (e ∷ es) [] = refl
build_detach-keys (e ∷ es) (k ∷ ks) = refl

insert_keys-exactly : (ks : List ℕ) (k : ℕ) → contains (insert_keys ks []) k ≡ contains ks k
insert_keys-exactly ks k = ground (arith, insert_keys-contains ks [] k)

empty-IsSound :
    (keys : List ℕ) (d : Detach.State)
    → IsSound (record {
      accounts = record AccountsRuns.genesis { frag_keys = keys };
      detach = d;
      protos = no_protos;
    })
empty-IsSound keys d = record {
  linked = record { forward = λ a e p. cc; backward = λ a e p. cc; used = λ a p. cc };
  indexed = record { by_owner = λ h o. refl; by_category = λ h k. refl };
  referential = record { references = λ k p e. cc; patches = λ k p e. cc };
  staked = record { at = λ k a e. cc };
}

-- The build never panics, whatever the configuration, and the storage that it makes has its keys,
-- no marks, no locks and empty inventories, and is consistent.
pub genesis_storage-total :
    {L : Type 0} (config : GenesisConfig) (l : L)
    → (c : Fragments.Chain L) × (genesis_storage config l ≡ some c) × StartsWith config c
unfolding genesis_storage
genesis_storage-total config l = (
  record {
    base = record {
      accounts = record AccountsRuns.genesis { frag_keys = insert_keys config.accounts_keys [] };
      detach = record no_detach {
        ethereum_authorities = insert_keys config.detach_eth_authorities [];
        frag_keys = insert_keys config.detach_keys [];
      };
      protos = no_protos;
    };
    fragments = no_fragments;
    ledger = l;
  },
  ground (
    arith,
    build_detach-keys config.detach_eth_authorities config.detach_keys,
    build_accounts-keys config.accounts_keys,
  ),
  record {
    accounts_keys = insert_keys-exactly config.accounts_keys;
    detach_keys = insert_keys-exactly config.detach_keys;
    eth_authorities = insert_keys-exactly config.detach_eth_authorities;
    unmarked = λ k. refl;
    unlocked = λ e. refl;
    unheld = λ a k i. refl;
    consistent = record {
      base = empty-IsSound _ _;
      mirrored = record { same = λ a c. refl };
      held = record { holder = λ k i e. cc };
      defined = record {
        listed = λ c k. refl;
        protos = λ c d e. cc;
        sales = λ c e. cc;
        instances = λ c i e. cc;
      };
    };
  },
)
