-- ===== src/Protos/Tests.antt =====
-- The theorems on Proto-Fragments at concrete inputs.
use clamor.Samples.{sample_host, in_block, no_detach}
use clamor.Exec.{insert, put₂, signed, pallet, ok, err}
use clamor.Protos.Types.{user, Proto, stake_not_found, State, Chain, owner_eq}
use clamor.Protos.Inclusion.{check_staking_req}
use clamor.Protos.Calls.{upload, patch, transfer}
use clamor.Protos.Stakes.{get_locked_frag_account, stake, unstake, on_finalize}
use clamor.Protos.Query.{GetProtosParams, list_protos}
use clamor.Protos.Index.{IsIndexed}
use clamor.Protos.Effects.{Controls, patch-ok_iff, upload-ok_iff}
use clamor.Protos.Atomic.{upload_call, transfer_call, dispatch, dispatch-atomic}
use clamor.Protos.Runs.{Action, call, block_end, run, run-IsIndexed}
use clamor.Detach.Types.{chain_eq}
use clamor.Accounts.Types.{external_id_eq}
use clamor.Protos.TagLaws.{IsInterned}
use clamor.Protos.InclusionLaws.{AllMayInclude, check_staking_req_iff}
use clamor.Protos.StakeLaws.{stake-again, unstake-stake, CanStake, stake-ok_iff}
use clamor.Protos.Clearing.{StakesListed, on_finalize-proto_stakes}
use clamor.Protos.Wanted.{Enumerates}
use clamor.Protos.Selecting.{Selects, list_protos-Wanted}
use clamor.Base.{
  ◌≡◌, refl, ◌↔◌, ◌⊎◌, true, false, none, some, List, [], ◌∷◌, arith, if◌then◌else◌, is_some,
  get_or, contains, nat_eq, bytes_eq, pair_eq,
}
use clamor.Host.{AccountId, Hash256}
use clamor.Accounts.Runs.{genesis}

abbrev empty_state : State
empty_state = record {
  tags = λ b. none;
  tags_index = 0;
  meta_keys = λ b. none;
  meta_keys_index = 0;
  protos = λ k. none;
  protos_by_category = λ c. none;
  protos_by_owner = λ o. none;
  proto_stakes = λ k a. none;
  account_stakes = λ a. none;
  events = [];
  indexed = [];
}

abbrev empty : Chain
empty = record { accounts = genesis; detach = no_detach; protos = empty_state }

-- a Proto-Fragment of account 1 that costs 20
abbrev pub costly : Proto
costly = record {
  block = 1;
  patches = [];
  include_cost = some 20;
  creator = 1;
  owner = user 1;
  references = [];
  category = 3;
  tags = [];
  metadata = λ i. none;
  accounts_info = record { active_accounts = 0; lifetime_accounts = 0 };
}

-- Proto-Fragment 50 of account 1, on which account 2 has a stake; account 2 has been unlinked.
abbrev pub chain : Chain
chain = record {
  accounts = record genesis { pending_unlinks = 2 ∷ [] };
  detach = no_detach;
  protos = record empty_state {
    protos = insert (λ k. none) 50 costly;
    protos_by_category = insert (λ k. none) 3 (50 ∷ []);
    protos_by_owner = insert (λ k. none) (user 1) (50 ∷ []);
    proto_stakes = put₂ (λ k a. none) 50 2 (some (30, 4));
    account_stakes = insert (λ a. none) 2 (50 ∷ []);
  };
}

-- the account that account 1 stakes from is linked to Ethereum account 9, which has a lock of 100
abbrev staker : AccountId
staker = get_or (get_locked_frag_account sample_host 1) 0

abbrev linked_chain : Chain
linked_chain = record chain {
  accounts = record genesis {
    evm_links = insert (λ a. none) staker 9;
    frag_usage = insert (λ a. none) staker 0;
    eth_locked_frag = insert (λ e. none) 9 (record { amount = 100; block_number = 2 });
  };
}

abbrev pub actions : List Action
actions =
    call in_block (signed 1) (upload_call [] 3 ((7 ∷ []) ∷ []) none (some 0) (1 ∷ 2 ∷ []))
    ∷ call in_block (signed 1) (transfer_call (sample_host.blake2_256 (1 ∷ 2 ∷ [])) 2)
    ∷ block_end
    ∷ []

empty-IsIndexed : IsIndexed empty.protos
empty-IsIndexed = record { by_owner = λ h o. refl; by_category = λ h k. refl }

run-IsIndexed_example : IsIndexed (run sample_host actions empty).protos
run-IsIndexed_example = run-IsIndexed sample_host actions empty empty-IsIndexed

empty-StakesListed : StakesListed empty.protos
empty-StakesListed = record { at = λ k a p. ground (arith, p) }

chain-StakesListed : StakesListed chain.protos
chain-StakesListed = record { at = λ k a p. ground (arith, p) }

on_finalize-proto_stakes_example :
    ((k : Hash256) (a : AccountId)
      → (on_finalize chain).protos.proto_stakes k a
        ≡ (if contains (2 ∷ []) a then none else chain.protos.proto_stakes k a))
    × ((on_finalize chain).accounts.pending_unlinks ≡ [])
on_finalize-proto_stakes_example = on_finalize-proto_stakes chain chain-StakesListed

dispatch-atomic_example :
    (dispatch sample_host in_block (signed 2) (transfer_call 50 2) chain).1 ≡ chain
unfolding dispatch transfer
dispatch-atomic_example =
    dispatch-atomic sample_host in_block (signed 2) (transfer_call 50 2) chain
      (λ p. ground (arith, p))

upload-ok_iff_example :
    ((upload sample_host in_block (signed 2) (50 ∷ []) 3 [] none none (1 ∷ []) chain).0 ≡ ok tt) ↔ (
      (chain.protos.protos (sample_host.blake2_256 (1 ∷ [])) ≡ none)
      × (is_some in_block.extrinsic_index ≡ true)
      × (check_staking_req chain.protos (50 ∷ []) 2 ≡ none))
upload-ok_iff_example = upload-ok_iff sample_host in_block 2 (50 ∷ []) 3 [] none none (1 ∷ []) chain

patch-ok_iff_example :
    ((patch sample_host in_block (signed 1) 50 none [] none (1 ∷ []) chain).0 ≡ ok tt) ↔ (
      Controls chain 1 50
      × (is_some in_block.extrinsic_index ≡ true)
      × (check_staking_req chain.protos [] 1 ≡ none))
patch-ok_iff_example = patch-ok_iff sample_host in_block 1 50 none [] none (1 ∷ []) chain

check_staking_req_iff_example :
    (check_staking_req chain.protos (50 ∷ []) 2 ≡ none) ↔ AllMayInclude chain.protos 2 (50 ∷ [])
check_staking_req_iff_example = check_staking_req_iff chain.protos (50 ∷ []) 2

empty-IsInterned : IsInterned empty_state
empty-IsInterned = record {
  bounded = λ b i p. ground (arith, p);
  distinct = λ b d i p q. ground (arith, p);
}

stake-ok_iff_example :
    ((stake sample_host in_block (signed 1) 50 60 linked_chain).0 ≡ ok tt)
    ↔ CanStake sample_host linked_chain 1 50 60
stake-ok_iff_example = stake-ok_iff sample_host in_block 1 50 60 linked_chain

stake-succeeds : (stake sample_host in_block (signed 1) 50 60 linked_chain).0 ≡ ok tt
unfolding stake get_locked_frag_account
stake-succeeds = refl

stake-again_example :
    (stake sample_host in_block
      (signed 1)
      50
      60
      (stake sample_host in_block (signed 1) 50 60 linked_chain).1).0
    ≡ ok tt
stake-again_example = stake-again sample_host in_block 1 50 50 60 linked_chain stake-succeeds refl

unstake-stake_example :
    (unstake sample_host in_block
      (signed 1)
      50
      (stake sample_host in_block (signed 1) 50 60 linked_chain).1).0
    ≡ err (pallet stake_not_found)
unfolding get_locked_frag_account
unstake-stake_example =
    unstake-stake sample_host in_block in_block 1 staker 50 60 linked_chain refl
      (λ p. ground (arith, p)) refl stake-succeeds

abbrev pub query : GetProtosParams
query = record {
  desc = true;
  from = 0;
  limit = 5;
  metadata_keys = [];
  owner = none;
  return_owners = false;
  categories = [];
  tags = [];
  available = some true;
}

-- the lists of `chain` hold Proto-Fragment 50 where it belongs
chain-IsIndexed : IsIndexed chain.protos
chain-IsIndexed = record { by_owner = λ h o. ground arith; by_category = λ h k. ground arith }

chain-Enumerates : Enumerates (3 ∷ []) chain.protos.protos_by_category
chain-Enumerates = record { once = λ k. ground arith }

list_protos-Wanted_example :
    ((a : AccountId) × (query.owner ≡ some a)
      × (chain.protos.protos_by_owner (user a) ≡ none)
      × (list_protos (3 ∷ []) chain.protos query ≡ none))
    ⊎ ((whole : List Hash256) × Selects (3 ∷ []) chain.protos query whole)
list_protos-Wanted_example =
    list_protos-Wanted (3 ∷ []) chain.protos query chain-IsIndexed chain-Enumerates
