-- ===== src/Fragments/Tests.antt =====
-- The theorems on Fragments at concrete inputs.
use clamor.Samples.{sample_host, in_block, sample_currencies, no_detach}
use clamor.Fragments.Types.{
  Edition, InstanceId, FragmentDefinition, FragmentInstance, quantity, State, Chain,
}
use clamor.Fragments.Minting.{expires_later, finish_minting, mint_fragments}
use clamor.Fragments.Calls.{mint}
use clamor.Fragments.Giving.{has, new_perms, give, on_finalize}
use clamor.Fragments.Effects.{existing}
use clamor.Fragments.Mirror.{IsMirrored}
use clamor.Fragments.Runs.{mint_call, Action, call, block_end, Outside, run}
use clamor.Fragments.Expiry.{on_finalize-fragments}
use clamor.Fragments.Supply.{is_new}
use clamor.Fragments.Editions.{mint-editions, mint-max_supply}
use clamor.Fragments.Numbering.{IsNumbered, AllInRange, run-IsNumbered, InRange}
use clamor.Fragments.GiveLaws.{give-ok_iff}
use clamor.Protos.Types.{user, Proto, owner_eq}
use clamor.Accounts.Runs.{genesis}
use clamor.Base.{
  ℕ, ◌≤◌, ◌≡◌, refl, ◌↔◌, true, none, some, List, [], ◌∷◌, arith, if◌then◌else◌, is_some, ◌==◌,
  contains, nat_eq, bytes_eq, pair_eq,
}
use clamor.Exec.{insert, items, put₂, items₂, signed, ok}
use clamor.Host.{AccountId, Hash128, BlockNumber}

abbrev pub definition : FragmentDefinition
definition = record {
  proto_hash = 50;
  metadata = record { name = 1 ∷ []; currency = none };
  permissions = 7;
  unique = none;
  max_supply = some 10;
  creator = 1;
  created_at = 1;
}

abbrev costly : Proto
costly = record {
  block = 1;
  patches = [];
  include_cost = some 20;
  creator = 1;
  owner = user 1;
  references = [];
  category = 3;
  tags = [];
  metadata = λ i. none;
  accounts_info = record { active_accounts = 0; lifetime_accounts = 0 };
}

abbrev pub nothing : State
nothing = record {
  proto2fragments = λ k. none;
  definitions = insert (λ k. none) 60 definition;
  publishing = λ k. none;
  editions_count = λ k. none;
  copies_count = λ k e. none;
  fragments = λ k i. none;
  unique_data2edition = λ k d. none;
  owners = λ k a. none;
  inventory = λ a k. none;
  expirations = λ n. none;
  events = [];
  indexed = [];
}

-- Definition 60 of Proto-Fragment 50, whose owner is account 1, and no instance
abbrev pub chain : Chain ℕ
chain = record {
  base = record {
    accounts = genesis;
    detach = no_detach;
    protos = record {
      tags = λ b. none;
      tags_index = 0;
      meta_keys = λ b. none;
      meta_keys_index = 0;
      protos = insert (λ k. none) 50 costly;
      protos_by_category = λ c. none;
      protos_by_owner = λ o. none;
      proto_stakes = λ k a. none;
      account_stakes = λ a. none;
      events = [];
      indexed = [];
    };
  };
  fragments = nothing;
  ledger = 1000;
}

abbrev pub outside : Outside ℕ
outside = record {
  currencies = sample_currencies;
  lookup = λ address. some address;
  owner_keys = λ class. 1 ∷ 2 ∷ [];
}

pub nothing-IsMirrored : IsMirrored nothing
nothing-IsMirrored = record { same = λ k a. refl }

pub nothing-IsNumbered : IsNumbered nothing
nothing-IsNumbered = record { counted = λ k e copy p. ground (arith, p) }

abbrev mints : List Action
mints = call in_block (signed 1) (mint_call 60 (quantity 3) none) ∷ block_end 9 ∷ []

run-IsNumbered_example : IsNumbered (run sample_host outside mints chain).fragments
unfolding AllInRange InRange
run-IsNumbered_example =
    run-IsNumbered sample_host outside mints chain (omega arith, (tt, tt)) nothing-IsNumbered

mint-succeeds : (mint sample_host in_block (signed 1) 60 (quantity 3) none chain).0 ≡ ok tt
unfolding mint mint_fragments finish_minting
mint-succeeds = refl

mint-editions_example :
    let t = (mint sample_host in_block (signed 1) 60 (quantity 3) none chain).1.fragments in
    ((k : Hash128) (edition copy : Edition)
      → t.fragments k (edition, copy) ≡ (
          if is_new 60 0 3 k edition copy
          then some (record {
            permissions = 7;
            created_at = 5;
            custom_data = none;
            expiring_at = none;
            amount = none;
          })
          else none))
    × ((k : Hash128) → t.editions_count k ≡ (if 60 == k then some 3 else none))
mint-editions_example =
    mint-editions sample_host in_block 1 60 (quantity 3) none definition 0 chain refl refl
      mint-succeeds (omega arith)

mint-max_supply_example :
    let t = (mint sample_host in_block (signed 1) 60 (quantity 3) none chain).1.fragments in
    (t.editions_count 60 ≡ some 3) × (existing 60 t ≤ 10)
mint-max_supply_example =
    mint-max_supply sample_host in_block 1 60 (quantity 3) none definition 0 chain refl refl
      mint-succeeds 10 refl (omega arith) (omega arith)

-- instance (1, 1) of definition 60, held by account 1, which ends in block 9
abbrev item : FragmentInstance
item = record {
  permissions = 7;
  created_at = 1;
  custom_data = none;
  expiring_at = some 9;
  amount = none;
}

abbrev pub held : State
held = record nothing {
  editions_count = insert (λ k. none) 60 1;
  copies_count = put₂ (λ k e. none) 60 1 (some 1);
  fragments = put₂ (λ k i. none) 60 (1, 1) (some item);
  owners = put₂ (λ k a. none) 60 1 (some ((1, 1) ∷ []));
  inventory = put₂ (λ a k. none) 1 60 (some ((1, 1) ∷ []));
  expirations = insert (λ n. none) 9 ((60, (1, 1)) ∷ []);
}

on_finalize-fragments_example :
    let t = on_finalize (λ class. 1 ∷ []) 9 held in
    ((k : Hash128) (i : InstanceId)
      → t.fragments k i
        ≡ (if contains (items held.expirations 9) (k, i) then none else held.fragments k i))
    × ((m : BlockNumber) → t.expirations m ≡ (if 9 == m then none else held.expirations m))
on_finalize-fragments_example = on_finalize-fragments (λ class. 1 ∷ []) 9 held

abbrev pub held_chain : Chain ℕ
held_chain = record chain { fragments = held }

give-ok_iff_example :
    ((give sample_host in_block
        (λ address. some address)
        (signed 1)
        60
        1
        1
        2
        (some 5)
        (some 7)
        held_chain).0
      ≡ ok tt)
    ↔ ((expires_later item.expiring_at 5 ≡ true)
        × (expires_later (some 7) 5 ≡ true)
        × (contains (items₂ held.inventory 1 60) (1, 1) ≡ true)
        × (has item.permissions 4 ≡ true)
        × (is_some (new_perms sample_host item.permissions (some 5)) ≡ true)
        × (is_some {A = AccountId} (some 2) ≡ true)
        × (has item.permissions 2 ≡ true → is_some (held.copies_count 60 1) ≡ true))
give-ok_iff_example =
    give-ok_iff sample_host in_block (λ address. some address) 1 60 1 1 2 (some 5) (some 7) item
      held_chain refl
