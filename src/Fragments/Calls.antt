-- ===== src/Fragments/Calls.antt =====
-- pallets/fragments/src/lib.rs: `create`, `publish`, `unpublish`, `mint`, `buy` and
-- `create_account`, with the accounts that are derived from a definition and from an instance.
use Prim.Native.Nat.{min}
use clamor.Fragments.Types.{
  Edition, InstanceId, FragmentPerms, FragmentMetadata, UniqueOptions, FragmentBuyOptions, quantity,
  unique_data, Event, definition_created, published, unpublished, Error, proto_not_found,
  proto_owner_not_found, no_permission, detached, already_exist, not_found, sale_expired,
  insufficient_balance, sold_out, sale_already_open, max_supply_reached, params_not_valid, Chain,
}
use clamor.Fragments.Minting.{modify_fragments, expires_later, mint_fragments}
use clamor.Protos.Types.{ProtoOwner, user, external_asset, owner_eq}
use clamor.Base.{
  ℕ, ◌+◌, ◌-◌, ◌*◌, ◌%◌, Bool, true, not, Option, none, some, [], ◌∷◌, ◌++◌, ltb, leb, is_some,
  get_or, ◌==◌, contains, nat_eq, bytes_eq, pair_eq,
}
use clamor.Exec.{
  Origin, foreign, ok, err, Exec, Call, ◌>>=◌, ◌>>◌, return, fail, ensure, ok_or, unwrap, gets,
  modify, ensure_signed, contains_key, insert, remove, append,
}
use clamor.Host.{
  AccountId, Hash256, Hash128, BlockNumber, u128_mod, ascii, be_bytes, Host, System, Currencies,
}

abbrev pub add_u128 : ℕ → ℕ → ℕ
add_u128 a b = (a + b) % u128_mod

-- `u128::saturating_mul`
abbrev pub saturating_mul : ℕ → ℕ → ℕ
saturating_mul a b = min (a * b) (u128_mod - 1)

-- The derived accounts; `none` is the panic of `expect`.
unfoldable pub get_vault_id : Host → Hash128 → Option AccountId
get_vault_id h class =
    h.decode_account (h.blake2_256 (ascii "fragments-vault" ++ be_bytes 16 class))

unfoldable pub get_fragment_account_id : Host → Hash128 → Edition → Edition → Option AccountId
get_fragment_account_id h class edition copy = h.decode_account (
    h.blake2_256 (
      ascii "fragments-account"
      ++ (be_bytes 16 class ++ (h.encode_u64 edition ++ h.encode_u64 copy))))

unfoldable pub definition_hash : Host → Hash256 → FragmentMetadata → Hash128
definition_hash h proto_hash metadata =
    h.blake2_128
      (be_bytes 32 proto_hash ++ (h.encode_bytes metadata.name ++ h.encode_asset metadata.currency))

abbrev pub instances_of : FragmentBuyOptions → ℕ
instances_of (quantity n) = n
instances_of (unique_data bytes) = 1

abbrev pub units_available : Option Edition → Bool
units_available none = true
units_available (some n) = ltb 0 n

module _ {L : Type 0} where
  abbrev internal_owner : ProtoOwner → Exec (Chain L) Error AccountId
  internal_owner (user account) = return account
  internal_owner (external_asset asset) = fail proto_owner_not_found

  -- The checks on the Proto-Fragment that `create`, `publish`, `unpublish` and `mint` make.
  unfoldable pub owned_proto : AccountId → Hash256 → Call (Chain L) Error
  owned_proto who proto_hash = do
    proto ← ok_or (← gets (λ c. c.base.protos.protos proto_hash)) proto_not_found
    proto_owner ← internal_owner proto.owner
    ensure (who == proto_owner) no_permission
    ensure (not (is_some (← gets (λ c. c.base.detach.detached_hashes proto_hash)))) detached

  abbrev pub log_event : Event → Call (Chain L) Error
  log_event e = modify_fragments (λ s. record s { events = s.events ++ e ∷ [] })

  -- a call into another pallet that may fail, with its own error
  abbrev pub on_ledger : (L → Option L) → Call (Chain L) Error
  on_ledger f c = elim (f c.ledger) [
    | none ↦ (err (foreign 0), c)
    | some ledger ↦ (ok tt, record c { ledger = ledger })
  ]

  unfoldable pub create :
      Host
      → Currencies L
      → System
      → Origin
      → Hash256
      → FragmentMetadata
      → FragmentPerms
      → Option UniqueOptions
      → Option Edition
      → Call (Chain L) Error
  unfolding owned_proto
  create h currencies sys origin proto_hash metadata permissions unique max_supply = do
    who ← ensure_signed origin
    owned_proto who proto_hash
    let hash = definition_hash h proto_hash metadata
    ensure (not (contains_key (← gets (λ c. c.fragments.definitions)) hash)) already_exist
    vault ← unwrap (get_vault_id h hash)
    on_ledger (currencies.deposit_reserve vault currencies.deposit_minimum)
    modify_fragments (λ s. record s {
      definitions = insert s.definitions hash (record {
        proto_hash = proto_hash;
        metadata = metadata;
        permissions = permissions;
        unique = unique;
        max_supply = max_supply;
        creator = who;
        created_at = sys.block_number;
      });
    })
    modify_fragments (λ s. record s { proto2fragments = append s.proto2fragments proto_hash hash })
    log_event (definition_created hash)

  -- The limits that `publish` checks if the supply of the definition is limited.
  unfoldable pub check_quantity : Option Edition → Edition → Option Edition → Call (Chain L) Error
  check_quantity none existing n = return tt
  check_quantity (some max) existing none = fail params_not_valid
  check_quantity (some max) existing (some n) = do
    ensure (leb n (max - existing)) max_supply_reached
    ensure (not (max - existing == 0)) max_supply_reached

  unfoldable pub publish :
      Origin
      → Hash128
      → ℕ
      → Option Edition
      → Option BlockNumber
      → Option Edition
      → Call (Chain L) Error
  unfolding owned_proto check_quantity
  publish origin class price units expires amount = do
    who ← ensure_signed origin
    definition ← ok_or (← gets (λ c. c.fragments.definitions class)) not_found
    owned_proto who definition.proto_hash
    ensure (not (contains_key (← gets (λ c. c.fragments.publishing)) class)) sale_already_open
    existing ← gets (λ c. get_or (c.fragments.editions_count class) 0)
    check_quantity definition.max_supply existing units
    modify_fragments (λ s. record s {
      publishing =
          insert s.publishing class
            (record { price = price; units_left = units; expiration = expires; amount = amount });
    })
    log_event (published class)

  unfoldable pub unpublish : Origin → Hash128 → Call (Chain L) Error
  unfolding owned_proto
  unpublish origin class = do
    who ← ensure_signed origin
    definition ← ok_or (← gets (λ c. c.fragments.definitions class)) not_found
    owned_proto who definition.proto_hash
    ensure (contains_key (← gets (λ c. c.fragments.publishing)) class) not_found
    modify_fragments (λ s. record s { publishing = remove s.publishing class })
    log_event (unpublished class)

  unfoldable pub mint :
      Host → System → Origin → Hash128 → FragmentBuyOptions → Option Edition → Call (Chain L) Error
  unfolding owned_proto
  mint h sys origin class options amount = do
    who ← ensure_signed origin
    definition ← ok_or (← gets (λ c. c.fragments.definitions class)) not_found
    owned_proto who definition.proto_hash
    mint_fragments h sys who class none options (instances_of options) none amount

  -- `true` if the buyer has the price and may keep the account
  unfoldable pub can_pay : Currencies L → Option ℕ → AccountId → ℕ → L → Bool
  can_pay currencies none who price ledger =
      leb (add_u128 price currencies.minimum_balance) (currencies.free_balance ledger who)
  can_pay currencies (some currency) who price ledger =
      leb (add_u128 price (currencies.asset_minimum currency))
        (currencies.asset_balance ledger currency who)

  unfoldable pub pay : Currencies L → Option ℕ → AccountId → AccountId → ℕ → L → Option L
  pay currencies none who vault price = currencies.transfer who vault price
  pay currencies (some currency) who vault price =
      currencies.asset_transfer currency who vault price

  unfoldable pub buy :
      Host → Currencies L → System → Origin → Hash128 → FragmentBuyOptions → Call (Chain L) Error
  unfolding can_pay pay
  buy h currencies sys origin class options = do
    who ← ensure_signed origin
    sale ← ok_or (← gets (λ c. c.fragments.publishing class)) not_found
    ensure (expires_later sale.expiration sys.block_number) sale_expired
    ensure (units_available sale.units_left) sold_out
    definition ← ok_or (← gets (λ c. c.fragments.definitions class)) not_found
    vault ← unwrap (get_vault_id h class)
    let price = saturating_mul sale.price (instances_of options)
    ensure (can_pay currencies definition.metadata.currency who price (← gets (λ c. c.ledger)))
        insufficient_balance
    mint_fragments h sys who class (some sale) options (instances_of options) none sale.amount
    ledger ←
        ok_or (pay currencies definition.metadata.currency who vault price (← gets (λ c. c.ledger)))
          insufficient_balance
    modify (λ c. record c { ledger = ledger })

  -- the instance is in the caller's inventory
  unfoldable pub holds : AccountId → Hash128 → InstanceId → Call (Chain L) Error
  holds who class id = do
    ids ← ok_or (← gets (λ c. c.fragments.inventory who class)) not_found
    ensure (contains ids id) no_permission

  unfoldable pub create_account :
      Host → Currencies L → Origin → Hash128 → Edition → Edition → Call (Chain L) Error
  unfolding holds
  create_account h currencies origin class edition copy = do
    who ← ensure_signed origin
    holds who class (edition, copy)
    account ← unwrap (get_fragment_account_id h class edition copy)
    on_ledger (currencies.reserve account currencies.minimum_balance)
