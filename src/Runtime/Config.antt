-- ===== src/Runtime/Config.antt =====
-- runtime/src/lib.rs: the constants that the pallets are configured with.
use clamor.Accounts.Sponsor.{Proxies}
use clamor.Base.{
  ℕ, zero, suc, ◌+◌, ◌-◌, ◌*◌, ◌/◌, ◌^◌, Option, none, some, List, [], ◌∷◌, leb, if◌then◌else◌,
}
use clamor.Host.{Bytes, AccountId, Balance, BlockNumber, ascii, Host, System}

abbrev pub milliseconds_per_block : ℕ
milliseconds_per_block = 6000

abbrev pub millicents : Balance
millicents = 1000000000

abbrev pub cents : Balance
cents = 1000 * millicents

abbrev pub dollars : Balance
dollars = 100 * cents

unfoldable pub deposit : ℕ → ℕ → Balance
deposit item_count bytes = item_count * 15 * cents + bytes * 6 * cents

abbrev pub minutes : BlockNumber
minutes = 60000 / milliseconds_per_block

abbrev pub hours : BlockNumber
hours = minutes * 60

abbrev pub days : BlockNumber
days = hours * 24

abbrev pub block_hash_count : BlockNumber
block_hash_count = 2400

abbrev pub existential_deposit : Balance
existential_deposit = 500

-- the constants of `pallet_accounts`, `pallet_protos` and `pallet_fragments`
unfoldable pub configured : Host → Host
configured h = record h { eth_chain_id = 5; threshold = 1; stake_lockup_period = 5 }

-- the constants of `pallet_proxy`
unfoldable pub configured_proxies : {L : Type 0} → Proxies L → Proxies L
configured_proxies p = record p { max_proxies = 4; deposit_base = 1; deposit_factor = 1 }

abbrev pub get_partner_contracts : List Bytes
get_partner_contracts = ascii "0x34670f29e28b5dc0c47a8cc22d221bf26929f9ac" ∷ []

-- `u32::checked_next_power_of_two`: the least power of two that is not below `n`, of those from
-- `2 ^ i` on for the number of rounds that is given
unfoldable pub power_from : ℕ → ℕ → ℕ → Option ℕ
power_from zero i n = none
power_from (suc rounds) i n =
    let later = power_from rounds (suc i) n in if leb n (2 ^ i) then some (2 ^ i) else later

unfoldable pub checked_next_power_of_two : ℕ → Option ℕ
checked_next_power_of_two n = power_from 32 0 n

-- the period of the era of a transaction, for the number of block hashes that are kept
unfoldable pub transaction_period : ℕ → ℕ
transaction_period n = elim (checked_next_power_of_two n) [ none ↦ 2 | some c ↦ c / 2 ]

-- The block that the era starts from: `System::block_number` is the number of the next one.
abbrev pub current_block : BlockNumber → ℕ
current_block n = n - 1

-- The extra data of a transaction, besides what is always the same.
pub record SignedExtra (Era : Type 0) : Type 0 where
  pub era : Era
  pub nonce : ℕ
  pub tip : Balance

-- What `create_transaction` takes from outside: `Era::mortal`, `SignedPayload::new`, the signing
-- with a key, and `Indices::unlookup`.
pub record Signing (Call Era Payload Signature Address : Type 0) : Type 0 where
  pub mortal : ℕ → ℕ → Era
  pub signed_payload : Call → SignedExtra Era → Option Payload
  pub sign : Payload → ℕ → Option Signature
  pub unlookup : AccountId → Address

-- `none` where the payload cannot be made or signed
unfoldable pub create_transaction :
    {Call Era Payload Signature Address : Type 0}
    → Signing Call Era Payload Signature Address
    → System
    → Call
    → ℕ
    → AccountId
    → ℕ
    → Option (Call × Address × Signature × SignedExtra Era)
unfolding transaction_period
create_transaction {Era = Era} g sys call public account nonce =
    let extra : SignedExtra Era = record {
      era = g.mortal (transaction_period block_hash_count) (current_block sys.block_number);
      nonce = nonce;
      tip = 0;
    } in
    elim (g.signed_payload call extra) [
      | none ↦ none
      | some payload ↦ elim (g.sign payload public) [
        | none ↦ none
        | some signature ↦ some (call, g.unlookup account, signature, extra)
      ]
    ]
