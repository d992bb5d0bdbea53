-- ===== src/Accounts/SponsorTests.antt =====
-- The theorems on sponsored accounts and on the validation of updates at concrete inputs.
use clamor.Samples.{sample_host}
use clamor.Accounts.Types.{
  EthLockUpdate, ExternalId, discord, account_already_exists, external_id_eq,
}
use clamor.Exec.{signed, pallet, err, PayloadChecks}
use clamor.Accounts.Runs.{genesis}
use clamor.Accounts.Sponsor.{
  Proxies, Sponsoring, sponsored_id, sponsor_account, sponsor_account-twice,
}
use clamor.Base.{
  ◌≡◌, refl, true, none, some, List, [], ◌∷◌, arith, if◌then◌else◌, get_or, ◌==◌, ==_refl, contains,
  nat_eq, bytes_eq, pair_eq,
}
use clamor.Host.{AccountId, Balance}

-- the ledger is the list of accounts that have proxies
abbrev proxies : Proxies (List AccountId)
proxies = record {
  has_proxies = λ ledger account. contains ledger account;
  insert_proxies = λ account delegate amount ledger. account ∷ ledger;
  reserve = λ account amount ledger. some ledger;
  max_proxies = 4;
  deposit_base = 10;
  deposit_factor = 1;
  encode_external_id = λ id. elim id [ discord n ↦ n ∷ [] ];
}

abbrev sponsoring : Sponsoring (List AccountId)
sponsoring = record { accounts = genesis; ledger = 9 ∷ [] }

abbrev sponsored : AccountId
sponsored = get_or (sponsored_id sample_host proxies 1 (discord 77)) 0

insert-proxies :
    (b d : AccountId) (m : Balance) (l : List AccountId)
    → proxies.has_proxies (proxies.insert_proxies b d m l) b ≡ true
insert-proxies b d m l = ground (arith, ==_refl b)

sponsor_account-twice_example :
    let t = (sponsor_account sample_host proxies 5 (signed 1) (discord 77) sponsoring).1 in
    ((i : ExternalId)
      → t.accounts.external_id2account i ≡ (
          if discord 77 == i
          then some (record { account_id = sponsored; created_at = 5 })
          else none))
    × (t.accounts.evm_links ≡ genesis.evm_links)
    × (sponsor_account sample_host proxies 6 (signed 1) (discord 77) t
        ≡ (err (pallet account_already_exists), t))
unfolding sponsor_account sponsored_id
sponsor_account-twice_example =
    sponsor_account-twice sample_host proxies 5 6 1 sponsored (discord 77) sponsoring insert-proxies
      refl refl

abbrev checks : PayloadChecks EthLockUpdate
checks = record { ed25519_key = λ public. some public; is_signed = λ d signature. true }
