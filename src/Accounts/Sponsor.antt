-- ===== src/Accounts/Sponsor.antt =====
-- pallets/accounts/src/lib.rs: `sponsor_account`, over the pallets `proxy`, `balances` and
-- `timestamp`, which are arguments.
use clamor.Accounts.Types.{
  ExternalId, sponsored_account, Error, systematic_failure, account_already_exists,
  too_many_proxies, State, external_id_eq,
}
use clamor.Base.{
  ℕ, ◌+◌, ◌%◌, ◌≡◌, Bool, true, not, Option, none, some, [], ◌∷◌, ◌++◌, arith, ltb, if◌then◌else◌,
  ◌==◌, nat_eq, bytes_eq, pair_eq, inl, inr, Option-cases,
}
use clamor.Exec.{
  insert, Origin, signed, foreign, pallet, ok, err, Call, ◌>>=◌, ◌>>◌, ensure, ok_or, gets, modify,
  ensure_signed,
}
use clamor.Host.{Bytes, AccountId, Balance, u128_mod, ascii, Host}

-- What the call uses of other pallets. `insert_proxies account delegate deposit` sets the proxies
-- of `account` to one, without delay and of the default type.
pub record Proxies (Ledger : Type 0) : Type 0 where
  pub has_proxies : Ledger → AccountId → Bool
  pub insert_proxies : AccountId → AccountId → Balance → Ledger → Ledger
  pub reserve : AccountId → Balance → Ledger → Option Ledger
  pub max_proxies : ℕ
  pub deposit_base : Balance
  pub deposit_factor : Balance
  pub encode_external_id : ExternalId → Bytes

-- the storage that the call reads and writes
pub record Sponsoring (Ledger : Type 0) : Type 0 where
  pub accounts : State
  pub ledger : Ledger

-- The account that a sponsor makes for an identity; `none` where 32 bytes do not decode.
unfoldable pub sponsored_id :
    {L : Type 0} → Host → Proxies L → AccountId → ExternalId → Option AccountId
sponsored_id h proxies who external_id = h.decode_account (
    h.blake2_256 (
      ascii "fragnova-sponsor-account"
      ++ (h.encode_account who ++ proxies.encode_external_id external_id)))

module _ {L : Type 0} where
  abbrev modify_accounts : (State → State) → Call (Sponsoring L) Error
  modify_accounts f = modify (λ c. record c { accounts = f c.accounts })

  -- `T::Currency::reserve(&who, deposit)?`
  abbrev reserve_deposit : Proxies L → AccountId → Balance → Call (Sponsoring L) Error
  reserve_deposit proxies who deposit c = elim (proxies.reserve who deposit c.ledger) [
    | none ↦ (err (foreign 0), c)
    | some ledger ↦ (ok tt, record c { ledger = ledger })
  ]

  unfoldable pub sponsor_account :
      Host → Proxies L → ℕ → Origin → ExternalId → Call (Sponsoring L) Error
  sponsor_account h proxies now origin external_id = do
    who ← ensure_signed origin
    account ← ok_or (sponsored_id h proxies who external_id) systematic_failure
    ensure (not (proxies.has_proxies (← gets (λ c. c.ledger)) account)) account_already_exists
    ensure (ltb 0 proxies.max_proxies) too_many_proxies
    let deposit = (proxies.deposit_base + proxies.deposit_factor) % u128_mod
    reserve_deposit proxies who deposit
    modify (λ c. record c { ledger = proxies.insert_proxies account who deposit c.ledger })
    modify_accounts (λ s. record s {
      external_id2account =
          insert s.external_id2account external_id
            (record { account_id = account; created_at = now });
    })
    modify_accounts
        (λ s. record s { events = s.events ++ sponsored_account who account external_id ∷ [] })

  deposit : Proxies L → Balance
  deposit proxies = (proxies.deposit_base + proxies.deposit_factor) % u128_mod

  -- the account of a call that succeeds has its proxies
  sponsor_account-proxies :
      (h : Host) (proxies : Proxies L) (now : ℕ) (a account : AccountId) (external_id : ExternalId)
      (c : Sponsoring L)
      → ((b d : AccountId) (m : Balance) (l : L)
          → proxies.has_proxies (proxies.insert_proxies b d m l) b ≡ true)
      → sponsored_id h proxies a external_id ≡ some account
      → (sponsor_account h proxies now (signed a) external_id c).0 ≡ ok tt
      → proxies.has_proxies
          (sponsor_account h proxies now (signed a) external_id c).1.ledger
          account
        ≡ true
  unfolding sponsor_account deposit
  sponsor_account-proxies h proxies now a account external_id c kept e success =
      elim (Option-cases (proxies.reserve a (deposit proxies) c.ledger)) [
        | inl poor ↦ absurd (ground (arith, e, success, poor))
        | inr (l, paid) ↦ ground (arith, e, success, paid, kept account a (deposit proxies) l)
      ]

  -- A call for an account that has proxies fails.
  sponsor_account-again :
      (h : Host) (proxies : Proxies L) (now : ℕ) (a account : AccountId) (external_id : ExternalId)
      (c : Sponsoring L)
      → sponsored_id h proxies a external_id ≡ some account
      → proxies.has_proxies c.ledger account ≡ true
      → sponsor_account h proxies now (signed a) external_id c
        ≡ (err (pallet account_already_exists), c)
  unfolding sponsor_account
  sponsor_account-again h proxies now a account external_id c e has = ground (arith, e, has)

  -- After a call that succeeds, the identity stands for the derived account since now, all other
  -- identities and all links stand for what they did; and if accounts that are given proxies have
  -- some from then on, the same sponsor's next call for the identity fails and changes nothing.
  pub sponsor_account-twice :
      (h : Host) (proxies : Proxies L) (now later : ℕ) (a account : AccountId)
      (external_id : ExternalId) (c : Sponsoring L)
      → ((b d : AccountId) (m : Balance) (l : L)
          → proxies.has_proxies (proxies.insert_proxies b d m l) b ≡ true)
      → sponsored_id h proxies a external_id ≡ some account
      → (sponsor_account h proxies now (signed a) external_id c).0 ≡ ok tt
      → let t = (sponsor_account h proxies now (signed a) external_id c).1 in
        ((i : ExternalId)
          → t.accounts.external_id2account i ≡ (
              if external_id == i
              then some (record { account_id = account; created_at = now })
              else c.accounts.external_id2account i))
        × (t.accounts.evm_links ≡ c.accounts.evm_links)
        × (sponsor_account h proxies later (signed a) external_id t
            ≡ (err (pallet account_already_exists), t))
  unfolding sponsor_account
  sponsor_account-twice h proxies now later a account external_id c kept e success = (
    λ i. ground (arith, e, success),
    ground (arith, e, success),
    sponsor_account-again h proxies later a account external_id
        (sponsor_account h proxies now (signed a) external_id c).1 e
        (sponsor_account-proxies h proxies now a account external_id c kept e success),
  )
