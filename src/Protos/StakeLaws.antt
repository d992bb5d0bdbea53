-- ===== src/Protos/StakeLaws.antt =====
-- Stakes: what limits them, who can take them back, and how they are cleared when an account is
-- unlinked.
use clamor.Protos.Types.{stake_not_found, Chain}
use clamor.Protos.Stakes.{get_locked_frag_account, stake, unstake}
use clamor.Accounts.Types.{EthLock}
use clamor.Base.{◌≤◌, ◌≡◌, ◌≢◌, true, none, some, arith, is_some, ◌↔◌, inl, inr, Option-cases}
use clamor.Exec.{signed, pallet, ok, err}
use clamor.Host.{AccountId, Hash256, H160, Balance, sub_u128, Host, System}

-- The usage counter is not raised by a stake: after one that succeeds, the same amount can be
-- staked on any Proto-Fragment that exists, although it is the same tokens.
pub stake-again :
    (h : Host) (sys : System) (a : AccountId) (k j : Hash256) (amount : Balance) (c : Chain)
    → (stake h sys (signed a) k amount c).0 ≡ ok tt
    → is_some (c.protos.protos j) ≡ true
    → (stake h sys (signed a) j amount (stake h sys (signed a) k amount c).1).0 ≡ ok tt
unfolding stake
stake-again h sys a k j amount c e there = ground arith

-- A stake is recorded for the derived account and looked for under the caller's own: where these
-- differ and the caller has none of its own, `unstake` does not find what `stake` has made.
pub unstake-stake :
    (h : Host) (sys later : System) (a b : AccountId) (k : Hash256) (amount : Balance) (c : Chain)
    → get_locked_frag_account h a ≡ some b
    → a ≢ b
    → c.protos.proto_stakes k a ≡ none
    → (stake h sys (signed a) k amount c).0 ≡ ok tt
    → (unstake h later (signed a) k (stake h sys (signed a) k amount c).1).0
      ≡ err (pallet stake_not_found)
unfolding stake unstake
unstake-stake h sys later a b k amount c locked differ nothing e = ground arith

-- The Proto-Fragment is there, the derived account is linked to an Ethereum account with a lock, and
-- the lock less the usage, which wraps, covers the amount.
pub record CanStake (h : Host) (c : Chain) (a : AccountId) (k : Hash256) (amount : Balance)
    : Type 0 where
  pub account : AccountId
  pub address : H160
  pub lock : EthLock
  pub usage : Balance
  pub derived : get_locked_frag_account h a ≡ some account
  pub there : is_some (c.protos.protos k) ≡ true
  pub linked : c.accounts.evm_links account ≡ some address
  pub locked : c.accounts.eth_locked_frag address ≡ some lock
  pub used : c.accounts.frag_usage account ≡ some usage
  pub covered : amount ≤ sub_u128 lock.amount usage

CanStake-stake :
    (h : Host) (sys : System) (a : AccountId) (k : Hash256) (amount : Balance) (c : Chain)
    → CanStake h c a k amount
    → (stake h sys (signed a) k amount c).0 ≡ ok tt
unfolding stake
CanStake-stake h sys a k amount c v =
    ground (arith, v.derived, v.there, v.linked, v.locked, v.used, v.covered)

stake-CanStake :
    (h : Host) (sys : System) (a : AccountId) (k : Hash256) (amount : Balance) (c : Chain)
    → (stake h sys (signed a) k amount c).0 ≡ ok tt
    → CanStake h c a k amount
unfolding stake
stake-CanStake h sys a k amount c e = elim (Option-cases (get_locked_frag_account h a)) [
  | inl n ↦ absurd (ground arith)
  | inr (b, derived) ↦ elim (Option-cases (c.accounts.evm_links b)) [
    | inl n ↦ absurd (ground arith)
    | inr (address, linked) ↦ elim (Option-cases (c.accounts.eth_locked_frag address)) [
      | inl n ↦ absurd (ground arith)
      | inr (lock, locked) ↦ elim (Option-cases (c.accounts.frag_usage b)) [
        | inl n ↦ absurd (ground arith)
        | inr (usage, used) ↦ record {
          account = b;
          address = address;
          lock = lock;
          usage = usage;
          derived = derived;
          there = ground arith;
          linked = linked;
          locked = locked;
          used = used;
          covered = ground arith;
        }
      ]
    ]
  ]
]

-- A stake succeeds exactly if the Proto-Fragment is there, the account that is derived from the
-- caller is linked to an Ethereum account with a lock and has a usage counter, and the lock less
-- the usage, which wraps, covers the amount.
pub stake-ok_iff :
    (h : Host) (sys : System) (a : AccountId) (k : Hash256) (amount : Balance) (c : Chain)
    → ((stake h sys (signed a) k amount c).0 ≡ ok tt) ↔ CanStake h c a k amount
stake-ok_iff h sys a k amount c =
    (stake-CanStake h sys a k amount c, CanStake-stake h sys a k amount c)
