-- ===== src/Protos/Stakes.antt =====
-- pallets/protos/src/lib.rs: `stake`, `unstake` and `on_finalize`; and `get_locked_frag_account` of
-- primitives/clamor/src/lib.rs.
use Prim.Native.Nat.{min}
use clamor.Protos.Types.{
  staked, unstaked, Error, systematic_failure, proto_not_found, stake_not_found,
  insufficient_balance, stake_locked, no_frag_link, State, Chain, owner_eq,
}
use clamor.Protos.Calls.{modify_protos, log_event}
use clamor.Base.{
  ◌+◌, ◌-◌, ◌%◌, ◌^◌, Option, none, some, List, [], ◌∷◌, ◌++◌, ltb, leb, without, nat_eq, bytes_eq,
  pair_eq,
}
use clamor.Exec.{
  Origin, Call, ◌>>=◌, ◌>>◌, ensure, ok_or, unwrap, gets, ensure_signed, contains_key, remove,
  mutate, items, append, put₂,
}
use clamor.Host.{AccountId, Hash256, Balance, BlockNumber, sub_u128, ascii, Host, System}

-- The account that holds the stakes of `who`.
unfoldable pub get_locked_frag_account : Host → AccountId → Option AccountId
get_locked_frag_account h who =
    h.decode_account (h.blake2_256 (h.encode_account who ++ ascii "frag-locked-account"))

-- The result of `saturating_add(amount)` in the closure over `FragUsage` is dropped, so that
-- `mutate` only unwraps the entry: there is no write.
unfoldable pub stake : Host → System → Origin → Hash256 → Balance → Call Chain Error
stake h sys origin proto_hash amount = do
  signer ← ensure_signed origin
  who ← ok_or (get_locked_frag_account h signer) systematic_failure
  ensure (contains_key (← gets (λ c. c.protos.protos)) proto_hash) proto_not_found
  account ← ok_or (← gets (λ c. c.accounts.evm_links who)) no_frag_link
  eth_lock ← ok_or (← gets (λ c. c.accounts.eth_locked_frag account)) no_frag_link
  used ← ok_or (← gets (λ c. c.accounts.frag_usage who)) no_frag_link
  let balance = sub_u128 eth_lock.amount used
  ensure (leb amount balance) insufficient_balance
  usage ← unwrap (← gets (λ c. c.accounts.frag_usage who))
  modify_protos (λ s. record s {
    proto_stakes = put₂ s.proto_stakes proto_hash who (some (amount, sys.block_number));
  })
  modify_protos (λ s. record s { account_stakes = append s.account_stakes who proto_hash })
  modify_protos (log_event (staked proto_hash who amount))

-- block numbers are u32; the lock-up period is a u64 that saturates
abbrev pub unlock_block : Host → BlockNumber → BlockNumber
unlock_block h staked_at = (staked_at + min h.stake_lockup_period (2 ^ 32 - 1)) % 2 ^ 32

-- As in `stake`, the result of `saturating_sub` is dropped.
unfoldable pub unstake : Host → System → Origin → Hash256 → Call Chain Error
unstake h sys origin proto_hash = do
  who ← ensure_signed origin
  ensure (contains_key (← gets (λ c. c.protos.protos)) proto_hash) proto_not_found
  stake ← ok_or (← gets (λ c. c.protos.proto_stakes proto_hash who)) stake_not_found
  ensure (ltb (unlock_block h stake.1) sys.block_number) stake_locked
  usage ← unwrap (← gets (λ c. c.accounts.frag_usage who))
  modify_protos (λ s. record s { proto_stakes = put₂ s.proto_stakes proto_hash who none })
  modify_protos
      (λ s. record s { account_stakes = mutate s.account_stakes who (without proto_hash) })
  modify_protos (log_event (unstaked proto_hash who stake.0))

-- `for stake in stakes { ProtoStakes::remove(stake, &unlink) }`
unfoldable pub drop_stakes : AccountId → List Hash256 → State → State
drop_stakes who [] s = s
drop_stakes who (hash ∷ rest) s =
    drop_stakes who rest (record s { proto_stakes = put₂ s.proto_stakes hash who none })

unfoldable pub drop_unlinked : List AccountId → State → State
unfolding drop_stakes
drop_unlinked [] s = s
drop_unlinked (who ∷ rest) s = drop_unlinked rest (
    drop_stakes who (items s.account_stakes who)
      (record s { account_stakes = remove s.account_stakes who }))

unfoldable pub on_finalize : Chain → Chain
unfolding drop_unlinked
on_finalize c = record c {
  accounts = record c.accounts { pending_unlinks = [] };
  protos = drop_unlinked c.accounts.pending_unlinks c.protos;
}
