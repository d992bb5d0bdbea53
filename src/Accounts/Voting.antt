-- ===== src/Accounts/Voting.antt =====
-- pallets/accounts/src/lib.rs: `internal_lock_update`, in the parts that it consists of: the
-- checks, the count of votes, and what an accepted update writes.
use clamor.Accounts.Types.{
  State, EthLockUpdate, Error, systematic_failure, verification_failed, link_already_processed,
  locked, unlocked,
}
use clamor.Accounts.Calls.{deposit_event, eth_address, unlink_account}
use clamor.Base.{
  Bool, true, false, not, none, some, [], ◌∷◌, ◌++◌, ◌==◌, ltb, nat_eq, if◌then◌else◌, Option,
  bytes_eq, pair_eq,
}
use clamor.Exec.{
  Exec, Call, Origin, return, ensure, ok_or, gets, modify, ensure_none, contains_key, insert,
  remove, ◌>>=◌, ◌>>◌,
}
use clamor.Host.{
  Host, System, AccountId, Balance, Bytes, Hash256, ascii, be_bytes, add_u64, u128_mod, H160,
}

-- the key under which the votes for an update are counted
unfoldable pub lock_hash : Host → EthLockUpdate → Hash256
lock_hash h d = h.blake2_256 (h.encode_lock d.amount d.sender d.signature d.lock d.block_number)

unfoldable pub lock_message : Host → EthLockUpdate → Bytes
lock_message h d =
    (if d.lock then ascii "FragLock" else ascii "FragUnlock")
    ++ (be_bytes 20 d.sender ++ (be_bytes 8 h.eth_chain_id ++ be_bytes 32 d.amount))

unfoldable pub eth_signed_message : Host → Bytes → Bytes
eth_signed_message h message =
    0x19 ∷ ascii "Ethereum Signed Message:"
    ++ 0x0a ∷ ascii "32"
    ++ be_bytes 32 (h.keccak_256 message)

-- everything that is verified before votes are counted
unfoldable pub verify : Host → EthLockUpdate → Call State Error
verify h d = do
  ensure (not (contains_key (← gets (λ s. s.evm_link_voting_closed)) (lock_hash h d)))
      link_already_processed
  let message_hash = h.keccak_256 (eth_signed_message h (lock_message h d))
  pub_key ← ok_or (h.ecdsa_recover d.signature message_hash) verification_failed
  ensure (eth_address h pub_key == d.sender) verification_failed
  ensure (ltb d.amount u128_mod) systematic_failure
  ensure (if d.lock then ltb 0 d.amount else d.amount == 0) systematic_failure

-- Counts one vote; `false` is the early `return Ok(())`.
unfoldable pub count_vote : Host → Hash256 → Exec State Error Bool
count_vote h data_hash =
    if ltb 1 h.threshold
    then (do
      current_votes ← gets (λ s. s.evm_link_voting data_hash)
      elim current_votes [
        | none ↦ do
          modify (λ s. record s { evm_link_voting = insert s.evm_link_voting data_hash 1 })
          return false
        | some votes ↦
            if ltb (add_u64 votes 1) h.threshold
            then (do
              modify (λ s. record s {
                evm_link_voting = insert s.evm_link_voting data_hash (add_u64 votes 1);
              })
              return false)
            else (do
              modify (λ s. record s { evm_link_voting = remove s.evm_link_voting data_hash })
              return true)
      ])
    else return true

-- A lock below what the linked account uses: its usage is dropped and its stakes are to be cleared.
unfoldable pub slash : AccountId → Balance → Call State Error
slash account amount = do
  used ← gets (λ s. s.frag_usage account)
  elim used [
    | none ↦ return tt
    | some used ↦
        if ltb amount used
        then modify (λ s. record s {
          frag_usage = remove s.frag_usage account;
          pending_unlinks = s.pending_unlinks ++ account ∷ [];
        })
        else return tt
  ]

unfoldable pub slash_linked : Option AccountId → Balance → Call State Error
slash_linked none amount = return tt
slash_linked (some account) amount = slash account amount

unfoldable pub unlink_linked : Option AccountId → H160 → Call State Error
unlink_linked none sender = return tt
unlink_linked (some account) sender = unlink_account account sender

-- what an update that has its votes does to the links and the usage
unfoldable pub settle : EthLockUpdate → Call State Error
settle d = do
  account ← gets (λ s. s.evm_links_reverse d.sender)
  if d.lock
      then (do slash_linked account d.amount; deposit_event (locked d.sender d.amount))
      else (do unlink_linked account d.sender; deposit_event (unlocked d.sender d.amount))

-- the two maps that `internal_lock_update` writes at its end
unfoldable pub record_lock : Host → System → EthLockUpdate → State → State
record_lock h sys d s = record s {
  eth_locked_frag =
      insert s.eth_locked_frag d.sender
        (record { amount = d.amount; block_number = sys.block_number });
  evm_link_voting_closed = insert s.evm_link_voting_closed (lock_hash h d) sys.block_number;
}

unfoldable pub apply_update : Host → System → EthLockUpdate → Bool → Call State Error
apply_update h sys d false = return tt
apply_update h sys d true = do settle d; modify (record_lock h sys d)

unfoldable pub internal_lock_update : Host → System → Origin → EthLockUpdate → Call State Error
internal_lock_update h sys origin d = do
  ensure_none origin
  verify h d
  passed ← count_vote h (lock_hash h d)
  apply_update h sys d passed
