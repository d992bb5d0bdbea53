-- ===== src/Accounts/Locks.antt =====
-- The locks of `EthLockedFrag`: only an update that passes the checks writes one, its own.
use clamor.Exec.{insert, none_origin, ◌>>=◌, modify, bind-holds}
use clamor.Accounts.Calls.{deposit_event, eth_address, unlink_account}
use clamor.Accounts.Voting.{
  lock_hash, lock_message, eth_signed_message, verify, count_vote, slash, slash_linked,
  unlink_linked, settle, record_lock, apply_update, internal_lock_update,
}
use clamor.Accounts.Links.{verify-state}
use clamor.Accounts.Votes.{Verified}
use clamor.Accounts.Types.{EthLockUpdate, EthLock, State, external_id_eq}
use clamor.Base.{
  ◌<◌, ◌≡◌, refl, ◌∙◌, inl, inr, Bool, true, false, some, arith, ltb, Option-cases, nat_eq,
  bytes_eq, pair_eq,
}
use clamor.Host.{Bytes, Hash256, u128_mod, Host, System}

settle-locks : (d : EthLockUpdate) (s : State) → (settle d s).1.eth_locked_frag ≡ s.eth_locked_frag
unfolding settle slash_linked slash unlink_linked unlink_account deposit_event
settle-locks d s = elim (Option-cases (s.evm_links_reverse d.sender)) [
  | inl e ↦ ground (arith, e)
  | inr (a, e) ↦ ground (arith, e)
]

count_vote-locks :
    (h : Host) (k : Hash256) (s : State) → (count_vote h k s).1.eth_locked_frag ≡ s.eth_locked_frag
unfolding count_vote
count_vote-locks h k s = ground arith

-- the lock that an update is about
abbrev pub lock_of : System → EthLockUpdate → EthLock
lock_of sys d = record { amount = d.amount; block_number = sys.block_number }

-- `t` has the locks of `s`, or those and that of a verified update
pub data Locked (h : Host) (sys : System) (d : EthLockUpdate) (s t : State) : Type 0 where
  same_locks : t.eth_locked_frag ≡ s.eth_locked_frag → Locked h sys d s t
  new_lock :
      Verified h d s
      → t.eth_locked_frag ≡ insert s.eth_locked_frag d.sender (lock_of sys d)
      → Locked h sys d s t

apply_update-Locked :
    (h : Host) (sys : System) (d : EthLockUpdate) (passed : Bool) (s t : State)
    → Verified h d s
    → t.eth_locked_frag ≡ s.eth_locked_frag
    → Locked h sys d s (apply_update h sys d passed t).1
unfolding apply_update record_lock
apply_update-Locked h sys d false s t v e = same_locks e
apply_update-Locked h sys d true s t v e =
    bind-holds (Locked h sys d s) (settle d) (λ _. modify (record_lock h sys d)) t
      (same_locks (settle-locks d t ∙ e)) (λ _ _. new_lock v (rw (settle-locks d t) (rw e refl)))

pub internal_lock_update-Locked :
    (h : Host) (sys : System) (d : EthLockUpdate) (s : State)
    → Locked h sys d s (internal_lock_update h sys none_origin d s).1
unfolding internal_lock_update
internal_lock_update-Locked h sys d s =
    bind-holds (Locked h sys d s) (verify h d)
      (λ _. count_vote h (lock_hash h d) >>= apply_update h sys d) s
      (same_locks (rw verify-state refl))
      (λ _ verified. rw verify-state (
        bind-holds (Locked h sys d s) (count_vote h (lock_hash h d)) (apply_update h sys d) s
          (same_locks (count_vote-locks h (lock_hash h d) s))
          (λ passed _.
            apply_update-Locked h sys d passed s _ verified
              (count_vote-locks h (lock_hash h d) s))))

-- The signature of a verified update recovers to the address that it is about, and its amount is a
-- balance, which is 0 for an unlock and not for a lock.
pub Verified-signed :
    (h : Host) (d : EthLockUpdate) (s : State)
    → Verified h d s
    → (key : Bytes) × (h.ecdsa_recover d.signature
          (h.keccak_256 (eth_signed_message h (lock_message h d)))
        ≡ some key)
      × (eth_address h key ≡ d.sender)
      × (d.amount < u128_mod)
      × (ltb 0 d.amount ≡ d.lock)
unfolding verify
Verified-signed h d s v =
    elim (Option-cases
      (h.ecdsa_recover d.signature (h.keccak_256 (eth_signed_message h (lock_message h d))))) [
        | inl e ↦ absurd (ground (arith, v, e))
        | inr (key, e) ↦ (key, e, ground (arith, v, e), ground (arith, v, e), ground (arith, v, e))
      ]
