-- ===== src/Runtime/Locks.antt =====
-- A lock of FRAG tokens is recorded only with two signatures: an authority's and the owner's.
use clamor.Protos.Types as Protos
use clamor.Protos.Stakes as ProtosEnd
use clamor.Accounts.Types as AccountsTypes
use clamor.Accounts.Calls as Accounts
use clamor.Exec.{Origin, root, none_origin, signed, in_block, valid}
use clamor.Runtime.Calls.{
  AccountsCall, link_call, unlink_call, sponsor_account_call, add_key_call, del_key_call,
  internal_lock_update_call, DetachCall, internal_finalize_detach_call, RuntimeCall, protos_call,
  fragments_call, detach_call, accounts_call, World, dispatch_accounts, dispatch,
}
use clamor.Runtime.Steps.{
  called, lock_updated, detach_finalized, overridden, protos_finalized, fragments_finalized,
  detach_finished, worked, elsewhere, Reach, here, next,
}
use clamor.Runtime.Parts.{protos-SameOthers, fragments-base}
use clamor.Accounts.Types.{EthLockUpdate, EthLock, State, external_id_eq}
use clamor.Accounts.Sponsor.{Sponsoring, sponsor_account}
use clamor.Accounts.Calls.{add_key, del_key, eth_address, link, unlink_account, unlink}
use clamor.Accounts.Voting.{lock_message, eth_signed_message, internal_lock_update}
use clamor.Accounts.Validation.{lock_update, UpdateTag, validate_unsigned}
use clamor.Accounts.Votes.{Verified}
use clamor.Accounts.Locks.{
  lock_of, Locked, same_locks, new_lock, internal_lock_update-Locked, Verified-signed,
}
use clamor.Fragments.Types.{Chain}
use clamor.Base.{
  ℕ, ◌<◌, ◌≡◌, refl, ap, subst, ◌≢◌, inl, inr, true, false, Option, none, some, arith, Bool-cases,
  Option-cases, ◌==◌, ==_iff, contains, nat_eq, bytes_eq, pair_eq,
}
use clamor.Host.{Bytes, H160, u128_mod, System}

-- The calls of the pallet `accounts` that record no lock.
dispatch_accounts-locks :
    {L : Type 0} (w : World L) (sys : System) (now : ℕ) (o : Origin) (x : AccountsCall)
    (c : Sponsoring L)
    → o ≢ none_origin
    → (dispatch_accounts w sys now o x c).accounts.eth_locked_frag ≡ c.accounts.eth_locked_frag
unfolding dispatch_accounts Accounts.link Accounts.unlink Accounts.unlink_account Accounts.add_key
    Accounts.del_key sponsor_account internal_lock_update
dispatch_accounts-locks w sys now o (link_call k) c n = ground arith
dispatch_accounts-locks w sys now o (unlink_call e) c n = ground arith
dispatch_accounts-locks w sys now o (sponsor_account_call i) c n = ground arith
dispatch_accounts-locks w sys now o (add_key_call k) c n = ground arith
dispatch_accounts-locks w sys now o (del_key_call k) c n = ground arith
dispatch_accounts-locks w sys now root (internal_lock_update_call d) c n = refl
dispatch_accounts-locks w sys now (signed a) (internal_lock_update_call d) c n = refl
dispatch_accounts-locks w sys now none_origin (internal_lock_update_call d) c n = absurd (n refl)

protos_end-locks :
    (b : Protos.Chain)
    → (ProtosEnd.on_finalize b).accounts.eth_locked_frag ≡ b.accounts.eth_locked_frag
unfolding ProtosEnd.on_finalize
protos_end-locks b = refl

-- The lock `l` of the address `e` is that of an update which a key of FragKeys submitted in a chain
-- that was reached from `c`, and which the address signed.
pub record Submission {L : Type 0} (w : World L) (c : Chain L) (e : H160) (l : EthLock)
    : Type 0 where
  pub before : Chain L
  pub reached : Reach w false c before
  pub block : System
  pub payload : EthLockUpdate
  pub signature : ℕ
  pub key : ℕ
  pub public : w.lock_checks.ed25519_key payload.public ≡ some key
  pub authority : contains before.base.accounts.frag_keys key ≡ true
  pub submitted : w.lock_checks.is_signed payload signature ≡ true
  pub sender : payload.sender ≡ e
  pub lock : l ≡ lock_of block payload
  pub owner_key : Bytes
  pub recovered :
      w.host.ecdsa_recover payload.signature
        (w.host.keccak_256 (eth_signed_message w.host (lock_message w.host payload)))
      ≡ some owner_key
  pub owner : eth_address w.host owner_key ≡ e
  pub bound : l.amount < u128_mod

module _ {L : Type 0} (w : World L) where
  abbrev locks : Chain L → H160 → Option EthLock
  locks c = c.base.accounts.eth_locked_frag

  called-locks :
      (sys : System) (now : ℕ) (o : Origin) (x : RuntimeCall) (c : Chain L)
      → o ≢ none_origin
      → locks (dispatch w sys now o x c) ≡ locks c
  unfolding dispatch
  called-locks sys now o (protos_call x) c n =
      ap (λ (s : AccountsTypes.State). s.eth_locked_frag)
        (protos-SameOthers w.host sys o x c.base).0
  called-locks sys now o (fragments_call x) c n =
      ap (λ (b : Protos.Chain). b.accounts.eth_locked_frag)
        (fragments-base w.host sys w.outside o x c)
  called-locks sys now o (detach_call x) c n = refl
  called-locks sys now o (accounts_call x) c n = dispatch_accounts-locks w sys now o x _ n

  detach-locks :
      (sys : System) (now : ℕ) (o : Origin) (x : DetachCall) (c : Chain L)
      → locks (dispatch w sys now o (detach_call x) c) ≡ locks c
  unfolding dispatch
  detach-locks sys now o x c = refl

  update-Locked :
      (sys : System) (now : ℕ) (d : EthLockUpdate) (c : Chain L)
      → Locked w.host sys d c.base.accounts
          (dispatch w sys now none_origin
            (accounts_call (internal_lock_update_call d))
            c).base.accounts
  unfolding dispatch dispatch_accounts
  update-Locked sys now d c = internal_lock_update-Locked w.host sys d c.base.accounts

  valid-key :
      (s : AccountsTypes.State) (d : EthLockUpdate) (signature : ℕ) (tag : UpdateTag)
      → validate_unsigned w.lock_checks s in_block (lock_update d signature) ≡ valid tag
      → (key : ℕ) × (w.lock_checks.ed25519_key d.public ≡ some key)
        × (contains s.frag_keys key ≡ true)
        × (w.lock_checks.is_signed d signature ≡ true)
  unfolding validate_unsigned
  valid-key s d signature tag e = elim (Option-cases (w.lock_checks.ed25519_key d.public)) [
    | inl missing ↦ absurd (ground (arith, e, missing))
    | inr (key, there) ↦ (key, there, ground (arith, e, there), ground (arith, e, there))
  ]

  submitted :
      (c t : Chain L) (sys : System) (d : EthLockUpdate) (signature : ℕ) (tag : UpdateTag)
      (l : EthLock)
      → Reach w false c t
      → validate_unsigned w.lock_checks t.base.accounts in_block (lock_update d signature)
        ≡ valid tag
      → Verified w.host d t.base.accounts
      → l ≡ lock_of sys d
      → Submission w c d.sender l
  submitted c t sys d signature tag l r q v e =
      let (key, public, listed, fine) = valid-key t.base.accounts d signature tag q in
      let (owner_key, recovered, owner, small, _) = Verified-signed w.host d t.base.accounts v in
      record {
        before = t;
        reached = r;
        block = sys;
        payload = d;
        signature = signature;
        key = key;
        public = public;
        authority = listed;
        submitted = fine;
        sender = refl;
        lock = e;
        owner_key = owner_key;
        recovered = recovered;
        owner = owner;
        bound = ground (arith, e, small);
      }

  -- In a chain that starts without a lock of an Ethereum address, and in which calls without an
  -- origin are checked, a lock of it is recorded only as an update has it whose signature recovers
  -- to the address, and which a key of the pallet's FragKeys at that time has signed; its amount
  -- is below 2^128.
  pub Reach-Submission :
      (c d : Chain L) (e : H160) (l : EthLock)
      → c.base.accounts.eth_locked_frag e ≡ none
      → Reach w false c d
      → d.base.accounts.eth_locked_frag e ≡ some l
      → Submission w c e l
  Reach-Submission c _ e l n here p = absurd (ground (arith, n, p))
  Reach-Submission c _ e l n (next r (called sys now o x t q)) p =
      Reach-Submission c t e l n r (rw (called-locks sys now o x t q) at p)
  Reach-Submission c _ e l n (next r (lock_updated sys now d signature tag t q)) p =
      elim (update-Locked sys now d t) [
        | same_locks u ↦ Reach-Submission c t e l n r (rw u at p)
        | new_lock v u ↦ elim (Bool-cases (d.sender == e)) [
          | inl same ↦
              subst (λ f. Submission w c f l) (ground (arith, ==_iff d.sender e, same))
                (submitted c t sys d signature tag l r q v (ground (arith, p, u, same)))
          | inr other ↦ Reach-Submission c t e l n r (ground (arith, p, u, other))
        ]
      ]
  Reach-Submission c _ e l n (next r (detach_finalized sys now d signature tag t q)) p =
      Reach-Submission c t e l n r
        (rw (detach-locks sys now none_origin (internal_finalize_detach_call d) t) at p)
  Reach-Submission c _ e l n (next r (overridden sys now x t u)) p = absurd (ground (arith, u))
  Reach-Submission c _ e l n (next r (protos_finalized t)) p =
      Reach-Submission c t e l n r (rw (protos_end-locks t.base) at p)
  Reach-Submission c _ e l n (next r (fragments_finalized b t)) p = Reach-Submission c t e l n r p
  Reach-Submission c _ e l n (next r (detach_finished t)) p = Reach-Submission c t e l n r p
  Reach-Submission c _ e l n (next r (worked g s ring t)) p = Reach-Submission c t e l n r p
  Reach-Submission c _ e l n (next r (elsewhere v t)) p = Reach-Submission c t e l n r p
