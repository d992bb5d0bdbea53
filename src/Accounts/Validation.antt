-- ===== src/Accounts/Validation.antt =====
-- pallets/accounts/src/lib.rs: `validate_unsigned` and `initialize_keys`.
use clamor.Accounts.Types.{EthLockUpdate, Error, State, external_id_eq}
use clamor.Exec.{
  ok, panic, Call, ◌>>=◌, ◌>>◌, return, gets, modify, TransactionSource, bad_call, bad_signer,
  bad_proof, Validity, valid, invalid, is_local, PayloadChecks, insert_keys,
}
use clamor.Base.{ℕ, none, some, List, [], ◌∷◌, if◌then◌else◌, contains, nat_eq, bytes_eq, pair_eq}

-- a call without an origin
pub data UnsignedCall : Type 0 where
  lock_update : EthLockUpdate → ℕ → UnsignedCall
  any_other : UnsignedCall

-- The tag that is provided: the payload and the key.
abbrev pub UpdateTag : Type 0
UpdateTag = EthLockUpdate × ℕ

unfoldable pub validate_unsigned :
    PayloadChecks EthLockUpdate → State → TransactionSource → UnsignedCall → Validity UpdateTag
validate_unsigned checks s source any_other = invalid bad_call
validate_unsigned checks s source (lock_update d signature) =
    if is_local source
    then elim (checks.ed25519_key d.public) [
      | none ↦ invalid bad_signer
      | some key ↦
          if contains s.frag_keys key
          then if checks.is_signed d signature then valid (d, key) else invalid bad_proof
          else invalid bad_signer
    ]
    else invalid bad_call

-- the keys of the genesis; a list that is not empty has to meet an empty set
abbrev assert_empty : List ℕ → Call State Error
assert_empty [] s = (ok tt, s)
assert_empty (k ∷ ks) s = (panic, s)

unfoldable pub initialize_keys : List ℕ → Call State Error
initialize_keys [] = return tt
initialize_keys (k ∷ ks) = do
  assert_empty (← gets (λ s. s.frag_keys))
  modify (λ s. record s { frag_keys = insert_keys (k ∷ ks) s.frag_keys })
