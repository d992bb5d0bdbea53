-- ===== src/Detach/Validation.antt =====
-- pallets/detach/src/lib.rs: `validate_unsigned`, `initialize_eth_authorities` and
-- `initialize_keys`.
use clamor.Detach.Types.{SupportedChains, DetachInternalData, Error, State, chain_eq}
use clamor.Detach.Calls.{internal_finalize_detach}
use clamor.Exec.{
  none_origin, ok, panic, Call, ◌>>=◌, ◌>>◌, return, gets, modify, TransactionSource, bad_call,
  bad_signer, bad_proof, Validity, valid, invalid, is_local, PayloadChecks, insert_keys,
}
use clamor.Base.{
  ℕ, ◌≡◌, inl, inr, true, none, some, List, [], ◌∷◌, arith, if◌then◌else◌, Option-cases, contains,
  nat_eq, bytes_eq, pair_eq, sym, ap, ◌∙◌,
}
use clamor.Host.{Bytes, Hash256}

-- a call without an origin
pub data UnsignedCall : Type 0 where
  finalize_detach : DetachInternalData → ℕ → UnsignedCall
  any_other : UnsignedCall

-- The tag that is provided: hash, chain, account and nonce.
abbrev pub DetachTag : Type 0
DetachTag = Hash256 × SupportedChains × Bytes × ℕ

unfoldable pub validate_unsigned :
    PayloadChecks DetachInternalData → State → TransactionSource → UnsignedCall → Validity DetachTag
validate_unsigned checks s source any_other = invalid bad_call
validate_unsigned checks s source (finalize_detach d signature) =
    if is_local source
    then elim (checks.ed25519_key d.public) [
      | none ↦ invalid bad_signer
      | some key ↦
          if contains s.frag_keys key
          then if checks.is_signed d signature
            then valid (d.hash, d.target_chain, d.target_account, d.nonce)
            else invalid bad_proof
          else invalid bad_signer
    ]
    else invalid bad_call

-- the keys of the genesis; a list that is not empty has to meet an empty set
abbrev assert_empty : List ℕ → Call State Error
assert_empty [] s = (ok tt, s)
assert_empty (k ∷ ks) s = (panic, s)

unfoldable pub initialize_eth_authorities : List ℕ → Call State Error
initialize_eth_authorities [] = return tt
initialize_eth_authorities (k ∷ ks) = do
  assert_empty (← gets (λ s. s.ethereum_authorities))
  modify (λ s. record s { ethereum_authorities = insert_keys (k ∷ ks) s.ethereum_authorities })

unfoldable pub initialize_keys : List ℕ → Call State Error
initialize_keys [] = return tt
initialize_keys (k ∷ ks) = do
  assert_empty (← gets (λ s. s.frag_keys))
  modify (λ s. record s { frag_keys = insert_keys (k ∷ ks) s.frag_keys })

abbrev finalized : DetachInternalData → State → State
finalized d s = (internal_finalize_detach none_origin d s).1

SameTag : DetachInternalData → DetachInternalData → Type 0
SameTag d e =
    (d.hash ≡ e.hash)
    × (d.target_chain ≡ e.target_chain)
    × (d.target_account ≡ e.target_account)
    × (d.nonce ≡ e.nonce)

validate_unsigned-tag :
    (checks : PayloadChecks DetachInternalData) (s : State) (source : TransactionSource)
    (d : DetachInternalData) (signature : ℕ) (tag : DetachTag)
    → validate_unsigned checks s source (finalize_detach d signature) ≡ valid tag
    → (tag ≡ (d.hash, d.target_chain, d.target_account, d.nonce))
      × (is_local source ≡ true)
      × (checks.is_signed d signature ≡ true)
unfolding validate_unsigned
validate_unsigned-tag checks s source d signature tag e =
    elim (Option-cases (checks.ed25519_key d.public)) [
      | inl none_there ↦ absurd (ground (arith, e, none_there))
      | inr (key, there) ↦ ground (arith, e, there)
    ]

finalized-again :
    (d e : DetachInternalData) (s : State)
    → SameTag d e
    → ((k : Hash256)
        → (finalized e (finalized d s)).detached_hashes k ≡ (finalized d s).detached_hashes k)
      × ((a : Bytes) (chain : SupportedChains)
          → (finalized e (finalized d s)).detach_nonces a chain
            ≡ (finalized d s).detach_nonces a chain)
unfolding internal_finalize_detach SameTag
finalized-again d e s (hash, chain, account, nonce) = (
  λ k. ground (arith, hash, chain, account, nonce),
  λ a c. ground (arith, hash, chain, account, nonce),
)

tag-SameTag :
    (d e : DetachInternalData) (tag : DetachTag)
    → tag ≡ (d.hash, d.target_chain, d.target_account, d.nonce)
    → tag ≡ (e.hash, e.target_chain, e.target_account, e.nonce)
    → SameTag d e
unfolding SameTag
tag-SameTag d e tag p q = (
  ap (λ (t : DetachTag). t.0) (sym p ∙ q),
  ap (λ (t : DetachTag). t.1) (sym p ∙ q),
  ap (λ (t : DetachTag). t.2) (sym p ∙ q),
  ap (λ (t : DetachTag). t.3) (sym p ∙ q),
)

-- Two transactions that are valid with the same tag come from this node or a block and are signed,
-- and when one has been executed, the other one changes neither what is marked as detached nor the
-- nonces.
pub validate_unsigned-same_tag :
    (checks : PayloadChecks DetachInternalData) (s : State) (here there : TransactionSource)
    (d e : DetachInternalData) (m n : ℕ) (tag : DetachTag)
    → validate_unsigned checks s here (finalize_detach d m) ≡ valid tag
    → validate_unsigned checks s there (finalize_detach e n) ≡ valid tag
    → (is_local here ≡ true)
      × (is_local there ≡ true)
      × (checks.is_signed d m ≡ true)
      × (checks.is_signed e n ≡ true)
      × ((k : Hash256)
          → (finalized e (finalized d s)).detached_hashes k ≡ (finalized d s).detached_hashes k)
      × ((a : Bytes) (chain : SupportedChains)
          → (finalized e (finalized d s)).detach_nonces a chain
            ≡ (finalized d s).detach_nonces a chain)
validate_unsigned-same_tag checks s here there d e m n tag first second =
    let (p, local_d, signed_d) = validate_unsigned-tag checks s here d m tag first in
    let (q, local_e, signed_e) = validate_unsigned-tag checks s there e n tag second in
    let (hashes, nonces) = finalized-again d e s (tag-SameTag d e tag p q) in
    (local_d, local_e, signed_d, signed_e, hashes, nonces)
