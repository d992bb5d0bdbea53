-- ===== src/Detach/Worker.antt =====
-- pallets/detach/src/lib.rs: `process_detach_requests`, which the off-chain worker runs. The
-- keystore is the host's: its ECDSA keys, its signing function and the account that signs a
-- transaction are arguments.
use clamor.Detach.Types.{
  SupportedChains, ethereum_mainnet, ethereum_rinkeby, ethereum_goerli, DetachRequest,
  DetachInternalData, State,
}
use clamor.Base.{
  ℕ, zero, suc, ◌+◌, ◌%◌, Bool, true, false, Option, none, some, List, [], ◌∷◌, ◌++◌, ltb, nat_beq,
  if◌then◌else◌, length, contains, nat_eq,
}
use clamor.Host.{Bytes, u64_mod, ascii, be_bytes, Host}

pub record Keystore : Type 0 where
  pub ecdsa_public_keys : List ℕ
  -- `ecdsa_sign_prehashed`: key, message
  pub ecdsa_sign : ℕ → ℕ → Option Bytes
  -- the account of `Signer::any_account`
  pub any_account : Option ℕ

-- `nonce.checked_add(1).unwrap()`: `none` is the panic
unfoldable pub next_nonce : State → DetachRequest → Option ℕ
next_nonce s r = elim (s.detach_nonces r.target_account r.target_chain) [
  | none ↦ some 1
  | some nonce ↦ if ltb (nonce + 1) u64_mod then some (nonce + 1) else none
]

unfoldable pub chain_id : SupportedChains → ℕ
chain_id ethereum_mainnet = 1
chain_id ethereum_rinkeby = 4
chain_id ethereum_goerli = 5

-- proto hash, chain id, target account and nonce, as the remote contract reads them
unfoldable pub payload : DetachRequest → ℕ → Bytes
unfolding chain_id
payload r nonce =
    be_bytes 32 r.hash
    ++ (be_bytes 32 (chain_id r.target_chain) ++ (r.target_account ++ be_bytes 8 nonce))

unfoldable pub sign_payload : Host → Keystore → ℕ → Bytes → Option Bytes
sign_payload h k key message = k.ecdsa_sign key (
    h.keccak_256 (
      0x19 ∷ ascii "Ethereum Signed Message:"
      ++ 0x0a ∷ ascii "32"
      ++ be_bytes 32 (h.keccak_256 message)))

-- `signature[64] += 27`
abbrev pub add_recovery_offset : ℕ → Bytes → Bytes
add_recovery_offset n [] = []
add_recovery_offset zero (b ∷ bs) = (b + 27) % 256 ∷ bs
add_recovery_offset (suc n) (b ∷ bs) = b ∷ add_recovery_offset n bs

abbrev pub find_authority : List ℕ → List ℕ → Option ℕ
find_authority authorities [] = none
find_authority authorities (k ∷ ks) =
    if contains authorities k then some k else find_authority authorities ks

-- What one request comes to: a transaction that is sent, nothing (the error is logged), the end of
-- the whole batch, or a panic.
pub data Processed : Type 0 where
  sent : DetachInternalData → Processed
  skipped batch_failed panicked : Processed

abbrev finish : Keystore → DetachRequest → ℕ → Option Bytes → Processed
finish k r nonce none = skipped
finish k r nonce (some signature) = elim k.any_account [
  | none ↦ skipped
  | some public ↦ sent (record {
    public = public;
    hash = r.hash;
    target_chain = r.target_chain;
    target_account = r.target_account;
    remote_signature = add_recovery_offset 64 signature;
    nonce = nonce;
  })
]

unfoldable pub process_request : Host → Keystore → State → DetachRequest → Processed
unfolding next_nonce payload sign_payload
process_request h k s r = elim (find_authority s.ethereum_authorities k.ecdsa_public_keys) [
  | none ↦ skipped
  | some key ↦
      if nat_beq (length r.target_account) 20
      then elim (next_nonce s r) [
        | none ↦ panicked
        | some nonce ↦ finish k r nonce (sign_payload h k key (payload r nonce))
      ]
      else batch_failed
]

-- The transactions that a batch sends, and whether the stored batch is cleared: after a failure it
-- stays, and is processed again in the next block.
unfoldable pub process_batch :
    Host → Keystore → State → List DetachRequest → List DetachInternalData × Bool
process_batch h k s [] = ([], true)
process_batch h k s (r ∷ rs) =
    let (out, done) = process_batch h k s rs in
    elim (process_request h k s r) [
      | sent d ↦ (d ∷ out, done)
      | skipped ↦ (out, done)
      | batch_failed ↦ ([], false)
      | panicked ↦ ([], false)
    ]

unfoldable pub process_detach_requests : Host → Keystore → State → List DetachInternalData × State
unfolding process_batch
process_detach_requests h k s = elim s.offchain_requests [
  | none ↦ ([], s)
  | some requests ↦
      let (out, done) = process_batch h k s requests in
      (out, if done then record s { offchain_requests = some [] } else s)
]
