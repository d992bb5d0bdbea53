-- ===== src/Detach/Calls.antt =====
-- pallets/detach/src/lib.rs: the dispatchables and `on_finalize`.
use clamor.Exec.{Origin, Call, ◌>>◌, ensure_root, ensure_none, insert, put₂, modify, set_insert}
use clamor.Detach.Types.{DetachRequest, DetachInternalData, detached, Error, State, chain_eq}
use clamor.Base.{ℕ, some, List, [], ◌∷◌, ◌++◌, without, nat_eq, bytes_eq, pair_eq}

unfoldable pub add_eth_auth : Origin → ℕ → Call State Error
add_eth_auth origin public = do
  ensure_root origin
  modify (λ s. record s { ethereum_authorities = set_insert public s.ethereum_authorities })

unfoldable pub del_eth_auth : Origin → ℕ → Call State Error
del_eth_auth origin public = do
  ensure_root origin
  modify (λ s. record s { ethereum_authorities = without public s.ethereum_authorities })

unfoldable pub add_key : Origin → ℕ → Call State Error
add_key origin public = do
  ensure_root origin
  modify (λ s. record s { frag_keys = set_insert public s.frag_keys })

unfoldable pub del_key : Origin → ℕ → Call State Error
del_key origin public = do
  ensure_root origin
  modify (λ s. record s { frag_keys = without public s.frag_keys })

unfoldable pub internal_finalize_detach : Origin → DetachInternalData → Call State Error
internal_finalize_detach origin d = do
  ensure_none origin
  modify (λ s. record s {
    detach_nonces = put₂ s.detach_nonces d.target_account d.target_chain (some d.nonce);
  })
  modify (λ s. record s {
    detached_hashes =
        insert s.detached_hashes d.hash
          (record { chain = d.target_chain; owner = d.target_account; nonce = d.nonce });
  })
  modify (λ s. record s { events = s.events ++ detached d.hash d.remote_signature ∷ [] })

abbrev pub hand_over : List DetachRequest → State → State
hand_over [] s = s
hand_over (r ∷ rs) s = record s { offchain_requests = some (r ∷ rs) }

-- Drains the requests into the off-chain database, unless there are none.
unfoldable pub on_finalize : State → State
on_finalize s = hand_over s.detach_requests (record s { detach_requests = [] })
