-- ===== src/Detach/Batches.antt =====
-- A batch of requests in the off-chain worker: when it is done, and what it sends.
use clamor.Detach.Types.{DetachRequest, DetachInternalData, State, chain_eq}
use clamor.Detach.Calls.{internal_finalize_detach}
use clamor.Detach.Worker.{
  Keystore, next_nonce, find_authority, sent, process_request, process_batch,
  process_detach_requests,
}
use clamor.Exec.{none_origin}
use clamor.Base.{
  ◌+◌, ◌<◌, ◌≡◌, refl, Bool, not, ◌&&◌, ◌||◌, some, List, [], ◌∷◌, arith, ltb, if◌then◌else◌,
  is_some, get_or, ◌==◌, length, all, nat_eq, bytes_eq, pair_eq, subst, ==_refl,
}
use clamor.Host.{u64_mod, Host}

-- The worker gets past the request: it has no key of an authority and skips it, or the target has
-- the 20 bytes of an Ethereum address and its nonce can be raised.
abbrev can_pass : Keystore → State → DetachRequest → Bool
can_pass k s r =
    not (is_some (find_authority s.ethereum_authorities k.ecdsa_public_keys))
    || length r.target_account == 20
      && ltb (get_or (s.detach_nonces r.target_account r.target_chain) 0 + 1) u64_mod

process_batch-done :
    (h : Host) (k : Keystore) (s : State) (rs : List DetachRequest)
    → (process_batch h k s rs).1 ≡ all (can_pass k s) rs
unfolding process_batch process_request next_nonce
process_batch-done h k s [] = refl
process_batch-done h k s (r ∷ rs) = ground (arith, process_batch-done h k s rs)

-- The stored batch is cleared exactly if the worker gets past each of its requests, and stays as
-- it is otherwise; nothing else of the storage changes.
pub process_detach_requests-cleared :
    (h : Host) (k : Keystore) (s : State) (rs : List DetachRequest)
    → s.offchain_requests ≡ some rs
    → (process_detach_requests h k s).1
      ≡ (if all (can_pass k s) rs then record s { offchain_requests = some [] } else s)
unfolding process_detach_requests
process_detach_requests-cleared h k s rs e = ground (arith, e, process_batch-done h k s rs)

-- what is sent for a request that the storage knows the nonce of
abbrev pub NextInLine : State → DetachInternalData → Type 0
NextInLine s d =
    (length d.target_account ≡ 20)
    × (d.nonce ≡ get_or (s.detach_nonces d.target_account d.target_chain) 0 + 1)
    × (d.nonce < u64_mod)

-- the request that the data is for
abbrev pub request_of : DetachInternalData → DetachRequest
request_of d = record {
  hash = d.hash;
  target_chain = d.target_chain;
  target_account = d.target_account;
}

pub process_request-sent :
    (h : Host) (k : Keystore) (s : State) (r : DetachRequest) (d : DetachInternalData)
    → process_request h k s r ≡ sent d
    → NextInLine s d × (request_of d ≡ r)
unfolding process_request next_nonce
process_request-sent h k s r d e = ground arith

-- What the worker sends for a request is for that request; the target has 20 bytes; and when it is
-- finalized, the nonce of the target on that chain becomes one more than it was, 0 if it had none,
-- and the Proto-Fragment is marked as detached with that chain, owner and nonce.
pub internal_finalize_detach-sent :
    (h : Host) (k : Keystore) (s : State) (r : DetachRequest) (d : DetachInternalData)
    → process_request h k s r ≡ sent d
    → let t = (internal_finalize_detach none_origin d s).1 in
      let nonce = get_or (s.detach_nonces r.target_account r.target_chain) 0 + 1 in
      (length r.target_account ≡ 20)
      × (nonce < u64_mod)
      × (t.detach_nonces r.target_account r.target_chain ≡ some nonce)
      × (t.detached_hashes r.hash
          ≡ some (record { chain = r.target_chain; owner = r.target_account; nonce = nonce }))
unfolding internal_finalize_detach
internal_finalize_detach-sent h k s r d e =
    let ((size, next, range), same) = process_request-sent h k s r d e in
    subst
      (λ (q : DetachRequest).
        let t = (internal_finalize_detach none_origin d s).1 in
        let nonce = get_or (s.detach_nonces q.target_account q.target_chain) 0 + 1 in
        (length q.target_account ≡ 20)
        × (nonce < u64_mod)
        × (t.detach_nonces q.target_account q.target_chain ≡ some nonce)
        × (t.detached_hashes q.hash
            ≡ some (record { chain = q.target_chain; owner = q.target_account; nonce = nonce })))
      same (ground (arith, ==_refl d.target_account, ==_refl d.target_chain, ==_refl d.hash))
