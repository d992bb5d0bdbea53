-- ===== src/Protos/Leaving.antt =====
-- How a Proto-Fragment leaves the chain: `detach` of pallets/protos/src/lib.rs, and `on_finalize`,
-- the off-chain worker and `internal_finalize_detach` of pallets/detach/src/lib.rs.
use clamor.Detach.Types as Detach
use clamor.Detach.Calls as Pending
use clamor.Exec.{none_origin, signed, ok}
use clamor.Protos.Types.{Chain, Proto, owner_eq}
use clamor.Protos.Calls.{detach}
use clamor.Protos.Runs.{Action, run}
use clamor.Detach.Types.{SupportedChains, DetachRequest, DetachInternalData, chain_eq}
use clamor.Accounts.Types.{external_id_eq}
use clamor.Protos.Frozen.{IsFrozen}
use clamor.Detach.Worker.{Keystore, process_batch, process_detach_requests}
use clamor.Base.{◌≡◌, some, List, [], ◌∷◌, ◌++◌, ◌≢◌, nat_eq, bytes_eq, pair_eq}
use clamor.Host.{Bytes, AccountId, Hash256, Host}

abbrev pub requested : Hash256 → SupportedChains → Bytes → DetachRequest
requested k target account = record { hash = k; target_chain = target; target_account = account }

-- the chain after the request and the end of its block
abbrev pub after_block : AccountId → Hash256 → SupportedChains → Bytes → Chain → Chain
after_block a k target account c =
    let t = (detach (signed a) k target account c).1 in
    record t { detach = Pending.on_finalize t.detach }

-- the chain after what the worker sent is in a block
abbrev pub after_finalize : DetachInternalData → Chain → Chain
after_finalize d c = record c {
  detach = (Pending.internal_finalize_detach none_origin d c.detach).1;
}

-- the chain with the requests in the worker's batch
abbrev handed : Hash256 → SupportedChains → Bytes → Chain → Chain
handed k target account c = record c {
  detach = record c.detach {
    detach_requests = [];
    offchain_requests = some (c.detach.detach_requests ++ requested k target account ∷ []);
  };
}

-- What follows from the chain `u` at the end of the block of the request.
abbrev Left :
    Host
    → Keystore
    → Hash256
    → SupportedChains
    → Bytes
    → Chain
    → Proto
    → DetachInternalData
    → List Action
    → Chain
    → Type 0
Left h keys k target account c p d xs u =
    let t = after_finalize d u in
    ((process_detach_requests h keys u.detach).0
      ≡ (process_batch h keys u.detach c.detach.detach_requests).0 ++ d ∷ [])
    × ((process_detach_requests h keys u.detach).1.offchain_requests ≡ some [])
    × (t.detach.detached_hashes k
        ≡ some (record { chain = target; owner = account; nonce = d.nonce }))
    × IsFrozen k p (run h xs t)
    × ((b : AccountId) (other : SupportedChains) (to : Bytes)
        → (detach (signed b) k other to (run h xs t)).0 ≢ ok tt)
