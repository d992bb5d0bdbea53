-- ===== src/Detach/Tests.antt =====
-- The theorems on batches of requests at concrete inputs.
use clamor.Samples.{sample_host, no_detach}
use clamor.Detach.Types.{ethereum_goerli, DetachRequest, DetachInternalData, State}
use clamor.Detach.Calls.{internal_finalize_detach}
use clamor.Detach.Worker.{
  Keystore, next_nonce, payload, sign_payload, sent, process_request, process_detach_requests,
}
use clamor.Detach.Batches.{process_detach_requests-cleared, internal_finalize_detach-sent}
use clamor.Base.{◌<◌, ◌≡◌, refl, some, [], ◌∷◌, get_or, length}
use clamor.Exec.{none_origin}
use clamor.Host.{Bytes, u64_mod, be_bytes}

abbrev pub keys : Keystore
keys = record {
  ecdsa_public_keys = 8 ∷ [];
  ecdsa_sign = λ key message. some (key ∷ message ∷ []);
  any_account = some 3;
}

abbrev pub address : Bytes
address = be_bytes 20 77

abbrev pub request : DetachRequest
request = record { hash = 50; target_chain = ethereum_goerli; target_account = address }

abbrev pub pending : State
pending = record no_detach {
  ethereum_authorities = 8 ∷ [];
  offchain_requests = some (request ∷ []);
}

abbrev pub sent_data : DetachInternalData
sent_data = record {
  public = 3;
  hash = 50;
  target_chain = ethereum_goerli;
  target_account = address;
  remote_signature = get_or (sign_payload sample_host keys 8 (payload request 1)) [];
  nonce = 1;
}

request-sent : process_request sample_host keys pending request ≡ sent sent_data
unfolding process_request next_nonce sign_payload be_bytes
request-sent = refl

internal_finalize_detach-sent_example :
    let t = (internal_finalize_detach none_origin sent_data pending).1 in
    (length address ≡ 20)
    × (1 < u64_mod)
    × (t.detach_nonces address ethereum_goerli ≡ some 1)
    × (t.detached_hashes 50 ≡ some (record { chain = ethereum_goerli; owner = address; nonce = 1 }))
internal_finalize_detach-sent_example =
    internal_finalize_detach-sent sample_host keys pending request sent_data request-sent

process_detach_requests-cleared_example :
    (process_detach_requests sample_host keys pending).1
    ≡ record pending { offchain_requests = some [] }
unfolding be_bytes
process_detach_requests-cleared_example =
    process_detach_requests-cleared sample_host keys pending (request ∷ []) refl
