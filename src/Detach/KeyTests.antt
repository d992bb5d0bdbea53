-- ===== src/Detach/KeyTests.antt =====
-- The theorems on the validation of transactions and on the worker's keys at concrete inputs.
use clamor.Samples.{sample_host}
use clamor.Detach.Tests.{keys, request, pending}
use clamor.Detach.Worker.{process_detach_requests}
use clamor.Detach.Generation.{KeyMaker, Ring, generate_keys, with_keys, offchain_worker}
use clamor.Detach.GenerationLaws.{offchain_worker-once}
use clamor.Base.{◌≡◌, refl, some, [], ◌∷◌, if◌then◌else◌, length}

-- two ed25519 keys, of which the worker has made a key from one
abbrev maker : KeyMaker
maker = record {
  ed25519_public_keys = 5 ∷ 6 ∷ [];
  ed25519_sign = λ key message. some (key ∷ message);
  hex_text = λ bytes. bytes;
  ecdsa_generate = λ seed made. length seed ∷ made;
}

abbrev ring : Ring
ring = record { ecdsa_keys = 8 ∷ []; stored_keys = some (5 ∷ []) }

offchain_worker-once_example :
    let (fine, m) = generate_keys sample_host maker ring in
    let (out, t) = process_detach_requests sample_host (with_keys keys m) pending in
    offchain_worker sample_host maker keys pending ring
    ≡ (if fine then (out, t, m) else ([], pending, m))
offchain_worker-once_example =
    offchain_worker-once sample_host maker keys pending ring request [] refl
