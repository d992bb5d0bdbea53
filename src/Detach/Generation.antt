-- ===== src/Detach/Generation.antt =====
-- pallets/detach/src/lib.rs: the ECDSA keys that the off-chain worker makes from its ed25519 keys
-- before it signs. The keystore and the crate `hex` are the arguments.
use clamor.Detach.Types.{DetachRequest, DetachInternalData, State, chain_eq}
use clamor.Detach.Worker.{Keystore, sent, skipped, batch_failed, panicked, process_request}
use clamor.Base.{
  ℕ, Bool, true, false, ◌&&◌, Option, none, some, List, [], ◌∷◌, ◌++◌, if◌then◌else◌, contains,
  nat_eq, bytes_eq, pair_eq,
}
use clamor.Host.{Bytes, ascii, be_bytes, Host}

pub record KeyMaker : Type 0 where
  pub ed25519_public_keys : List ℕ
  -- `ed25519_sign`: key, message
  pub ed25519_sign : ℕ → Bytes → Option Bytes
  -- `hex::encode_to_slice`
  pub hex_text : Bytes → Bytes
  -- the keystore's list of ECDSA keys after `ecdsa_generate` from a seed
  pub ecdsa_generate : Bytes → List ℕ → List ℕ

-- What the node keeps: its ECDSA keys, and the entry "fragments-frag-ecdsa-keys", which is the set
-- of ed25519 keys that it has made keys from.
pub record Ring : Type 0 where
  pub ecdsa_keys : List ℕ
  pub stored_keys : Option (List ℕ)

unfoldable pub generate_seed_from_ed_key : Host → KeyMaker → ℕ → Option Bytes
generate_seed_from_ed_key h g ed_key =
    elim (g.ed25519_sign ed_key (ascii "fragments-frag-ecdsa-keys" ++ be_bytes 32 ed_key)) [
      | none ↦ none
      | some signature ↦ some (ascii "0x" ++ g.hex_text (be_bytes 32 (h.keccak_256 signature)))
    ]

abbrev pub get_keys_set_from_local_storage : Option (List ℕ) → List ℕ
get_keys_set_from_local_storage none = []
get_keys_set_from_local_storage (some keys) = keys

-- What the loop over the ed25519 keys ends with: whether it did not panic, the set of keys, whether
-- one was added to it, and the keys of the keystore, which stay also after a panic.
pub record Made : Type 0 where
  pub fine : Bool
  pub known : List ℕ
  pub edited : Bool
  pub ecdsa : List ℕ

unfoldable pub generate_each : Host → KeyMaker → List ℕ → Made → Made
unfolding generate_seed_from_ed_key
generate_each h g [] m = m
generate_each h g (ed_key ∷ ed_keys) m =
    if contains m.known ed_key
    then generate_each h g ed_keys m
    else elim (generate_seed_from_ed_key h g ed_key) [
      | none ↦ record m { fine = false }
      | some seed ↦ generate_each h g ed_keys (record m {
        known = ed_key ∷ m.known;
        edited = true;
        ecdsa = g.ecdsa_generate seed m.ecdsa;
      })
    ]

abbrev pub begin : Ring → Made
begin r = record {
  fine = true;
  known = get_keys_set_from_local_storage r.stored_keys;
  edited = false;
  ecdsa = r.ecdsa_keys;
}

abbrev pub keep : Ring → Made → Ring
keep r m = record {
  ecdsa_keys = m.ecdsa;
  stored_keys = if m.fine && m.edited then some m.known else r.stored_keys;
}

-- whether the keys are made without a panic, and the ring after it
unfoldable pub generate_keys : Host → KeyMaker → Ring → Bool × Ring
unfolding generate_each
generate_keys h g r =
    let m = generate_each h g g.ed25519_public_keys (begin r) in (m.fine, keep r m)

-- the keystore with the keys of the ring
abbrev pub with_keys : Keystore → Ring → Keystore
with_keys k r = record k { ecdsa_public_keys = r.ecdsa_keys }

-- A batch: keys are made before each request, and a panic there ends the batch.
unfoldable pub work_batch :
    Host
    → KeyMaker
    → Keystore
    → State
    → List DetachRequest
    → Ring
    → List DetachInternalData × Bool × Ring
unfolding generate_keys
work_batch h g k s [] n = ([], true, n)
work_batch h g k s (r ∷ rs) n =
    let (fine, m) = generate_keys h g n in
    let (out, done, l) = work_batch h g k s rs m in
    if fine
    then elim (process_request h (with_keys k m) s r) [
      | sent d ↦ (d ∷ out, done, l)
      | skipped ↦ (out, done, l)
      | batch_failed ↦ ([], false, m)
      | panicked ↦ ([], false, m)
    ]
    else ([], false, m)

unfoldable pub offchain_worker :
    Host → KeyMaker → Keystore → State → Ring → List DetachInternalData × State × Ring
unfolding work_batch
offchain_worker h g k s n = elim s.offchain_requests [
  | none ↦ ([], s, n)
  | some requests ↦
      let (out, done, m) = work_batch h g k s requests n in
      (out, if done then record s { offchain_requests = some [] } else s, m)
]
