-- ===== src/Protos/Calls.antt =====
-- pallets/protos/src/lib.rs: `upload`, `patch`, `transfer`, `set_metadata` and `detach`.
use clamor.Protos.Types.{
  LinkedAsset, user, external_asset, ProtoPatch, Proto, Event, uploaded, patched, metadata_changed,
  transferred, Error, systematic_failure, proto_not_found, proto_exists, detached, unauthorized,
  State, Chain, owner_eq, ProtoOwner,
}
use clamor.Protos.Tags.{intern_tags, intern_meta_key}
use clamor.Protos.Inclusion.{check_staking_req, require, is_owned_by}
use clamor.Detach.Types.{SupportedChains, chain_eq}
use clamor.Base.{
  ℕ, ◌%◌, ◌^◌, Bool, true, false, not, Option, none, some, List, [], ◌∷◌, ◌++◌, if◌then◌else◌,
  length, without, nat_eq, bytes_eq, pair_eq,
}
use clamor.Exec.{
  Origin, Exec, Call, ◌>>=◌, ◌>>◌, return, ensure, ok_or, gets, modify, ensure_signed, contains_key,
  insert, mutate, append,
}
use clamor.Host.{Bytes, AccountId, Hash256, Categories, ascii, be_bytes, Host, System}

-- "z", then the prefix 0155a0e40220 and the hash in base58
unfoldable pub cid : Host → Hash256 → Bytes
cid h hash = ascii "z" ++ h.to_base58 (0x01 ∷ 0x55 ∷ 0xa0 ∷ 0xe4 ∷ 0x02 ∷ 0x20 ∷ be_bytes 32 hash)

abbrev pub modify_protos : (State → State) → Call Chain Error
modify_protos f = modify (λ c. record c { protos = f c.protos })

abbrev pub log_event : Event → State → State
log_event e s = record s { events = s.events ++ e ∷ [] }

abbrev pub index_data : ℕ → Bytes → Hash256 → State → State
index_data extrinsic bytes hash s = record s {
  indexed = s.indexed ++ (extrinsic, length bytes % 2 ^ 32, hash) ∷ [];
}

abbrev pub first_owner : AccountId → Option LinkedAsset → ProtoOwner
first_owner who none = user who
first_owner who (some asset) = external_asset asset

-- the three maps that a new Proto-Fragment is entered in
unfoldable pub store_proto : Hash256 → Proto → State → State
store_proto proto_hash proto s = record s {
  protos = insert s.protos proto_hash proto;
  protos_by_category = append s.protos_by_category proto.category proto_hash;
  protos_by_owner = append s.protos_by_owner proto.owner proto_hash;
}

-- `upload` from "Write STATE from now" on
unfoldable pub write_upload :
    Host
    → System
    → ℕ
    → AccountId
    → List Hash256
    → Categories
    → List Bytes
    → Option LinkedAsset
    → Option ℕ
    → Bytes
    → State
    → State
unfolding store_proto
write_upload h sys extrinsic who references category tags linked_asset include_cost bytes s =
    let proto_hash = h.blake2_256 bytes in
    let (indices, t) = intern_tags tags s in
    log_event (uploaded proto_hash (cid h proto_hash)) (
      index_data extrinsic bytes proto_hash (
        store_proto proto_hash
          (record {
            block = sys.block_number;
            patches = [];
            include_cost = include_cost;
            creator = who;
            owner = first_owner who linked_asset;
            references = references;
            category = category;
            tags = indices;
            metadata = λ k. none;
            accounts_info = record { active_accounts = 0; lifetime_accounts = 0 };
          })
          t))

unfoldable pub upload :
    Host
    → System
    → Origin
    → List Hash256
    → Categories
    → List Bytes
    → Option LinkedAsset
    → Option ℕ
    → Bytes
    → Call Chain Error
upload h sys origin references category tags linked_asset include_cost bytes = do
  who ← ensure_signed origin
  ensure (not (contains_key (← gets (λ c. c.protos.protos)) (h.blake2_256 bytes))) proto_exists
  extrinsic_index ← ok_or sys.extrinsic_index systematic_failure
  require (check_staking_req (← gets (λ c. c.protos)) references who)
  modify_protos (
      write_upload h sys extrinsic_index who references category tags linked_asset include_cost
        bytes)

-- The checks that `patch`, `transfer`, `set_metadata` and `detach` begin with: the Proto-Fragment
-- is there, the caller owns it, and it has not left the chain.
unfoldable pub owned_proto : AccountId → Hash256 → Exec Chain Error Proto
owned_proto who proto_hash = do
  proto ← ok_or (← gets (λ c. c.protos.protos proto_hash)) proto_not_found
  ensure (is_owned_by who proto.owner) unauthorized
  ensure (not (contains_key (← gets (λ c. c.detach.detached_hashes)) proto_hash)) detached
  return proto

abbrev pub is_empty : Bytes → Bool
is_empty [] = true
is_empty (b ∷ bs) = false

-- the tags that replace the old ones, if they are given
abbrev pub new_tag_indices : Option (List Bytes) → State → List ℕ → List ℕ × State
new_tag_indices none s old = (old, s)
new_tag_indices (some tags) s old = intern_tags tags s

abbrev pub index_unless_empty : ℕ → Bytes → Hash256 → State → State
index_unless_empty extrinsic bytes hash s =
    if is_empty bytes then s else index_data extrinsic bytes hash s

-- the Proto-Fragment after a patch: empty data adds none
abbrev pub patched_proto :
    System → Bytes → Hash256 → List Hash256 → Option ℕ → List ℕ → Proto → Proto
patched_proto sys bytes data_hash new_references include_cost indices proto =
    let new_patch : ProtoPatch = record {
      block = sys.block_number;
      data_hash = data_hash;
      references = new_references;
    } in
    record proto {
      patches = if is_empty bytes then proto.patches else proto.patches ++ new_patch ∷ [];
      include_cost = include_cost;
      tags = indices;
    }

-- `patch` from "Write STATE from now" on
unfoldable pub write_patch :
    Host
    → System
    → ℕ
    → Hash256
    → Option ℕ
    → List Hash256
    → Option (List Bytes)
    → Bytes
    → Proto
    → State
    → State
write_patch h sys extrinsic proto_hash include_cost new_references new_tags bytes proto s =
    let data_hash = h.blake2_256 bytes in
    let (indices, t) =
      new_tag_indices new_tags (index_unless_empty extrinsic bytes data_hash s) proto.tags in
    log_event (patched proto_hash (cid h data_hash)) (record t {
      protos =
          insert t.protos proto_hash
            (patched_proto sys bytes data_hash new_references include_cost indices proto);
    })

unfoldable pub patch :
    Host
    → System
    → Origin
    → Hash256
    → Option ℕ
    → List Hash256
    → Option (List Bytes)
    → Bytes
    → Call Chain Error
unfolding owned_proto
patch h sys origin proto_hash include_cost new_references new_tags bytes = do
  who ← ensure_signed origin
  proto ← owned_proto who proto_hash
  extrinsic_index ← ok_or sys.extrinsic_index systematic_failure
  require (check_staking_req (← gets (λ c. c.protos)) new_references who)
  modify_protos (
      write_patch h sys extrinsic_index proto_hash include_cost new_references new_tags bytes proto)

-- `transfer` from "WRITING STATE FROM NOW" on
unfoldable pub write_transfer : Hash256 → ProtoOwner → AccountId → State → State
write_transfer proto_hash old_owner new_owner s =
    let left = mutate s.protos_by_owner old_owner (without proto_hash) in
    log_event (transferred proto_hash new_owner) (record s {
      protos_by_owner = append left (user new_owner) proto_hash;
      protos = mutate s.protos proto_hash (λ p. record p { owner = user new_owner });
    })

unfoldable pub transfer : Origin → Hash256 → AccountId → Call Chain Error
unfolding owned_proto
transfer origin proto_hash new_owner = do
  who ← ensure_signed origin
  proto ← owned_proto who proto_hash
  modify_protos (write_transfer proto_hash proto.owner new_owner)

-- `set_metadata` from the index of its key on
unfoldable pub write_metadata : Host → ℕ → Hash256 → Bytes → Bytes → State → State
write_metadata h extrinsic proto_hash metadata_key bytes s =
    let data_hash = h.blake2_256 bytes in
    let (key_index, t) = intern_meta_key metadata_key s in
    log_event (metadata_changed proto_hash metadata_key) (
      index_data extrinsic bytes data_hash (record t {
        protos =
            mutate t.protos proto_hash
              (λ p. record p { metadata = insert p.metadata key_index data_hash });
      }))

unfoldable pub set_metadata : Host → System → Origin → Hash256 → Bytes → Bytes → Call Chain Error
unfolding owned_proto
set_metadata h sys origin proto_hash metadata_key bytes = do
  who ← ensure_signed origin
  proto ← owned_proto who proto_hash
  extrinsic_index ← ok_or sys.extrinsic_index systematic_failure
  modify_protos (write_metadata h extrinsic_index proto_hash metadata_key bytes)

unfoldable pub detach : Origin → Hash256 → SupportedChains → Bytes → Call Chain Error
unfolding owned_proto
detach origin proto_hash target_chain target_account = do
  who ← ensure_signed origin
  proto ← owned_proto who proto_hash
  modify (λ c. record c {
    detach = record c.detach {
      detach_requests =
          c.detach.detach_requests
          ++ record {
            hash = proto_hash;
            target_chain = target_chain;
            target_account = target_account;
          }
            ∷ [];
    };
  })
