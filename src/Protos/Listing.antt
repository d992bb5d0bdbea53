-- ===== src/Protos/Listing.antt =====
-- pallets/protos/src/lib.rs: the JSON that `get_protos` builds from the list of Proto-Fragments.
use clamor.Protos.Types.{evm, LinkedAsset, erc721, ProtoOwner, user, external_asset, Proto, State}
use clamor.Protos.Query.{GetProtosParams, is_nil, list_protos}
use clamor.Json.{set_field, is_utf8, Json, null, number, string, object, Fields, end, field}
use clamor.Base.{ℕ, ◌≡◌, Bool, not, ◌||◌, Option, none, some, List, [], ◌∷◌, ◌++◌, if◌then◌else◌}
use clamor.Host.{Bytes, AccountId, Hash256, H160, Categories, ascii}

-- `hex::decode` and the conversion to 32 bytes
pub data HashText : Type 0 where
  not_hex wrong_length : HashText
  hash : Hash256 → HashText

-- the crate `hex`, and the hexadecimal format of the crate `primitive-types`
pub record Hex : Type 0 where
  pub hash_text : Hash256 → Bytes
  pub text_hash : Bytes → HashText
  pub account_text : AccountId → Bytes
  pub h160_text : H160 → Bytes
  pub u256_text : ℕ → Bytes

-- what is encoded is decoded
pub record HexLaws (x : Hex) : Type 0 where
  pub text_hash-hash_text : (k : Hash256) → x.text_hash (x.hash_text k) ≡ hash k

-- the messages of `Err`
pub data QueryError : Type 0 where
  owner_not_found not_converted not_decoded no_proto no_map : QueryError

pub data Listed {ℓ} (A : Type ℓ) : Type ℓ where
  found : A → Listed A
  failed : QueryError → Listed A

abbrev pub cost_json : Option ℕ → Json
cost_json none = null
cost_json (some n) = number n

abbrev pub asset_json : Hex → LinkedAsset → Json
asset_json x (erc721 contract token_id (evm signature block chain_id)) = object (
    field (ascii "type") (string (ascii "erc721")) (
      field (ascii "value")
        (object (
          field (ascii "contract") (string (ascii "0x" ++ x.h160_text contract)) (
            field (ascii "token_id") (string (ascii "0x" ++ x.u256_text token_id))
              (field (ascii "chain_id") (string (ascii "0x" ++ x.u256_text chain_id)) end))))
        end))

abbrev pub owner_json : Hex → ProtoOwner → Json
owner_json x (user a) = object (
    field (ascii "type") (string (ascii "internal"))
      (field (ascii "value") (string (x.account_text a)) end))
owner_json x (external_asset asset) = object (
    field (ascii "type") (string (ascii "external"))
      (field (ascii "value") (asset_json x asset) end))

unfoldable pub metadata_json : Hex → State → Proto → Bytes → Json
metadata_json x s proto key = elim (s.meta_keys key) [
  | none ↦ null
  | some index ↦ elim (proto.metadata index) [
    | none ↦ null
    | some data_hash ↦ string (x.hash_text data_hash)
  ]
]

-- one entry for each key that is asked for and is UTF-8
unfoldable pub add_metadata : Hex → State → Proto → List Bytes → Fields → Fields
add_metadata x s proto [] m = m
add_metadata x s proto (key ∷ keys) m =
    add_metadata x s proto keys
      (if is_utf8 key then set_field key (metadata_json x s proto key) m else m)

abbrev pub add_owner : Hex → Bool → Proto → Fields → Fields
add_owner x wanted proto m =
    if wanted then set_field (ascii "owner") (owner_json x proto.owner) m else m

-- what is said of one Proto-Fragment
unfoldable pub details : Hex → State → GetProtosParams → Proto → Fields → Fields
details x s params proto m = add_metadata x s proto params.metadata_keys (
    add_owner x params.return_owners proto
      (set_field (ascii "include_cost") (cost_json proto.include_cost) m))

abbrev pub fill_proto : Hex → State → GetProtosParams → Json → Option Proto → Listed Json
fill_proto x s params v none = failed no_proto
fill_proto x s params (object m) (some proto) = found (object (details x s params proto m))
fill_proto x s params v (some proto) = failed no_map

abbrev pub fill_hash : Hex → State → GetProtosParams → Json → HashText → Listed Json
fill_hash x s params v not_hex = failed not_decoded
fill_hash x s params v wrong_length = failed not_converted
fill_hash x s params v (hash k) = fill_proto x s params v (s.protos k)

-- one round of the loop over the map
unfoldable pub fill_one : Hex → State → GetProtosParams → Bytes → Json → Listed Json
fill_one x s params id v = fill_hash x s params v (x.text_hash id)

abbrev pub and_then : Bytes → Listed Json → Listed Fields → Listed Fields
and_then id (failed e) rest = failed e
and_then id (found v) (failed e) = failed e
and_then id (found v) (found m) = found (field id v m)

unfoldable pub fill : Hex → State → GetProtosParams → Fields → Listed Fields
unfolding fill_one
fill x s params end = found end
fill x s params (field id v rest) = and_then id (fill_one x s params id v) (fill x s params rest)

-- an empty object for each hash
unfoldable pub empty_entries : Hex → List Hash256 → Fields → Fields
empty_entries x [] m = m
empty_entries x (k ∷ ks) m = empty_entries x ks (set_field (x.hash_text k) (object end) m)

abbrev pub wants_details : GetProtosParams → Bool
wants_details params = params.return_owners || not (is_nil params.metadata_keys)

-- `get_protos`, up to the text that serde_json makes of the object
unfoldable pub get_protos : Hex → List Categories → State → GetProtosParams → Listed Json
unfolding empty_entries fill
get_protos x category_keys s params = elim (list_protos category_keys s params) [
  | none ↦ failed owner_not_found
  | some hashes ↦
      let map = empty_entries x hashes end in
      if wants_details params
      then elim (fill x s params map) [ failed e ↦ failed e | found m ↦ found (object m) ]
      else found (object map)
]
