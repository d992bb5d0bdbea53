-- ===== src/Node/Rpc.antt =====
-- pallets/protos/rpc/src/lib.rs and the runtime API that it calls (runtime/src/lib.rs): how the node
-- answers `protos_getProtos`. The client, the text that serde_json makes of a value, and the format
-- of errors are arguments.
use clamor.Protos.Listing as Listing
use clamor.Protos.Types.{State}
use clamor.Protos.Query.{GetProtosParams}
use clamor.Protos.Listing.{Hex, QueryError, Listed, found, failed}
use clamor.Json.{is_utf8, Json}
use clamor.Base.{
  ℕ, ◌≡◌, refl, Bool, true, Option, none, some, List, [], ◌∷◌, map, inl, inr, arith, Bool-cases,
  contains, ==_iff, nat_eq, bytes_eq,
}
use clamor.Host.{Bytes, AccountId, Categories, ascii}

-- a `String`
record Text : Type 0 where
  into_bytes : Bytes
  valid : is_utf8 into_bytes ≡ true

abbrev from_utf8 : Bytes → Option Text
from_utf8 b = elim (Bool-cases (is_utf8 b)) [
  | inl v ↦ some (record { into_bytes = b; valid = v })
  | inr _ ↦ none
]

unfoldable empty_text : Text
unfolding is_utf8
empty_text = record { into_bytes = []; valid = refl }

-- `GetProtosParams<AccountId, String>`
record TextParams : Type 0 where
  desc : Bool
  from : ℕ
  limit : ℕ
  metadata_keys : List Text
  owner : Option AccountId
  return_owners : Bool
  categories : List Categories
  tags : List Text
  available : Option Bool

unfoldable into_params : TextParams → GetProtosParams
into_params p = record {
  metadata_keys = map (λ (s : Text). s.into_bytes) p.metadata_keys;
  desc = p.desc;
  from = p.from;
  limit = p.limit;
  owner = p.owner;
  return_owners = p.return_owners;
  categories = p.categories;
  tags = map (λ (s : Text). s.into_bytes) p.tags;
  available = p.available;
}

-- `get_protos` of the runtime API, with what serde_json makes of the object
unfoldable runtime_get_protos :
    (Json → Bytes) → Hex → List Categories → State → GetProtosParams → Listed Bytes
runtime_get_protos to_string x category_keys s params =
    elim (Listing.get_protos x category_keys s params) [
      | failed e ↦ failed e
      | found v ↦ found (to_string v)
    ]

-- what calling the runtime API gives: an error of the client's, or the pallet's result
data ApiResult (E : Type 0) : Type 0 where
  api_error : E → ApiResult E
  answered : Listed Bytes → ApiResult E

-- the node's client, for hashes of blocks and the errors of the runtime API
record Client (H E : Type 0) : Type 0 where
  best_hash : H
  get_protos : H → GetProtosParams → ApiResult E
  debug_api_error : E → Bytes
  debug_query_error : QueryError → Bytes

-- a custom error of JSON-RPC
record ErrorObject : Type 0 where
  code : ℕ
  message : Bytes
  data_text : Bytes

data RpcResult : Type 0 where
  rpc_ok : Text → RpcResult
  rpc_error : ErrorObject → RpcResult

abbrev runtime_error : ℕ
runtime_error = 1

abbrev runtime_error_into_rpc_err : Bytes → RpcResult
runtime_error_into_rpc_err debug =
    rpc_error (record { code = runtime_error; message = ascii "Runtime error"; data_text = debug })

abbrev text_or_empty : Bytes → Text
text_or_empty list_bytes = elim (from_utf8 list_bytes) [ none ↦ empty_text | some s ↦ s ]

abbrev unwrap_or : {H : Type 0} → H → Option H → H
unwrap_or best none = best
unwrap_or best (some hash) = hash

unfoldable get_protos : {H E : Type 0} → Client H E → TextParams → Option H → RpcResult
unfolding into_params
get_protos client params at =
    elim (client.get_protos (unwrap_or client.best_hash at) (into_params params)) [
      | api_error e ↦ runtime_error_into_rpc_err (client.debug_api_error e)
      | answered (failed e) ↦ runtime_error_into_rpc_err (client.debug_query_error e)
      | answered (found list_bytes) ↦ rpc_ok (text_or_empty list_bytes)
    ]

-- Each key of metadata that a request names is UTF-8 in the parameters of the runtime API, so no
-- key that was asked for over RPC is left out of a listing for its encoding.
into_params-utf8 :
    (p : TextParams) (key : Bytes)
    → contains (into_params p).metadata_keys key ≡ true
    → is_utf8 key ≡ true
unfolding into_params
into_params-utf8 p key e = go p.metadata_keys e
  where
    go :
        (ks : List Text)
        → contains (map (λ (s : Text). s.into_bytes) ks) key ≡ true
        → is_utf8 key ≡ true
    go [] q = ground (arith, q)
    go (k ∷ ks) q = ground (arith, q, k.valid, ==_iff k.into_bytes key, go ks)

text_or_empty-into_bytes : (b : Bytes) → is_utf8 b ≡ true → (text_or_empty b).into_bytes ≡ b
text_or_empty-into_bytes b v = ground (arith, v)

-- If the client reads at each block the state of that block, then a request without a block whose
-- listing is found, and whose text is UTF-8, is answered with the text of the listing at the best
-- block.
get_protos-best :
    {H E : Type 0} (client : Client H E) (to_string : Json → Bytes) (x : Hex)
    (category_keys : H → List Categories) (state : H → State) (params : TextParams) (v : Json)
    → ((h : H) (p : GetProtosParams)
        → client.get_protos h p
          ≡ answered (runtime_get_protos to_string x (category_keys h) (state h) p))
    → Listing.get_protos x
        (category_keys client.best_hash)
        (state client.best_hash)
        (into_params params)
      ≡ found v
    → is_utf8 (to_string v) ≡ true
    → (t : Text) × (get_protos client params none ≡ rpc_ok t) × (t.into_bytes ≡ to_string v)
unfolding get_protos runtime_get_protos
get_protos-best client to_string x category_keys state params v reads listed valid = (
  text_or_empty (to_string v),
  ground (arith, reads client.best_hash (into_params params), listed),
  text_or_empty-into_bytes (to_string v) valid,
)
