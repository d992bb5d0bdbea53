-- ===== src/Protos/LeavingTests.antt =====
-- The theorems on Proto-Fragments that leave the chain, and on the listing with details, at
-- concrete inputs.
use clamor.Detach.Calls as Pending
use clamor.Samples.{no_detach}
use clamor.Protos.Tests.{chain, query}
use clamor.Exec.{insert}
use clamor.Protos.Types.{Proto, Chain, owner_eq}
use clamor.Protos.Calls.{detach}
use clamor.Protos.Query.{GetProtosParams, filter_proto, list_protos}
use clamor.Detach.Types.{ethereum_goerli, chain_eq}
use clamor.Accounts.Types.{external_id_eq}
use clamor.Protos.Listing.{wrong_length, hash, Hex, HexLaws, found, get_protos}
use clamor.Protos.ListingLaws.{shown, get_protos-entries}
use clamor.Json.{get_field, object, Fields}
use clamor.Base.{◌≡◌, refl, true, false, none, some, [], ◌∷◌, contains, nat_eq, bytes_eq, pair_eq}
use clamor.Host.{Bytes, Hash256}

-- Proto-Fragment 50 has left the chain.
abbrev pub left_chain : Chain
left_chain = record chain {
  detach = record no_detach {
    detached_hashes =
        insert (λ k. none) 50 (record { chain = ethereum_goerli; owner = 4 ∷ []; nonce = 1 });
  };
}

-- the chain whose worker has the key of an authority
abbrev ready : Chain
ready = record chain { detach = record no_detach { ethereum_authorities = 8 ∷ [] } }

-- a text of one character for each hash
abbrev sample_hex : Hex
sample_hex = record {
  hash_text = λ k. k ∷ [];
  text_hash = λ text. elim text [ [] ↦ wrong_length | k ∷ rest ↦ hash k ];
  account_text = λ a. a ∷ [];
  h160_text = λ e. e ∷ [];
  u256_text = λ n. n ∷ [];
}

sample-HexLaws : HexLaws sample_hex
sample-HexLaws = record { text_hash-hash_text = λ k. refl }

abbrev detailed : GetProtosParams
detailed = record query { return_owners = true }

get_protos-entries_example :
    (m : Fields) × (get_protos sample_hex (3 ∷ []) chain.protos detailed ≡ found (object m))
    × ((k : Hash256) → contains (50 ∷ []) k ≡ false → get_field (k ∷ []) m ≡ none)
    × ((k : Hash256)
        → contains (50 ∷ []) k ≡ true
        → (p : Proto) × (e : Fields) × (chain.protos.protos k ≡ some p)
          × (get_field (k ∷ []) m ≡ some (object e))
          × ((name : Bytes) → get_field name e ≡ shown sample_hex chain.protos detailed p name))
unfolding list_protos filter_proto
get_protos-entries_example =
    get_protos-entries sample_hex sample-HexLaws chain.protos detailed (3 ∷ []) (50 ∷ []) refl refl
