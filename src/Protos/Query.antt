-- ===== src/Protos/Query.antt =====
-- pallets/protos/src/lib.rs: `filter_proto`, and the selection that `get_protos` makes.
use clamor.Protos.Types.{user, Proto, State, owner_eq}
use clamor.Base.{
  ℕ, Bool, true, false, not, ◌&&◌, ◌||◌, Option, none, some, List, [], ◌∷◌, ◌++◌, reverse,
  if◌then◌else◌, is_some, ◌==◌, filter, all, any, take, drop, contains, nat_eq, bytes_eq, pair_eq,
}
use clamor.Host.{Bytes, AccountId, Hash256, Categories}

pub record GetProtosParams : Type 0 where
  pub desc : Bool
  pub from : ℕ
  pub limit : ℕ
  pub metadata_keys : List Bytes
  pub owner : Option AccountId
  pub return_owners : Bool
  pub categories : List Categories
  pub tags : List Bytes
  pub available : Option Bool

abbrev pub is_available : Option Bool → Option ℕ → Bool
is_available none cost = true
is_available (some true) cost = is_some cost
is_available (some false) cost = not (is_some cost)

abbrev pub has_tag : State → Proto → Bytes → Bool
has_tag s proto tag = elim (s.tags tag) [ none ↦ false | some index ↦ contains proto.tags index ]

abbrev pub is_nil {ℓ} : {A : Type ℓ} → List A → Bool
is_nil [] = true
is_nil (x ∷ xs) = false

unfoldable pub filter_proto : State → List Bytes → List Categories → Option Bool → Hash256 → Bool
filter_proto s tags categories avail proto_id = elim (s.protos proto_id) [
  | none ↦ false
  | some proto ↦
      if is_available avail proto.include_cost
      then if is_nil categories || any (λ cat. cat == proto.category) categories
        then if is_nil tags then true else all (has_tag s proto) tags
        else false
      else false
]

abbrev pub order : Bool → List ℕ → List ℕ
order desc xs = if desc then reverse xs else xs

unfoldable pub selected : State → GetProtosParams → List Hash256 → List Hash256
selected s params hashes =
    filter (filter_proto s params.tags params.categories params.available)
      (order params.desc hashes)

abbrev pub page : GetProtosParams → List Hash256 → List Hash256
page params hashes = take params.limit (drop params.from hashes)

-- the hashes of the categories that are asked for, one category after the other
unfoldable pub by_categories : State → GetProtosParams → List Categories → List Hash256
by_categories s params [] = []
by_categories s params (category ∷ rest) =
    let others = by_categories s params rest in
    if not (is_nil params.categories) && not (contains params.categories category)
    then others
    else elim (s.protos_by_category category) [
      | none ↦ others
      | some hashes ↦ selected s params hashes ++ others
    ]

-- The list `list_protos_final`; `none` is the error "Owner not found". `category_keys` is what
-- `iter_keys` of the category index yields, in the order of the storage trie.
unfoldable pub list_protos : List Categories → State → GetProtosParams → Option (List Hash256)
unfolding selected by_categories
list_protos category_keys s params = elim params.owner [
  | some owner ↦ elim (s.protos_by_owner (user owner)) [
    | none ↦ none
    | some hashes ↦ some (page params (selected s params hashes))
  ]
  | none ↦ some (page params (by_categories s params (order params.desc category_keys)))
]
