-- ===== src/Protos/ListingLaws.antt =====
-- What `get_protos` shows: an entry for each Proto-Fragment of the list, with what was asked for.
use clamor.Protos.Types.{Proto, State, owner_eq}
use clamor.Protos.Query.{GetProtosParams, filter_proto, list_protos}
use clamor.Detach.Types.{chain_eq}
use clamor.Protos.Listing.{
  Hex, HexLaws, found, cost_json, owner_json, metadata_json, add_metadata, add_owner, details, fill,
  empty_entries, fill_one, wants_details, get_protos,
}
use clamor.Protos.QueryLaws.{passes, list_protos-filtered}
use clamor.Json.{
  set_field, get_field, get_field-set_field, is_utf8, Json, object, Fields, end, field,
}
use clamor.Base.{
  ◌≡◌, refl, ap, inl, inr, true, ◌&&◌, Option, none, some, List, [], ◌∷◌, arith, if◌then◌else◌,
  Bool-cases, Option-cases, is_some, ◌==◌, ==_iff, all, contains, nat_eq, bytes_eq, pair_eq, false,
}
use clamor.Host.{Bytes, Hash256, ascii, Categories}

-- What the entry of a Proto-Fragment has under a name: the metadata that are asked for go first.
abbrev pub shown : Hex → State → GetProtosParams → Proto → Bytes → Option Json
shown x s q p name =
    if contains q.metadata_keys name && is_utf8 name
    then some (metadata_json x s p name)
    else if q.return_owners && ascii "owner" == name
    then some (owner_json x p.owner)
    else if ascii "include_cost" == name
    then some (cost_json p.include_cost)
    else none

add_metadata-shown :
    (x : Hex) (s : State) (p : Proto) (keys : List Bytes) (m : Fields) (name : Bytes)
    → get_field name (add_metadata x s p keys m) ≡ (
        if contains keys name && is_utf8 name
        then some (metadata_json x s p name)
        else get_field name m)
unfolding add_metadata
add_metadata-shown x s p [] m name = refl
add_metadata-shown x s p (key ∷ keys) m name = ground (
  arith,
  add_metadata-shown x s p keys
      (if is_utf8 key then set_field key (metadata_json x s p key) m else m) name,
  get_field-set_field key name (metadata_json x s p key) m,
  ==_iff key name,
)

details-shown :
    (x : Hex) (s : State) (q : GetProtosParams) (p : Proto) (name : Bytes)
    → get_field name (details x s q p end) ≡ shown x s q p name
unfolding details get_field
details-shown x s q p name =
    let cost = set_field (ascii "include_cost") (cost_json p.include_cost) end in
    ground (
      arith,
      add_metadata-shown x s p q.metadata_keys (add_owner x q.return_owners p cost) name,
      get_field-set_field (ascii "owner") name (owner_json x p.owner) cost,
      get_field-set_field (ascii "include_cost") name (cost_json p.include_cost) end,
    )

module _ (x : Hex) (laws : HexLaws x) where
  hash_text-injective : (j k : Hash256) → x.hash_text j ≡ x.hash_text k → j ≡ k
  hash_text-injective j k e =
      cc (laws.text_hash-hash_text j, laws.text_hash-hash_text k, ap x.text_hash e)

  -- Texts of hashes are compared as the hashes are.
  hash_text-eq : (j k : Hash256) → (x.hash_text j == x.hash_text k) ≡ (j == k)
  hash_text-eq j k = ground (
    arith,
    ==_iff (x.hash_text j) (x.hash_text k),
    ==_iff j k,
    hash_text-injective j k,
    λ (e : j ≡ k). ap x.hash_text e,
  )

  empty_entries-get_field :
      (ks : List Hash256) (m : Fields) (k : Hash256)
      → get_field (x.hash_text k) (empty_entries x ks m)
        ≡ (if contains ks k then some (object end) else get_field (x.hash_text k) m)
  unfolding empty_entries
  empty_entries-get_field [] m k = refl
  empty_entries-get_field (j ∷ ks) m k = ground (
    arith,
    empty_entries-get_field ks (set_field (x.hash_text j) (object end) m) k,
    get_field-set_field (x.hash_text j) (x.hash_text k) (object end) m,
    hash_text-eq j k,
  )

  module _ (s : State) (q : GetProtosParams) where
    -- every entry is still empty and stands for a Proto-Fragment that is stored
    abbrev AllEmpty : Fields → Type 0
    AllEmpty end = Unit
    AllEmpty (field id v rest) =
        ((k : Hash256) × (p : Proto) × (id ≡ x.hash_text k)
          × (s.protos k ≡ some p)
          × (v ≡ object end))
        × AllEmpty rest

    set_field-AllEmpty :
        (k : Hash256) (p : Proto) (m : Fields)
        → s.protos k ≡ some p
        → AllEmpty m
        → AllEmpty (set_field (x.hash_text k) (object end) m)
    unfolding set_field
    set_field-AllEmpty k p end e a = ((k, p, refl, e, refl), tt)
    set_field-AllEmpty k p (field id v rest) e ((j, r, i, f, w), a) =
        elim (Bool-cases (id == x.hash_text k)) [
          | inl same ↦ rw same ((j, r, i, f, refl), a)
          | inr other ↦ rw other ((j, r, i, f, w), set_field-AllEmpty k p rest e a)
        ]

    empty_entries-AllEmpty :
        (ks : List Hash256) (m : Fields)
        → all (passes s q) ks ≡ true
        → AllEmpty m
        → AllEmpty (empty_entries x ks m)
    unfolding empty_entries filter_proto
    empty_entries-AllEmpty [] m e a = a
    empty_entries-AllEmpty (k ∷ ks) m e a = elim (Option-cases (s.protos k)) [
      | inl gone ↦ absurd (ground (arith, gone, e))
      | inr (p, there) ↦
          empty_entries-AllEmpty ks (set_field (x.hash_text k) (object end) m) (ground (arith, e))
            (set_field-AllEmpty k p m there a)
    ]

    listed_stored :
        (ks : List Hash256) (k : Hash256)
        → all (passes s q) ks ≡ true
        → contains ks k ≡ true
        → is_some (s.protos k) ≡ true
    unfolding filter_proto
    listed_stored [] k e c = ground (arith, c)
    listed_stored (j ∷ ks) k e c = ground (arith, listed_stored ks k, ==_iff j k, e, c)

    -- the entry that is filled in for a hash
    abbrev entry : Hash256 → Option Json
    entry k = elim (s.protos k) [ none ↦ none | some p ↦ some (object (details x s q p end)) ]

    fill_one-found :
        (k : Hash256) (p : Proto)
        → s.protos k ≡ some p
        → fill_one x s q (x.hash_text k) (object end) ≡ found (object (details x s q p end))
    unfolding fill_one
    fill_one-found k p e = ground (arith, laws.text_hash-hash_text k, e)

    fill-get_field :
        (m : Fields)
        → AllEmpty m
        → (f : Fields) × (fill x s q m ≡ found f)
          × ((k : Hash256)
              → get_field (x.hash_text k) f
                ≡ (if is_some (get_field (x.hash_text k) m) then entry k else none))
    unfolding fill get_field
    fill-get_field end a = (end, refl, λ k. refl)
    fill-get_field (field id v rest) ((j, p, i, e, w), a) =
        let (f, filled, reads) = fill-get_field rest a in
        (
          field id (object (details x s q p end)) f,
          (rw (i, w, fill_one-found j p e, filled) refl),
          λ k.
              ground
                (arith, reads k, ==_iff id (x.hash_text k), hash_text-eq j k, ==_iff j k, i, e),
        )

    -- Where the owner that is asked for has a list and details are asked for, the listing is an
    -- object: under the text of a hash that is not listed there is nothing, and under that of one
    -- that is listed there is an object that shows, of the Proto-Fragment stored under it, the
    -- metadata that are asked for, the owner if that is asked for, and the cost, the first of these
    -- that has the name. The crate `hex` decodes what it encodes.
    pub get_protos-entries :
        (category_keys : List Categories) (ks : List Hash256)
        → list_protos category_keys s q ≡ some ks
        → wants_details q ≡ true
        → (m : Fields) × (get_protos x category_keys s q ≡ found (object m))
          × ((k : Hash256) → contains ks k ≡ false → get_field (x.hash_text k) m ≡ none)
          × ((k : Hash256)
              → contains ks k ≡ true
              → (p : Proto) × (e : Fields) × (s.protos k ≡ some p)
                × (get_field (x.hash_text k) m ≡ some (object e))
                × ((name : Bytes) → get_field name e ≡ shown x s q p name))
    unfolding get_protos get_field
    get_protos-entries category_keys ks e wanted =
        let passing = (list_protos-filtered category_keys s q ks e).1 in
        let (m, filled, reads) =
          fill-get_field (empty_entries x ks end) (empty_entries-AllEmpty ks end passing tt) in
        (
          m,
          ground (arith, e, wanted, filled),
          λ k out. ground (arith, reads k, empty_entries-get_field ks end k, out),
          λ k listed. elim (Option-cases (s.protos k)) [
            | inl gone ↦ absurd (ground (arith, listed_stored ks k passing listed, gone))
            | inr (p, there) ↦ (
              p,
              details x s q p end,
              there,
              ground (arith, reads k, empty_entries-get_field ks end k, listed, there),
              details-shown x s q p,
            )
          ],
        )
