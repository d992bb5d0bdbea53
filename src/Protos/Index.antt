-- ===== src/Protos/Index.antt =====
-- The lists by owner and by category hold each Proto-Fragment exactly once, where it belongs.
use clamor.Protos.Types.{ProtoOwner, Proto, State, owner_eq, user, LinkedAsset}
use clamor.Protos.Tags.{intern_tag, intern_tags, intern_meta_key}
use clamor.Protos.Calls.{
  store_proto, write_transfer, write_upload, index_unless_empty, write_patch, write_metadata,
  new_tag_indices,
}
use clamor.Detach.Types.{chain_eq}
use clamor.Base.{
  ℕ, ◌≡◌, refl, Option, none, some, List, [], ◌∷◌, arith, if◌then◌else◌, ◌==◌, count, nat_eq,
  bytes_eq, pair_eq, ==_iff, without, count-append, count-without, ap, ◌∙◌,
}
use clamor.Exec.{items, mutate, StorageMap, insert}
use clamor.Host.{Bytes, Hash256, Categories, AccountId, Host, System}

-- how often a Proto-Fragment belongs in the list of an owner, or of a category
abbrev pub owner_entries : Option Proto → ProtoOwner → ℕ
owner_entries none o = 0
owner_entries (some p) o = if p.owner == o then 1 else 0

abbrev pub category_entries : Option Proto → Categories → ℕ
category_entries none k = 0
category_entries (some p) k = if p.category == k then 1 else 0

pub record IsIndexed (s : State) : Type 0 where
  pub by_owner :
      (h : Hash256) (o : ProtoOwner)
      → count h (items s.protos_by_owner o) ≡ owner_entries (s.protos h) o
  pub by_category :
      (h : Hash256) (k : Categories)
      → count h (items s.protos_by_category k) ≡ category_entries (s.protos h) k

-- `t` has the Proto-Fragments and the lists of `s`.
abbrev pub SameIndex : State → State → Type 0
SameIndex s t =
    (t.protos ≡ s.protos)
    × (t.protos_by_owner ≡ s.protos_by_owner)
    × (t.protos_by_category ≡ s.protos_by_category)

pub SameIndex-IsIndexed : (s t : State) → SameIndex s t → IsIndexed s → IsIndexed t
SameIndex-IsIndexed s t (p, q, r) v = record {
  by_owner = λ h o. rw (p, q) (v.by_owner h o);
  by_category = λ h k. rw (p, r) (v.by_category h k);
}

intern_tag-SameIndex : (b : Bytes) (s : State) → SameIndex s (intern_tag b s).1
unfolding intern_tag
intern_tag-SameIndex b s = ground arith

pub intern_tags-SameIndex : (bs : List Bytes) (s : State) → SameIndex s (intern_tags bs s).1
unfolding intern_tags
intern_tags-SameIndex [] s = (refl, refl, refl)
intern_tags-SameIndex (b ∷ bs) s =
    ground (arith, intern_tag-SameIndex b s, intern_tags-SameIndex bs (intern_tag b s).1)

pub intern_meta_key-SameIndex : (b : Bytes) (s : State) → SameIndex s (intern_meta_key b s).1
unfolding intern_meta_key
intern_meta_key-SameIndex b s = ground arith

-- A new Proto-Fragment is entered once in each list.
store_proto-IsIndexed :
    (k : Hash256) (p : Proto) (s : State)
    → s.protos k ≡ none
    → IsIndexed s
    → IsIndexed (store_proto k p s)
unfolding store_proto
store_proto-IsIndexed k p s fresh v = record {
  by_owner = λ h o. ground (
    arith,
    v.by_owner h o,
    ==_iff p.owner o,
    count-append h (items s.protos_by_owner p.owner) (k ∷ []),
  );
  by_category = λ h g.
      ground
        (arith, v.by_category h g, count-append h (items s.protos_by_category p.category) (k ∷ []));
}

pub write_transfer-IsIndexed :
    (k : Hash256) (p : Proto) (b : AccountId) (s : State)
    → s.protos k ≡ some p
    → IsIndexed s
    → IsIndexed (write_transfer k p.owner b s)
unfolding write_transfer
write_transfer-IsIndexed k p b s e v = record {
  by_owner = λ h o. ground (
    arith,
    v.by_owner h o,
    v.by_owner h p.owner,
    v.by_owner h (user b),
    ==_iff p.owner o,
    ==_iff p.owner (user b),
    ==_iff (user b) o,
    count-without k h (items s.protos_by_owner p.owner),
    count-append h (items (mutate s.protos_by_owner p.owner (without k)) (user b)) (k ∷ []),
  );
  by_category = λ h g. ground (arith, v.by_category h g);
}

-- replacing a Proto-Fragment by one of the same owner and category
put-IsIndexed :
    (k : Hash256) (p q : Proto) (s : State)
    → s.protos k ≡ some p
    → q.owner ≡ p.owner
    → q.category ≡ p.category
    → IsIndexed s
    → IsIndexed (record s { protos = insert s.protos k q })
put-IsIndexed k p q s e same_owner same_category v = record {
  by_owner = λ h o. ground (arith, v.by_owner h o);
  by_category = λ h g. ground (arith, v.by_category h g);
}

pub new_tag_indices-SameIndex :
    (tags : Option (List Bytes)) (s : State) (old : List ℕ)
    → SameIndex s (new_tag_indices tags s old).1
new_tag_indices-SameIndex none s old = (refl, refl, refl)
new_tag_indices-SameIndex (some tags) s old = intern_tags-SameIndex tags s

pub index_unless_empty-SameIndex :
    (n : ℕ) (bytes : Bytes) (k : Hash256) (s : State) → SameIndex s (index_unless_empty n bytes k s)
index_unless_empty-SameIndex n [] k s = (refl, refl, refl)
index_unless_empty-SameIndex n (b ∷ bs) k s = (refl, refl, refl)

pub write_patch-IsIndexed :
    (h : Host) (sys : System) (n : ℕ) (k : Hash256) (cost : Option ℕ) (references : List Hash256)
    (tags : Option (List Bytes)) (bytes : Bytes) (p : Proto) (s : State)
    → s.protos k ≡ some p
    → IsIndexed s
    → IsIndexed (write_patch h sys n k cost references tags bytes p s)
unfolding write_patch
write_patch-IsIndexed h sys n k cost references tags bytes p s e v =
    let s₁ = index_unless_empty n bytes (h.blake2_256 bytes) s in
    let t = (new_tag_indices tags s₁ p.tags).1 in
    let same = new_tag_indices-SameIndex tags s₁ p.tags in
    let same₁ = index_unless_empty-SameIndex n bytes (h.blake2_256 bytes) s in
    let w = SameIndex-IsIndexed s₁ t same (SameIndex-IsIndexed s s₁ same₁ v) in
    let at : t.protos k ≡ some p =
      ap (λ (m : StorageMap Hash256 Proto). m k) (same.0 ∙ same₁.0) ∙ e in
    SameIndex-IsIndexed _ _ (refl, refl, refl) (put-IsIndexed k p _ t at refl refl w)

pub write_metadata-IsIndexed :
    (h : Host) (n : ℕ) (k : Hash256) (key bytes : Bytes) (p : Proto) (s : State)
    → s.protos k ≡ some p
    → IsIndexed s
    → IsIndexed (write_metadata h n k key bytes s)
unfolding write_metadata intern_meta_key
write_metadata-IsIndexed h n k key bytes p s e v = record {
  by_owner = λ j o. ground (arith, v.by_owner j o);
  by_category = λ j g. ground (arith, v.by_category j g);
}

pub write_upload-IsIndexed :
    (h : Host) (sys : System) (n : ℕ) (a : AccountId) (references : List Hash256)
    (category : Categories) (tags : List Bytes) (asset : Option LinkedAsset) (cost : Option ℕ)
    (bytes : Bytes) (s : State)
    → s.protos (h.blake2_256 bytes) ≡ none
    → IsIndexed s
    → IsIndexed (write_upload h sys n a references category tags asset cost bytes s)
unfolding write_upload
write_upload-IsIndexed h sys n a references category tags asset cost bytes s e v =
    let t = (intern_tags tags s).1 in
    let same = intern_tags-SameIndex tags s in
    let fresh : t.protos (h.blake2_256 bytes) ≡ none =
      ap (λ (m : StorageMap Hash256 Proto). m (h.blake2_256 bytes)) same.0 ∙ e in
    SameIndex-IsIndexed _ _ (refl, refl, refl)
      (store_proto-IsIndexed (h.blake2_256 bytes) _ t fresh (SameIndex-IsIndexed s t same v))
