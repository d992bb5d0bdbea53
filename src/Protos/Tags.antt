-- ===== src/Protos/Tags.antt =====
-- pallets/protos/src/lib.rs: tags and metadata keys are stored once, under an index of their own.
use clamor.Protos.Types.{State, owner_eq}
use clamor.Base.{ℕ, none, some, List, [], ◌∷◌, nat_eq, bytes_eq, pair_eq}
use clamor.Exec.{insert}
use clamor.Host.{Bytes, add_u64}

-- The index of a tag, which is allotted if the tag is new.
unfoldable pub intern_tag : Bytes → State → ℕ × State
intern_tag tag s = elim (s.tags tag) [
  | some index ↦ (index, s)
  | none ↦
      let next_index = add_u64 s.tags_index 1 in
      (next_index, record s { tags = insert s.tags tag next_index; tags_index = next_index })
]

-- `tags.iter().map(…).collect()`
unfoldable pub intern_tags : List Bytes → State → List ℕ × State
intern_tags [] s = ([], s)
intern_tags (tag ∷ rest) s =
    let (index, t) = intern_tag tag s in
    let (indices, u) = intern_tags rest t in (index ∷ indices, u)

unfoldable pub intern_meta_key : Bytes → State → ℕ × State
intern_meta_key key s = elim (s.meta_keys key) [
  | some index ↦ (index, s)
  | none ↦
      let next_index = add_u64 s.meta_keys_index 1 in
      (
        next_index,
        record s { meta_keys = insert s.meta_keys key next_index; meta_keys_index = next_index },
      )
]
