-- ===== src/Protos/TagLaws.antt =====
-- Tags are interned: each has an index of its own, which never changes.
use clamor.Protos.Types.{State, owner_eq}
use clamor.Protos.Tags.{intern_tag, intern_tags}
use clamor.Base.{
  ℕ, ◌+◌, ◌≤◌, ◌<◌, ◌≡◌, some, arith, refl, List, [], ◌∷◌, map, ==_iff, ==_refl, length, nat_eq,
  bytes_eq, pair_eq,
}
use clamor.Host.{Bytes, u64_mod}

-- Indices are at most the count of tags, and no two tags share one.
pub record IsInterned (s : State) : Type 0 where
  pub bounded : (b : Bytes) (i : ℕ) → s.tags b ≡ some i → i ≤ s.tags_index
  pub distinct : (b d : Bytes) (i : ℕ) → s.tags b ≡ some i → s.tags d ≡ some i → b ≡ d

intern_tag-IsInterned :
    (b : Bytes) (s : State)
    → s.tags_index + 1 < u64_mod
    → IsInterned s
    → IsInterned (intern_tag b s).1
unfolding intern_tag
intern_tag-IsInterned b s room v = record {
  bounded = λ d i p. ground (arith, v.bounded d i, ==_iff b d);
  distinct = λ d e i p q.
      ground (arith, v.distinct d e i, v.bounded d i, v.bounded e i, ==_iff b d, ==_iff b e);
}

tags_index-intern_tag :
    (b : Bytes) (s : State)
    → s.tags_index + 1 < u64_mod
    → (intern_tag b s).1.tags_index ≤ s.tags_index + 1
unfolding intern_tag
tags_index-intern_tag b s room = ground arith

-- Interning keeps the invariant while the 64-bit counter has room for the new tags.
pub intern_tags-IsInterned :
    (bs : List Bytes) (s : State)
    → s.tags_index + length bs < u64_mod
    → IsInterned s
    → IsInterned (intern_tags bs s).1
unfolding intern_tags
intern_tags-IsInterned [] s room v = v
intern_tags-IsInterned (b ∷ bs) s room v =
    intern_tags-IsInterned bs (intern_tag b s).1
      (omega (arith, tags_index-intern_tag b s (omega arith)))
      (intern_tag-IsInterned b s (omega arith) v)

intern_tag-keeps :
    (b d : Bytes) (i : ℕ) (s : State) → s.tags d ≡ some i → (intern_tag b s).1.tags d ≡ some i
unfolding intern_tag
intern_tag-keeps b d i s e = ground (arith, ==_iff b d)

-- An index that was allotted stays.
pub intern_tags-keeps :
    (bs : List Bytes) (d : Bytes) (i : ℕ) (s : State)
    → s.tags d ≡ some i
    → (intern_tags bs s).1.tags d ≡ some i
unfolding intern_tags
intern_tags-keeps [] d i s e = e
intern_tags-keeps (b ∷ bs) d i s e =
    intern_tags-keeps bs d i (intern_tag b s).1 (intern_tag-keeps b d i s e)

intern_tag-stored : (b : Bytes) (s : State) → (intern_tag b s).1.tags b ≡ some (intern_tag b s).0
unfolding intern_tag
intern_tag-stored b s = ground (arith, ==_refl b)

-- The indices that interning returns are those under which the tags are found afterwards.
pub intern_tags-stored :
    (bs : List Bytes) (s : State) → map (intern_tags bs s).1.tags bs ≡ map some (intern_tags bs s).0
unfolding intern_tags
intern_tags-stored [] s = refl
intern_tags-stored (b ∷ bs) s =
    let t = (intern_tag b s).1 in
    cc
      (intern_tags-keeps bs b (intern_tag b s).0 t (intern_tag-stored b s), intern_tags-stored bs t)
