-- ===== src/Protos/References.antt =====
-- What a Proto-Fragment refers to is there: the references of stored Proto-Fragments and of their
-- patches are stored, and what is stored stays.
use clamor.Protos.InclusionLaws.{
  MayInclude, own, free, staked, AllMayInclude, check_staking_req_iff,
}
use clamor.Protos.Types.{ProtoOwner, user, ProtoPatch, Proto, State, owner_eq}
use clamor.Protos.Tags.{intern_meta_key}
use clamor.Protos.Inclusion.{check_staking_req}
use clamor.Protos.Calls.{write_transfer, write_metadata}
use clamor.Protos.Index.{intern_meta_key-SameIndex}
use clamor.Base.{
  ℕ, ◌≡◌, subst, inl, inr, true, none, some, List, [], ◌∷◌, ◌++◌, arith, if◌then◌else◌, Bool-cases,
  is_some, ◌==◌, ==_iff, nat_eq, bytes_eq, pair_eq,
}
use clamor.Exec.{insert}
use clamor.Host.{Bytes, AccountId, Hash256, Host}

abbrev pub IsStored : State → Hash256 → Type 0
IsStored s k = is_some (s.protos k) ≡ true

abbrev pub AllStored : State → List Hash256 → Type 0
AllStored s [] = Unit
AllStored s (k ∷ ks) = IsStored s k × AllStored s ks

abbrev pub PatchesStored : State → List ProtoPatch → Type 0
PatchesStored s [] = Unit
PatchesStored s (q ∷ qs) = AllStored s q.references × PatchesStored s qs

-- every reference of a stored Proto-Fragment, and of its patches, is stored
pub record IsReferential (s : State) : Type 0 where
  pub references : (k : Hash256) (p : Proto) → s.protos k ≡ some p → AllStored s p.references
  pub patches : (k : Hash256) (p : Proto) → s.protos k ≡ some p → PatchesStored s p.patches

-- what is stored in `s` is stored in `t`
abbrev Extends : State → State → Type 0
Extends s t = (k : Hash256) → IsStored s k → IsStored t k

AllStored-Extends :
    (s t : State) (ks : List Hash256) → Extends s t → AllStored s ks → AllStored t ks
AllStored-Extends s t [] e v = tt
AllStored-Extends s t (k ∷ ks) e (v, vs) = (e k v, AllStored-Extends s t ks e vs)

PatchesStored-Extends :
    (s t : State) (qs : List ProtoPatch) → Extends s t → PatchesStored s qs → PatchesStored t qs
PatchesStored-Extends s t [] e v = tt
PatchesStored-Extends s t (q ∷ qs) e (v, vs) =
    (AllStored-Extends s t q.references e v, PatchesStored-Extends s t qs e vs)

pub PatchesStored-append :
    (s : State) (qs : List ProtoPatch) (q : ProtoPatch)
    → PatchesStored s qs
    → AllStored s q.references
    → PatchesStored s (qs ++ q ∷ [])
PatchesStored-append s [] q v w = (w, tt)
PatchesStored-append s (r ∷ qs) q (v, vs) w = (v, PatchesStored-append s qs q vs w)

-- `t` is `s` with the Proto-Fragment `p` written at `k`
abbrev pub WritesAt : Hash256 → Proto → State → State → Type 0
WritesAt k p s t = (j : Hash256) → t.protos j ≡ (if k == j then some p else s.protos j)

-- `t` refers only to what it stores, and stores what `s` stores
pub record Grows (s t : State) : Type 0 where
  pub referential : IsReferential t
  pub extends : (k : Hash256) → IsStored s k → IsStored t k

pub WritesAt-Grows :
    (k : Hash256) (p : Proto) (s t : State)
    → WritesAt k p s t
    → AllStored s p.references
    → PatchesStored s p.patches
    → IsReferential s
    → Grows s t
WritesAt-Grows k p s t w refs ps v =
    let extends : Extends s t = λ j e. ground (arith, w j, e) in
    let written : (j : Hash256) (q : Proto) → (k == j) ≡ true → t.protos j ≡ some q → p ≡ q =
      λ j q same e. ground (arith, w j, same, e) in
    record {
      referential = record {
        references = λ j q e. elim (Bool-cases (k == j)) [
          | inl same ↦
              subst (λ (r : Proto). AllStored t r.references) (written j q same e)
                (AllStored-Extends s t p.references extends refs)
          | inr other ↦
              AllStored-Extends s t q.references extends
                (v.references j q (ground (arith, w j, other, e)))
        ];
        patches = λ j q e. elim (Bool-cases (k == j)) [
          | inl same ↦
              subst (λ (r : Proto). PatchesStored t r.patches) (written j q same e)
                (PatchesStored-Extends s t p.patches extends ps)
          | inr other ↦
              PatchesStored-Extends s t q.patches extends
                (v.patches j q (ground (arith, w j, other, e)))
        ];
      };
      extends = extends;
    }

pub SameProtos-Grows : (s t : State) → t.protos ≡ s.protos → IsReferential s → Grows s t
SameProtos-Grows s t e v =
    let extends : Extends s t = λ j p. ground (arith, e, p) in
    record {
      referential = record {
        references =
            λ k p q. AllStored-Extends s t p.references extends (v.references k p (rw e at q));
        patches = λ k p q. PatchesStored-Extends s t p.patches extends (v.patches k p (rw e at q));
      };
      extends = extends;
    }

MayInclude-IsStored : (s : State) (a : AccountId) (k : Hash256) → MayInclude s a k → IsStored s k
MayInclude-IsStored s a k (own p e o) = ground arith
MayInclude-IsStored s a k (free p e o) = ground arith
MayInclude-IsStored s a k (staked p cost amount block e o t le) = ground arith

AllMayInclude-AllStored :
    (s : State) (a : AccountId) (ks : List Hash256) → AllMayInclude s a ks → AllStored s ks
AllMayInclude-AllStored s a [] v = tt
AllMayInclude-AllStored s a (k ∷ ks) (v, vs) =
    (MayInclude-IsStored s a k v, AllMayInclude-AllStored s a ks vs)

pub checked-AllStored :
    (s : State) (a : AccountId) (ks : List Hash256)
    → check_staking_req s ks a ≡ none
    → AllStored s ks
checked-AllStored s a ks e = AllMayInclude-AllStored s a ks ((check_staking_req_iff s ks a).0 e)

pub write_transfer-WritesAt :
    (k : Hash256) (o : ProtoOwner) (b : AccountId) (p : Proto) (s : State)
    → s.protos k ≡ some p
    → WritesAt k (record p { owner = user b }) s (write_transfer k o b s)
unfolding write_transfer
write_transfer-WritesAt k o b p s e j = ground (arith, ==_iff k j, e)

pub write_metadata-WritesAt :
    (h : Host) (n : ℕ) (k : Hash256) (key bytes : Bytes) (p : Proto) (s : State)
    → s.protos k ≡ some p
    → WritesAt k
        (record p { metadata = insert p.metadata (intern_meta_key key s).0 (h.blake2_256 bytes) })
        s
        (write_metadata h n k key bytes s)
unfolding write_metadata
write_metadata-WritesAt h n k key bytes p s e j =
    ground (arith, ==_iff k j, e, (intern_meta_key-SameIndex key s).0)
