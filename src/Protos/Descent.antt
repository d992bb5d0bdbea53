-- ===== src/Protos/Descent.antt =====
-- What becomes of a stored Proto-Fragment: it stays, with its origin and its patches.
use clamor.Exec.{StorageMap, Origin}
use clamor.Protos.Stakes.{on_finalize}
use clamor.Protos.Types.{ProtoOwner, user, ProtoPatch, Proto, State, Chain, owner_eq}
use clamor.Protos.Keeps.{dispatch-keeps}
use clamor.Protos.References.{WritesAt, write_transfer-WritesAt, write_metadata-WritesAt}
use clamor.Protos.Referring.{write_upload-WritesAt, after_patch, write_patch-WritesAt}
use clamor.Protos.Effects.{current}
use clamor.Protos.Atomic.{Extrinsic, dispatch}
use clamor.Protos.Runs.{
  stake-SameIndex, unstake-SameIndex, detach-SameIndex, drop_unlinked-SameIndex,
}
use clamor.Detach.Types.{chain_eq}
use clamor.Base.{
  ℕ, ◌≡◌, refl, sym, ap, subst, ◌∙◌, inl, inr, Option, some, List, [], ◌∷◌, ◌++◌, append-nil,
  append_assoc, arith, Bool-cases, ◌==◌, ==_iff, nat_eq, bytes_eq, pair_eq,
}
use clamor.Host.{Bytes, Hash256, Host, System}

-- `q` is what a Proto-Fragment `p` has become
pub record Descends (p q : Proto) : Type 0 where
  pub block : q.block ≡ p.block
  pub creator : q.creator ≡ p.creator
  pub category : q.category ≡ p.category
  pub references : q.references ≡ p.references
  pub added : List ProtoPatch
  pub patches : q.patches ≡ p.patches ++ added

Descends-refl : (p : Proto) → Descends p p
Descends-refl p = record {
  block = refl;
  creator = refl;
  category = refl;
  references = refl;
  added = [];
  patches = sym (append-nil p.patches);
}

Descends-trans : (p q r : Proto) → Descends p q → Descends q r → Descends p r
Descends-trans p q r v w = record {
  block = w.block ∙ v.block;
  creator = w.creator ∙ v.creator;
  category = w.category ∙ v.category;
  references = w.references ∙ v.references;
  added = v.added ++ w.added;
  patches = w.patches ∙ ap (λ ps. ps ++ w.added) v.patches ∙ append_assoc p.patches v.added w.added;
}

-- what is stored at `k` as `p` has become something that is stored there
pub record Become (k : Hash256) (p : Proto) (t : State) : Type 0 where
  pub proto : Proto
  pub stored : t.protos k ≡ some proto
  pub descends : Descends p proto

abbrev pub Preserves : State → State → Type 0
Preserves s t = (k : Hash256) (p : Proto) → s.protos k ≡ some p → Become k p t

pub Preserves-refl : (s : State) → Preserves s s
Preserves-refl s k p e = record { proto = p; stored = e; descends = Descends-refl p }

pub Preserves-trans : (s t u : State) → Preserves s t → Preserves t u → Preserves s u
Preserves-trans s t u v w k p e =
    let b = v k p e in
    let d = w k b.proto b.stored in
    record {
      proto = d.proto;
      stored = d.stored;
      descends = Descends-trans p b.proto d.proto b.descends d.descends;
    }

SameProtos-Preserves : (s t : State) → t.protos ≡ s.protos → Preserves s t
SameProtos-Preserves s t same k p e = record {
  proto = p;
  stored = rw same e;
  descends = Descends-refl p;
}

WritesAt-Preserves :
    (j : Hash256) (q : Proto) (s t : State)
    → WritesAt j q s t
    → ((p : Proto) → s.protos j ≡ some p → Descends p q)
    → Preserves s t
WritesAt-Preserves j q s t w d k p e = elim (Bool-cases (j == k)) [
  | inl same ↦ record {
    proto = q;
    stored = ground (arith, w k, same);
    descends = d p (ground (arith, ==_iff j k, same, e));
  }
  | inr other ↦ record {
    proto = p;
    stored = ground (arith, w k, other, e);
    descends = Descends-refl p;
  }
]

after_patch-Descends :
    (h : Host) (sys : System) (n : ℕ) (k : Hash256) (cost : Option ℕ) (refs : List Hash256)
    (tags : Option (List Bytes)) (bytes : Bytes) (p : Proto) (s : State)
    → Descends p (after_patch h sys n k cost refs tags bytes p s)
unfolding after_patch
after_patch-Descends h sys n k cost refs tags [] p s = record {
  block = refl;
  creator = refl;
  category = refl;
  references = refl;
  added = [];
  patches = sym (append-nil p.patches);
}
after_patch-Descends h sys n k cost refs tags (b ∷ bs) p s = record {
  block = refl;
  creator = refl;
  category = refl;
  references = refl;
  added = _;
  patches = refl;
}

-- a Proto-Fragment that has a new owner or new metadata
touched-Descends :
    (p : Proto) (o : ProtoOwner) (m : StorageMap ℕ Hash256)
    → Descends p (record p { owner = o; metadata = m })
touched-Descends p o m = record {
  block = refl;
  creator = refl;
  category = refl;
  references = refl;
  added = [];
  patches = sym (append-nil p.patches);
}

-- `WritesAt-Preserves`, where a Proto-Fragment is stored that the new one descends from
rewritten-Preserves :
    (k : Hash256) (p q : Proto) (s t : State)
    → WritesAt k q s t
    → s.protos k ≡ some p
    → Descends p q
    → Preserves s t
rewritten-Preserves k p q s t w e d =
    WritesAt-Preserves k q s t w
      (λ r f. let same : p ≡ r = ground (arith, e, f) in subst (λ x. Descends x q) same d)

pub dispatch-Preserves :
    (h : Host) (sys : System) (o : Origin) (x : Extrinsic) (c : Chain)
    → Preserves c.protos (dispatch h sys o x c).1.protos
dispatch-Preserves h sys o x c =
    dispatch-keeps h sys (λ (d : Chain). Preserves c.protos d.protos) o x c
      (Preserves-refl c.protos)
      (record {
        uploads = λ a refs category tags asset cost bytes new _.
            WritesAt-Preserves (h.blake2_256 bytes) _ c.protos _
              (write_upload-WritesAt h sys (current sys) a refs category tags asset cost bytes
                c.protos)
              (λ p e. absurd (ground (arith, new, e)));
        patches = λ a k cost refs tags bytes p _ e _ _.
            rewritten-Preserves k p _ c.protos _
              (write_patch-WritesAt h sys (current sys) k cost refs tags bytes p c.protos) e
              (after_patch-Descends h sys (current sys) k cost refs tags bytes p c.protos);
        transfers = λ a k b p _ e _.
            rewritten-Preserves k p _ c.protos _ (write_transfer-WritesAt k p.owner b p c.protos e)
              e (touched-Descends p (user b) p.metadata);
        sets_metadata = λ a k key bytes _ w.
            rewritten-Preserves k w.proto _ c.protos _
              (write_metadata-WritesAt h (current sys) k key bytes w.proto c.protos w.stored)
              w.stored (touched-Descends w.proto w.proto.owner _);
        detaches = λ o k chain target.
            SameProtos-Preserves c.protos _ (detach-SameIndex o k chain target c).0;
        stakes =
            λ o k amount. SameProtos-Preserves c.protos _ (stake-SameIndex h sys o k amount c).0;
        unstakes = λ o k. SameProtos-Preserves c.protos _ (unstake-SameIndex h sys o k c).0;
      })

pub on_finalize-Preserves : (c : Chain) → Preserves c.protos (on_finalize c).protos
unfolding on_finalize
on_finalize-Preserves c =
    SameProtos-Preserves c.protos _ (drop_unlinked-SameIndex c.accounts.pending_unlinks c.protos).0
