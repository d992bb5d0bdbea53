-- ===== src/Protos/Referring.antt =====
-- What is stored refers only to what is stored, whatever calls are made.
use clamor.Exec.{Origin}
use clamor.Protos.Keeps.{dispatch-keeps}
use clamor.Protos.Types.{LinkedAsset, Proto, State, Chain, owner_eq}
use clamor.Protos.Tags.{intern_tags}
use clamor.Protos.Inclusion.{check_staking_req}
use clamor.Protos.Calls.{
  first_owner, store_proto, write_upload, is_empty, new_tag_indices, index_unless_empty,
  patched_proto, write_patch,
}
use clamor.Protos.Stakes.{on_finalize}
use clamor.Protos.Index.{
  intern_tags-SameIndex, new_tag_indices-SameIndex, index_unless_empty-SameIndex,
}
use clamor.Protos.References.{
  IsReferential, PatchesStored-append, WritesAt, Grows, WritesAt-Grows, SameProtos-Grows,
  checked-AllStored, write_transfer-WritesAt, write_metadata-WritesAt,
}
use clamor.Protos.Effects.{current}
use clamor.Protos.Atomic.{Extrinsic, dispatch}
use clamor.Protos.Runs.{
  stake-SameIndex, unstake-SameIndex, detach-SameIndex, drop_unlinked-SameIndex,
}
use clamor.Detach.Types.{chain_eq}
use clamor.Base.{
  ℕ, ◌≡◌, refl, inl, inr, Option, none, some, List, [], arith, Bool-cases, ==_iff, nat_eq, bytes_eq,
  pair_eq,
}
use clamor.Host.{Bytes, AccountId, Hash256, Categories, Host, System}

-- what an upload stores
abbrev pub new_proto :
    System → AccountId → List Hash256 → Categories → List ℕ → Option LinkedAsset → Option ℕ → Proto
new_proto sys a refs category indices asset cost = record {
  block = sys.block_number;
  patches = [];
  include_cost = cost;
  creator = a;
  owner = first_owner a asset;
  references = refs;
  category = category;
  tags = indices;
  metadata = λ k. none;
  accounts_info = record { active_accounts = 0; lifetime_accounts = 0 };
}

pub write_upload-WritesAt :
    (h : Host) (sys : System) (n : ℕ) (a : AccountId) (refs : List Hash256) (category : Categories)
    (tags : List Bytes) (asset : Option LinkedAsset) (cost : Option ℕ) (bytes : Bytes) (s : State)
    → WritesAt
        (h.blake2_256 bytes)
        (new_proto sys a refs category (intern_tags tags s).0 asset cost)
        s
        (write_upload h sys n a refs category tags asset cost bytes s)
unfolding write_upload store_proto
write_upload-WritesAt h sys n a refs category tags asset cost bytes s j =
    ground (arith, (intern_tags-SameIndex tags s).0)

write_upload-Grows :
    (h : Host) (sys : System) (n : ℕ) (a : AccountId) (refs : List Hash256) (category : Categories)
    (tags : List Bytes) (asset : Option LinkedAsset) (cost : Option ℕ) (bytes : Bytes) (s : State)
    → check_staking_req s refs a ≡ none
    → IsReferential s
    → Grows s (write_upload h sys n a refs category tags asset cost bytes s)
write_upload-Grows h sys n a refs category tags asset cost bytes s checked v =
    WritesAt-Grows (h.blake2_256 bytes)
      (new_proto sys a refs category (intern_tags tags s).0 asset cost) s _
      (write_upload-WritesAt h sys n a refs category tags asset cost bytes s)
      (checked-AllStored s a refs checked) tt v

module _ (h : Host) (sys : System) (n : ℕ) (k : Hash256) (cost : Option ℕ) (refs : List Hash256)
    (tags : Option (List Bytes)) (bytes : Bytes) (p : Proto) (s : State) where
  -- the tags of the Proto-Fragment after a patch
  unfoldable indices : List ℕ
  indices = (new_tag_indices tags (index_unless_empty n bytes (h.blake2_256 bytes) s) p.tags).0

  unfoldable pub after_patch : Proto
  unfolding indices
  after_patch = patched_proto sys bytes (h.blake2_256 bytes) refs cost indices p

  pub write_patch-WritesAt :
      WritesAt k after_patch s (write_patch h sys n k cost refs tags bytes p s)
  unfolding write_patch after_patch indices
  write_patch-WritesAt j =
      let t = index_unless_empty n bytes (h.blake2_256 bytes) s in
      ground (
        arith,
        ==_iff k j,
        (new_tag_indices-SameIndex tags t p.tags).0,
        (index_unless_empty-SameIndex n bytes (h.blake2_256 bytes) s).0,
      )

  write_patch-Grows :
      (a : AccountId)
      → s.protos k ≡ some p
      → check_staking_req s refs a ≡ none
      → IsReferential s
      → Grows s (write_patch h sys n k cost refs tags bytes p s)
  unfolding after_patch
  write_patch-Grows a e checked v =
      WritesAt-Grows k after_patch s _ write_patch-WritesAt (v.references k p e)
        (elim (Bool-cases (is_empty bytes)) [
          | inl empty ↦ rw empty (v.patches k p e)
          | inr filled ↦ rw filled (
              PatchesStored-append s p.patches _ (v.patches k p e)
                (checked-AllStored s a refs checked))
        ])
        v

pub dispatch-Grows :
    (h : Host) (sys : System) (o : Origin) (x : Extrinsic) (c : Chain)
    → IsReferential c.protos
    → Grows c.protos (dispatch h sys o x c).1.protos
dispatch-Grows h sys o x c v =
    let same : (s : State) → s.protos ≡ c.protos.protos → Grows c.protos s =
      λ s e. SameProtos-Grows c.protos s e v in
    dispatch-keeps h sys (λ (d : Chain). Grows c.protos d.protos) o x c (same c.protos refl)
      (record {
        uploads = λ a refs category tags asset cost bytes _ checked.
            write_upload-Grows h sys (current sys) a refs category tags asset cost bytes c.protos
              checked v;
        patches = λ a k cost refs tags bytes p _ e _ checked.
            write_patch-Grows h sys (current sys) k cost refs tags bytes p c.protos a e checked v;
        transfers = λ a k b p _ e _.
            WritesAt-Grows k _ c.protos _ (write_transfer-WritesAt k p.owner b p c.protos e)
              (v.references k p e) (v.patches k p e) v;
        sets_metadata = λ a k key bytes _ w.
            WritesAt-Grows k _ c.protos _
              (write_metadata-WritesAt h (current sys) k key bytes w.proto c.protos w.stored)
              (v.references k w.proto w.stored) (v.patches k w.proto w.stored) v;
        detaches = λ o k chain target. same _ (detach-SameIndex o k chain target c).0;
        stakes = λ o k amount. same _ (stake-SameIndex h sys o k amount c).0;
        unstakes = λ o k. same _ (unstake-SameIndex h sys o k c).0;
      })

pub on_finalize-Grows : (c : Chain) → IsReferential c.protos → Grows c.protos (on_finalize c).protos
unfolding on_finalize
on_finalize-Grows c v =
    SameProtos-Grows c.protos _ (drop_unlinked-SameIndex c.accounts.pending_unlinks c.protos).0 v
