-- ===== src/Protos/Frozen.antt =====
-- A Proto-Fragment that has left the chain: no call changes it any more.
use clamor.Exec.{StorageMap, Origin}
use clamor.Protos.Types.{LinkedAsset, ProtoOwner, Proto, State, Chain, owner_eq}
use clamor.Protos.Calls.{
  store_proto, write_upload, index_unless_empty, write_patch, write_transfer, write_metadata,
  detach,
}
use clamor.Protos.Stakes.{stake, unstake, on_finalize, drop_unlinked}
use clamor.Protos.Index.{
  intern_tags-SameIndex, intern_meta_key-SameIndex, new_tag_indices-SameIndex,
  index_unless_empty-SameIndex,
}
use clamor.Protos.Effects.{current, Controls}
use clamor.Protos.Atomic.{Extrinsic, dispatch}
use clamor.Protos.Runs.{Action, call, block_end, apply, run, drop_unlinked-SameIndex}
use clamor.Detach.Types.{SupportedChains, chain_eq}
use clamor.Accounts.Types.{external_id_eq}
use clamor.Protos.Keeps.{dispatch-keeps}
use clamor.Base.{
  ℕ, ◌≡◌, ap, ◌∙◌, ◌≢◌, true, Option, some, List, [], ◌∷◌, arith, is_some, ==_iff, nat_eq, bytes_eq,
  pair_eq,
}
use clamor.Host.{Bytes, AccountId, Hash256, Balance, Categories, Host, System}

-- the storage maps of Proto-Fragments are alike at `j`
abbrev SameAt : Hash256 → State → State → Type 0
SameAt j s t = t.protos j ≡ s.protos j

at_same : (j : Hash256) (s t : State) → t.protos ≡ s.protos → SameAt j s t
at_same j s t e = ap (λ (m : StorageMap Hash256 Proto). m j) e

write_transfer-SameAt :
    (k j : Hash256) (o : ProtoOwner) (b : AccountId) (s : State)
    → k ≢ j
    → SameAt j s (write_transfer k o b s)
unfolding write_transfer
write_transfer-SameAt k j o b s n = ground (arith, ==_iff k j)

write_metadata-SameAt :
    (h : Host) (x : ℕ) (k j : Hash256) (key bytes : Bytes) (s : State)
    → k ≢ j
    → SameAt j s (write_metadata h x k key bytes s)
unfolding write_metadata
write_metadata-SameAt h x k j key bytes s n =
    ground (arith, ==_iff k j, at_same j s _ (intern_meta_key-SameIndex key s).0)

write_patch-SameAt :
    (h : Host) (sys : System) (x : ℕ) (k j : Hash256) (cost : Option ℕ) (references : List Hash256)
    (tags : Option (List Bytes)) (bytes : Bytes) (p : Proto) (s : State)
    → k ≢ j
    → SameAt j s (write_patch h sys x k cost references tags bytes p s)
unfolding write_patch
write_patch-SameAt h sys x k j cost references tags bytes p s n =
    let t = index_unless_empty x bytes (h.blake2_256 bytes) s in
    ground (
      arith,
      ==_iff k j,
      at_same j t _ (new_tag_indices-SameIndex tags t p.tags).0,
      at_same j s t (index_unless_empty-SameIndex x bytes (h.blake2_256 bytes) s).0,
    )

write_upload-SameAt :
    (h : Host) (sys : System) (x : ℕ) (a : AccountId) (references : List Hash256)
    (category : Categories) (tags : List Bytes) (asset : Option LinkedAsset) (cost : Option ℕ)
    (bytes : Bytes) (s : State) (j : Hash256)
    → h.blake2_256 bytes ≢ j
    → SameAt j s (write_upload h sys x a references category tags asset cost bytes s)
unfolding write_upload store_proto
write_upload-SameAt h sys x a references category tags asset cost bytes s j n =
    ground (arith, ==_iff (h.blake2_256 bytes) j, at_same j s _ (intern_tags-SameIndex tags s).0)

-- the Proto-Fragment `k` is stored as `p` and has left the chain
pub record IsFrozen (k : Hash256) (p : Proto) (c : Chain) : Type 0 where
  pub stored : c.protos.protos k ≡ some p
  pub detached : is_some (c.detach.detached_hashes k) ≡ true

module _ (k : Hash256) (p : Proto) where
  -- what is written leaves the Proto-Fragment alone
  rewritten :
      (c : Chain) (s : State)
      → IsFrozen k p c
      → SameAt k c.protos s
      → IsFrozen k p (record c { protos = s })
  rewritten c s v e = record { stored = e ∙ v.stored; detached = v.detached }

  -- who controls a Proto-Fragment controls another one
  Controls-other :
      (c : Chain) (a : AccountId) (j : Hash256) → IsFrozen k p c → Controls c a j → j ≢ k
  Controls-other c a j v w e = ground (arith, v.detached, w.attached, e)

  -- the calls and the end of a block that read neither map
  detach-IsFrozen :
      (o : Origin) (j : Hash256) (chain : SupportedChains) (target : Bytes) (c : Chain)
      → IsFrozen k p c
      → IsFrozen k p (detach o j chain target c).1
  unfolding detach
  detach-IsFrozen o j chain target c v = ground (arith, v.stored, v.detached)

  stake-IsFrozen :
      (h : Host) (sys : System) (o : Origin) (j : Hash256) (amount : Balance) (c : Chain)
      → IsFrozen k p c
      → IsFrozen k p (stake h sys o j amount c).1
  unfolding stake
  stake-IsFrozen h sys o j amount c v = ground (arith, v.stored, v.detached)

  unstake-IsFrozen :
      (h : Host) (sys : System) (o : Origin) (j : Hash256) (c : Chain)
      → IsFrozen k p c
      → IsFrozen k p (unstake h sys o j c).1
  unfolding unstake
  unstake-IsFrozen h sys o j c v = ground (arith, v.stored, v.detached)

  pub dispatch-IsFrozen :
      (h : Host) (sys : System) (o : Origin) (x : Extrinsic) (c : Chain)
      → IsFrozen k p c
      → IsFrozen k p (dispatch h sys o x c).1
  dispatch-IsFrozen h sys o x c v = dispatch-keeps h sys (IsFrozen k p) o x c v (record {
    uploads = λ a references category tags asset cost bytes new _. rewritten c _ v (
        write_upload-SameAt h sys (current sys) a references category tags asset cost bytes c.protos
          k (λ q. ground (arith, new, v.stored, q)));
    patches = λ a j cost references tags bytes q _ _ w _. rewritten c _ v (
        write_patch-SameAt h sys (current sys) j k cost references tags bytes q c.protos
          (Controls-other c a j v w));
    transfers = λ a j b q _ _ w.
        rewritten c _ v (write_transfer-SameAt j k q.owner b c.protos (Controls-other c a j v w));
    sets_metadata = λ a j key bytes _ w.
        rewritten c _ v
          (write_metadata-SameAt h (current sys) j k key bytes c.protos (Controls-other c a j v w));
    detaches = λ o j chain target. detach-IsFrozen o j chain target c v;
    stakes = λ o j amount. stake-IsFrozen h sys o j amount c v;
    unstakes = λ o j. unstake-IsFrozen h sys o j c v;
  })

  pub on_finalize-IsFrozen : (c : Chain) → IsFrozen k p c → IsFrozen k p (on_finalize c)
  unfolding on_finalize
  on_finalize-IsFrozen c v = record {
    stored =
        at_same k c.protos (drop_unlinked c.accounts.pending_unlinks c.protos)
          (drop_unlinked-SameIndex c.accounts.pending_unlinks c.protos).0
        ∙ v.stored;
    detached = v.detached;
  }

  -- A Proto-Fragment that is marked as detached stays marked and stays exactly as it is, with its
  -- owner, patches, tags and metadata, whatever calls of the pallet are made and blocks end.
  pub run-IsFrozen :
      (h : Host) (xs : List Action) (c : Chain) → IsFrozen k p c → IsFrozen k p (run h xs c)
  unfolding run apply
  run-IsFrozen h [] c v = v
  run-IsFrozen h (call sys o x ∷ xs) c v =
      run-IsFrozen h xs (dispatch h sys o x c).1 (dispatch-IsFrozen h sys o x c v)
  run-IsFrozen h (block_end ∷ xs) c v = run-IsFrozen h xs (on_finalize c) (on_finalize-IsFrozen c v)
