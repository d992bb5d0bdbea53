-- ===== src/Protos/Staking.antt =====
-- Every stake is listed under the account that made it, whatever calls are made.
use clamor.Exec.{items, Origin, root, none_origin, signed}
use clamor.Protos.Types.{LinkedAsset, State, Chain, owner_eq, Proto, ProtoOwner}
use clamor.Protos.Tags.{intern_tag, intern_tags, intern_meta_key}
use clamor.Protos.Calls.{
  write_upload, new_tag_indices, write_patch, index_unless_empty, write_transfer, write_metadata,
  detach,
}
use clamor.Protos.Stakes.{get_locked_frag_account, stake, unstake, on_finalize}
use clamor.Protos.Effects.{current}
use clamor.Protos.Atomic.{stake-IsAtomic, Extrinsic, dispatch}
use clamor.Protos.Runs.{Action, call, block_end, apply, run}
use clamor.Detach.Types.{chain_eq, SupportedChains}
use clamor.Protos.Keeps.{dispatch-keeps}
use clamor.Protos.Clearing.{StakesListed, drop_unlinked-StakesListed}
use clamor.Base.{
  ℕ, ◌≡◌, refl, sym, subst, inl, inr, false, ◌||◌, Option, none, some, List, [], ◌∷◌, ◌++◌, arith,
  if◌then◌else◌, Option-cases, ◌==◌, contains, without, nat_eq, bytes_eq, pair_eq, ◌∙◌,
}
use clamor.Host.{Bytes, AccountId, Hash256, Balance, Categories, Host, System}

contains-append :
    (k j : Hash256) (ks : List Hash256) → contains (ks ++ j ∷ []) k ≡ (contains ks k || j == k)
contains-append k j [] = ground arith
contains-append k j (i ∷ ks) = ground (arith, contains-append k j ks)

contains-without :
    (k j : Hash256) (ks : List Hash256)
    → contains (without j ks) k ≡ (if j == k then false else contains ks k)
contains-without k j [] = ground arith
contains-without k j (i ∷ ks) = ground (arith, contains-without k j ks)

stake_as-StakesListed :
    (h : Host) (sys : System) (a b : AccountId) (k : Hash256) (amount : Balance) (c : Chain)
    → get_locked_frag_account h a ≡ some b
    → StakesListed c.protos
    → StakesListed (stake h sys (signed a) k amount c).1.protos
unfolding stake
stake_as-StakesListed h sys a b k amount c locked v = record {
  at = λ j d e. ground (arith, v.at j d, contains-append j k (items c.protos.account_stakes b));
}

stake-StakesListed :
    (h : Host) (sys : System) (o : Origin) (k : Hash256) (amount : Balance) (c : Chain)
    → StakesListed c.protos
    → StakesListed (stake h sys o k amount c).1.protos
unfolding stake
stake-StakesListed h sys root k amount c v = v
stake-StakesListed h sys none_origin k amount c v = v
stake-StakesListed h sys (signed a) k amount c v =
    elim (Option-cases (get_locked_frag_account h a)) [
      | inl e ↦
          subst (λ (d : Chain). StakesListed d.protos)
            (sym (stake-IsAtomic h sys (signed a) k amount c (ground arith))) v
      | inr (b, e) ↦ stake_as-StakesListed h sys a b k amount c e v
    ]

unstake-StakesListed :
    (h : Host) (sys : System) (o : Origin) (k : Hash256) (c : Chain)
    → StakesListed c.protos
    → StakesListed (unstake h sys o k c).1.protos
unfolding unstake
unstake-StakesListed h sys root k c v = v
unstake-StakesListed h sys none_origin k c v = v
unstake-StakesListed h sys (signed a) k c v = record {
  at = λ j b e. ground (arith, v.at j b, contains-without j k (items c.protos.account_stakes a));
}

-- `t` has the stakes of `s` and their lists.
abbrev SameStakes : State → State → Type 0
SameStakes s t = (t.proto_stakes ≡ s.proto_stakes) × (t.account_stakes ≡ s.account_stakes)

SameStakes-StakesListed : (s t : State) → SameStakes s t → StakesListed s → StakesListed t
SameStakes-StakesListed s t (p, q) v = record { at = λ k a e. rw q (v.at k a (rw p at e)) }

intern_tags-SameStakes : (bs : List Bytes) (s : State) → SameStakes s (intern_tags bs s).1
unfolding intern_tags intern_tag
intern_tags-SameStakes [] s = (refl, refl)
intern_tags-SameStakes (b ∷ bs) s = ground (arith, intern_tags-SameStakes bs (intern_tag b s).1)

new_tag_indices-SameStakes :
    (tags : Option (List Bytes)) (s : State) (old : List ℕ)
    → SameStakes s (new_tag_indices tags s old).1
new_tag_indices-SameStakes none s old = (refl, refl)
new_tag_indices-SameStakes (some tags) s old = intern_tags-SameStakes tags s

write_upload-SameStakes :
    (h : Host) (sys : System) (n : ℕ) (a : AccountId) (references : List Hash256)
    (category : Categories) (tags : List Bytes) (asset : Option LinkedAsset) (cost : Option ℕ)
    (bytes : Bytes) (s : State)
    → SameStakes s (write_upload h sys n a references category tags asset cost bytes s)
unfolding write_upload
write_upload-SameStakes h sys n a references category tags asset cost bytes s =
    intern_tags-SameStakes tags s

index_unless_empty-SameStakes :
    (n : ℕ) (bytes : Bytes) (k : Hash256) (s : State)
    → SameStakes s (index_unless_empty n bytes k s)
index_unless_empty-SameStakes n [] k s = (refl, refl)
index_unless_empty-SameStakes n (b ∷ bs) k s = (refl, refl)

write_patch-SameStakes :
    (h : Host) (sys : System) (n : ℕ) (k : Hash256) (cost : Option ℕ) (references : List Hash256)
    (tags : Option (List Bytes)) (bytes : Bytes) (p : Proto) (s : State)
    → SameStakes s (write_patch h sys n k cost references tags bytes p s)
unfolding write_patch
write_patch-SameStakes h sys n k cost references tags bytes p s =
    let s₁ = index_unless_empty n bytes (h.blake2_256 bytes) s in
    let (q, r) = new_tag_indices-SameStakes tags s₁ p.tags in
    let (q₁, r₁) = index_unless_empty-SameStakes n bytes (h.blake2_256 bytes) s in (q ∙ q₁, r ∙ r₁)

abbrev Listed : Chain → Type 0
Listed c = StakesListed c.protos

write_transfer-SameStakes :
    (k : Hash256) (o : ProtoOwner) (b : AccountId) (s : State)
    → SameStakes s (write_transfer k o b s)
unfolding write_transfer
write_transfer-SameStakes k o b s = ground arith

write_metadata-SameStakes :
    (h : Host) (n : ℕ) (k : Hash256) (key bytes : Bytes) (s : State)
    → SameStakes s (write_metadata h n k key bytes s)
unfolding write_metadata intern_meta_key
write_metadata-SameStakes h n k key bytes s = ground arith

detach-SameStakes :
    (o : Origin) (k : Hash256) (chain : SupportedChains) (target : Bytes) (c : Chain)
    → SameStakes c.protos (detach o k chain target c).1.protos
unfolding detach
detach-SameStakes o k chain target c = ground arith

pub dispatch-StakesListed :
    (h : Host) (sys : System) (o : Origin) (x : Extrinsic) (c : Chain)
    → Listed c
    → Listed (dispatch h sys o x c).1
dispatch-StakesListed h sys o x c v = dispatch-keeps h sys Listed o x c v (record {
  uploads = λ a references category tags asset cost bytes _ _.
      SameStakes-StakesListed c.protos _
        (write_upload-SameStakes h sys (current sys) a references category tags asset cost bytes
          c.protos)
        v;
  patches = λ a k cost references tags bytes p _ _ _ _.
      SameStakes-StakesListed c.protos _
        (write_patch-SameStakes h sys (current sys) k cost references tags bytes p c.protos) v;
  transfers = λ a k b p _ _ _.
      SameStakes-StakesListed c.protos _ (write_transfer-SameStakes k p.owner b c.protos) v;
  sets_metadata = λ a k key bytes _ _.
      SameStakes-StakesListed c.protos _
        (write_metadata-SameStakes h (current sys) k key bytes c.protos) v;
  detaches = λ o k chain target.
      SameStakes-StakesListed c.protos _ (detach-SameStakes o k chain target c) v;
  stakes = λ o k amount. stake-StakesListed h sys o k amount c v;
  unstakes = λ o k. unstake-StakesListed h sys o k c v;
})

-- Whatever calls are made and blocks end, if every stake is listed under the account that made it,
-- then so it is afterwards.
pub run-StakesListed :
    (h : Host) (xs : List Action) (c : Chain)
    → StakesListed c.protos
    → StakesListed (run h xs c).protos
unfolding run apply on_finalize
run-StakesListed h [] c v = v
run-StakesListed h (call sys o x ∷ xs) c v =
    run-StakesListed h xs (dispatch h sys o x c).1 (dispatch-StakesListed h sys o x c v)
run-StakesListed h (block_end ∷ xs) c v =
    run-StakesListed h xs (on_finalize c)
      (drop_unlinked-StakesListed c.accounts.pending_unlinks c.protos v)
