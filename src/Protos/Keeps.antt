-- ===== src/Protos/Keeps.antt =====
-- What holds before a call of the pallet holds after it, if it holds of what the call writes.
use clamor.Exec.{Origin, root, none_origin, signed}
use clamor.Protos.Types.{LinkedAsset, Proto, Chain}
use clamor.Protos.Inclusion.{check_staking_req}
use clamor.Protos.Calls.{
  write_upload, upload, write_patch, patch, write_transfer, transfer, write_metadata, set_metadata,
  detach,
}
use clamor.Protos.Stakes.{stake, unstake}
use clamor.Protos.Effects.{
  effect-keeps, current, upload-Effect, patch-Effect, transfer-Effect, set_metadata-Effect,
  Controls, transfer-ok_iff, set_metadata-ok_iff, patch-ok_iff, upload-ok_iff,
}
use clamor.Protos.Atomic.{
  patch-missing, transfer-IsAtomic, Extrinsic, upload_call, patch_call, transfer_call,
  set_metadata_call, detach_call, stake_call, unstake_call, dispatch,
}
use clamor.Detach.Types.{SupportedChains}
use clamor.Base.{ℕ, ◌≡◌, refl, sym, subst, inl, inr, Option, none, some, List, arith, Option-cases}
use clamor.Host.{Bytes, AccountId, Hash256, Balance, Categories, Host, System}

-- `P` holds of all that a call can write, under the conditions that it is written under.
pub record Writes (h : Host) (sys : System) (P : Chain → Type 0) (o : Origin) (c : Chain)
    : Type 0 where
  pub uploads :
      (a : AccountId) (references : List Hash256) (category : Categories) (tags : List Bytes)
      (asset : Option LinkedAsset) (cost : Option ℕ) (bytes : Bytes)
      → c.protos.protos (h.blake2_256 bytes) ≡ none
      → check_staking_req c.protos references a ≡ none
      → P (record c {
        protos =
            write_upload h sys (current sys) a references category tags asset cost bytes c.protos;
      })
  pub patches :
      (a : AccountId) (k : Hash256) (cost : Option ℕ) (references : List Hash256)
      (tags : Option (List Bytes)) (bytes : Bytes) (p : Proto)
      → o ≡ signed a
      → c.protos.protos k ≡ some p
      → Controls c a k
      → check_staking_req c.protos references a ≡ none
      → P (record c {
        protos = write_patch h sys (current sys) k cost references tags bytes p c.protos;
      })
  pub transfers :
      (a : AccountId) (k : Hash256) (b : AccountId) (p : Proto)
      → o ≡ signed a
      → c.protos.protos k ≡ some p
      → Controls c a k
      → P (record c { protos = write_transfer k p.owner b c.protos })
  pub sets_metadata :
      (a : AccountId) (k : Hash256) (key bytes : Bytes)
      → o ≡ signed a
      → Controls c a k
      → P (record c { protos = write_metadata h (current sys) k key bytes c.protos })
  pub detaches :
      (o : Origin) (k : Hash256) (chain : SupportedChains) (target : Bytes)
      → P (detach o k chain target c).1
  pub stakes : (o : Origin) (k : Hash256) (amount : Balance) → P (stake h sys o k amount c).1
  pub unstakes : (o : Origin) (k : Hash256) → P (unstake h sys o k c).1

module _ (h : Host) (sys : System) (P : Chain → Type 0) where
  pub dispatch-keeps :
      (o : Origin) (x : Extrinsic) (c : Chain)
      → P c
      → Writes h sys P o c
      → P (dispatch h sys o x c).1
  unfolding dispatch upload patch transfer set_metadata
  dispatch-keeps root (upload_call references category tags asset cost bytes) c v w = v
  dispatch-keeps none_origin (upload_call references category tags asset cost bytes) c v w = v
  dispatch-keeps (signed a) (upload_call references category tags asset cost bytes) c v w =
      effect-keeps P (upload h sys (signed a) references category tags asset cost bytes) c _
        (upload-Effect h sys a references category tags asset cost bytes c) v
        (λ e.
          let (new, _, checked) =
            (upload-ok_iff h sys a references category tags asset cost bytes c).0 e in
          w.uploads a references category tags asset cost bytes new checked)
  dispatch-keeps root (patch_call k cost references tags bytes) c v w = v
  dispatch-keeps none_origin (patch_call k cost references tags bytes) c v w = v
  dispatch-keeps (signed a) (patch_call k cost references tags bytes) c v w =
      elim (Option-cases (c.protos.protos k)) [
        | inl e ↦ subst P (sym (patch-missing h sys a k cost references tags bytes c e)) v
        | inr (p, e) ↦
            effect-keeps P (patch h sys (signed a) k cost references tags bytes) c _
              (patch-Effect h sys a k cost references tags bytes p c e) v
              (λ t.
                let (mine, _, checked) =
                  (patch-ok_iff h sys a k cost references tags bytes c).0 t in
                w.patches a k cost references tags bytes p refl e mine checked)
      ]
  dispatch-keeps root (transfer_call k b) c v w = v
  dispatch-keeps none_origin (transfer_call k b) c v w = v
  dispatch-keeps (signed a) (transfer_call k b) c v w = elim (Option-cases (c.protos.protos k)) [
    | inl e ↦ subst P (sym (transfer-IsAtomic (signed a) k b c (ground arith))) v
    | inr (p, e) ↦
        effect-keeps P (transfer (signed a) k b) c _ (transfer-Effect a k b p c e) v
          (λ t. w.transfers a k b p refl e ((transfer-ok_iff a k b c).0 t))
  ]
  dispatch-keeps root (set_metadata_call k key bytes) c v w = v
  dispatch-keeps none_origin (set_metadata_call k key bytes) c v w = v
  dispatch-keeps (signed a) (set_metadata_call k key bytes) c v w =
      effect-keeps P (set_metadata h sys (signed a) k key bytes) c _
        (set_metadata-Effect h sys a k key bytes c) v
        (λ t.
          w.sets_metadata a k key bytes refl ((set_metadata-ok_iff h sys a k key bytes c).0 t).0)
  dispatch-keeps o (detach_call k chain target) c v w = w.detaches o k chain target
  dispatch-keeps o (stake_call k amount) c v w = w.stakes o k amount
  dispatch-keeps o (unstake_call k) c v w = w.unstakes o k
