-- ===== src/Protos/Effects.antt =====
-- The calls that create and change Proto-Fragments, as a whole: when each one succeeds, what it
-- writes then, and that it writes nothing otherwise.
use clamor.Protos.Types.{LinkedAsset, Error, Chain, user, Proto}
use clamor.Protos.Inclusion.{is_owned_by, check_staking_req}
use clamor.Protos.Calls.{
  write_upload, upload, write_patch, patch, write_transfer, transfer, write_metadata, set_metadata,
  detach,
}
use clamor.Detach.Types.{SupportedChains}
use clamor.Base.{
  ℕ, ◌≡◌, ◌≢◌, ◌⊎◌, Option, List, arith, get_or, ◌↔◌, none, some, inl, inr, Bool, true, false, not,
  ◌&&◌, Option-cases, is_some, sym, subst,
}
use clamor.Exec.{signed, ok, Call}
use clamor.Host.{Bytes, AccountId, Hash256, Categories, Host, System}

-- A call that fails leaves the storage alone, and one that returns has written `w`.
abbrev pub Effect : Call Chain Error → Chain → Chain → Type 0
Effect m c w = ((m c).0 ≢ ok tt) × ((m c).1 ≡ c) ⊎ (m c ≡ (ok tt, w))

-- What holds before a call holds after it, if it holds of what the call writes when it returns.
pub effect-keeps :
    (P : Chain → Type 0) (m : Call Chain Error) (c w : Chain)
    → Effect m c w
    → P c
    → ((m c).0 ≡ ok tt → P w)
    → P (m c).1
effect-keeps P m c w (inl e) v k = subst P (sym e.1) v
effect-keeps P m c w (inr e) v k = rw e (k (rw e))

abbrev pub current : System → ℕ
current sys = get_or sys.extrinsic_index 0

pub upload-Effect :
    (h : Host) (sys : System) (a : AccountId) (references : List Hash256) (category : Categories)
    (tags : List Bytes) (asset : Option LinkedAsset) (cost : Option ℕ) (bytes : Bytes) (c : Chain)
    → Effect (upload h sys (signed a) references category tags asset cost bytes) c (record c {
      protos =
          write_upload h sys (current sys) a references category tags asset cost bytes c.protos;
    })
unfolding upload
upload-Effect h sys a references category tags asset cost bytes c = ground arith

pub patch-Effect :
    (h : Host) (sys : System) (a : AccountId) (k : Hash256) (cost : Option ℕ)
    (references : List Hash256) (tags : Option (List Bytes)) (bytes : Bytes) (p : Proto) (c : Chain)
    → c.protos.protos k ≡ some p
    → Effect (patch h sys (signed a) k cost references tags bytes) c (record c {
      protos = write_patch h sys (current sys) k cost references tags bytes p c.protos;
    })
unfolding patch
patch-Effect h sys a k cost references tags bytes p c e = ground arith

pub transfer-Effect :
    (a : AccountId) (k : Hash256) (b : AccountId) (p : Proto) (c : Chain)
    → c.protos.protos k ≡ some p
    → Effect (transfer (signed a) k b) c (record c { protos = write_transfer k p.owner b c.protos })
unfolding transfer
transfer-Effect a k b p c e = ground arith

pub set_metadata-Effect :
    (h : Host) (sys : System) (a : AccountId) (k : Hash256) (key bytes : Bytes) (c : Chain)
    → Effect
        (set_metadata h sys (signed a) k key bytes)
        c
        (record c { protos = write_metadata h (current sys) k key bytes c.protos })
unfolding set_metadata
set_metadata-Effect h sys a k key bytes c = ground arith

-- The account owns the Proto-Fragment, which has not left the chain.
pub record Controls (c : Chain) (a : AccountId) (k : Hash256) : Type 0 where
  pub proto : Proto
  pub stored : c.protos.protos k ≡ some proto
  pub owner : proto.owner ≡ user a
  pub attached : c.detach.detached_hashes k ≡ none

abbrev controls : Chain → AccountId → Hash256 → Bool
controls c a k = elim (c.protos.protos k) [
  | none ↦ false
  | some p ↦ is_owned_by a p.owner && not (is_some (c.detach.detached_hashes k))
]

Controls-controls :
    (c : Chain) (a : AccountId) (k : Hash256) → Controls c a k → controls c a k ≡ true
Controls-controls c a k v = ground (arith, v.stored, v.owner, v.attached)

controls-Controls :
    (c : Chain) (a : AccountId) (k : Hash256) → controls c a k ≡ true → Controls c a k
controls-Controls c a k e = elim (Option-cases (c.protos.protos k)) [
  | inl missing ↦ ground arith
  | inr (p, q) ↦ record { proto = p; stored = q; owner = ground arith; attached = ground arith }
]

-- A transfer succeeds exactly if the caller controls the Proto-Fragment.
pub transfer-ok_iff :
    (a : AccountId) (k : Hash256) (b : AccountId) (c : Chain)
    → ((transfer (signed a) k b c).0 ≡ ok tt) ↔ Controls c a k
unfolding transfer
transfer-ok_iff a k b c =
    (λ e. controls-Controls c a k (ground arith), λ v. ground (arith, Controls-controls c a k v))

-- A request to detach succeeds exactly if the caller controls the Proto-Fragment.
pub detach-ok_iff :
    (a : AccountId) (k : Hash256) (chain : SupportedChains) (target : Bytes) (c : Chain)
    → ((detach (signed a) k chain target c).0 ≡ ok tt) ↔ Controls c a k
unfolding detach
detach-ok_iff a k chain target c =
    (λ e. controls-Controls c a k (ground arith), λ v. ground (arith, Controls-controls c a k v))

-- Metadata is written exactly if the caller controls the Proto-Fragment, in an extrinsic.
pub set_metadata-ok_iff :
    (h : Host) (sys : System) (a : AccountId) (k : Hash256) (key bytes : Bytes) (c : Chain)
    → ((set_metadata h sys (signed a) k key bytes c).0 ≡ ok tt)
      ↔ (Controls c a k × (is_some sys.extrinsic_index ≡ true))
unfolding set_metadata
set_metadata-ok_iff h sys a k key bytes c = (
  λ e. (controls-Controls c a k (ground arith), ground arith),
  λ (v, i). ground (arith, Controls-controls c a k v),
)

-- A patch is accepted exactly if the caller controls the Proto-Fragment and may include every new
-- reference, in an extrinsic.
pub patch-ok_iff :
    (h : Host) (sys : System) (a : AccountId) (k : Hash256) (cost : Option ℕ)
    (references : List Hash256) (tags : Option (List Bytes)) (bytes : Bytes) (c : Chain)
    → ((patch h sys (signed a) k cost references tags bytes c).0 ≡ ok tt) ↔ (
        Controls c a k
        × (is_some sys.extrinsic_index ≡ true)
        × (check_staking_req c.protos references a ≡ none))
unfolding patch
patch-ok_iff h sys a k cost references tags bytes c = (
  λ e. (controls-Controls c a k (ground arith), ground arith, ground arith),
  λ (v, i, r). ground (arith, Controls-controls c a k v),
)

-- An upload is accepted exactly if its data is new and the account may include every reference, in
-- an extrinsic.
pub upload-ok_iff :
    (h : Host) (sys : System) (a : AccountId) (references : List Hash256) (category : Categories)
    (tags : List Bytes) (asset : Option LinkedAsset) (cost : Option ℕ) (bytes : Bytes) (c : Chain)
    → ((upload h sys (signed a) references category tags asset cost bytes c).0 ≡ ok tt) ↔ (
        (c.protos.protos (h.blake2_256 bytes) ≡ none)
        × (is_some sys.extrinsic_index ≡ true)
        × (check_staking_req c.protos references a ≡ none))
unfolding upload
upload-ok_iff h sys a references category tags asset cost bytes c =
    (λ e. (ground arith, ground arith, ground arith), λ v. ground arith)
