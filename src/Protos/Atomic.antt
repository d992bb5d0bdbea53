-- ===== src/Protos/Atomic.antt =====
-- A call of the pallet that fails has written nothing.
use clamor.Protos.Types.{LinkedAsset, Error, Chain}
use clamor.Protos.Calls.{upload, patch, transfer, set_metadata, detach}
use clamor.Protos.Stakes.{stake, unstake}
use clamor.Detach.Types.{SupportedChains}
use clamor.Base.{ℕ, ◌≡◌, ◌≢◌, Option, List, arith, none}
use clamor.Exec.{Origin, ok, Call, signed}
use clamor.Host.{Bytes, AccountId, Hash256, Balance, Categories, Host, System}

-- a call that does not return leaves the storage that it found
abbrev pub IsAtomic : Call Chain Error → Type 0
IsAtomic m = (c : Chain) → (m c).0 ≢ ok tt → (m c).1 ≡ c

pub upload-IsAtomic :
    (h : Host) (sys : System) (o : Origin) (references : List Hash256) (category : Categories)
    (tags : List Bytes) (asset : Option LinkedAsset) (cost : Option ℕ) (bytes : Bytes)
    → IsAtomic (upload h sys o references category tags asset cost bytes)
unfolding upload
upload-IsAtomic h sys o references category tags asset cost bytes c e = ground arith

pub patch-IsAtomic :
    (h : Host) (sys : System) (o : Origin) (k : Hash256) (cost : Option ℕ)
    (references : List Hash256) (tags : Option (List Bytes)) (bytes : Bytes)
    → IsAtomic (patch h sys o k cost references tags bytes)
unfolding patch
patch-IsAtomic h sys o k cost references tags bytes c e = ground arith

pub patch-missing :
    (h : Host) (sys : System) (a : AccountId) (k : Hash256) (cost : Option ℕ)
    (references : List Hash256) (tags : Option (List Bytes)) (bytes : Bytes) (c : Chain)
    → c.protos.protos k ≡ none
    → (patch h sys (signed a) k cost references tags bytes c).1 ≡ c
unfolding patch
patch-missing h sys a k cost references tags bytes c e = ground arith

pub transfer-IsAtomic : (o : Origin) (k : Hash256) (b : AccountId) → IsAtomic (transfer o k b)
unfolding transfer
transfer-IsAtomic o k b c e = ground arith

set_metadata-IsAtomic :
    (h : Host) (sys : System) (o : Origin) (k : Hash256) (key bytes : Bytes)
    → IsAtomic (set_metadata h sys o k key bytes)
unfolding set_metadata
set_metadata-IsAtomic h sys o k key bytes c e = ground arith

detach-IsAtomic :
    (o : Origin) (k : Hash256) (chain : SupportedChains) (target : Bytes)
    → IsAtomic (detach o k chain target)
unfolding detach
detach-IsAtomic o k chain target c e = ground arith

pub stake-IsAtomic :
    (h : Host) (sys : System) (o : Origin) (k : Hash256) (amount : Balance)
    → IsAtomic (stake h sys o k amount)
unfolding stake
stake-IsAtomic h sys o k amount c e = ground arith

unstake-IsAtomic :
    (h : Host) (sys : System) (o : Origin) (k : Hash256) → IsAtomic (unstake h sys o k)
unfolding unstake
unstake-IsAtomic h sys o k c e = ground arith

pub data Extrinsic : Type 0 where
  upload_call :
      List Hash256 → Categories → List Bytes → Option LinkedAsset → Option ℕ → Bytes → Extrinsic
  patch_call : Hash256 → Option ℕ → List Hash256 → Option (List Bytes) → Bytes → Extrinsic
  transfer_call : Hash256 → AccountId → Extrinsic
  set_metadata_call : Hash256 → Bytes → Bytes → Extrinsic
  detach_call : Hash256 → SupportedChains → Bytes → Extrinsic
  stake_call : Hash256 → Balance → Extrinsic
  unstake_call : Hash256 → Extrinsic

unfoldable pub dispatch : Host → System → Origin → Extrinsic → Call Chain Error
dispatch h sys o (upload_call references category tags asset cost bytes) =
    upload h sys o references category tags asset cost bytes
dispatch h sys o (patch_call k cost references tags bytes) =
    patch h sys o k cost references tags bytes
dispatch h sys o (transfer_call k b) = transfer o k b
dispatch h sys o (set_metadata_call k key bytes) = set_metadata h sys o k key bytes
dispatch h sys o (detach_call k chain target) = detach o k chain target
dispatch h sys o (stake_call k amount) = stake h sys o k amount
dispatch h sys o (unstake_call k) = unstake h sys o k

-- A call of the pallet that fails, or that panics, has written nothing.
pub dispatch-atomic :
    (h : Host) (sys : System) (o : Origin) (x : Extrinsic) (c : Chain)
    → (dispatch h sys o x c).0 ≢ ok tt
    → (dispatch h sys o x c).1 ≡ c
unfolding dispatch
dispatch-atomic h sys o (upload_call references category tags asset cost bytes) c e =
    upload-IsAtomic h sys o references category tags asset cost bytes c e
dispatch-atomic h sys o (patch_call k cost references tags bytes) c e =
    patch-IsAtomic h sys o k cost references tags bytes c e
dispatch-atomic h sys o (transfer_call k b) c e = transfer-IsAtomic o k b c e
dispatch-atomic h sys o (set_metadata_call k key bytes) c e =
    set_metadata-IsAtomic h sys o k key bytes c e
dispatch-atomic h sys o (detach_call k chain target) c e = detach-IsAtomic o k chain target c e
dispatch-atomic h sys o (stake_call k amount) c e = stake-IsAtomic h sys o k amount c e
dispatch-atomic h sys o (unstake_call k) c e = unstake-IsAtomic h sys o k c e
