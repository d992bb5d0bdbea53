-- ===== src/Runtime/Steps.antt =====
-- What a chain of the repository's pallets does: a step relation, and what it reaches.
use clamor.Accounts.Validation as Accounts
use clamor.Detach.Types as Detached
use clamor.Detach.Calls as Detach
use clamor.Detach.Validation as DetachPool
use clamor.Protos.Stakes as Protos
use clamor.Fragments.Giving as Fragments
use clamor.Exec.{Origin, none_origin, in_block, valid}
use clamor.Runtime.Calls.{
  internal_lock_update_call, internal_finalize_detach_call, RuntimeCall, detach_call, accounts_call,
  World, dispatch,
}
use clamor.Fragments.Types.{Chain}
use clamor.Accounts.Types.{EthLockUpdate}
use clamor.Detach.Types.{DetachInternalData}
use clamor.Detach.Validation.{finalize_detach, DetachTag, validate_unsigned}
use clamor.Detach.Generation.{KeyMaker, Ring, offchain_worker}
use clamor.Detach.Worker.{Keystore}
use clamor.Base.{ℕ, ◌≡◌, ◌≢◌, Bool, true}
use clamor.Host.{BlockNumber, System}

-- the parts of the storage that a step replaces
abbrev pub with_detach : {L : Type 0} → Chain L → Detached.State → Chain L
with_detach c s = record c { base = record c.base { detach = s } }

-- One step. A block makes the steps of its calls and of its end; the order of the steps is not
-- fixed, and a call that is rolled back makes none. Calls without an origin are executed if they
-- are valid in a block; `elsewhere` is what other pallets do to the ledger; `overridden` are those
-- that root has other pallets dispatch unchecked, which count only if `unchecked` is set. Storage
-- and code that root writes directly are left out.
pub data Step {L : Type 0} (w : World L) (unchecked : Bool) : Chain L → Chain L → Type 0 where
  called :
      (sys : System) (now : ℕ) (o : Origin) (x : RuntimeCall) (c : Chain L)
      → o ≢ none_origin
      → Step w unchecked c (dispatch w sys now o x c)
  lock_updated :
      (sys : System) (now : ℕ) (d : EthLockUpdate) (signature : ℕ) (tag : Accounts.UpdateTag)
      (c : Chain L)
      → Accounts.validate_unsigned w.lock_checks c.base.accounts in_block
          (Accounts.lock_update d signature)
        ≡ valid tag
      → Step w unchecked c
          (dispatch w sys now none_origin (accounts_call (internal_lock_update_call d)) c)
  detach_finalized :
      (sys : System) (now : ℕ) (d : DetachInternalData) (signature : ℕ) (tag : DetachTag)
      (c : Chain L)
      → DetachPool.validate_unsigned w.detach_checks c.base.detach in_block
          (finalize_detach d signature)
        ≡ valid tag
      → Step w unchecked c
          (dispatch w sys now none_origin (detach_call (internal_finalize_detach_call d)) c)
  overridden :
      (sys : System) (now : ℕ) (x : RuntimeCall) (c : Chain L)
      → unchecked ≡ true
      → Step w unchecked c (dispatch w sys now none_origin x c)
  protos_finalized :
      (c : Chain L) → Step w unchecked c (record c { base = Protos.on_finalize c.base })
  fragments_finalized :
      (n : BlockNumber) (c : Chain L)
      → Step w unchecked c
          (record c { fragments = Fragments.on_finalize w.outside.owner_keys n c.fragments })
  detach_finished :
      (c : Chain L) → Step w unchecked c (with_detach c (Detach.on_finalize c.base.detach))
  worked :
      (g : KeyMaker) (k : Keystore) (n : Ring) (c : Chain L)
      → Step w unchecked c (with_detach c (offchain_worker w.host g k c.base.detach n).1)
  elsewhere : (l : L) (c : Chain L) → Step w unchecked c (record c { ledger = l })

-- the chains that are reached from `s`
pub data Reach {L : Type 0} (w : World L) (unchecked : Bool) (s : Chain L) : Chain L → Type 0 where
  here : Reach w unchecked s s
  next : {t u : Chain L} → Reach w unchecked s t → Step w unchecked t u → Reach w unchecked s u

-- What every step keeps holds of all that is reached.
pub Reach-keeps :
    {L : Type 0} (w : World L) (unchecked : Bool) (P : Chain L → Type 0)
    → ((t u : Chain L) → Step w unchecked t u → P t → P u)
    → {s t : Chain L} → Reach w unchecked s t
    → P s
    → P t
Reach-keeps w unchecked P k here p = p
Reach-keeps w unchecked P k (next r x) p = k _ _ x (Reach-keeps w unchecked P k r p)
