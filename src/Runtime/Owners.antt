-- ===== src/Runtime/Owners.antt =====
-- A stored Proto-Fragment through all that the chain does: what it keeps, and who changes it.
use clamor.Protos.Types as Protos
use clamor.Protos.Stakes as ProtosEnd
use clamor.Protos.Descent as ProtosDescent
use clamor.Protos.Authority as ProtosAuthority
use clamor.Exec.{Origin, root, none_origin, signed}
use clamor.Runtime.Calls.{
  internal_lock_update_call, internal_finalize_detach_call, RuntimeCall, protos_call,
  fragments_call, detach_call, accounts_call, World, dispatch,
}
use clamor.Runtime.Steps.{
  Step, called, lock_updated, detach_finalized, overridden, protos_finalized, fragments_finalized,
  detach_finished, worked, elsewhere, Reach, Reach-keeps,
}
use clamor.Runtime.Parts.{fragments-base}
use clamor.Fragments.Types.{Chain}
use clamor.Protos.Effects.{Controls}
use clamor.Protos.Descent.{
  Become, Preserves, Preserves-refl, Preserves-trans, on_finalize-Preserves,
}
use clamor.Protos.Authority.{ByOwner, untouched, by_owner}
use clamor.Protos.Runs.{drop_unlinked-SameIndex}
use clamor.Base.{ℕ, ◌≡◌, refl, sym, subst, ◌≢◌, ◌⊎◌, inl, inr, Bool, Option, none, some, arith}
use clamor.Host.{AccountId, Hash256, System}

protos_end-same :
    (b : Protos.Chain) (k : Hash256) (p : Protos.Proto)
    → b.protos.protos k ≡ some p
    → (ProtosEnd.on_finalize b).protos.protos k ≡ some p
unfolding ProtosEnd.on_finalize
protos_end-same b k p e = rw (drop_unlinked-SameIndex b.accounts.pending_unlinks b.protos).0 e

-- a call that nobody signed leaves it alone
not_signed :
    (o : Origin) (k : Hash256) (p : Protos.Proto) (c d : Protos.Chain)
    → ((a : AccountId) → o ≢ signed a)
    → ByOwner o k p c d
    → d.protos.protos k ≡ some p
not_signed o k p c d n (untouched e) = e
not_signed o k p c d n (by_owner a s v) = absurd (n a s)

module _ {L : Type 0} (w : World L) where
  dispatch-Preserves :
      (sys : System) (now : ℕ) (o : Origin) (x : RuntimeCall) (c : Chain L)
      → Preserves c.base.protos (dispatch w sys now o x c).base.protos
  unfolding dispatch
  dispatch-Preserves sys now o (protos_call x) c =
      ProtosDescent.dispatch-Preserves w.host sys o x c.base
  dispatch-Preserves sys now o (fragments_call x) c =
      subst (λ (b : Protos.Chain). Preserves c.base.protos b.protos)
        (sym (fragments-base w.host sys w.outside o x c)) (Preserves-refl c.base.protos)
  dispatch-Preserves sys now o (detach_call x) c = Preserves-refl c.base.protos
  dispatch-Preserves sys now o (accounts_call x) c = Preserves-refl c.base.protos

  Step-Preserves :
      (unchecked : Bool) (c d : Chain L)
      → Step w unchecked c d
      → Preserves c.base.protos d.base.protos
  Step-Preserves unchecked _ _ (called sys now o x c n) = dispatch-Preserves sys now o x c
  Step-Preserves unchecked _ _ (lock_updated sys now d signature tag c e) =
      dispatch-Preserves sys now none_origin (accounts_call (internal_lock_update_call d)) c
  Step-Preserves unchecked _ _ (detach_finalized sys now d signature tag c e) =
      dispatch-Preserves sys now none_origin (detach_call (internal_finalize_detach_call d)) c
  Step-Preserves unchecked _ _ (overridden sys now x c u) =
      dispatch-Preserves sys now none_origin x c
  Step-Preserves unchecked _ _ (protos_finalized c) = on_finalize-Preserves c.base
  Step-Preserves unchecked _ _ (fragments_finalized n c) = Preserves-refl c.base.protos
  Step-Preserves unchecked _ _ (detach_finished c) = Preserves-refl c.base.protos
  Step-Preserves unchecked _ _ (worked g k n c) = Preserves-refl c.base.protos
  Step-Preserves unchecked _ _ (elsewhere l c) = Preserves-refl c.base.protos

  -- Whatever a chain does, with checked calls or not, a stored Proto-Fragment stays stored, its
  -- block, creator, category and references never change, and its patches only have others added
  -- after them.
  pub Reach-Preserves :
      (unchecked : Bool) (c d : Chain L) (k : Hash256) (p : Protos.Proto)
      → Reach w unchecked c d
      → c.base.protos.protos k ≡ some p
      → Become k p d.base.protos
  Reach-Preserves unchecked c d k p r e =
      Reach-keeps w unchecked (λ (t : Chain L). Preserves c.base.protos t.base.protos)
        (λ t u x v.
          Preserves-trans c.base.protos t.base.protos u.base.protos v
            (Step-Preserves unchecked t u x))
        r (Preserves-refl c.base.protos) k p e

  -- the account that signed the call of a step
  unfoldable pub signer :
      {unchecked : Bool} {c d : Chain L} → Step w unchecked c d → Option AccountId
  signer (called sys now root x c n) = none
  signer (called sys now none_origin x c n) = none
  signer (called sys now (signed a) x c n) = some a
  signer (lock_updated sys now d signature tag c e) = none
  signer (detach_finalized sys now d signature tag c e) = none
  signer (overridden sys now x c u) = none
  signer (protos_finalized c) = none
  signer (fragments_finalized n c) = none
  signer (detach_finished c) = none
  signer (worked g k n c) = none
  signer (elsewhere l c) = none

  dispatch-ByOwner :
      (sys : System) (now : ℕ) (o : Origin) (x : RuntimeCall) (c : Chain L) (k : Hash256)
      (p : Protos.Proto)
      → c.base.protos.protos k ≡ some p
      → ByOwner o k p c.base (dispatch w sys now o x c).base
  unfolding dispatch
  dispatch-ByOwner sys now o (protos_call x) c k p e =
      ProtosAuthority.dispatch-ByOwner w.host sys o x c.base k p e
  dispatch-ByOwner sys now o (fragments_call x) c k p e =
      subst (ByOwner o k p c.base) (sym (fragments-base w.host sys w.outside o x c)) (untouched e)
  dispatch-ByOwner sys now o (detach_call x) c k p e = untouched e
  dispatch-ByOwner sys now o (accounts_call x) c k p e = untouched e

  -- If a step of the chain does not leave a stored Proto-Fragment as it was, then it is a call
  -- signed by its owner, and the Proto-Fragment was not marked as detached.
  pub Step-owner :
      (unchecked : Bool) (c d : Chain L) (k : Hash256) (p : Protos.Proto) (x : Step w unchecked c d)
      → c.base.protos.protos k ≡ some p
      → (d.base.protos.protos k ≡ some p)
        ⊎ ((a : AccountId) × (signer x ≡ some a) × Controls c.base a k)
  unfolding signer
  Step-owner unchecked _ _ k p (called sys now root x c n) e =
      inl (not_signed root k p c.base _ (λ a q. cc) (dispatch-ByOwner sys now root x c k p e))
  Step-owner unchecked _ _ k p (called sys now none_origin x c n) e = absurd (n refl)
  Step-owner unchecked _ _ k p (called sys now (signed a) x c n) e =
      elim (dispatch-ByOwner sys now (signed a) x c k p e) [
        | untouched s ↦ inl s
        | by_owner b s v ↦ inr (b, ground (arith, s), v)
      ]
  Step-owner unchecked _ _ k p (lock_updated sys now d signature tag c q) e = inl (
      not_signed none_origin k p c.base _ (λ a b. cc)
        (dispatch-ByOwner sys now none_origin (accounts_call (internal_lock_update_call d)) c k p
          e))
  Step-owner unchecked _ _ k p (detach_finalized sys now d signature tag c q) e = inl (
      not_signed none_origin k p c.base _ (λ a b. cc)
        (dispatch-ByOwner sys now none_origin (detach_call (internal_finalize_detach_call d)) c k p
          e))
  Step-owner unchecked _ _ k p (overridden sys now x c u) e = inl (
      not_signed none_origin k p c.base _ (λ a b. cc)
        (dispatch-ByOwner sys now none_origin x c k p e))
  Step-owner unchecked _ _ k p (protos_finalized c) e = inl (protos_end-same c.base k p e)
  Step-owner unchecked _ _ k p (fragments_finalized n c) e = inl e
  Step-owner unchecked _ _ k p (detach_finished c) e = inl e
  Step-owner unchecked _ _ k p (worked g s n c) e = inl e
  Step-owner unchecked _ _ k p (elsewhere l c) e = inl e
