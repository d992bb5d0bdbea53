-- ===== src/Runtime/Holders.antt =====
-- Who takes an instance of a Fragment from an account, in all that the chain does.
use clamor.Fragments.Taking as Taking
use clamor.Exec.{items, Origin, root, none_origin, signed}
use clamor.Runtime.Calls.{
  internal_lock_update_call, internal_finalize_detach_call, RuntimeCall, protos_call,
  fragments_call, detach_call, accounts_call, World, dispatch,
}
use clamor.Runtime.Steps.{
  Step, called, lock_updated, detach_finalized, overridden, protos_finalized, fragments_finalized,
  detach_finished, worked, elsewhere,
}
use clamor.Runtime.Owners.{signer}
use clamor.Fragments.Types.{InstanceId, Chain}
use clamor.Fragments.Holding.{Holds}
use clamor.Base.{
  ℕ, ◌≡◌, refl, ◌≢◌, ◌⊎◌, inl, inr, Bool, true, Option, none, some, arith, Bool-cases, ◌==◌, ==_iff,
  contains, nat_eq, bytes_eq, pair_eq,
}
use clamor.Host.{AccountId, Hash128, BlockNumber, System}

-- the block that ends for the pallet in a step
unfoldable pub ended :
    {L : Type 0} {w : World L} {unchecked : Bool} {c d : Chain L}
    → Step w unchecked c d
    → Option BlockNumber
ended (called sys now o x c n) = none
ended (lock_updated sys now d signature tag c e) = none
ended (detach_finalized sys now d signature tag c e) = none
ended (overridden sys now x c u) = none
ended (protos_finalized c) = none
ended (fragments_finalized n c) = some n
ended (detach_finished c) = none
ended (worked g k n c) = none
ended (elsewhere l c) = none

module _ {L : Type 0} (w : World L) (a : AccountId) (k : Hash128) (i : InstanceId) where
  dispatch-Holds :
      (sys : System) (now : ℕ) (o : Origin) (x : RuntimeCall) (c : Chain L)
      → o ≢ signed a
      → Holds a k i c.fragments
      → Holds a k i (dispatch w sys now o x c).fragments
  unfolding dispatch
  dispatch-Holds sys now o (protos_call x) c n v = v
  dispatch-Holds sys now o (fragments_call x) c n v =
      Taking.dispatch-Holds a k i w.host w.outside sys o x c n v
  dispatch-Holds sys now o (detach_call x) c n v = v
  dispatch-Holds sys now o (accounts_call x) c n v = v

  -- If an account has an instance in its inventory before a step of the chain and not after it, then
  -- the step is a call that the account signed, or it is the end of a block that the instance was
  -- listed to expire in.
  pub Step-holder :
      (unchecked : Bool) (c d : Chain L) (x : Step w unchecked c d)
      → Holds a k i c.fragments
      → Holds a k i d.fragments
        ⊎ (signer w x ≡ some a)
        ⊎ ((n : BlockNumber) × (ended x ≡ some n)
            × (contains (items c.fragments.expirations n) (k, i) ≡ true))
  unfolding signer ended
  Step-holder unchecked _ _ (called sys now root x c n) v =
      inl (dispatch-Holds sys now root x c (λ e. cc) v)
  Step-holder unchecked _ _ (called sys now none_origin x c n) v = absurd (n refl)
  Step-holder unchecked _ _ (called sys now (signed b) x c n) v = elim (Bool-cases (b == a)) [
    | inl same ↦ inr (inl (ground (arith, ==_iff b a, same)))
    | inr other ↦
        inl (dispatch-Holds sys now (signed b) x c (λ e. ground (arith, other, ==_iff b a, e)) v)
  ]
  Step-holder unchecked _ _ (lock_updated sys now d signature tag c q) v = inl (
      dispatch-Holds sys now none_origin (accounts_call (internal_lock_update_call d)) c (λ e. cc)
        v)
  Step-holder unchecked _ _ (detach_finalized sys now d signature tag c q) v = inl (
      dispatch-Holds sys now none_origin (detach_call (internal_finalize_detach_call d)) c (λ e. cc)
        v)
  Step-holder unchecked _ _ (overridden sys now x c u) v =
      inl (dispatch-Holds sys now none_origin x c (λ e. cc) v)
  Step-holder unchecked _ _ (protos_finalized c) v = inl v
  Step-holder unchecked _ _ (fragments_finalized n c) v =
      elim (Bool-cases (contains (items c.fragments.expirations n) (k, i))) [
        | inl listed ↦ inr (inr (n, refl, listed))
        | inr free ↦ inl (Taking.on_finalize-Holds a k i w.host w.outside n c.fragments free v)
      ]
  Step-holder unchecked _ _ (detach_finished c) v = inl v
  Step-holder unchecked _ _ (worked g s n c) v = inl v
  Step-holder unchecked _ _ (elsewhere l c) v = inl v
