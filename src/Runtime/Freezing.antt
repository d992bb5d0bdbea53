-- ===== src/Runtime/Freezing.antt =====
-- What is marked as detached is frozen, whatever the chain does.
use clamor.Protos.Types as Protos
use clamor.Protos.Frozen as ProtosFrozen
use clamor.Detach.Types as Detached
use clamor.Detach.Calls as Detach
use clamor.Exec.{Origin, none_origin}
use clamor.Runtime.Calls.{
  internal_lock_update_call, DetachCall, add_eth_auth_call, del_eth_auth_call, add_worker_key_call,
  del_worker_key_call, internal_finalize_detach_call, RuntimeCall, protos_call, fragments_call,
  detach_call, accounts_call, World, dispatch_detach, dispatch,
}
use clamor.Runtime.Steps.{
  Step, called, lock_updated, detach_finalized, overridden, protos_finalized, fragments_finalized,
  detach_finished, worked, elsewhere, Reach, Reach-keeps,
}
use clamor.Runtime.Parts.{fragments-base}
use clamor.Detach.Types.{detached, State}
use clamor.Fragments.Types.{Chain}
use clamor.Protos.Frozen.{IsFrozen, on_finalize-IsFrozen}
use clamor.Runtime.Marks.{on_finalize-unmarked, offchain_worker-unmarked}
use clamor.Base.{ℕ, ◌≡◌, sym, subst, Bool, true, arith, is_some}
use clamor.Host.{Hash256, System}

-- A mark is never taken away.
dispatch_detach-marked :
    (o : Origin) (x : DetachCall) (s : Detached.State) (k : Hash256)
    → is_some (s.detached_hashes k) ≡ true
    → is_some ((dispatch_detach o x s).detached_hashes k) ≡ true
unfolding dispatch_detach Detach.add_eth_auth Detach.del_eth_auth Detach.add_key Detach.del_key
    Detach.internal_finalize_detach
dispatch_detach-marked o (add_eth_auth_call j) s k e = ground (arith, e)
dispatch_detach-marked o (del_eth_auth_call j) s k e = ground (arith, e)
dispatch_detach-marked o (add_worker_key_call j) s k e = ground (arith, e)
dispatch_detach-marked o (del_worker_key_call j) s k e = ground (arith, e)
dispatch_detach-marked o (internal_finalize_detach_call d) s k e = ground (arith, e)

module _ {L : Type 0} (w : World L) where
  dispatch-IsFrozen :
      (sys : System) (now : ℕ) (o : Origin) (x : RuntimeCall) (c : Chain L) (k : Hash256)
      (p : Protos.Proto)
      → IsFrozen k p c.base
      → IsFrozen k p (dispatch w sys now o x c).base
  unfolding dispatch
  dispatch-IsFrozen sys now o (protos_call x) c k p v =
      ProtosFrozen.dispatch-IsFrozen k p w.host sys o x c.base v
  dispatch-IsFrozen sys now o (fragments_call x) c k p v =
      subst (IsFrozen k p) (sym (fragments-base w.host sys w.outside o x c)) v
  dispatch-IsFrozen sys now o (detach_call x) c k p v = record {
    stored = v.stored;
    detached = dispatch_detach-marked o x c.base.detach k v.detached;
  }
  dispatch-IsFrozen sys now o (accounts_call x) c k p v = record {
    stored = v.stored;
    detached = v.detached;
  }

  Step-IsFrozen :
      (unchecked : Bool) (k : Hash256) (p : Protos.Proto) (c d : Chain L)
      → Step w unchecked c d
      → IsFrozen k p c.base
      → IsFrozen k p d.base
  Step-IsFrozen unchecked k p _ _ (called sys now o x c n) v = dispatch-IsFrozen sys now o x c k p v
  Step-IsFrozen unchecked k p _ _ (lock_updated sys now d signature tag c e) v =
      dispatch-IsFrozen sys now none_origin (accounts_call (internal_lock_update_call d)) c k p v
  Step-IsFrozen unchecked k p _ _ (detach_finalized sys now d signature tag c e) v =
      dispatch-IsFrozen sys now none_origin (detach_call (internal_finalize_detach_call d)) c k p v
  Step-IsFrozen unchecked k p _ _ (overridden sys now x c u) v =
      dispatch-IsFrozen sys now none_origin x c k p v
  Step-IsFrozen unchecked k p _ _ (protos_finalized c) v =
      ProtosFrozen.on_finalize-IsFrozen k p c.base v
  Step-IsFrozen unchecked k p _ _ (fragments_finalized n c) v = v
  Step-IsFrozen unchecked k p _ _ (detach_finished c) v = record {
    stored = v.stored;
    detached = rw (on_finalize-unmarked c.base.detach) v.detached;
  }
  Step-IsFrozen unchecked k p _ _ (worked g s ring c) v = record {
    stored = v.stored;
    detached = rw (offchain_worker-unmarked w.host g s c.base.detach ring) v.detached;
  }
  Step-IsFrozen unchecked k p _ _ (elsewhere l c) v = v

  -- Whatever a chain does, with checked calls or not, a Proto-Fragment that is marked as detached
  -- stays marked and stays exactly as it is.
  pub Reach-IsFrozen :
      (unchecked : Bool) (k : Hash256) (p : Protos.Proto) (c d : Chain L)
      → IsFrozen k p c.base
      → Reach w unchecked c d
      → IsFrozen k p d.base
  Reach-IsFrozen unchecked k p c d v r =
      Reach-keeps w unchecked (λ (t : Chain L). IsFrozen k p t.base) (Step-IsFrozen unchecked k p) r
        v
