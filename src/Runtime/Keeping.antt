-- ===== src/Runtime/Keeping.antt =====
-- The instances that inventories list are stored, in all that the chain does.
use clamor.Fragments.Backing.{IsLost}
use clamor.Fragments.Backed.{dispatch-Ties, on_finalize-IsLost}
use clamor.Fragments.Spared.{IsSpared, on_finalize-IsSpared}
use clamor.Fragments.Giving.{on_finalize}
use clamor.Exec.{items, items₂, Origin, none_origin}
use clamor.Runtime.Calls.{
  internal_lock_update_call, internal_finalize_detach_call, RuntimeCall, protos_call,
  fragments_call, detach_call, accounts_call, World, dispatch,
}
use clamor.Runtime.Steps.{
  Step, called, lock_updated, detach_finalized, overridden, protos_finalized, fragments_finalized,
  detach_finished, worked, elsewhere, Reach, here, next,
}
use clamor.Runtime.Consistency.{IsConsistent, Reach-IsConsistent}
use clamor.Fragments.Types.{InstanceId, Chain}
use clamor.Base.{
  ℕ, ◌≡◌, ◌⊎◌, inl, inr, Bool, true, false, arith, is_some, Bool-cases, contains, nat_eq, bytes_eq,
  pair_eq,
}
use clamor.Host.{AccountId, Hash128, BlockNumber, System}

-- Between `c` and `d` a block ended that the instance was listed to expire in, and it was spared.
pub record Expired {L : Type 0} (w : World L) (unchecked : Bool) (c d : Chain L) (a : AccountId)
    (k : Hash128) (i : InstanceId) : Type 0 where
  pub before : Chain L
  pub block : BlockNumber
  pub reached : Reach w unchecked c before
  pub listed : contains (items before.fragments.expirations block) (k, i) ≡ true
  pub spared : IsSpared (w.outside.owner_keys k) a k i before.fragments
  pub later :
      Reach w unchecked
        (record before { fragments = on_finalize w.outside.owner_keys block before.fragments })
        d

module _ {L : Type 0} (w : World L) (unchecked : Bool) where
  Reach-trans :
      (c t u : Chain L) → Reach w unchecked c t → Reach w unchecked t u → Reach w unchecked c u
  Reach-trans c t _ r here = r
  Reach-trans c t u r (next s x) = next (Reach-trans c t _ r s) x

  Expired-next :
      (c d e : Chain L) (a : AccountId) (k : Hash128) (i : InstanceId)
      → Step w unchecked d e
      → Expired w unchecked c d a k i
      → Expired w unchecked c e a k i
  Expired-next c d e a k i x p = record {
    before = p.before;
    block = p.block;
    reached = p.reached;
    listed = p.listed;
    spared = p.spared;
    later = next p.later x;
  }

  dispatch-IsLost :
      (sys : System) (now : ℕ) (o : Origin) (x : RuntimeCall) (c : Chain L) (a : AccountId)
      (k : Hash128) (i : InstanceId)
      → IsLost a k i (dispatch w sys now o x c).fragments
      → IsLost a k i c.fragments
  unfolding dispatch
  dispatch-IsLost sys now o (protos_call x) c a k i l = l
  dispatch-IsLost sys now o (fragments_call x) c a k i l =
      (dispatch-Ties w.host w.outside sys o x c).lost a k i l
  dispatch-IsLost sys now o (detach_call x) c a k i l = l
  dispatch-IsLost sys now o (accounts_call x) c a k i l = l

  Step-IsLost :
      (c d : Chain L) (a : AccountId) (k : Hash128) (i : InstanceId)
      → IsConsistent c
      → Step w unchecked c d
      → IsLost a k i d.fragments
      → IsLost a k i c.fragments ⊎ Expired w unchecked c d a k i
  Step-IsLost _ _ a k i v (called sys now o x c n) l = inl (dispatch-IsLost sys now o x c a k i l)
  Step-IsLost _ _ a k i v (lock_updated sys now d signature tag c q) l =
      inl (
        dispatch-IsLost sys now none_origin (accounts_call (internal_lock_update_call d)) c a k i l)
  Step-IsLost _ _ a k i v (detach_finalized sys now d signature tag c q) l = inl (
      dispatch-IsLost sys now none_origin (detach_call (internal_finalize_detach_call d)) c a k i l)
  Step-IsLost _ _ a k i v (overridden sys now x c u) l =
      inl (dispatch-IsLost sys now none_origin x c a k i l)
  Step-IsLost _ _ a k i v (protos_finalized c) l = inl l
  Step-IsLost _ _ a k i v (fragments_finalized n c) l =
      elim (Bool-cases (contains (items c.fragments.expirations n) (k, i))) [
        | inr free ↦ inl (on_finalize-IsLost w.host w.outside n c.fragments a k i free l)
        | inl listed ↦ inr (record {
          before = c;
          block = n;
          reached = here;
          listed = listed;
          spared = on_finalize-IsSpared w.outside n c.fragments a k i v.mirrored listed l;
          later = here;
        })
      ]
  Step-IsLost _ _ a k i v (detach_finished c) l = inl l
  Step-IsLost _ _ a k i v (worked g s n c) l = inl l
  Step-IsLost _ _ a k i v (elsewhere b c) l = inl l

  Reach-IsLost :
      (c d : Chain L) (a : AccountId) (k : Hash128) (i : InstanceId)
      → IsConsistent c
      → Reach w unchecked c d
      → IsLost a k i d.fragments
      → IsLost a k i c.fragments ⊎ Expired w unchecked c d a k i
  Reach-IsLost c _ a k i v here l = inl l
  Reach-IsLost c e a k i v (next {t = t} r x) l =
      elim (Step-IsLost t e a k i (Reach-IsConsistent w unchecked c t v r) x l) [
        | inl m ↦ elim (Reach-IsLost c t a k i v r m) [
          | inl first ↦ inl first
          | inr p ↦ inr (Expired-next c t e a k i x p)
        ]
        | inr p ↦ inr (record {
          before = p.before;
          block = p.block;
          reached = Reach-trans c t p.before r p.reached;
          listed = p.listed;
          spared = p.spared;
          later = p.later;
        })
      ]

  -- In a chain that starts without an instance in an inventory, and consistent, it is in the
  -- inventory, and not stored, only if it was spared at the end of a block that it was listed to
  -- expire in.
  pub Reach-Expired :
      (c d : Chain L) (a : AccountId) (k : Hash128) (i : InstanceId)
      → IsConsistent c
      → contains (items₂ c.fragments.inventory a k) i ≡ false
      → Reach w unchecked c d
      → (contains (items₂ d.fragments.inventory a k) i ≡ false)
        ⊎ (is_some (d.fragments.fragments k i) ≡ true)
        ⊎ Expired w unchecked c d a k i
  Reach-Expired c d a k i v start r =
      elim (Bool-cases (contains (items₂ d.fragments.inventory a k) i)) [
        | inr free ↦ inl free
        | inl held ↦ inr (elim (Bool-cases (is_some (d.fragments.fragments k i))) [
          | inl stored ↦ inl stored
          | inr missing ↦
              elim (Reach-IsLost c d a k i v r (record { holds = held; missing = missing })) [
                | inl l ↦ absurd (ground (arith, l.holds, start))
                | inr p ↦ inr p
              ]
        ])
      ]
