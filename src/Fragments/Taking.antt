-- ===== src/Fragments/Taking.antt =====
-- Who takes an instance from an account: its holder gives it, or it expires.
use clamor.Fragments.Holding.{
  Holds, minted-Holds, give_copy-Holds, give_away-Holds, expire_items-Holds,
}
use clamor.Exec.{remove, items, Origin, signed}
use clamor.Fragments.Types.{InstanceId, State, Chain}
use clamor.Fragments.Calls.{instances_of}
use clamor.Fragments.Giving.{on_finalize}
use clamor.Fragments.Keeps.{mint-keeps, buy-keeps}
use clamor.Fragments.GiveKeeps.{next_copy, give-keeps}
use clamor.Fragments.Untouched.{
  create-SameInstances, publish-SameInstances, unpublish-SameInstances,
  create_account-SameInstances,
}
use clamor.Fragments.Runs.{
  Extrinsic, create_call, publish_call, unpublish_call, mint_call, buy_call, give_call,
  create_account_call, Outside, dispatch,
}
use clamor.Base.{
  ◌≡◌, subst, ◌≢◌, inl, inr, false, none, some, arith, Bool-cases, ◌==◌, ==_iff, contains, nat_eq,
  bytes_eq, pair_eq,
}
use clamor.Host.{AccountId, Hash128, BlockNumber, Host, System}

module _ (a : AccountId) (k : Hash128) (i : InstanceId) where
  other : (o : Origin) (b : AccountId) → o ≢ signed a → o ≡ signed b → (b == a) ≡ false
  other o b n e = elim (Bool-cases (b == a)) [
    | inl same ↦ absurd (n (subst (λ x. o ≡ signed x) (ground (arith, ==_iff b a, same)) e))
    | inr differs ↦ differs
  ]

  module _ {L : Type 0} (h : Host) (w : Outside L) where
    -- A call takes an instance from nobody but the account that signs it.
    pub dispatch-Holds :
        (sys : System) (o : Origin) (x : Extrinsic) (c : Chain L)
        → o ≢ signed a
        → Holds a k i c.fragments
        → Holds a k i (dispatch h w sys o x c).1.fragments
    unfolding dispatch
    dispatch-Holds sys o (create_call p m q u max) c n v =
        rw (create-SameInstances h w.currencies sys o p m q u max c).1 v
    dispatch-Holds sys o (publish_call class price units expires amount) c n v =
        rw (publish-SameInstances o class price units expires amount c).1 v
    dispatch-Holds sys o (unpublish_call class) c n v = rw (unpublish-SameInstances o class c).1 v
    dispatch-Holds sys o (mint_call class options amount) c n v =
        mint-keeps h sys o class options amount c (Holds a k i) v (λ b d x _.
          minted-Holds a k i h sys b class none options (instances_of options) none amount d x
            c.fragments v)
    dispatch-Holds sys o (buy_call class options) c n v =
        buy-keeps h sys w.currencies o class options c (Holds a k i) v (λ b sale d x _.
          minted-Holds a k i h sys b class (some sale) options (instances_of options) none
            sale.amount d x c.fragments v)
    dispatch-Holds sys o (give_call class e copy target p wish) c n v =
        give-keeps h sys w.lookup o class e copy target p wish c (Holds a k i) v
          (λ b to q item by _ _.
            give_away-Holds a k i b to class (e, copy) q c.fragments (other o b n by) v)
          (λ to item _ _.
            give_copy-Holds a k i to class e (next_copy class e c.fragments) item c.fragments v)
    dispatch-Holds sys o (create_account_call class e copy) c n v =
        rw (create_account-SameInstances h w.currencies o class e copy c).1 v

    -- The end of a block takes none that it is not to expire in.
    pub on_finalize-Holds :
        (n : BlockNumber) (s : State)
        → contains (items s.expirations n) (k, i) ≡ false
        → Holds a k i s
        → Holds a k i (on_finalize w.owner_keys n s)
    unfolding on_finalize
    on_finalize-Holds n s e v =
        expire_items-Holds a k i w.owner_keys (items s.expirations n)
          (record s { expirations = remove s.expirations n }) e v
