-- ===== src/Fragments/Backed.antt =====
-- What the calls of the pallet and the ends of blocks do to the inventories and the instances.
use clamor.Fragments.Holding.{contains-remove_first}
use clamor.Fragments.Backing.{
  IsLost, IsHeld, Ties, Ties-same, minted-Ties, give_copy-Ties, give_away-Ties,
}
use clamor.Exec.{put₂, items₂, items, remove, Origin}
use clamor.Fragments.Types.{InstanceId, State, Chain}
use clamor.Fragments.Calls.{instances_of}
use clamor.Fragments.Giving.{find_owner, take_from, expire_item, expire_items, on_finalize}
use clamor.Fragments.Keeps.{mint-keeps, buy-keeps}
use clamor.Fragments.GiveKeeps.{next_copy, give-keeps}
use clamor.Fragments.Untouched.{
  create-SameInstances, publish-SameInstances, unpublish-SameInstances,
  create_account-SameInstances,
}
use clamor.Fragments.Runs.{
  Extrinsic, create_call, publish_call, unpublish_call, mint_call, buy_call, give_call,
  create_account_call, Outside, dispatch,
}
use clamor.Base.{
  ◌≡◌, refl, false, ◌&&◌, Option, none, some, List, [], ◌∷◌, arith, is_some, ◌==◌, ==_iff, contains,
  nat_eq, bytes_eq, pair_eq,
}
use clamor.Host.{AccountId, Hash128, BlockNumber, Host, System}

take_from-IsHeld :
    (o : Option AccountId) (class : Hash128) (id : InstanceId) (s : State)
    → is_some (s.fragments class id) ≡ false
    → IsHeld s
    → IsHeld (take_from o class id s)
take_from-IsHeld none class id s gone v = v
take_from-IsHeld (some b) class id s gone v = record {
  holder = λ k i e.
      let (a, h) = v.holder k i e in
      (
        a,
        ground (
          arith,
          gone,
          e,
          h,
          contains-remove_first i id (items₂ s.inventory b class),
          ==_iff b a,
          ==_iff class k,
          ==_iff id i,
        ),
      );
}

take_from-IsLost :
    (o : Option AccountId) (class : Hash128) (id : InstanceId) (s : State) (a : AccountId)
    (k : Hash128) (i : InstanceId)
    → (class == k && id == i) ≡ false
    → IsLost a k i (take_from o class id s)
    → IsLost a k i s
take_from-IsLost none class id s a k i n l = l
take_from-IsLost (some b) class id s a k i n l = record {
  holds = ground (
    arith,
    n,
    l.holds,
    contains-remove_first i id (items₂ s.inventory b class),
    ==_iff b a,
    ==_iff class k,
    ==_iff id i,
  );
  missing = l.missing;
}

missing-IsHeld :
    (class : Hash128) (id : InstanceId) (s : State)
    → IsHeld s
    → IsHeld (record s { fragments = put₂ s.fragments class id none })
missing-IsHeld class id s v = record { holder = λ k i e. v.holder k i (ground (arith, e)) }

expire_items-IsHeld :
    (owner_keys : Hash128 → List AccountId) (xs : List (Hash128 × InstanceId)) (s : State)
    → IsHeld s
    → IsHeld (expire_items owner_keys xs s)
unfolding expire_items expire_item
expire_items-IsHeld owner_keys [] s v = v
expire_items-IsHeld owner_keys ((class, id) ∷ xs) s v = expire_items-IsHeld owner_keys xs _ (
    take_from-IsHeld (find_owner (owner_keys class) class id s) class id
      (record s { fragments = put₂ s.fragments class id none }) (ground (arith, ==_iff id id))
      (missing-IsHeld class id s v))

expire_items-IsLost :
    (owner_keys : Hash128 → List AccountId) (xs : List (Hash128 × InstanceId)) (s : State)
    (a : AccountId) (k : Hash128) (i : InstanceId)
    → contains xs (k, i) ≡ false
    → IsLost a k i (expire_items owner_keys xs s)
    → IsLost a k i s
unfolding expire_items expire_item
expire_items-IsLost owner_keys [] s a k i n l = l
expire_items-IsLost owner_keys ((class, id) ∷ xs) s a k i n l =
    let free : (class == k && id == i) ≡ false = ground (arith, n) in
    let t = record s { fragments = put₂ s.fragments class id none } in
    let later = expire_items-IsLost owner_keys xs _ a k i (ground (arith, n)) l in
    let here =
      take_from-IsLost (find_owner (owner_keys class) class id s) class id t a k i free later in
    record { holds = here.holds; missing = ground (arith, here.missing, free) }

module _ {L : Type 0} (h : Host) (w : Outside L) where
  pub dispatch-Ties :
      (sys : System) (o : Origin) (x : Extrinsic) (c : Chain L)
      → Ties c.fragments (dispatch h w sys o x c).1.fragments
  unfolding dispatch
  dispatch-Ties sys o (create_call k m p u max) c =
      let same = create-SameInstances h w.currencies sys o k m p u max c in
      Ties-same c.fragments _ same.1 same.2
  dispatch-Ties sys o (publish_call class price units expires amount) c =
      let same = publish-SameInstances o class price units expires amount c in
      Ties-same c.fragments _ same.1 same.2
  dispatch-Ties sys o (unpublish_call class) c =
      let same = unpublish-SameInstances o class c in Ties-same c.fragments _ same.1 same.2
  dispatch-Ties sys o (mint_call class options amount) c =
      mint-keeps h sys o class options amount c (Ties c.fragments)
        (Ties-same c.fragments c.fragments refl refl)
        (λ a d x _.
          minted-Ties h sys a class none options (instances_of options) none amount d x c.fragments)
  dispatch-Ties sys o (buy_call class options) c =
      buy-keeps h sys w.currencies o class options c (Ties c.fragments)
        (Ties-same c.fragments c.fragments refl refl)
        (λ a sale d x _.
          minted-Ties h sys a class (some sale) options (instances_of options) none sale.amount d x
            c.fragments)
  dispatch-Ties sys o (give_call class e copy target p wish) c =
      give-keeps h sys w.lookup o class e copy target p wish c (Ties c.fragments)
        (Ties-same c.fragments c.fragments refl refl)
        (λ a to q item _ there _.
          give_away-Ties a to class (e, copy) q c.fragments (ground (arith, there)))
        (λ to item _ _. give_copy-Ties to class e (next_copy class e c.fragments) item c.fragments)
  dispatch-Ties sys o (create_account_call class e copy) c =
      let same = create_account-SameInstances h w.currencies o class e copy c in
      Ties-same c.fragments _ same.1 same.2

  pub on_finalize-IsHeld :
      (n : BlockNumber) (s : State) → IsHeld s → IsHeld (on_finalize w.owner_keys n s)
  unfolding on_finalize
  on_finalize-IsHeld n s v =
      expire_items-IsHeld w.owner_keys (items s.expirations n)
        (record s { expirations = remove s.expirations n }) (record { holder = v.holder })

  -- The end of a block loses no instance that is not listed to expire in it.
  pub on_finalize-IsLost :
      (n : BlockNumber) (s : State) (a : AccountId) (k : Hash128) (i : InstanceId)
      → contains (items s.expirations n) (k, i) ≡ false
      → IsLost a k i (on_finalize w.owner_keys n s)
      → IsLost a k i s
  unfolding on_finalize
  on_finalize-IsLost n s a k i free l =
      let t = record s { expirations = remove s.expirations n } in
      let before = expire_items-IsLost w.owner_keys (items s.expirations n) t a k i free l in
      record { holds = before.holds; missing = before.missing }
