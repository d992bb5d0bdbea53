-- ===== src/Fragments/Numbering.antt =====
-- The numbers of the instances: each one is of an edition that was counted.
use clamor.Exec.{StorageMap, StorageDoubleMap, Origin, remove, items}
use clamor.Fragments.Types.{
  Edition, InstanceId, FragmentPerms, FragmentDefinition, FragmentInstance, PublishingData,
  FragmentBuyOptions, State, Chain,
}
use clamor.Fragments.Calls.{instances_of}
use clamor.Fragments.Effects.{existing, minted}
use clamor.Fragments.Giving.{give_copy, give_away, expire_item, expire_items, on_finalize}
use clamor.Fragments.Keeps.{mint-keeps, buy-keeps}
use clamor.Fragments.GiveKeeps.{next_copy, give-keeps}
use clamor.Fragments.Untouched.{
  create-SameInstances, publish-SameInstances, unpublish-SameInstances,
  create_account-SameInstances,
}
use clamor.Fragments.Supply.{minted-editions}
use clamor.Fragments.Runs.{
  Extrinsic, create_call, publish_call, unpublish_call, mint_call, buy_call, give_call,
  create_account_call, Action, call, block_end, Outside, dispatch, apply, run,
}
use clamor.Base.{
  ℕ, ◌+◌, ◌≤◌, ◌<◌, ◌≡◌, ap, true, Option, some, List, [], ◌∷◌, arith, is_some, ==_iff, count,
  nat_eq, bytes_eq, pair_eq, none,
}
use clamor.Host.{AccountId, Hash128, BlockNumber, u64_mod, Host, System}

pub record IsNumbered (s : State) : Type 0 where
  pub counted :
      (class : Hash128) (e copy : Edition)
      → is_some (s.fragments class (e, copy)) ≡ true
      → (1 ≤ e) × (e ≤ existing class s)

SameEditions : State → State → Type 0
SameEditions s t = (t.fragments ≡ s.fragments) × (t.editions_count ≡ s.editions_count)

SameEditions-IsNumbered : (s t : State) → SameEditions s t → IsNumbered s → IsNumbered t
unfolding SameEditions
SameEditions-IsNumbered s t (f, n) v = record {
  counted = λ k e copy p. ground (
    arith,
    v.counted k e copy,
    ap (λ (m : StorageDoubleMap Hash128 InstanceId FragmentInstance). m k (e, copy)) f,
    ap (λ (m : StorageMap Hash128 Edition). m k) n,
    p,
  );
}

minted-IsNumbered :
    (h : Host) (sys : System) (to : AccountId) (class : Hash128) (sale : Option PublishingData)
    (options : FragmentBuyOptions) (n : ℕ) (expiring_at : Option BlockNumber)
    (amount : Option Edition) (d : FragmentDefinition) (x : ℕ) (s : State)
    → existing class s + n < u64_mod
    → IsNumbered s
    → IsNumbered (minted h sys to class sale options n expiring_at amount d x s)
minted-IsNumbered h sys to class sale options n expiring_at amount d x s b v =
    let (made, count) = minted-editions h sys to class sale options n expiring_at amount d x s b in
    record { counted = λ k e copy p. ground (arith, v.counted k e copy, made k e copy, count k, p) }

give_copy-IsNumbered :
    (to : AccountId) (class : Hash128) (e copy new : Edition) (i item : FragmentInstance)
    (s : State)
    → s.fragments class (e, copy) ≡ some item
    → IsNumbered s
    → IsNumbered (give_copy to class e new i s)
unfolding give_copy
give_copy-IsNumbered to class e copy new i item s q v = record {
  counted = λ k f j p.
      ground (arith, v.counted k f j, v.counted class e copy, q, p, ==_iff class k, ==_iff e f);
}

give_away-IsNumbered :
    (who to : AccountId) (class : Hash128) (id : InstanceId) (p : FragmentPerms) (s : State)
    → IsNumbered s
    → IsNumbered (give_away who to class id p s)
unfolding give_away
give_away-IsNumbered who to class id p s v = record {
  counted = λ k f j q. ground (arith, v.counted k f j, q);
}

expire_item-IsNumbered :
    (owner_keys : Hash128 → List AccountId) (class : Hash128) (id : InstanceId) (s : State)
    → IsNumbered s
    → IsNumbered (expire_item owner_keys (class, id) s)
unfolding expire_item
expire_item-IsNumbered owner_keys class id s v = record {
  counted = λ k f j p. ground (arith, v.counted k f j, p);
}

expire_items-IsNumbered :
    (owner_keys : Hash128 → List AccountId) (ids : List (Hash128 × InstanceId)) (s : State)
    → IsNumbered s
    → IsNumbered (expire_items owner_keys ids s)
unfolding expire_items
expire_items-IsNumbered owner_keys [] s v = v
expire_items-IsNumbered owner_keys ((class, id) ∷ ids) s v =
    expire_items-IsNumbered owner_keys ids (expire_item owner_keys (class, id) s)
      (expire_item-IsNumbered owner_keys class id s v)

module _ {L : Type 0} where
  -- the count of editions does not pass 2^64 in this action
  unfoldable pub InRange : Action → Chain L → Type 0
  InRange (call sys o (mint_call class options amount)) c =
      existing class c.fragments + instances_of options < u64_mod
  InRange (call sys o (buy_call class options)) c =
      existing class c.fragments + instances_of options < u64_mod
  InRange (call sys o x) c = Unit
  InRange (block_end n) c = Unit

module _ {L : Type 0} (h : Host) (w : Outside L) where
  unfoldable pub AllInRange : List Action → Chain L → Type 0
  AllInRange [] c = Unit
  AllInRange (x ∷ xs) c = InRange x c × AllInRange xs (apply h w x c)

  pub dispatch-IsNumbered :
      (sys : System) (o : Origin) (x : Extrinsic) (c : Chain L)
      → InRange (call sys o x) c
      → IsNumbered c.fragments
      → IsNumbered (dispatch h w sys o x c).1.fragments
  unfolding dispatch InRange SameEditions
  dispatch-IsNumbered sys o (create_call k m p u max) c b v =
      let same = create-SameInstances h w.currencies sys o k m p u max c in
      SameEditions-IsNumbered _ _ (same.2, same.3) v
  dispatch-IsNumbered sys o (publish_call class price units expires amount) c b v =
      let same = publish-SameInstances o class price units expires amount c in
      SameEditions-IsNumbered _ _ (same.2, same.3) v
  dispatch-IsNumbered sys o (unpublish_call class) c b v =
      let same = unpublish-SameInstances o class c in SameEditions-IsNumbered _ _ (same.2, same.3) v
  dispatch-IsNumbered sys o (mint_call class options amount) c b v =
      mint-keeps h sys o class options amount c IsNumbered v (λ a d x _.
        minted-IsNumbered h sys a class none options (instances_of options) none amount d x
          c.fragments b v)
  dispatch-IsNumbered sys o (buy_call class options) c b v =
      buy-keeps h sys w.currencies o class options c IsNumbered v (λ a sale d x _.
        minted-IsNumbered h sys a class (some sale) options (instances_of options) none sale.amount
          d x c.fragments b v)
  dispatch-IsNumbered sys o (give_call class e copy target p wish) c b v =
      give-keeps h sys w.lookup o class e copy target p wish c IsNumbered v
        (λ a to q item _ _ _. give_away-IsNumbered a to class (e, copy) q c.fragments v)
        (λ to i item q.
          give_copy-IsNumbered to class e copy (next_copy class e c.fragments) i item c.fragments q
            v)
  dispatch-IsNumbered sys o (create_account_call class e copy) c b v =
      let same = create_account-SameInstances h w.currencies o class e copy c in
      SameEditions-IsNumbered _ _ (same.2, same.3) v

  pub on_finalize-IsNumbered :
      (n : BlockNumber) (s : State) → IsNumbered s → IsNumbered (on_finalize w.owner_keys n s)
  unfolding on_finalize
  on_finalize-IsNumbered n s v =
      expire_items-IsNumbered w.owner_keys (items s.expirations n)
        (record s { expirations = remove s.expirations n }) (record { counted = v.counted })

  -- Whatever calls are made and blocks end, as long as no count of editions passes 2^64: if every
  -- instance has an edition from 1 up to the count of its definition, then so it is afterwards.
  pub run-IsNumbered :
      (xs : List Action) (c : Chain L)
      → AllInRange xs c
      → IsNumbered c.fragments
      → IsNumbered (run h w xs c).fragments
  unfolding run apply AllInRange
  run-IsNumbered [] c b v = v
  run-IsNumbered (call sys o x ∷ xs) c (b, bs) v =
      run-IsNumbered xs (dispatch h w sys o x c).1 bs (dispatch-IsNumbered sys o x c b v)
  run-IsNumbered (block_end n ∷ xs) c (b, bs) v =
      run-IsNumbered xs (apply h w (block_end n) c) bs (on_finalize-IsNumbered n c.fragments v)
