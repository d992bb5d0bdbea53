-- ===== src/Fragments/Runs.antt =====
-- Sequences of calls of the pallet, in any order, failing or not, with the ends of blocks between
-- them.
use clamor.Exec.{remove, items, Origin, Call}
use clamor.Fragments.Types.{
  Edition, FragmentPerms, FragmentMetadata, UniqueOptions, PublishingData, FragmentBuyOptions,
  Error, State, Chain, FragmentDefinition,
}
use clamor.Fragments.Calls.{instances_of, create, publish, unpublish, mint, buy, create_account}
use clamor.Fragments.Effects.{spend, minted, part_of, new_instance, existing}
use clamor.Fragments.Giving.{give, on_finalize}
use clamor.Fragments.Keeps.{mint-keeps, buy-keeps}
use clamor.Fragments.GiveKeeps.{next_copy, give-keeps}
use clamor.Fragments.Mirror.{
  IsMirrored, SameHolders-IsMirrored, write_minted-IsMirrored, give_copy-IsMirrored,
  give_away-IsMirrored, expire_items-IsMirrored,
}
use clamor.Fragments.Untouched.{
  create-SameInstances, publish-SameInstances, unpublish-SameInstances,
  create_account-SameInstances,
}
use clamor.Base.{
  ℕ, inl, inr, Option, none, some, List, [], ◌∷◌, Option-cases, nat_eq, bytes_eq, pair_eq,
}
use clamor.Host.{AccountId, Hash256, Hash128, BlockNumber, Host, System, Currencies}

spend-IsMirrored :
    (class : Hash128) (sale : Option PublishingData) (n : ℕ) (s : State)
    → IsMirrored s
    → IsMirrored (spend class sale n s)
spend-IsMirrored class none n s v = v
spend-IsMirrored class (some sale) n s v = elim (Option-cases sale.units_left) [
  | inl e ↦ rw e v
  | inr (m, e) ↦ rw e (record { same = v.same })
]

module _ (h : Host) (sys : System) where
  minted-IsMirrored :
      (to : AccountId) (class : Hash128) (sale : Option PublishingData)
      (options : FragmentBuyOptions) (n : ℕ) (expiring_at : Option BlockNumber)
      (amount : Option Edition) (d : FragmentDefinition) (x : ℕ) (s : State)
      → IsMirrored s
      → IsMirrored (minted h sys to class sale options n expiring_at amount d x s)
  unfolding minted
  minted-IsMirrored to class sale options n expiring_at amount d x s v =
      write_minted-IsMirrored to class (new_instance h sys d options expiring_at amount) n x
        (existing class s) (part_of h options) (spend class sale n s)
        (spend-IsMirrored class sale n s v)

pub data Extrinsic : Type 0 where
  create_call :
      Hash256 → FragmentMetadata → FragmentPerms → Option UniqueOptions → Option Edition → Extrinsic
  publish_call : Hash128 → ℕ → Option Edition → Option BlockNumber → Option Edition → Extrinsic
  unpublish_call : Hash128 → Extrinsic
  mint_call : Hash128 → FragmentBuyOptions → Option Edition → Extrinsic
  buy_call : Hash128 → FragmentBuyOptions → Extrinsic
  give_call :
      Hash128 → Edition → Edition → ℕ → Option FragmentPerms → Option BlockNumber → Extrinsic
  create_account_call : Hash128 → Edition → Edition → Extrinsic

-- What a chain does: a call in a block, or the end of a block with its number.
pub data Action : Type 0 where
  call : System → Origin → Extrinsic → Action
  block_end : BlockNumber → Action

-- What the pallet takes from outside, besides `Host`: the currencies, the addresses of receivers,
-- and the order in which `Owners` is enumerated.
pub record Outside (L : Type 0) : Type 0 where
  pub currencies : Currencies L
  pub lookup : ℕ → Option AccountId
  pub owner_keys : Hash128 → List AccountId

module _ {L : Type 0} (h : Host) (w : Outside L) where
  unfoldable pub dispatch : System → Origin → Extrinsic → Call (Chain L) Error
  dispatch sys o (create_call k m p u max) = create h w.currencies sys o k m p u max
  dispatch sys o (publish_call class price units expires amount) =
      publish o class price units expires amount
  dispatch sys o (unpublish_call class) = unpublish o class
  dispatch sys o (mint_call class options amount) = mint h sys o class options amount
  dispatch sys o (buy_call class options) = buy h w.currencies sys o class options
  dispatch sys o (give_call class e copy target p wish) =
      give h sys w.lookup o class e copy target p wish
  dispatch sys o (create_account_call class e copy) = create_account h w.currencies o class e copy

  unfoldable pub apply : Action → Chain L → Chain L
  apply (call sys o x) c = (dispatch sys o x c).1
  apply (block_end n) c = record c { fragments = on_finalize w.owner_keys n c.fragments }

  unfoldable pub run : List Action → Chain L → Chain L
  run [] c = c
  run (x ∷ xs) c = run xs (apply x c)

  pub dispatch-IsMirrored :
      (sys : System) (o : Origin) (x : Extrinsic) (c : Chain L)
      → IsMirrored c.fragments
      → IsMirrored (dispatch sys o x c).1.fragments
  unfolding dispatch
  dispatch-IsMirrored sys o (create_call k m p u max) c v =
      let same = create-SameInstances h w.currencies sys o k m p u max c in
      SameHolders-IsMirrored _ _ (same.0, same.1) v
  dispatch-IsMirrored sys o (publish_call class price units expires amount) c v =
      let same = publish-SameInstances o class price units expires amount c in
      SameHolders-IsMirrored _ _ (same.0, same.1) v
  dispatch-IsMirrored sys o (unpublish_call class) c v =
      let same = unpublish-SameInstances o class c in SameHolders-IsMirrored _ _ (same.0, same.1) v
  dispatch-IsMirrored sys o (mint_call class options amount) c v =
      mint-keeps h sys o class options amount c IsMirrored v (λ a d x _.
        minted-IsMirrored h sys a class none options (instances_of options) none amount d x
          c.fragments v)
  dispatch-IsMirrored sys o (buy_call class options) c v =
      buy-keeps h sys w.currencies o class options c IsMirrored v (λ a sale d x _.
        minted-IsMirrored h sys a class (some sale) options (instances_of options) none sale.amount
          d x c.fragments v)
  dispatch-IsMirrored sys o (give_call class e copy target p wish) c v =
      give-keeps h sys w.lookup o class e copy target p wish c IsMirrored v
        (λ a to q item _ _ _. give_away-IsMirrored a to class (e, copy) q c.fragments v)
        (λ to i item _.
          give_copy-IsMirrored to class e (next_copy class e c.fragments) i c.fragments v)
  dispatch-IsMirrored sys o (create_account_call class e copy) c v =
      let same = create_account-SameInstances h w.currencies o class e copy c in
      SameHolders-IsMirrored _ _ (same.0, same.1) v

  pub on_finalize-IsMirrored :
      (n : BlockNumber) (s : State) → IsMirrored s → IsMirrored (on_finalize w.owner_keys n s)
  unfolding on_finalize
  on_finalize-IsMirrored n s v =
      expire_items-IsMirrored w.owner_keys (items s.expirations n)
        (record s { expirations = remove s.expirations n }) (record { same = v.same })

  -- Whatever calls are made and blocks end, if `Owners` and `Inventory` agree for each definition
  -- and account, item for item, then they do afterwards.
  pub run-IsMirrored :
      (xs : List Action) (c : Chain L) → IsMirrored c.fragments → IsMirrored (run xs c).fragments
  unfolding run apply
  run-IsMirrored [] c v = v
  run-IsMirrored (call sys o x ∷ xs) c v =
      run-IsMirrored xs (dispatch sys o x c).1 (dispatch-IsMirrored sys o x c v)
  run-IsMirrored (block_end n ∷ xs) c v =
      run-IsMirrored xs (apply (block_end n) c) (on_finalize-IsMirrored n c.fragments v)
