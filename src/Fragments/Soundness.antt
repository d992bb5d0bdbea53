-- ===== src/Fragments/Soundness.antt =====
-- What holds of the numbers of instances and of the two lists of their holders, whatever is called.
use clamor.Exec.{remove, items, items₂, Origin}
use clamor.Fragments.Types.{InstanceId, State, Chain}
use clamor.Fragments.Calls.{instances_of}
use clamor.Fragments.Giving.{on_finalize}
use clamor.Fragments.Keeps.{mint-keeps, buy-keeps}
use clamor.Fragments.GiveKeeps.{give-keeps}
use clamor.Fragments.Mirror.{IsMirrored}
use clamor.Fragments.Untouched.{
  create-SameInstances, publish-SameInstances, unpublish-SameInstances,
  create_account-SameInstances,
}
use clamor.Fragments.Runs.{
  Extrinsic, create_call, publish_call, unpublish_call, mint_call, buy_call, give_call,
  create_account_call, Action, call, block_end, Outside, dispatch, apply, dispatch-IsMirrored,
  on_finalize-IsMirrored,
}
use clamor.Fragments.Numbering.{IsNumbered, InRange, dispatch-IsNumbered, on_finalize-IsNumbered}
use clamor.Fragments.Copies.{
  IsCopied, SameCopies-IsCopied, minted-IsCopied, give_copy-IsCopied, give_away-IsCopied,
  expire_items-IsCopied,
}
use clamor.Base.{
  ◌+◌, ◌<◌, ◌≡◌, true, none, some, List, [], ◌∷◌, get_or, contains, nat_eq, bytes_eq, pair_eq,
}
use clamor.Host.{AccountId, Hash128, BlockNumber, u64_mod, Host, System}

-- what holds of the numbers and the two lists of holders
pub record IsSound (s : State) : Type 0 where
  pub mirrored : IsMirrored s
  pub numbered : IsNumbered s
  pub copied : IsCopied s

module _ {L : Type 0} (h : Host) (w : Outside L) where
  -- The count of copies stays below 2^64, and at the end of a block every account that holds an
  -- instance is enumerated.
  unfoldable pub Fits : Action → Chain L → Type 0
  Fits (call sys o (give_call class e copy target p wish)) c =
      get_or (c.fragments.copies_count class e) 0 + 1 < u64_mod
  Fits (call sys o x) c = Unit
  Fits (block_end n) c =
      (class : Hash128) (id : InstanceId) (a : AccountId)
      → contains (items₂ c.fragments.owners class a) id ≡ true
      → contains (w.owner_keys class) a ≡ true

  unfoldable pub AllFit : List Action → Chain L → Type 0
  AllFit [] c = Unit
  AllFit (x ∷ xs) c = InRange x c × Fits x c × AllFit xs (apply h w x c)

  pub dispatch-IsCopied :
      (sys : System) (o : Origin) (x : Extrinsic) (c : Chain L)
      → InRange (call sys o x) c
      → Fits (call sys o x) c
      → IsSound c.fragments
      → IsCopied (dispatch h w sys o x c).1.fragments
  unfolding dispatch InRange Fits
  dispatch-IsCopied sys o (create_call k m p u max) c b f v =
      let same = create-SameInstances h w.currencies sys o k m p u max c in
      SameCopies-IsCopied _ _ (same.2, same.4) v.copied
  dispatch-IsCopied sys o (publish_call class price units expires amount) c b f v =
      let same = publish-SameInstances o class price units expires amount c in
      SameCopies-IsCopied _ _ (same.2, same.4) v.copied
  dispatch-IsCopied sys o (unpublish_call class) c b f v =
      let same = unpublish-SameInstances o class c in
      SameCopies-IsCopied _ _ (same.2, same.4) v.copied
  dispatch-IsCopied sys o (mint_call class options amount) c b f v =
      mint-keeps h sys o class options amount c IsCopied v.copied (λ a d x _.
        minted-IsCopied h sys a class none options (instances_of options) none amount d x
          c.fragments b v.numbered v.copied)
  dispatch-IsCopied sys o (buy_call class options) c b f v =
      buy-keeps h sys w.currencies o class options c IsCopied v.copied (λ a sale d x _.
        minted-IsCopied h sys a class (some sale) options (instances_of options) none sale.amount d
          x c.fragments b v.numbered v.copied)
  dispatch-IsCopied sys o (give_call class e copy target p wish) c b f v =
      give-keeps h sys w.lookup o class e copy target p wish c IsCopied v.copied
        (λ a to q item _ _ _. give_away-IsCopied a to class (e, copy) q c.fragments v.copied)
        (λ to i item _. give_copy-IsCopied to class e i c.fragments f v.copied)
  dispatch-IsCopied sys o (create_account_call class e copy) c b f v =
      let same = create_account-SameInstances h w.currencies o class e copy c in
      SameCopies-IsCopied _ _ (same.2, same.4) v.copied

  dispatch-IsSound :
      (sys : System) (o : Origin) (x : Extrinsic) (c : Chain L)
      → InRange (call sys o x) c
      → Fits (call sys o x) c
      → IsSound c.fragments
      → IsSound (dispatch h w sys o x c).1.fragments
  dispatch-IsSound sys o x c b f v = record {
    mirrored = dispatch-IsMirrored h w sys o x c v.mirrored;
    numbered = dispatch-IsNumbered h w sys o x c b v.numbered;
    copied = dispatch-IsCopied sys o x c b f v;
  }

  on_finalize-IsSound :
      (n : BlockNumber) (s : State) → IsSound s → IsSound (on_finalize w.owner_keys n s)
  unfolding on_finalize
  on_finalize-IsSound n s v = record {
    mirrored = on_finalize-IsMirrored h w n s v.mirrored;
    numbered = on_finalize-IsNumbered h w n s v.numbered;
    copied =
        expire_items-IsCopied w.owner_keys (items s.expirations n)
          (record s { expirations = remove s.expirations n })
          (record { counted = v.copied.counted });
  }

  pub apply-IsSound :
      (x : Action) (c : Chain L)
      → InRange x c
      → Fits x c
      → IsSound c.fragments
      → IsSound (apply h w x c).fragments
  unfolding apply
  apply-IsSound (call sys o x) c b f v = dispatch-IsSound sys o x c b f v
  apply-IsSound (block_end n) c b f v = on_finalize-IsSound n c.fragments v
