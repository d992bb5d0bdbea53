-- ===== src/Runtime/Parts.antt =====
-- Which parts of the storage a call of each pallet leaves alone.
use clamor.Protos.Types as Protos
use clamor.Protos.Atomic as ProtosCalls
use clamor.Fragments.Runs as Fragments
use clamor.Exec.{Origin, root, none_origin, signed, Outcome}
use clamor.Fragments.Types.{
  Edition, FragmentPerms, FragmentMetadata, UniqueOptions, FragmentBuyOptions, Error, Chain,
}
use clamor.Fragments.Calls.{instances_of, create, publish, unpublish, mint, buy, create_account}
use clamor.Fragments.Giving.{give}
use clamor.Fragments.Keeps.{mint_fragments-base, mint-effect}
use clamor.Detach.Types.{SupportedChains}
use clamor.Protos.Keeps.{dispatch-keeps}
use clamor.Protos.Calls.{detach}
use clamor.Protos.Stakes.{stake, unstake}
use clamor.Base.{ℕ, ◌≡◌, refl, ap, ◌∙◌, inl, inr, Option, none, some, arith, Option-cases}
use clamor.Host.{Bytes, AccountId, Hash256, Hash128, Balance, BlockNumber, Host, System, Currencies}

-- the links and locks, and the requests to detach aside, what is marked as detached
abbrev pub SameOthers : Protos.Chain → Protos.Chain → Type 0
SameOthers c d =
    (d.accounts ≡ c.accounts)
    × (d.detach.detached_hashes ≡ c.detach.detached_hashes)
    × (d.detach.frag_keys ≡ c.detach.frag_keys)

module _ (h : Host) (sys : System) where
  detach-SameOthers :
      (o : Origin) (k : Hash256) (chain : SupportedChains) (target : Bytes) (c : Protos.Chain)
      → SameOthers c (detach o k chain target c).1
  unfolding detach
  detach-SameOthers o k chain target c = ground arith

  stake-SameOthers :
      (o : Origin) (k : Hash256) (amount : Balance) (c : Protos.Chain)
      → SameOthers c (stake h sys o k amount c).1
  unfolding stake
  stake-SameOthers o k amount c = ground arith

  unstake-SameOthers :
      (o : Origin) (k : Hash256) (c : Protos.Chain) → SameOthers c (unstake h sys o k c).1
  unfolding unstake
  unstake-SameOthers o k c = ground arith

  pub protos-SameOthers :
      (o : Origin) (x : ProtosCalls.Extrinsic) (c : Protos.Chain)
      → SameOthers c (ProtosCalls.dispatch h sys o x c).1
  protos-SameOthers o x c =
      dispatch-keeps h sys (SameOthers c) o x c (refl, refl, refl)
        (record {
          uploads = λ a references category tags asset cost bytes _ _. (refl, refl, refl);
          patches = λ a k cost references tags bytes p _ _ _ _. (refl, refl, refl);
          transfers = λ a k b p _ _ _. (refl, refl, refl);
          sets_metadata = λ a k key bytes _ _. (refl, refl, refl);
          detaches = λ o k chain target. detach-SameOthers o k chain target c;
          stakes = λ o k amount. stake-SameOthers o k amount c;
          unstakes = λ o k. unstake-SameOthers o k c;
        })

module _ {L : Type 0} (h : Host) (sys : System) where
  create-base :
      (currencies : Currencies L) (o : Origin) (k : Hash256) (m : FragmentMetadata)
      (p : FragmentPerms) (u : Option UniqueOptions) (max : Option Edition) (c : Chain L)
      → (create h currencies sys o k m p u max c).1.base ≡ c.base
  unfolding create
  create-base currencies o k m p u max c = ground arith

  publish-base :
      (o : Origin) (class : Hash128) (price : ℕ) (units : Option Edition)
      (expires : Option BlockNumber) (amount : Option Edition) (c : Chain L)
      → (publish o class price units expires amount c).1.base ≡ c.base
  unfolding publish
  publish-base o class price units expires amount c = ground arith

  unpublish-base :
      (o : Origin) (class : Hash128) (c : Chain L) → (unpublish o class c).1.base ≡ c.base
  unfolding unpublish
  unpublish-base o class c = ground arith

  mint-base :
      (o : Origin) (class : Hash128) (options : FragmentBuyOptions) (amount : Option Edition)
      (c : Chain L)
      → (mint h sys o class options amount c).1.base ≡ c.base
  unfolding mint
  mint-base root class options amount c = refl
  mint-base none_origin class options amount c = refl
  mint-base (signed a) class options amount c = elim (mint-effect h sys a class options amount c) [
    | inl (f, u) ↦ ap (λ (b : Chain L). b.base) u
    | inr u ↦
        ap (λ (r : Outcome Error Unit × Chain L). r.1.base) u
        ∙ mint_fragments-base h sys a class none options (instances_of options) none amount c
  ]

  buy-base :
      (currencies : Currencies L) (o : Origin) (class : Hash128) (options : FragmentBuyOptions)
      (c : Chain L)
      → (buy h currencies sys o class options c).1.base ≡ c.base
  unfolding buy
  buy-base currencies root class options c = refl
  buy-base currencies none_origin class options c = refl
  buy-base currencies (signed a) class options c =
      elim (Option-cases (c.fragments.publishing class)) [
        | inl e ↦ ground (arith, e)
        | inr (sale, e) ↦ ground (
          arith,
          e,
          mint_fragments-base h sys a class (some sale) options (instances_of options) none
              sale.amount c,
        )
      ]

  give-base :
      (lookup : ℕ → Option AccountId) (o : Origin) (class : Hash128) (e copy : Edition) (target : ℕ)
      (wanted : Option FragmentPerms) (wish : Option BlockNumber) (c : Chain L)
      → (give h sys lookup o class e copy target wanted wish c).1.base ≡ c.base
  unfolding give
  give-base lookup o class e copy target wanted wish c = ground arith

  create_account-base :
      (currencies : Currencies L) (o : Origin) (class : Hash128) (e copy : Edition) (c : Chain L)
      → (create_account h currencies o class e copy c).1.base ≡ c.base
  unfolding create_account
  create_account-base currencies o class e copy c = ground arith

  pub fragments-base :
      (w : Fragments.Outside L) (o : Origin) (x : Fragments.Extrinsic) (c : Chain L)
      → (Fragments.dispatch h w sys o x c).1.base ≡ c.base
  unfolding Fragments.dispatch
  fragments-base w o (Fragments.create_call k m p u max) c =
      create-base w.currencies o k m p u max c
  fragments-base w o (Fragments.publish_call class price units expires amount) c =
      publish-base o class price units expires amount c
  fragments-base w o (Fragments.unpublish_call class) c = unpublish-base o class c
  fragments-base w o (Fragments.mint_call class options amount) c =
      mint-base o class options amount c
  fragments-base w o (Fragments.buy_call class options) c = buy-base w.currencies o class options c
  fragments-base w o (Fragments.give_call class e copy target p wish) c =
      give-base w.lookup o class e copy target p wish c
  fragments-base w o (Fragments.create_account_call class e copy) c =
      create_account-base w.currencies o class e copy c
