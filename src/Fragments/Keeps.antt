-- ===== src/Fragments/Keeps.antt =====
-- What the calls of the pallet may do to its storage, and the rules for a property that they keep.
use clamor.Exec.{signed, Outcome, ok, Origin, root, none_origin}
use clamor.Fragments.Types.{
  Edition, FragmentDefinition, PublishingData, FragmentBuyOptions, Error, State, Chain,
}
use clamor.Fragments.Minting.{expires_later, mint_fragments}
use clamor.Fragments.Calls.{instances_of, mint, buy}
use clamor.Fragments.Effects.{minted, mint_fragments-effect}
use clamor.Base.{
  ℕ, ◌≡◌, ap, refl, sym, subst, ◌≢◌, ◌⊎◌, inl, inr, Option, none, some, arith, Bool-cases,
  Option-cases,
}
use clamor.Host.{AccountId, Hash128, BlockNumber, Host, System, Currencies}

module _ {L : Type 0} (h : Host) (sys : System) where
  module _ (to : AccountId) (class : Hash128) (sale : Option PublishingData)
      (options : FragmentBuyOptions) (n : ℕ) (expiring_at : Option BlockNumber)
      (amount : Option Edition) (c : Chain L) where
    mint_fragments-undefined :
        c.fragments.definitions class ≡ none
        → (mint_fragments h sys to class sale options n expiring_at amount c).1 ≡ c
    unfolding mint_fragments
    mint_fragments-undefined e = elim (Bool-cases (expires_later expiring_at sys.block_number)) [
      | inl t ↦ rw t (rw e (rw e refl))
      | inr t ↦ rw t refl
    ]

    mint_fragments-outside :
        (d : FragmentDefinition)
        → c.fragments.definitions class ≡ some d
        → sys.extrinsic_index ≡ none
        → (mint_fragments h sys to class sale options n expiring_at amount c).1 ≡ c
    unfolding mint_fragments
    mint_fragments-outside d e i = elim (Bool-cases (expires_later expiring_at sys.block_number)) [
      | inl t ↦ rw t (rw e (rw i (rw e refl)))
      | inr t ↦ rw t refl
    ]

    -- What holds before `mint_fragments` holds after it, if it holds of what it writes.
    pub mint_fragments-keeps :
        (P : State → Type 0)
        → P c.fragments
        → ((d : FragmentDefinition) (x : ℕ)
            → c.fragments.definitions class ≡ some d
            → P (minted h sys to class sale options n expiring_at amount d x c.fragments))
        → P (mint_fragments h sys to class sale options n expiring_at amount c).1.fragments
    mint_fragments-keeps P v k = elim (Option-cases (c.fragments.definitions class)) [
      | inl e ↦ subst (λ (b : Chain L). P b.fragments) (sym (mint_fragments-undefined e)) v
      | inr (d, e) ↦ elim (Option-cases sys.extrinsic_index) [
        | inl i ↦ subst (λ (b : Chain L). P b.fragments) (sym (mint_fragments-outside d e i)) v
        | inr (x, i) ↦
            elim (mint_fragments-effect h sys to class sale options n expiring_at amount d x c e
              i) [
                | inl (f, u) ↦ subst (λ (b : Chain L). P b.fragments) (sym u) v
                | inr w ↦
                    subst (λ (r : Outcome Error Unit × Chain L). P r.1.fragments) (sym w) (k d x e)
              ]
      ]
    ]

    -- `mint_fragments` leaves the other pallets alone.
    pub mint_fragments-base :
        (mint_fragments h sys to class sale options n expiring_at amount c).1.base ≡ c.base
    mint_fragments-base = elim (Option-cases (c.fragments.definitions class)) [
      | inl e ↦ ap (λ (b : Chain L). b.base) (mint_fragments-undefined e)
      | inr (d, e) ↦ elim (Option-cases sys.extrinsic_index) [
        | inl i ↦ ap (λ (b : Chain L). b.base) (mint_fragments-outside d e i)
        | inr (x, i) ↦
            elim (mint_fragments-effect h sys to class sale options n expiring_at amount d x c e
              i) [
                | inl (f, u) ↦ ap (λ (b : Chain L). b.base) u
                | inr w ↦ ap (λ (r : Outcome Error Unit × Chain L). r.1.base) w
              ]
      ]
    ]

  -- `mint` fails and leaves the storage alone, or does what `mint_fragments` does.
  pub mint-effect :
      (a : AccountId) (class : Hash128) (options : FragmentBuyOptions) (amount : Option Edition)
      (c : Chain L)
      → ((mint h sys (signed a) class options amount c).0 ≢ ok tt)
          × ((mint h sys (signed a) class options amount c).1 ≡ c)
        ⊎ (mint h sys (signed a) class options amount c
            ≡ mint_fragments h sys a class none options (instances_of options) none amount c)
  unfolding mint
  mint-effect a class options amount c = ground arith

  -- `buy` leaves the pallet's storage alone, or as `mint_fragments` leaves it for the sale.
  pub buy-effect :
      (currencies : Currencies L) (a : AccountId) (class : Hash128) (options : FragmentBuyOptions)
      (c : Chain L)
      → let t = (buy h currencies sys (signed a) class options c).1.fragments in
        (t ≡ c.fragments)
        ⊎ ((sale : PublishingData) × (c.fragments.publishing class ≡ some sale)
            × (t
                ≡ (mint_fragments h sys a class
                    (some sale)
                    options
                    (instances_of options)
                    none
                    sale.amount
                    c).1.fragments))
  unfolding buy
  buy-effect currencies a class options c = ground arith

  -- What holds before `mint` holds after it, if it holds of what a mint writes.
  pub mint-keeps :
      (o : Origin) (class : Hash128) (options : FragmentBuyOptions) (amount : Option Edition)
      (c : Chain L) (P : State → Type 0)
      → P c.fragments
      → ((a : AccountId) (d : FragmentDefinition) (x : ℕ)
          → c.fragments.definitions class ≡ some d
          → P (
              minted h sys a class none options (instances_of options) none amount d x c.fragments))
      → P (mint h sys o class options amount c).1.fragments
  unfolding mint
  mint-keeps root class options amount c P v k = v
  mint-keeps none_origin class options amount c P v k = v
  mint-keeps (signed a) class options amount c P v k = elim (mint-effect a class options amount c) [
    | inl (f, u) ↦ subst (λ (b : Chain L). P b.fragments) (sym u) v
    | inr u ↦
        subst (λ (r : Outcome Error Unit × Chain L). P r.1.fragments) (sym u)
          (mint_fragments-keeps a class none options (instances_of options) none amount c P v
            (λ d x e. k a d x e))
  ]

  -- What holds before `buy` holds after it, if it holds of what a mint in a sale writes.
  pub buy-keeps :
      (currencies : Currencies L) (o : Origin) (class : Hash128) (options : FragmentBuyOptions)
      (c : Chain L) (P : State → Type 0)
      → P c.fragments
      → ((a : AccountId) (sale : PublishingData) (d : FragmentDefinition) (x : ℕ)
          → c.fragments.definitions class ≡ some d
          → P (
              minted h sys a class
                (some sale)
                options
                (instances_of options)
                none
                sale.amount
                d
                x
                c.fragments))
      → P (buy h currencies sys o class options c).1.fragments
  unfolding buy
  buy-keeps currencies root class options c P v k = v
  buy-keeps currencies none_origin class options c P v k = v
  buy-keeps currencies (signed a) class options c P v k =
      elim (buy-effect currencies a class options c) [
        | inl u ↦ subst P (sym u) v
        | inr (sale, _, u) ↦ subst P (sym u) (
            mint_fragments-keeps a class (some sale) options (instances_of options) none sale.amount
              c P v (λ d x e. k a sale d x e))
      ]
