-- ===== src/Fragments/Effects.antt =====
-- `mint_fragments` as a whole: when it succeeds, and what it writes then.
use clamor.Exec.{mutate, ok, Outcome, Call, ◌>>=◌, Exec, bind-returns}
use clamor.Fragments.Types.{
  Edition, FragmentDefinition, FragmentInstance, PublishingData, FragmentBuyOptions, quantity,
  unique_data, State, Chain, Error,
}
use clamor.Fragments.Minting.{
  data_hash_of, write_minted, mint_fragments, finish_minting, expires_later, unique_part,
}
use clamor.Base.{
  ℕ, ◌-◌, ◌≡◌, ◌≢◌, ◌⊎◌, Option, none, some, arith, get_or, length, nat_eq, bytes_eq, pair_eq, inl,
  inr, Bool, true, false, not, ◌&&◌, Bool-cases, is_some, ◌==◌, refl, sym, subst, ◌∙◌, ◌≤◌, ap,
}
use clamor.Host.{AccountId, Hash256, Hash128, BlockNumber, Host, System}

-- the hash and size of the data that is asked for
abbrev pub part_of : Host → FragmentBuyOptions → Option (Hash256 × ℕ)
part_of h (quantity m) = none
part_of h (unique_data bytes) = some (h.blake2_256 bytes, length bytes)

-- the sale after `n` units are taken
abbrev pub spend_units : Hash128 → Option Edition → ℕ → State → State
spend_units class none n s = s
spend_units class (some units_left) n s = record s {
  publishing = mutate s.publishing class (λ p. record p { units_left = some (units_left - n) });
}

abbrev pub spend : Hash128 → Option PublishingData → ℕ → State → State
spend class none n s = s
spend class (some sale) n s = spend_units class sale.units_left n s

abbrev pub new_instance :
    Host
    → System
    → FragmentDefinition
    → FragmentBuyOptions
    → Option BlockNumber
    → Option Edition
    → FragmentInstance
new_instance h sys d options expiring_at amount = record {
  permissions = d.permissions;
  created_at = sys.block_number;
  custom_data = data_hash_of (part_of h options);
  expiring_at = expiring_at;
  amount = amount;
}

abbrev pub existing : Hash128 → State → Edition
existing class s = get_or (s.editions_count class) 0

-- the storage of the pallet after a successful `mint_fragments`
unfoldable pub minted :
    Host
    → System
    → AccountId
    → Hash128
    → Option PublishingData
    → FragmentBuyOptions
    → ℕ
    → Option BlockNumber
    → Option Edition
    → FragmentDefinition
    → ℕ
    → State
    → State
minted h sys to class sale options n expiring_at amount d extrinsic s =
    write_minted to class (new_instance h sys d options expiring_at amount) n extrinsic
      (existing class s) (part_of h options) (spend class sale n s)

-- The end of `mint_fragments` fails with nothing written, or takes the units and writes.
finish_minting-effect :
    {L : Type 0} (to : AccountId) (class : Hash128) (sale : Option PublishingData) (n : ℕ)
    (d : FragmentDefinition) (i : FragmentInstance) (x : ℕ) (part : Option (Hash256 × ℕ))
    (c : Chain L)
    → let r = finish_minting to class sale n d i x part c in
      (r.0 ≢ ok tt) × (r.1 ≡ c)
      ⊎ (r ≡ (
        ok tt,
        record c {
          fragments =
              write_minted to class i n x
                (existing class c.fragments)
                part
                (spend class sale n c.fragments);
        },
      ))
unfolding finish_minting
finish_minting-effect to class none n d i x part c = ground arith
finish_minting-effect to class (some sale) n d i x part c = ground arith

-- Outside a sale, the units fit under the limit of the supply.
finish_minting-limit :
    {L : Type 0} (to : AccountId) (class : Hash128) (n : ℕ) (d : FragmentDefinition)
    (i : FragmentInstance) (x : ℕ) (part : Option (Hash256 × ℕ)) (max : Edition) (c : Chain L)
    → d.max_supply ≡ some max
    → (finish_minting to class none n d i x part c).0 ≡ ok tt
    → n ≤ max - existing class c.fragments
unfolding finish_minting
finish_minting-limit to class n d i x part max c m e = ground arith

-- The options fit the definition: unique data is new and for one instance.
abbrev pub options_fit : Host → Hash128 → FragmentDefinition → FragmentBuyOptions → ℕ → State → Bool
options_fit h class d (quantity m) n s = not (is_some d.unique)
options_fit h class d (unique_data bytes) n s =
    is_some d.unique && n == 1 && not (is_some (s.unique_data2edition class (h.blake2_256 bytes)))

-- When the options fit, `unique_part` gives the hash and the size of the data.
unique_part-fits :
    {L : Type 0} (h : Host) (class : Hash128) (d : FragmentDefinition)
    (options : FragmentBuyOptions) (n : ℕ) (c : Chain L)
    → options_fit h class d options n c.fragments ≡ true
    → unique_part h class d options n c ≡ (ok (part_of h options), c)
unfolding unique_part
unique_part-fits h class d (quantity m) n c t = ground arith
unique_part-fits h class d (unique_data bytes) n c t = ground arith

-- When they do not, nothing that follows is run.
unique_part-unfit :
    {L : Type 0} (h : Host) (class : Hash128) (d : FragmentDefinition)
    (options : FragmentBuyOptions) (n : ℕ) (c : Chain L)
    (k : Option (Hash256 × ℕ) → Call (Chain L) Error)
    → options_fit h class d options n c.fragments ≡ false
    → ((unique_part h class d options n >>= k) c).0 ≢ ok tt
      × ((unique_part h class d options n >>= k) c).1 ≡ c
unfolding unique_part
unique_part-unfit h class d (quantity m) n c k t = ground arith
unique_part-unfit h class d (unique_data bytes) n c k t = ground arith

module _ {L : Type 0} (h : Host) (sys : System) (to : AccountId) (class : Hash128)
    (sale : Option PublishingData) (options : FragmentBuyOptions) (n : ℕ)
    (expiring_at : Option BlockNumber) (amount : Option Edition) (d : FragmentDefinition) (x : ℕ)
    (c : Chain L) (e : c.fragments.definitions class ≡ some d)
    (i : sys.extrinsic_index ≡ some x) where
  abbrev fits : Bool
  fits = expires_later expiring_at sys.block_number && options_fit h class d options n c.fragments

  abbrev outcome : Outcome Error (Unit {0}) × Chain L
  outcome = mint_fragments h sys to class sale options n expiring_at amount c

  -- `mint_fragments` after the checks of the options
  abbrev finish : Option (Hash256 × ℕ) → Call (Chain L) Error
  finish data_part =
      finish_minting to class sale n d
        (record {
          permissions = d.permissions;
          created_at = sys.block_number;
          custom_data = data_hash_of data_part;
          expiring_at = expiring_at;
          amount = amount;
        })
        x data_part

  abbrev rest : Exec (Chain L) Error Unit
  rest = unique_part h class d options n >>= finish

  mint_fragments-rest : expires_later expiring_at sys.block_number ≡ true → outcome ≡ rest c
  unfolding mint_fragments
  mint_fragments-rest later = rw later (rw e (rw i (rw e refl)))

  mint_fragments-fits :
      fits ≡ true
      → outcome
        ≡ finish_minting to class sale n d
            (new_instance h sys d options expiring_at amount)
            x
            (part_of h options)
            c
  mint_fragments-fits t =
      let later : expires_later expiring_at sys.block_number ≡ true = ground arith in
      let fit : options_fit h class d options n c.fragments ≡ true = ground arith in
      mint_fragments-rest later
      ∙ bind-returns (unique_part h class d options n) finish c c (part_of h options)
          (unique_part-fits h class d options n c fit)

  mint_fragments-past :
      expires_later expiring_at sys.block_number ≡ false → (outcome.0 ≢ ok tt) × (outcome.1 ≡ c)
  unfolding mint_fragments
  mint_fragments-past past = rw past ((λ p. ground arith), refl)

  mint_fragments-unfit : fits ≡ false → (outcome.0 ≢ ok tt) × (outcome.1 ≡ c)
  mint_fragments-unfit t = elim (Bool-cases (expires_later expiring_at sys.block_number)) [
    | inl later ↦
        let unfit : options_fit h class d options n c.fragments ≡ false = ground arith in
        subst (λ r. (r.0 ≢ ok tt) × (r.1 ≡ c)) (sym (mint_fragments-rest later))
          (unique_part-unfit h class d options n c finish unfit)
    | inr past ↦ mint_fragments-past past
  ]

  -- `mint_fragments` fails with nothing written, or writes what `minted` says.
  pub mint_fragments-effect :
      (outcome.0 ≢ ok tt) × (outcome.1 ≡ c)
      ⊎ (outcome ≡ (
        ok tt,
        record c {
          fragments = minted h sys to class sale options n expiring_at amount d x c.fragments;
        },
      ))
  unfolding minted
  mint_fragments-effect = elim (Bool-cases fits) [
    | inl t ↦ rw (mint_fragments-fits t) (
        finish_minting-effect to class sale n d (new_instance h sys d options expiring_at amount) x
          (part_of h options) c)
    | inr t ↦ inl (mint_fragments-unfit t)
  ]

  -- A successful mint outside a sale stays under the limit of the supply.
  pub mint_fragments-limit :
      (max : Edition)
      → sale ≡ none
      → d.max_supply ≡ some max
      → outcome.0 ≡ ok tt
      → n ≤ max - existing class c.fragments
  mint_fragments-limit max none_sold m success = elim (Bool-cases fits) [
    | inl t ↦
        finish_minting-limit to class n d (new_instance h sys d options expiring_at amount) x
          (part_of h options) max c m
          (subst
            (λ s.
              (finish_minting to class s n d (new_instance h sys d options expiring_at amount) x
                (part_of h options) c).0
              ≡ ok tt)
            none_sold (ap (λ r. r.0) (sym (mint_fragments-fits t)) ∙ success))
    | inr t ↦ absurd ((mint_fragments-unfit t).0 success)
  ]
