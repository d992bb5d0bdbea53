-- ===== src/Fragments/Editions.antt =====
-- `mint` by the owner: the editions that it makes and the limit of the supply; and the numbers of
-- the instances, whatever calls are made.
use clamor.Exec.{signed, ok}
use clamor.Fragments.Types.{Edition, FragmentDefinition, FragmentBuyOptions, Chain}
use clamor.Fragments.Minting.{data_hash_of, mint_fragments}
use clamor.Fragments.Calls.{instances_of, mint}
use clamor.Fragments.Effects.{
  part_of, existing, minted, mint_fragments-effect, mint_fragments-limit,
}
use clamor.Fragments.Keeps.{mint-effect}
use clamor.Fragments.Supply.{is_new, minted-editions}
use clamor.Base.{
  ℕ, ◌+◌, ◌<◌, ◌≡◌, sym, ap, ◌∙◌, inl, inr, Option, none, some, if◌then◌else◌, ◌==◌, nat_eq,
  bytes_eq, pair_eq, ◌≤◌, ◌-◌, refl, arith,
}
use clamor.Host.{AccountId, Hash128, u64_mod, Host, System}

module _ {L : Type 0} (h : Host) (sys : System) (a : AccountId) (class : Hash128)
    (options : FragmentBuyOptions) (amount : Option Edition) (d : FragmentDefinition) (x : ℕ)
    (c : Chain L) (e : c.fragments.definitions class ≡ some d) (i : sys.extrinsic_index ≡ some x)
    (success : (mint h sys (signed a) class options amount c).0 ≡ ok tt) where
  mint-mint_fragments :
      mint h sys (signed a) class options amount c
      ≡ mint_fragments h sys a class none options (instances_of options) none amount c
  mint-mint_fragments = elim (mint-effect h sys a class options amount c) [
    | inl (f, _) ↦ absurd (f success)
    | inr u ↦ u
  ]

  mint_fragments-success :
      (mint_fragments h sys a class none options (instances_of options) none amount c).0 ≡ ok tt
  mint_fragments-success = ap (λ r. r.0) (sym mint-mint_fragments) ∙ success

  -- a `mint` that returns has written what `minted` says
  mint-minted : mint h sys (signed a) class options amount c ≡ (
    ok tt,
    record c {
      fragments =
          minted h sys a class none options (instances_of options) none amount d x c.fragments;
    },
  )
  mint-minted =
      elim (mint_fragments-effect h sys a class none options (instances_of options) none amount d x
        c e i) [ inl (f, _) ↦ absurd (f mint_fragments-success) | inr w ↦ mint-mint_fragments ∙ w ]

  -- If `mint` of `n` units succeeds inside a block, and the count of editions stays below 2^64,
  -- then it makes copy 1 of each of the `n` editions after those that there were, all with the
  -- permissions of the definition, made in this block, without an end; it leaves every other
  -- instance as it was; and the count of editions grows by `n`, for this definition only.
  pub mint-editions :
      let n = instances_of options in
      let first = existing class c.fragments in
      let t = (mint h sys (signed a) class options amount c).1.fragments in
      first + n < u64_mod
      → ((k : Hash128) (edition copy : Edition)
          → t.fragments k (edition, copy) ≡ (
              if is_new class first n k edition copy
              then some (record {
                permissions = d.permissions;
                created_at = sys.block_number;
                custom_data = data_hash_of (part_of h options);
                expiring_at = none;
                amount = amount;
              })
              else c.fragments.fragments k (edition, copy)))
        × ((k : Hash128)
            → t.editions_count k
              ≡ (if class == k then some (first + n) else c.fragments.editions_count k))
  mint-editions b = rw mint-minted (
      minted-editions h sys a class none options (instances_of options) none amount d x c.fragments
        b)

  -- If `mint` succeeds inside a block for a definition with a limited supply, that held before,
  -- then the limit holds of the new count of editions.
  pub mint-max_supply :
      (max : Edition)
      → d.max_supply ≡ some max
      → max < u64_mod
      → existing class c.fragments ≤ max
      → let t = (mint h sys (signed a) class options amount c).1.fragments in
        (t.editions_count class ≡ some (existing class c.fragments + instances_of options))
        × (existing class t ≤ max)
  mint-max_supply max m range held =
      let n = instances_of options in
      let limit : n ≤ max - existing class c.fragments =
        mint_fragments-limit h sys a class none options n none amount d x c e i max refl m
          mint_fragments-success in
      let count = (mint-editions (omega arith)).1 class in ground (arith, count)
