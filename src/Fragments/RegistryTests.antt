-- ===== src/Fragments/RegistryTests.antt =====
-- The theorem on the register of instances at a concrete run.
use clamor.Samples.{sample_host, in_block, sample_currencies}
use clamor.Fragments.Tests.{outside, held, held_chain, definition}
use clamor.Exec.{put₂, signed, insert, ok}
use clamor.Fragments.Types.{quantity, PublishingData, Chain}
use clamor.Fragments.Minting.{mint_one, write_minted, finish_minting, mint_fragments, expires_later}
use clamor.Fragments.Calls.{mint, get_vault_id, units_available, can_pay, pay, buy}
use clamor.Fragments.Giving.{on_finalize}
use clamor.Fragments.Runs.{mint_call, give_call, Action, call, block_end, run, dispatch, apply}
use clamor.Fragments.Numbering.{InRange}
use clamor.Fragments.Registry.{Registry, Represents, Continues}
use clamor.Fragments.Soundness.{IsSound, Fits, AllFit}
use clamor.Fragments.Refinement.{run-Continues}
use clamor.Fragments.BuyLaws.{buy-ok_iff}
use clamor.Base.{
  none, some, List, [], ◌∷◌, arith, nat_eq, bytes_eq, pair_eq, ℕ, ◌≡◌, refl, ◌↔◌, true, is_some,
  get_or,
}
use clamor.Host.{AccountId, be_bytes}

-- Instance (1, 1), which account 1 holds, ends; editions 2 and 3 are minted, and 2 is given away.
abbrev steps : List Action
steps =
    block_end 9
    ∷ call in_block (signed 1) (mint_call 60 (quantity 2) none)
    ∷ call in_block (signed 1) (give_call 60 2 1 2 none none)
    ∷ []

abbrev one_instance : Registry
one_instance = put₂ (λ k i. none) 60 (1, 1) (some 1)

held-IsSound : IsSound held
held-IsSound = record {
  mirrored = record { same = λ k a. ground arith };
  numbered = record { counted = λ k e copy p. ground (arith, p) };
  copied = record { counted = λ k e copy p. ground (arith, p) };
}

held-Represents : Represents held one_instance
held-Represents = record { held = λ k id a. ground arith; present = λ k id. ground arith }

steps-AllFit : AllFit sample_host outside steps held_chain
unfolding AllFit Fits InRange apply on_finalize dispatch mint mint_fragments finish_minting
    write_minted mint_one
steps-AllFit = (tt, λ class id a e. ground (arith, e), (omega arith, tt, (tt, omega arith, tt)))

run-Continues_example : Continues one_instance (run sample_host outside steps held_chain).fragments
run-Continues_example =
    run-Continues sample_host outside steps held_chain one_instance steps-AllFit held-IsSound
      held-Represents

abbrev sale : PublishingData
sale = record { price = 20; units_left = some 5; expiration = none; amount = none }

abbrev on_sale : Chain ℕ
on_sale = record held_chain { fragments = record held { publishing = insert (λ k. none) 60 sale } }

abbrev vault : AccountId
vault = get_or (get_vault_id sample_host 60) 0

buy-ok_iff_example :
    let (o, t) = buy sample_host sample_currencies in_block (signed 2) 60 (quantity 2) on_sale in
    ((o ≡ ok tt) ↔ (
      (expires_later sale.expiration 5 ≡ true)
      × (units_available sale.units_left ≡ true)
      × (can_pay sample_currencies none 2 40 1000 ≡ true)
      × ((mint_fragments sample_host in_block 2 60 (some sale) (quantity 2) 2 none none on_sale).0
          ≡ ok tt)
      × (is_some (pay sample_currencies none 2 vault 40 1000) ≡ true)))
    × (o ≡ ok tt
        → (pay sample_currencies none 2 vault 40 1000 ≡ some t.ledger)
          × (t.fragments
              ≡ (mint_fragments sample_host in_block 2 60
                  (some sale)
                  (quantity 2)
                  2
                  none
                  none
                  on_sale).1.fragments))
unfolding get_vault_id be_bytes
buy-ok_iff_example =
    buy-ok_iff sample_host sample_currencies in_block 2 vault 60 (quantity 2) sale definition
      on_sale refl refl refl
