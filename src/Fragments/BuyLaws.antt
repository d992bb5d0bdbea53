-- ===== src/Fragments/BuyLaws.antt =====
-- A sale: what a buyer gets and pays.
use clamor.Exec.{signed, ok}
use clamor.Fragments.Types.{Edition, FragmentDefinition, PublishingData, FragmentBuyOptions, Chain}
use clamor.Fragments.Minting.{expires_later, finish_minting, mint_fragments}
use clamor.Fragments.Calls.{
  saturating_mul, get_vault_id, instances_of, units_available, can_pay, pay, buy,
}
use clamor.Base.{ℕ, ◌≡◌, ◌↔◌, true, Option, none, some, arith, is_some}
use clamor.Host.{AccountId, Hash128, BlockNumber, Host, System, Currencies}

module _ {L : Type 0} (h : Host) (currencies : Currencies L) (sys : System) where
  -- A minting leaves the ledger and the storage of the other pallets.
  mint_fragments-ledger :
      (a : AccountId) (class : Hash128) (sale : Option PublishingData)
      (options : FragmentBuyOptions) (n : ℕ) (expiring_at : Option BlockNumber)
      (amount : Option Edition) (c : Chain L)
      → (mint_fragments h sys a class sale options n expiring_at amount c).1.ledger ≡ c.ledger
  unfolding mint_fragments finish_minting
  mint_fragments-ledger a class sale options n expiring_at amount c = ground arith

  -- Buying from a definition on sale that has a vault succeeds exactly if the sale has not ended and
  -- has units left, the buyer can pay the price, which is that of one instance times the quantity
  -- and saturates, the instances can be minted, and the payment goes through; then the price has
  -- been paid to the vault, and the pallet's storage is as the minting leaves it.
  pub buy-ok_iff :
      (a vault : AccountId) (class : Hash128) (options : FragmentBuyOptions) (sale : PublishingData)
      (d : FragmentDefinition) (c : Chain L)
      → c.fragments.publishing class ≡ some sale
      → c.fragments.definitions class ≡ some d
      → get_vault_id h class ≡ some vault
      → let price = saturating_mul sale.price (instances_of options) in
        let (o, t) = buy h currencies sys (signed a) class options c in
        ((o ≡ ok tt) ↔ (
          (expires_later sale.expiration sys.block_number ≡ true)
          × (units_available sale.units_left ≡ true)
          × (can_pay currencies d.metadata.currency a price c.ledger ≡ true)
          × ((mint_fragments h sys a class
                (some sale)
                options
                (instances_of options)
                none
                sale.amount
                c).0
              ≡ ok tt)
          × (is_some (pay currencies d.metadata.currency a vault price c.ledger) ≡ true)))
        × (o ≡ ok tt
            → (pay currencies d.metadata.currency a vault price c.ledger ≡ some t.ledger)
              × (t.fragments
                  ≡ (mint_fragments h sys a class
                      (some sale)
                      options
                      (instances_of options)
                      none
                      sale.amount
                      c).1.fragments))
  unfolding buy
  buy-ok_iff a vault class options sale d c p q r =
      let same =
        mint_fragments-ledger a class (some sale) options (instances_of options) none sale.amount
          c in
      (
        ground (arith, p, q, r, same),
        λ e. (ground (arith, p, q, r, same, e), ground (arith, p, q, r, same, e)),
      )
