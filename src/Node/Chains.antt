-- ===== src/Node/Chains.antt =====
-- What holds in every chain that starts from a genesis of the node's.
use clamor.Fragments.Types as Fragments
use clamor.Node.ChainSpec.{GenesisConfig}
use clamor.Node.Genesis.{genesis_storage, StartsWith, genesis_storage-total}
use clamor.Runtime.Keeping.{Expired, Reach-Expired}
use clamor.Exec.{items₂}
use clamor.Host.{AccountId, Hash128}
use clamor.Runtime.Consistency.{IsConsistent, Reach-IsConsistent}
use clamor.Runtime.Steps.{Reach}
use clamor.Runtime.Calls.{World}
use clamor.Base.{
  ◌≡◌, ◌⊎◌, subst, Bool, true, false, some, arith, is_some, contains, nat_eq, bytes_eq, pair_eq,
}

-- In whatever a chain reaches from its genesis, with checked calls or not, the two maps of links are
-- inverse to one another, every stake is listed under its account, the lists by owner and category
-- and of definitions agree with what is stored, `Owners` and `Inventory` list the same instances,
-- every stored instance is in an inventory, and every reference, definition, sale and instance is
-- one to or of something that is stored. An instance in an inventory is stored, or it was listed to
-- expire in a block that has ended, at which its holder was not enumerated, had it twice, or shared
-- it with another account.
pub genesis-IsConsistent :
    {L : Type 0} (w : World L) (unchecked : Bool) (config : GenesisConfig) (l : L)
    (c d : Fragments.Chain L)
    → genesis_storage config l ≡ some c
    → Reach w unchecked c d
    → IsConsistent d
      × ((a : AccountId) (k : Hash128) (i : Fragments.InstanceId)
          → (contains (items₂ d.fragments.inventory a k) i ≡ false)
            ⊎ (is_some (d.fragments.fragments k i) ≡ true)
            ⊎ Expired w unchecked c d a k i)
genesis-IsConsistent {L = L} w unchecked config l c d start r =
    let (b, built, starts) = genesis_storage-total config l in
    let same : b ≡ c = ground (arith, built, start) in
    let begun : StartsWith config c = subst (StartsWith config) same starts in
    (
      Reach-IsConsistent w unchecked c d begun.consistent r,
      λ a k i. Reach-Expired w unchecked c d a k i begun.consistent (begun.unheld a k i) r,
    )
