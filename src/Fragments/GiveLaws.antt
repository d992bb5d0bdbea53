-- ===== src/Fragments/GiveLaws.antt =====
-- `give`: when it succeeds, and what the receiver may then do.
use clamor.Exec.{items₂, signed, ok}
use clamor.Fragments.Types.{Edition, FragmentPerms, FragmentInstance, Chain}
use clamor.Fragments.Minting.{expires_later}
use clamor.Fragments.Giving.{has, new_perms, give}
use clamor.Base.{
  ℕ, ◌≡◌, ◌↔◌, true, Option, some, arith, is_some, contains, nat_eq, bytes_eq, pair_eq,
}
use clamor.Host.{AccountId, Hash128, BlockNumber, Host, System}

-- If the giver wants new permissions for the receiver, each of the three flags that these have was
-- among those of the instance.
pub new_perms-narrower :
    (h : Host) (old new p : FragmentPerms)
    → new_perms h old (some new) ≡ some p
    → (p ≡ new)
      × (has p h.perm_edit ≡ true → has old h.perm_edit ≡ true)
      × (has p h.perm_copy ≡ true → has old h.perm_copy ≡ true)
      × (has p h.perm_transfer ≡ true → has old h.perm_transfer ≡ true)
unfolding new_perms
new_perms-narrower h old new p e = ground arith

-- `give` of an instance that exists succeeds exactly if it has not expired and the wished end is
-- still to come, whether the instance is copied or moves, the giver holds it, it may be given, the new permissions are allowed, the address
-- of the receiver is known, and, where it can be copied, its copies are counted.
pub give-ok_iff :
    {L : Type 0} (h : Host) (sys : System) (lookup : ℕ → Option AccountId) (a : AccountId)
    (class : Hash128) (e copy : Edition) (target : ℕ) (wanted : Option FragmentPerms)
    (wish : Option BlockNumber) (item : FragmentInstance) (c : Chain L)
    → c.fragments.fragments class (e, copy) ≡ some item
    → ((give h sys lookup (signed a) class e copy target wanted wish c).0 ≡ ok tt) ↔ (
        (expires_later item.expiring_at sys.block_number ≡ true)
        × (expires_later wish sys.block_number ≡ true)
        × (contains (items₂ c.fragments.inventory a class) (e, copy) ≡ true)
        × (has item.permissions h.perm_transfer ≡ true)
        × (is_some (new_perms h item.permissions wanted) ≡ true)
        × (is_some (lookup target) ≡ true)
        × (has item.permissions h.perm_copy ≡ true
            → is_some (c.fragments.copies_count class e) ≡ true))
unfolding give
give-ok_iff h sys lookup a class e copy target wanted wish item c i = ground arith
