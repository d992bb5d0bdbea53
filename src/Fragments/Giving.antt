-- ===== src/Fragments/Giving.antt =====
-- pallets/fragments/src/lib.rs: `give`, and `on_finalize`, which takes expired instances away.
use clamor.Fragments.Types.{
  Edition, InstanceId, FragmentPerms, FragmentInstance, inventory_added, inventory_removed, expired,
  Error, no_permission, not_found, params_not_valid, State, Chain,
}
use clamor.Fragments.Minting.{modify_fragments, schedule, expires_later}
use clamor.Fragments.Calls.{holds}
use clamor.Base.{
  ℕ, bit_and, Bool, not, ◌&&◌, ◌||◌, Option, none, some, List, [], ◌∷◌, ◌++◌, ltb, if◌then◌else◌,
  ◌==◌, contains, without, nat_eq, bytes_eq, pair_eq,
}
use clamor.Exec.{
  Origin, foreign, ok, err, Exec, Call, ◌>>=◌, ◌>>◌, ensure, ok_or, gets, ensure_signed, remove,
  items, put₂, mutate₂, items₂, append₂,
}
use clamor.Host.{AccountId, Hash128, BlockNumber, add_u64, Host, System}

-- `(permissions & flag) == flag`
unfoldable pub has : FragmentPerms → ℕ → Bool
has permissions flag = bit_and permissions flag == flag

-- The flag may be given on only if the giver has it.
abbrev may_grant : FragmentPerms → FragmentPerms → ℕ → Bool
may_grant old new flag = has old flag || not (has new flag)

unfoldable pub new_perms : Host → FragmentPerms → Option FragmentPerms → Option FragmentPerms
unfolding has
new_perms h old none = some old
new_perms h old (some new) =
    if may_grant old new h.perm_edit
      && may_grant old new h.perm_copy
      && may_grant old new h.perm_transfer
    then some new
    else none

-- When the copy expires: the giver's wish cannot put off the original's end.
abbrev pub copy_expiration : Option BlockNumber → Option BlockNumber → Option BlockNumber
copy_expiration none wish = wish
copy_expiration (some at) none = some at
copy_expiration (some at) (some wish) = if ltb wish at then some wish else some at

-- the branch of `give` for an instance that can be copied
unfoldable pub give_copy :
    AccountId → Hash128 → Edition → Edition → FragmentInstance → State → State
give_copy to class edition copy instance_data s = record s {
  copies_count = put₂ s.copies_count class edition (some copy);
  owners = append₂ s.owners class to (edition, copy);
  inventory = append₂ s.inventory to class (edition, copy);
  expirations = schedule instance_data.expiring_at class (edition, copy) s.expirations;
  fragments = put₂ s.fragments class (edition, copy) (some instance_data);
  events = s.events ++ inventory_added to class (edition, copy) ∷ [];
}

-- the branch for an instance that moves
unfoldable pub give_away :
    AccountId → AccountId → Hash128 → InstanceId → FragmentPerms → State → State
give_away who to class id perms s =
    let owners = mutate₂ s.owners class who (without id) in
    let inventory = mutate₂ s.inventory who class (without id) in
    record s {
      owners = append₂ owners class to id;
      inventory = append₂ inventory to class id;
      fragments =
          mutate₂ s.fragments class id
            (λ (item : FragmentInstance). record item { permissions = perms });
      events = s.events ++ inventory_removed who class id ∷ inventory_added to class id ∷ [];
    }

-- `T::Lookup::lookup(to)?`
abbrev resolved : {L : Type 0} → Option AccountId → Exec (Chain L) Error AccountId
resolved none c = (err (foreign 0), c)
resolved (some account) c = (ok account, c)

-- `lookup` is `T::Lookup::lookup`, which resolves the address of the receiver.
unfoldable pub give :
    {L : Type 0}
    → Host
    → System
    → (ℕ → Option AccountId)
    → Origin
    → Hash128
    → Edition
    → Edition
    → ℕ
    → Option FragmentPerms
    → Option BlockNumber
    → Call (Chain L) Error
unfolding holds
give h sys lookup origin class edition copy target new_permissions expiration = do
  who ← ensure_signed origin
  item ← ok_or (← gets (λ c. c.fragments.fragments class (edition, copy))) not_found
  ensure (expires_later item.expiring_at sys.block_number) not_found
  ensure (expires_later expiration sys.block_number) params_not_valid
  holds who class (edition, copy)
  ensure (has item.permissions h.perm_transfer) no_permission
  perms ← ok_or (new_perms h item.permissions new_permissions) no_permission
  to ← resolved (lookup target)
  if has item.permissions h.perm_copy
      then (do
        copies ← ok_or (← gets (λ c. c.fragments.copies_count class edition)) not_found
        modify_fragments (
            give_copy to class edition (add_u64 copies 1) (record item {
              permissions = perms;
              expiring_at = copy_expiration item.expiring_at expiration;
            })))
      else modify_fragments (give_away who to class (edition, copy) perms)

-- the first item that is equal is taken out, as `position` and `remove` do
abbrev pub remove_first : InstanceId → List InstanceId → List InstanceId
remove_first id [] = []
remove_first id (x ∷ xs) = if x == id then xs else x ∷ remove_first id xs

-- The first account of `accounts` that holds the instance.
unfoldable pub find_owner : List AccountId → Hash128 → InstanceId → State → Option AccountId
find_owner [] class id s = none
find_owner (account ∷ rest) class id s =
    if contains (items₂ s.owners class account) id then some account else find_owner rest class id s

abbrev pub take_from : Option AccountId → Hash128 → InstanceId → State → State
take_from none class id s = s
take_from (some account) class id s = record s {
  owners = mutate₂ s.owners class account (remove_first id);
  inventory = mutate₂ s.inventory account class (remove_first id);
  events = s.events ++ expired account class id ∷ [];
}

-- `owner_keys class` is what `iter_prefix` of `Owners` enumerates, in the order of the trie.
unfoldable pub expire_item : (Hash128 → List AccountId) → Hash128 × InstanceId → State → State
unfolding find_owner
expire_item owner_keys (class, id) s =
    take_from (find_owner (owner_keys class) class id s) class id
      (record s { fragments = put₂ s.fragments class id none })

unfoldable pub expire_items :
    (Hash128 → List AccountId) → List (Hash128 × InstanceId) → State → State
unfolding expire_item
expire_items owner_keys [] s = s
expire_items owner_keys (item ∷ rest) s =
    expire_items owner_keys rest (expire_item owner_keys item s)

unfoldable pub on_finalize : (Hash128 → List AccountId) → BlockNumber → State → State
unfolding expire_items
on_finalize owner_keys n s =
    expire_items owner_keys (items s.expirations n)
      (record s { expirations = remove s.expirations n })
