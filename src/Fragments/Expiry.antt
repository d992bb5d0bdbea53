-- ===== src/Fragments/Expiry.antt =====
-- Expired instances: what `on_finalize` takes away, and what it keeps.
use clamor.Fragments.Types.{InstanceId, State}
use clamor.Fragments.Giving.{expire_item, expire_items, on_finalize}
use clamor.Base.{
  ◌≡◌, refl, ap, ◌∙◌, ◌&&◌, none, List, [], ◌∷◌, arith, if◌then◌else◌, ◌==◌, contains, nat_eq,
  bytes_eq, pair_eq,
}
use clamor.Exec.{StorageMap, remove, items}
use clamor.Host.{AccountId, Hash128, BlockNumber}

expire_item-fragments :
    (owner_keys : Hash128 → List AccountId) (class : Hash128) (id : InstanceId) (s : State)
    (k : Hash128) (i : InstanceId)
    → (expire_item owner_keys (class, id) s).fragments k i
      ≡ (if class == k && id == i then none else s.fragments k i)
unfolding expire_item
expire_item-fragments owner_keys class id s k i = ground arith

expire_items-fragments :
    (owner_keys : Hash128 → List AccountId) (ids : List (Hash128 × InstanceId)) (s : State)
    (k : Hash128) (i : InstanceId)
    → (expire_items owner_keys ids s).fragments k i
      ≡ (if contains ids (k, i) then none else s.fragments k i)
unfolding expire_items
expire_items-fragments owner_keys [] s k i = refl
expire_items-fragments owner_keys ((class, id) ∷ ids) s k i = ground (
  arith,
  expire_items-fragments owner_keys ids (expire_item owner_keys (class, id) s) k i,
  expire_item-fragments owner_keys class id s k i,
)

expire_items-expirations :
    (owner_keys : Hash128 → List AccountId) (ids : List (Hash128 × InstanceId)) (s : State)
    → (expire_items owner_keys ids s).expirations ≡ s.expirations
unfolding expire_items expire_item
expire_items-expirations owner_keys [] s = refl
expire_items-expirations owner_keys ((class, id) ∷ ids) s =
    expire_items-expirations owner_keys ids (expire_item owner_keys (class, id) s) ∙ ground arith

-- At the end of block `n`, the instances that are listed to expire in that block are gone, every
-- other instance is as it was, and the list of that block is taken away while those of other
-- blocks stay.
pub on_finalize-fragments :
    (owner_keys : Hash128 → List AccountId) (n : BlockNumber) (s : State)
    → let t = on_finalize owner_keys n s in
      ((k : Hash128) (i : InstanceId)
        → t.fragments k i
          ≡ (if contains (items s.expirations n) (k, i) then none else s.fragments k i))
      × ((m : BlockNumber) → t.expirations m ≡ (if n == m then none else s.expirations m))
unfolding on_finalize
on_finalize-fragments owner_keys n s = (
  λ k i.
      expire_items-fragments owner_keys (items s.expirations n)
        (record s { expirations = remove s.expirations n }) k i,
  λ m.
      ap (λ (e : StorageMap BlockNumber (List (Hash128 × InstanceId))). e m)
        (expire_items-expirations owner_keys (items s.expirations n)
          (record s { expirations = remove s.expirations n })),
)
