-- ===== src/Fragments/Holding.antt =====
-- What the writes of the pallet leave in an inventory.
use clamor.Exec.{put₂, items₂}
use clamor.Fragments.Types.{
  Edition, InstanceId, FragmentPerms, FragmentDefinition, FragmentInstance, PublishingData,
  FragmentBuyOptions, State,
}
use clamor.Fragments.Minting.{mint_one, mint_loop, record_unique, write_minted}
use clamor.Fragments.Effects.{part_of, spend, new_instance, existing, minted}
use clamor.Fragments.Giving.{
  give_copy, give_away, remove_first, find_owner, take_from, expire_item, expire_items,
}
use clamor.Base.{
  ℕ, zero, suc, ◌+◌, ◌-◌, ◌≡◌, refl, inl, inr, true, false, not, ◌&&◌, ◌||◌, Option, none, some,
  List, [], ◌∷◌, ◌++◌, arith, Option-cases, ◌==◌, ==_iff, contains, without, nat_eq, bytes_eq,
  pair_eq,
}
use clamor.Host.{AccountId, Hash256, Hash128, BlockNumber, add_u64, Host, System}

-- the account has the instance in its inventory
abbrev pub Holds : AccountId → Hash128 → InstanceId → State → Type 0
Holds a class id s = contains (items₂ s.inventory a class) id ≡ true

pub contains-append :
    (i j : InstanceId) (xs : List InstanceId)
    → contains (xs ++ j ∷ []) i ≡ (contains xs i || j == i)
contains-append i j [] = ground arith
contains-append i j (x ∷ xs) = ground (arith, contains-append i j xs)

pub contains-without :
    (i j : InstanceId) (xs : List InstanceId)
    → contains (without j xs) i ≡ (not (j == i) && contains xs i)
contains-without i j [] = ground arith
contains-without i j (x ∷ xs) =
    ground (arith, contains-without i j xs, ==_iff x j, ==_iff x i, ==_iff j i)

pub contains-remove_first :
    (i j : InstanceId) (xs : List InstanceId)
    → (j == i) ≡ false
    → contains (remove_first j xs) i ≡ contains xs i
contains-remove_first i j [] n = refl
contains-remove_first i j (x ∷ xs) n =
    ground (arith, n, contains-remove_first i j xs n, ==_iff x j, ==_iff x i, ==_iff j i)

module _ (a : AccountId) (k : Hash128) (i : InstanceId) where
  mint_loop-Holds :
      (to : AccountId) (class : Hash128) (item : FragmentInstance) (n : ℕ) (first : Edition)
      (s : State)
      → Holds a k i s
      → Holds a k i (mint_loop to class item n first s)
  unfolding mint_loop mint_one
  mint_loop-Holds to class item zero first s v = v
  mint_loop-Holds to class item (suc n) first s v =
      let id = add_u64 first 1 in
      mint_loop-Holds to class item n (first + 1) (mint_one to class item id s) (
        ground (
          arith,
          v,
          contains-append i (id, 1) (items₂ s.inventory to class),
          ==_iff to a,
          ==_iff class k,
        ))

  spend-Holds :
      (class : Hash128) (sale : Option PublishingData) (n : ℕ) (s : State)
      → Holds a k i s
      → Holds a k i (spend class sale n s)
  spend-Holds class none n s v = v
  spend-Holds class (some sale) n s v = elim (Option-cases sale.units_left) [
    | inl e ↦ rw e v
    | inr (m, e) ↦ rw e v
  ]

  record_unique-Holds :
      (class : Hash128) (x : ℕ) (e : Edition) (part : Option (Hash256 × ℕ)) (s : State)
      → Holds a k i s
      → Holds a k i (record_unique class x e part s)
  unfolding record_unique
  record_unique-Holds class x e none s v = v
  record_unique-Holds class x e (some (h, size)) s v = v

  pub minted-Holds :
      (h : Host) (sys : System) (to : AccountId) (class : Hash128) (sale : Option PublishingData)
      (options : FragmentBuyOptions) (n : ℕ) (expiring_at : Option BlockNumber)
      (amount : Option Edition) (d : FragmentDefinition) (x : ℕ) (s : State)
      → Holds a k i s
      → Holds a k i (minted h sys to class sale options n expiring_at amount d x s)
  unfolding minted write_minted
  minted-Holds h sys to class sale options n expiring_at amount d x s v =
      record_unique-Holds class x (existing class s) (part_of h options) _ (
        mint_loop-Holds to class (new_instance h sys d options expiring_at amount)
          (add_u64 (existing class s) n - existing class s) (existing class s)
          (spend class sale n s) (spend-Holds class sale n s v))

  pub give_copy-Holds :
      (to : AccountId) (class : Hash128) (e copy : Edition) (item : FragmentInstance) (s : State)
      → Holds a k i s
      → Holds a k i (give_copy to class e copy item s)
  unfolding give_copy
  give_copy-Holds to class e copy item s v = ground (
    arith,
    v,
    contains-append i (e, copy) (items₂ s.inventory to class),
    ==_iff to a,
    ==_iff class k,
  )

  pub give_away-Holds :
      (who to : AccountId) (class : Hash128) (id : InstanceId) (p : FragmentPerms) (s : State)
      → (who == a) ≡ false
      → Holds a k i s
      → Holds a k i (give_away who to class id p s)
  unfolding give_away
  give_away-Holds who to class id p s n v = ground (
    arith,
    n,
    v,
    contains-append i id (items₂ s.inventory to class),
    contains-append i id (without id (items₂ s.inventory to class)),
    ==_iff to a,
    ==_iff who a,
    ==_iff who to,
    ==_iff class k,
  )

  take_from-Holds :
      (o : Option AccountId) (class : Hash128) (id : InstanceId) (s : State)
      → (class == k && id == i) ≡ false
      → Holds a k i s
      → Holds a k i (take_from o class id s)
  take_from-Holds none class id s n v = v
  take_from-Holds (some b) class id s n v = ground (
    arith,
    n,
    v,
    contains-remove_first i id (items₂ s.inventory b class),
    ==_iff b a,
    ==_iff class k,
    ==_iff id i,
  )

  pub expire_items-Holds :
      (owner_keys : Hash128 → List AccountId) (xs : List (Hash128 × InstanceId)) (s : State)
      → contains xs (k, i) ≡ false
      → Holds a k i s
      → Holds a k i (expire_items owner_keys xs s)
  unfolding expire_items expire_item
  expire_items-Holds owner_keys [] s n v = v
  expire_items-Holds owner_keys ((class, id) ∷ xs) s n v =
      expire_items-Holds owner_keys xs _ (ground (arith, n)) (
        take_from-Holds (find_owner (owner_keys class) class id s) class id
          (record s { fragments = put₂ s.fragments class id none }) (ground (arith, n)) v)
