-- ===== src/Fragments/Mirror.antt =====
-- The two maps of who holds what: `Owners` by definition and `Inventory` by account.
use clamor.Fragments.Types.{Edition, InstanceId, FragmentPerms, FragmentInstance, State}
use clamor.Fragments.Minting.{mint_one, mint_loop, record_unique, write_minted}
use clamor.Fragments.Giving.{give_copy, give_away, take_from, expire_items, find_owner, expire_item}
use clamor.Base.{
  ℕ, zero, suc, ◌+◌, ◌-◌, ◌≡◌, sym, ap, ◌∙◌, Option, none, some, List, [], ◌∷◌, arith, nat_eq,
  bytes_eq, pair_eq,
}
use clamor.Exec.{StorageDoubleMap, put₂}
use clamor.Host.{AccountId, Hash256, Hash128, add_u64}

-- each account has the same instances of each definition, in the same order, in both maps
pub record IsMirrored (s : State) : Type 0 where
  pub same : (class : Hash128) (a : AccountId) → s.owners class a ≡ s.inventory a class

abbrev pub SameHolders : State → State → Type 0
SameHolders s t = (t.owners ≡ s.owners) × (t.inventory ≡ s.inventory)

pub SameHolders-IsMirrored : (s t : State) → SameHolders s t → IsMirrored s → IsMirrored t
SameHolders-IsMirrored s t (o, i) v = record {
  same = λ class a.
      ap (λ (m : StorageDoubleMap Hash128 AccountId (List InstanceId)). m class a) o
      ∙ v.same class a
      ∙ ap (λ (m : StorageDoubleMap AccountId Hash128 (List InstanceId)). m a class) (sym i);
}

mint_one-IsMirrored :
    (to : AccountId) (class : Hash128) (i : FragmentInstance) (id : Edition) (s : State)
    → IsMirrored s
    → IsMirrored (mint_one to class i id s)
unfolding mint_one
mint_one-IsMirrored to class i id s v = record {
  same = λ k a. ground (arith, v.same k a, v.same class to);
}

mint_loop-IsMirrored :
    (to : AccountId) (class : Hash128) (i : FragmentInstance) (n : ℕ) (first : Edition) (s : State)
    → IsMirrored s
    → IsMirrored (mint_loop to class i n first s)
unfolding mint_loop
mint_loop-IsMirrored to class i zero first s v = v
mint_loop-IsMirrored to class i (suc n) first s v =
    mint_loop-IsMirrored to class i n (first + 1) _
      (mint_one-IsMirrored to class i (add_u64 first 1) s v)

record_unique-IsMirrored :
    (class : Hash128) (x : ℕ) (e : Edition) (part : Option (Hash256 × ℕ)) (s : State)
    → IsMirrored s
    → IsMirrored (record_unique class x e part s)
unfolding record_unique
record_unique-IsMirrored class x e none s v = v
record_unique-IsMirrored class x e (some p) s v = record { same = v.same }

pub write_minted-IsMirrored :
    (to : AccountId) (class : Hash128) (i : FragmentInstance) (n x : ℕ) (e : Edition)
    (part : Option (Hash256 × ℕ)) (s : State)
    → IsMirrored s
    → IsMirrored (write_minted to class i n x e part s)
unfolding write_minted
write_minted-IsMirrored to class i n x e part s v =
    let w =
      record_unique-IsMirrored class x e part _
        (mint_loop-IsMirrored to class i (add_u64 e n - e) e s v) in
    record { same = w.same }

pub give_copy-IsMirrored :
    (to : AccountId) (class : Hash128) (e copy : Edition) (i : FragmentInstance) (s : State)
    → IsMirrored s
    → IsMirrored (give_copy to class e copy i s)
unfolding give_copy
give_copy-IsMirrored to class e copy i s v = record {
  same = λ k a. ground (arith, v.same k a, v.same class to);
}

pub give_away-IsMirrored :
    (who to : AccountId) (class : Hash128) (id : InstanceId) (p : FragmentPerms) (s : State)
    → IsMirrored s
    → IsMirrored (give_away who to class id p s)
unfolding give_away
give_away-IsMirrored who to class id p s v = record {
  same = λ k a. ground (arith, v.same k a, v.same class to);
}

take_from-IsMirrored :
    (o : Option AccountId) (class : Hash128) (id : InstanceId) (s : State)
    → IsMirrored s
    → IsMirrored (take_from o class id s)
take_from-IsMirrored none class id s v = v
take_from-IsMirrored (some b) class id s v = record { same = λ k a. ground (arith, v.same k a) }

pub expire_item-IsMirrored :
    (owner_keys : Hash128 → List AccountId) (class : Hash128) (id : InstanceId) (s : State)
    → IsMirrored s
    → IsMirrored (expire_item owner_keys (class, id) s)
unfolding expire_item
expire_item-IsMirrored owner_keys class id s v =
    take_from-IsMirrored (find_owner (owner_keys class) class id s) class id
      (record s { fragments = put₂ s.fragments class id none }) (record { same = v.same })

pub expire_items-IsMirrored :
    (owner_keys : Hash128 → List AccountId) (ids : List (Hash128 × InstanceId)) (s : State)
    → IsMirrored s
    → IsMirrored (expire_items owner_keys ids s)
unfolding expire_items
expire_items-IsMirrored owner_keys [] s v = v
expire_items-IsMirrored owner_keys ((class, id) ∷ ids) s v =
    expire_items-IsMirrored owner_keys ids (expire_item owner_keys (class, id) s)
      (expire_item-IsMirrored owner_keys class id s v)
