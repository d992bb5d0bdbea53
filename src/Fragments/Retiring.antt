-- ===== src/Fragments/Retiring.antt =====
-- The end of a block retires the instances that expire from the register.
use clamor.Exec.{put₂, items₂}
use clamor.Fragments.Types.{InstanceId, State}
use clamor.Fragments.Giving.{remove_first, find_owner, expire_item, expire_items, take_from}
use clamor.Fragments.Registry.{Registry, retire, step, share, Represents, Continues, continue}
use clamor.Base.{
  ◌+◌, ◌≡◌, refl, inl, inr, true, Option, none, some, List, [], ◌∷◌, arith, if◌then◌else◌,
  Option-cases, ◌==◌, ==_iff, contains, count, contains-count, count-contains, nat_eq, bytes_eq,
  pair_eq, sym, subst,
}
use clamor.Host.{AccountId, Hash128}

count-remove_first :
    (id j : InstanceId) (xs : List InstanceId)
    → contains xs id ≡ true
    → count j (remove_first id xs) + (if id == j then 1 else 0) ≡ count j xs
count-remove_first id j [] e = ground (arith, e)
count-remove_first id j (x ∷ xs) e =
    ground (arith, count-remove_first id j xs, ==_iff x id, ==_iff x j, ==_iff id j)

module _ (class : Hash128) (id : InstanceId) (s : State) (o : Option AccountId)
    (held : (a : AccountId) → count id (items₂ s.owners class a) ≡ share o a) where
  find_owner-none : (accounts : List AccountId) → o ≡ none → find_owner accounts class id s ≡ none
  unfolding find_owner
  find_owner-none [] e = refl
  find_owner-none (b ∷ accounts) e =
      ground
        (arith, held b, contains-count (items₂ s.owners class b) id, find_owner-none accounts e)

  find_owner-some :
      (accounts : List AccountId) (a : AccountId)
      → o ≡ some a
      → contains accounts a ≡ true
      → find_owner accounts class id s ≡ some a
  unfolding find_owner
  find_owner-some [] a e there = ground (arith, there)
  find_owner-some (b ∷ accounts) a e there = ground (
    arith,
    held b,
    held a,
    contains-count (items₂ s.owners class b) id,
    count-contains (items₂ s.owners class b) id,
    ==_iff b a,
    ==_iff a b,
    find_owner-some accounts a e,
  )

-- every holder is among the accounts that are enumerated
pub record Enumerates (owner_keys : Hash128 → List AccountId) (r : Registry) : Type 0 where
  pub covered :
      (class : Hash128) (id : InstanceId) (a : AccountId)
      → r class id ≡ some a
      → contains (owner_keys class) a ≡ true

retire-Enumerates :
    (owner_keys : Hash128 → List AccountId) (r : Registry) (class : Hash128) (id : InstanceId)
    → Enumerates owner_keys r
    → Enumerates owner_keys (put₂ r class id none)
retire-Enumerates owner_keys r class id v = record {
  covered = λ k i a e. ground (arith, v.covered k i a, e);
}

expire_item-Represents :
    (owner_keys : Hash128 → List AccountId) (class : Hash128) (id : InstanceId) (s : State)
    (r : Registry) (a : AccountId)
    → Enumerates owner_keys r
    → Represents s r
    → r class id ≡ some a
    → Represents (expire_item owner_keys (class, id) s) (put₂ r class id none)
unfolding expire_item
expire_item-Represents owner_keys class id s r a w v e =
    let t = record s { fragments = put₂ s.fragments class id none } in
    let found : find_owner (owner_keys class) class id s ≡ some a =
      find_owner-some class id s (r class id) (v.held class id) (owner_keys class) a e
        (w.covered class id a e) in
    subst (λ (o : Option AccountId). Represents (take_from o class id t) (put₂ r class id none))
      (sym found)
      (record {
        held = λ k j b. ground (
          arith,
          e,
          v.held k j b,
          v.held class j a,
          v.held class id a,
          count-contains (items₂ s.owners class a) id,
          count-remove_first id j (items₂ s.owners class a),
          ==_iff class k,
          ==_iff a b,
          ==_iff id j,
        );
        present = λ k j. ground (arith, v.present k j);
      })

expire_item-gone :
    (owner_keys : Hash128 → List AccountId) (class : Hash128) (id : InstanceId) (s : State)
    (r : Registry)
    → Represents s r
    → r class id ≡ none
    → Represents (expire_item owner_keys (class, id) s) r
unfolding expire_item
expire_item-gone owner_keys class id s r v e =
    let t = record s { fragments = put₂ s.fragments class id none } in
    let lost : find_owner (owner_keys class) class id s ≡ none =
      find_owner-none class id s (r class id) (v.held class id) (owner_keys class) e in
    subst (λ (o : Option AccountId). Represents (take_from o class id t) r) (sym lost)
      (record {
        held = v.held;
        present = λ k j. ground (arith, v.present k j, e, ==_iff class k, ==_iff id j);
      })

pub expire_items-Continues :
    (owner_keys : Hash128 → List AccountId) (ids : List (Hash128 × InstanceId)) (s : State)
    (r : Registry)
    → Enumerates owner_keys r
    → Represents s r
    → Continues r (expire_items owner_keys ids s)
unfolding expire_items
expire_items-Continues owner_keys [] s r w v = continue r s v
expire_items-Continues owner_keys ((class, id) ∷ ids) s r w v = elim (Option-cases (r class id)) [
  | inl e ↦
      expire_items-Continues owner_keys ids (expire_item owner_keys (class, id) s) r w
        (expire_item-gone owner_keys class id s r v e)
  | inr (a, e) ↦
      let rest =
        expire_items-Continues owner_keys ids (expire_item owner_keys (class, id) s)
          (put₂ r class id none) (retire-Enumerates owner_keys r class id w)
          (expire_item-Represents owner_keys class id s r a w v e) in
      record {
        registry = rest.registry;
        steps = step (retire class id a e) rest.steps;
        represents = rest.represents;
      }
]
