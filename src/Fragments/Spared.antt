-- ===== src/Fragments/Spared.antt =====
-- Why an inventory still has an instance after the end of a block that it was listed to expire in:
-- `on_finalize` of pallets/fragments/src/lib.rs takes it out of one list of one account.
use clamor.Fragments.Holding.{Holds}
use clamor.Fragments.Backing.{IsLost}
use clamor.Fragments.Mirror.{IsMirrored, expire_item-IsMirrored}
use clamor.Fragments.Runs.{Outside}
use clamor.Exec.{items, items₂, remove, put₂}
use clamor.Fragments.Types.{InstanceId, State}
use clamor.Fragments.Giving.{
  remove_first, find_owner, take_from, expire_item, expire_items, on_finalize,
}
use clamor.Base.{
  ◌≤◌, ◌≡◌, ◌≢◌, refl, subst, inl, inr, true, false, ◌&&◌, Option, none, some, List, [], ◌∷◌, arith,
  Bool-cases, Option-cases, ◌==◌, ==_iff, contains, count, nat_eq, bytes_eq, pair_eq,
  contains-count,
}
use clamor.Host.{AccountId, Hash128, BlockNumber}

-- the account is not among those that are enumerated, or it has the instance twice, or another
-- account has it too
pub data IsSpared (accounts : List AccountId) (a : AccountId) (k : Hash128) (i : InstanceId)
    (s : State) : Type 0 where
  unlisted : contains accounts a ≡ false → IsSpared accounts a k i s
  twice : 2 ≤ count i (items₂ s.inventory a k) → IsSpared accounts a k i s
  shared : (b : AccountId) → b ≢ a → Holds b k i s → IsSpared accounts a k i s

contains-removed :
    (i j : InstanceId) (xs : List InstanceId)
    → contains (remove_first j xs) i ≡ true
    → contains xs i ≡ true
contains-removed i j [] e = e
contains-removed i j (x ∷ xs) e = ground (arith, e, contains-removed i j xs)

count-removed : (i j : InstanceId) (xs : List InstanceId) → count i (remove_first j xs) ≤ count i xs
count-removed i j [] = omega arith
count-removed i j (x ∷ xs) = ground (arith, count-removed i j xs)

twice-removed :
    (i : InstanceId) (xs : List InstanceId) → contains (remove_first i xs) i ≡ true → 2 ≤ count i xs
twice-removed i [] e = absurd (ground (arith, e))
twice-removed i (x ∷ xs) e = ground (arith, e, contains-count xs i, twice-removed i xs)

take_from-Holds :
    (o : Option AccountId) (class : Hash128) (id : InstanceId) (s : State) (a : AccountId)
    (k : Hash128) (i : InstanceId)
    → Holds a k i (take_from o class id s)
    → Holds a k i s
take_from-Holds none class id s a k i e = e
take_from-Holds (some b) class id s a k i e =
    ground
      (arith, e, contains-removed i id (items₂ s.inventory b class), ==_iff b a, ==_iff class k)

expire_items-Holds :
    (owner_keys : Hash128 → List AccountId) (xs : List (Hash128 × InstanceId)) (s : State)
    (a : AccountId) (k : Hash128) (i : InstanceId)
    → Holds a k i (expire_items owner_keys xs s)
    → Holds a k i s
unfolding expire_items expire_item
expire_items-Holds owner_keys [] s a k i e = e
expire_items-Holds owner_keys ((class, id) ∷ xs) s a k i e =
    take_from-Holds (find_owner (owner_keys class) class id s) class id
      (record s { fragments = put₂ s.fragments class id none }) a k i
      (expire_items-Holds owner_keys xs _ a k i e)

take_from-IsSpared :
    (accounts : List AccountId) (o : Option AccountId) (class : Hash128) (id : InstanceId)
    (s : State) (a : AccountId) (k : Hash128) (i : InstanceId)
    → IsSpared accounts a k i (take_from o class id s)
    → IsSpared accounts a k i s
take_from-IsSpared accounts o class id s a k i (unlisted e) = unlisted e
take_from-IsSpared accounts o class id s a k i (shared b n e) =
    shared b n (take_from-Holds o class id s b k i e)
take_from-IsSpared accounts none class id s a k i (twice e) = twice e
take_from-IsSpared accounts (some b) class id s a k i (twice e) =
    twice (
      ground
        (arith, e, count-removed i id (items₂ s.inventory b class), ==_iff b a, ==_iff class k))

find_owner-holds :
    (accounts : List AccountId) (class : Hash128) (id : InstanceId) (s : State) (b : AccountId)
    → find_owner accounts class id s ≡ some b
    → contains (items₂ s.owners class b) id ≡ true
unfolding find_owner
find_owner-holds [] class id s b e = absurd (ground (arith, e))
find_owner-holds (x ∷ accounts) class id s b e =
    ground (arith, e, find_owner-holds accounts class id s b)

find_owner-misses :
    (accounts : List AccountId) (class : Hash128) (id : InstanceId) (s : State) (a : AccountId)
    → find_owner accounts class id s ≡ none
    → contains (items₂ s.owners class a) id ≡ true
    → contains accounts a ≡ false
unfolding find_owner
find_owner-misses [] class id s a e h = refl
find_owner-misses (x ∷ accounts) class id s a e h =
    ground (arith, e, h, ==_iff x a, find_owner-misses accounts class id s a)

-- the instance is taken out once, of a list of its finder's
entry-IsSpared :
    (accounts : List AccountId) (a : AccountId) (k : Hash128) (i : InstanceId) (s : State)
    → IsMirrored s
    → Holds a k i s
    → Holds a k i (
        take_from
          (find_owner accounts k i s)
          k
          i
          (record s { fragments = put₂ s.fragments k i none }))
    → IsSpared accounts a k i s
entry-IsSpared accounts a k i s v held left = elim (Option-cases (find_owner accounts k i s)) [
  | inl e ↦ unlisted (find_owner-misses accounts k i s a e (ground (arith, held, v.same k a)))
  | inr (b, e) ↦ elim (Bool-cases (b == a)) [
    | inl same ↦
        twice (twice-removed i (items₂ s.inventory a k) (ground (arith, left, e, same, ==_iff b a)))
    | inr differs ↦
        shared b (λ p. ground (arith, differs, ==_iff b a, p))
          (ground (arith, find_owner-holds accounts k i s b e, v.same k b))
  ]
]

-- only the inventories matter
same-IsSpared :
    (accounts : List AccountId) (s t : State) (a : AccountId) (k : Hash128) (i : InstanceId)
    → t.inventory ≡ s.inventory
    → IsSpared accounts a k i t
    → IsSpared accounts a k i s
same-IsSpared accounts s t a k i p (unlisted e) = unlisted e
same-IsSpared accounts s t a k i p (twice e) = twice (rw p at e)
same-IsSpared accounts s t a k i p (shared b n e) = shared b n (rw p at e)

expire_item-here :
    (owner_keys : Hash128 → List AccountId) (s : State) (a : AccountId) (k : Hash128)
    (i : InstanceId)
    → IsMirrored s
    → Holds a k i (expire_item owner_keys (k, i) s)
    → IsSpared (owner_keys k) a k i s
unfolding expire_item
expire_item-here owner_keys s a k i v left =
    entry-IsSpared (owner_keys k) a k i s v
      (take_from-Holds (find_owner (owner_keys k) k i s) k i
        (record s { fragments = put₂ s.fragments k i none }) a k i left)
      left

expire_item-before :
    (owner_keys : Hash128 → List AccountId) (class : Hash128) (id : InstanceId) (s : State)
    (a : AccountId) (k : Hash128) (i : InstanceId)
    → IsSpared (owner_keys k) a k i (expire_item owner_keys (class, id) s)
    → IsSpared (owner_keys k) a k i s
unfolding expire_item
expire_item-before owner_keys class id s a k i p =
    let t = record s { fragments = put₂ s.fragments class id none } in
    same-IsSpared (owner_keys k) s t a k i refl (
      take_from-IsSpared (owner_keys k) (find_owner (owner_keys class) class id s) class id t a k i
        p)

expire_items-IsSpared :
    (owner_keys : Hash128 → List AccountId) (xs : List (Hash128 × InstanceId)) (s : State)
    (a : AccountId) (k : Hash128) (i : InstanceId)
    → IsMirrored s
    → contains xs (k, i) ≡ true
    → Holds a k i (expire_items owner_keys xs s)
    → IsSpared (owner_keys k) a k i s
unfolding expire_items
expire_items-IsSpared owner_keys [] s a k i v e left = absurd (ground (arith, e))
expire_items-IsSpared owner_keys ((class, id) ∷ xs) s a k i v e left =
    let t = expire_item owner_keys (class, id) s in
    let onward : Holds a k i t = expire_items-Holds owner_keys xs t a k i left in
    elim (Bool-cases (class == k && id == i)) [
      | inl same ↦
          let found : (class, id) ≡ (k, i) = ground (arith, same, ==_iff class k, ==_iff id i) in
          expire_item-here owner_keys s a k i v (
            subst (λ (x : Hash128 × InstanceId). Holds a k i (expire_item owner_keys x s)) found
              onward)
      | inr other ↦ expire_item-before owner_keys class id s a k i (
          expire_items-IsSpared owner_keys xs t a k i
            (expire_item-IsMirrored owner_keys class id s v) (ground (arith, e, other)) left)
    ]

-- An instance that was listed to expire in a block and is in an inventory after its end was spared.
pub on_finalize-IsSpared :
    {L : Type 0} (w : Outside L) (n : BlockNumber) (s : State) (a : AccountId) (k : Hash128)
    (i : InstanceId)
    → IsMirrored s
    → contains (items s.expirations n) (k, i) ≡ true
    → IsLost a k i (on_finalize w.owner_keys n s)
    → IsSpared (w.owner_keys k) a k i s
unfolding on_finalize
on_finalize-IsSpared w n s a k i v e l =
    let t = record s { expirations = remove s.expirations n } in
    same-IsSpared (w.owner_keys k) s t a k i refl (
      expire_items-IsSpared w.owner_keys (items s.expirations n) t a k i (record { same = v.same })
        e l.holds)
