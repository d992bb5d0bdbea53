-- ===== src/Protos/Wanted.antt =====
-- The selection of `get_protos` against what a caller asks for.
use clamor.Exec.{StorageMap}
use clamor.Protos.Types.{ProtoOwner, user, Proto, State, owner_eq}
use clamor.Protos.Query.{
  GetProtosParams, filter_proto, selected, by_categories, order, is_nil, has_tag, is_available,
}
use clamor.Protos.Index.{IsIndexed}
use clamor.Protos.QueryLaws.{passes}
use clamor.Base.{
  ℕ, ◌≡◌, refl, ap, ◌∙◌, inl, inr, Bool, true, false, not, ◌&&◌, ◌||◌, Option, none, some, List, [],
  ◌∷◌, reverse, arith, if◌then◌else◌, is_some, Bool-cases, Option-cases, ◌==◌, ==_iff, filter, all,
  any, contains, count, count-append, nat_eq, bytes_eq, pair_eq,
}
use clamor.Host.{Bytes, AccountId, Hash256, Categories}
use mathlib.Core.List.{reverse-cons}

-- what is available has a cost, which may be 0
pub data Available : Option Bool → Option ℕ → Type 0 where
  any_cost : (cost : Option ℕ) → Available none cost
  with_cost : (n : ℕ) → Available (some true) (some n)
  without_cost : Available (some false) none

pub data InCategories (category : Categories) : List Categories → Type 0 where
  any_category : InCategories category []
  one_of :
      (categories : List Categories)
      → contains categories category ≡ true
      → InCategories category categories

-- the Proto-Fragment has every tag
pub data Tagged (s : State) (p : Proto) : List Bytes → Type 0 where
  no_tag : Tagged s p []
  one_tag :
      (tag : Bytes) (index : ℕ) (tags : List Bytes)
      → s.tags tag ≡ some index
      → contains p.tags index ≡ true
      → Tagged s p tags
      → Tagged s p (tag ∷ tags)

pub data OwnedAs : ProtoOwner → Option AccountId → Type 0 where
  by_anyone : (o : ProtoOwner) → OwnedAs o none
  by_account : (a : AccountId) → OwnedAs (user a) (some a)

-- the Proto-Fragment is one that the caller asks for
pub record Wanted (s : State) (q : GetProtosParams) (k : Hash256) : Type 0 where
  pub proto : Proto
  pub stored : s.protos k ≡ some proto
  pub available : Available q.available proto.include_cost
  pub category : InCategories proto.category q.categories
  pub tagged : Tagged s proto q.tags
  pub owned : OwnedAs proto.owner q.owner

-- `keys` enumerates the keys of a map, each once
pub record Enumerates {A : Type 0} (keys : List ℕ) (m : StorageMap ℕ A) : Type 0 where
  pub once : (k : ℕ) → count k keys ≡ (if is_some (m k) then 1 else 0)

pub is_available-Available :
    (avail : Option Bool) (cost : Option ℕ) → is_available avail cost ≡ true → Available avail cost
is_available-Available none cost e = any_cost cost
is_available-Available (some true) (some n) e = with_cost n
is_available-Available (some true) none e = absurd (ground (arith, e))
is_available-Available (some false) (some n) e = absurd (ground (arith, e))
is_available-Available (some false) none e = without_cost

pub Available-is_available :
    (avail : Option Bool) (cost : Option ℕ) → Available avail cost → is_available avail cost ≡ true
Available-is_available _ _ (any_cost cost) = refl
Available-is_available _ _ (with_cost n) = refl
Available-is_available _ _ without_cost = refl

any-contains : (c : Categories) (cs : List Categories) → any (λ cat. cat == c) cs ≡ contains cs c
any-contains c [] = refl
any-contains c (x ∷ cs) = ground (arith, any-contains c cs)

pub categories-InCategories :
    (c : Categories) (cs : List Categories)
    → (is_nil cs || any (λ cat. cat == c) cs) ≡ true
    → InCategories c cs
categories-InCategories c [] e = any_category
categories-InCategories c (x ∷ cs) e = one_of (x ∷ cs) (ground (arith, e, any-contains c (x ∷ cs)))

pub InCategories-categories :
    (c : Categories) (cs : List Categories)
    → InCategories c cs
    → (is_nil cs || any (λ cat. cat == c) cs) ≡ true
InCategories-categories c _ any_category = refl
InCategories-categories c _ (one_of cs e) = ground (arith, e, any-contains c cs)

pub all-Tagged :
    (s : State) (p : Proto) (tags : List Bytes) → all (has_tag s p) tags ≡ true → Tagged s p tags
all-Tagged s p [] e = no_tag
all-Tagged s p (tag ∷ tags) e = elim (Option-cases (s.tags tag)) [
  | inl n ↦ absurd (ground (arith, e, n))
  | inr (index, i) ↦
      one_tag tag index tags i (ground (arith, e, i)) (all-Tagged s p tags (ground (arith, e, i)))
]

pub Tagged-all :
    (s : State) (p : Proto) (tags : List Bytes) → Tagged s p tags → all (has_tag s p) tags ≡ true
Tagged-all s p _ no_tag = refl
Tagged-all s p _ (one_tag tag index tags i h rest) = ground (arith, i, h, Tagged-all s p tags rest)

-- what the filter asks of a stored Proto-Fragment
abbrev pub fits : State → GetProtosParams → Proto → Bool
fits s q p =
    is_available q.available p.include_cost
    && (is_nil q.categories || any (λ cat. cat == p.category) q.categories)
    && all (has_tag s p) q.tags

all-nil : {A : Type 0} (p : A → Bool) (xs : List A) → is_nil xs ≡ true → all p xs ≡ true
all-nil p [] e = refl
all-nil p (x ∷ xs) e = absurd (ground (arith, e))

pub passes-fits :
    (s : State) (q : GetProtosParams) (k : Hash256) (p : Proto)
    → s.protos k ≡ some p
    → passes s q k ≡ fits s q p
unfolding filter_proto
passes-fits s q k p e = ground (arith, e, all-nil (has_tag s p) q.tags)

pub passes-stored :
    (s : State) (q : GetProtosParams) (k : Hash256) → s.protos k ≡ none → passes s q k ≡ false
unfolding filter_proto
passes-stored s q k e = ground (arith, e)

count-reverse : (a : ℕ) (xs : List ℕ) → count a (reverse xs) ≡ count a xs
count-reverse a [] = refl
count-reverse a (x ∷ xs) =
    ap (count a) (reverse-cons x xs)
    ∙ omega (arith, count-append a (reverse xs) (x ∷ []), count-reverse a xs)

count-filter :
    (p : ℕ → Bool) (a : ℕ) (xs : List ℕ) → count a (filter p xs) ≡ (if p a then count a xs else 0)
count-filter p a [] = ground arith
count-filter p a (x ∷ xs) = ground (arith, ==_iff x a, count-filter p a xs)

count-order : (a : ℕ) (desc : Bool) (xs : List ℕ) → count a (order desc xs) ≡ count a xs
count-order a true xs = count-reverse a xs
count-order a false xs = refl

pub count-selected :
    (s : State) (q : GetProtosParams) (k : Hash256) (xs : List Hash256)
    → count k (selected s q xs) ≡ (if passes s q k then count k xs else 0)
unfolding selected
count-selected s q k xs =
    ground (arith, count-filter (passes s q) k (order q.desc xs), count-order k q.desc xs)

-- a category that the caller leaves out has nothing that passes
passes-category :
    (s : State) (q : GetProtosParams) (k : Hash256) (p : Proto)
    → s.protos k ≡ some p
    → passes s q k ≡ true
    → not (is_nil q.categories) && not (contains q.categories p.category) ≡ false
passes-category s q k p e h =
    ground (arith, h, passes-fits s q k p e, any-contains p.category q.categories)

pub count-by_categories :
    (s : State) (q : GetProtosParams) (k : Hash256) (p : Proto) (keys : List Categories)
    → IsIndexed s
    → s.protos k ≡ some p
    → passes s q k ≡ true
    → count k (by_categories s q keys) ≡ count p.category keys
unfolding by_categories
count-by_categories s q k p [] v e h = refl
count-by_categories s q k p (c ∷ keys) v e h =
    let rest = count-by_categories s q k p keys v e h in
    let belongs = v.by_category k c in
    elim (Bool-cases (not (is_nil q.categories) && not (contains q.categories c))) [
      | inl out ↦
          ground (
            arith,
            out,
            rest,
            passes-category s q k p e h,
            ==_iff p.category c,
            ==_iff c p.category,
          )
      | inr inside ↦ elim (Option-cases (s.protos_by_category c)) [
        | inl n ↦
            ground (arith, inside, n, rest, belongs, e, ==_iff p.category c, ==_iff c p.category)
        | inr (hashes, m) ↦ ground (
          arith,
          inside,
          m,
          rest,
          belongs,
          e,
          h,
          count-selected s q k hashes,
          count-append k (selected s q hashes) (by_categories s q keys),
          ==_iff p.category c,
          ==_iff c p.category,
        )
      ]
    ]

pub count-failing :
    (s : State) (q : GetProtosParams) (k : Hash256) (keys : List Categories)
    → passes s q k ≡ false
    → count k (by_categories s q keys) ≡ 0
unfolding by_categories
count-failing s q k [] h = refl
count-failing s q k (c ∷ keys) h = elim (Option-cases (s.protos_by_category c)) [
  | inl n ↦ ground (arith, n, count-failing s q k keys h)
  | inr (hashes, m) ↦ ground (
    arith,
    m,
    h,
    count-failing s q k keys h,
    count-selected s q k hashes,
    count-append k (selected s q hashes) (by_categories s q keys),
  )
]
