-- ===== src/Protos/QueryLaws.antt =====
-- The listing of Proto-Fragments: each one that is listed passes the filters.
use clamor.Protos.Types.{State, user}
use clamor.Protos.Query.{
  GetProtosParams, filter_proto, selected, by_categories, list_protos, order, page,
}
use clamor.Base.{
  ℕ, zero, suc, ◌≤◌, ◌≡◌, refl, inl, inr, Bool, true, ◌&&◌, some, List, [], ◌∷◌, ◌++◌, arith,
  Option-cases, length, filter, all, take, drop,
}
use clamor.Host.{Hash256, Categories}

filter-all : {A : Type 0} (p : A → Bool) (xs : List A) → all p (filter p xs) ≡ true
filter-all p [] = refl
filter-all p (x ∷ xs) = ground (arith, filter-all p xs)

all-append :
    {A : Type 0} (p : A → Bool) (xs ys : List A) → all p (xs ++ ys) ≡ (all p xs && all p ys)
all-append p [] ys = refl
all-append p (x ∷ xs) ys = ground (arith, all-append p xs ys)

all-take :
    {A : Type 0} (p : A → Bool) (n : ℕ) (xs : List A) → all p xs ≡ true → all p (take n xs) ≡ true
all-take p zero xs e = refl
all-take p (suc n) [] e = refl
all-take p (suc n) (x ∷ xs) e = ground (arith, all-take p n xs)

all-drop :
    {A : Type 0} (p : A → Bool) (n : ℕ) (xs : List A) → all p xs ≡ true → all p (drop n xs) ≡ true
all-drop p zero xs e = e
all-drop p (suc n) [] e = refl
all-drop p (suc n) (x ∷ xs) e = all-drop p n xs (ground arith)

length-take : {A : Type 0} (n : ℕ) (xs : List A) → length (take n xs) ≤ n
length-take zero xs = omega arith
length-take (suc n) [] = omega arith
length-take (suc n) (x ∷ xs) = omega (arith, length-take n xs)

abbrev pub passes : State → GetProtosParams → Hash256 → Bool
passes s q = filter_proto s q.tags q.categories q.available

selected-all :
    (s : State) (q : GetProtosParams) (hashes : List Hash256)
    → all (passes s q) (selected s q hashes) ≡ true
unfolding selected
selected-all s q hashes = filter-all (passes s q) (order q.desc hashes)

by_categories-all :
    (s : State) (q : GetProtosParams) (keys : List Categories)
    → all (passes s q) (by_categories s q keys) ≡ true
unfolding by_categories
by_categories-all s q [] = refl
by_categories-all s q (k ∷ keys) = elim (Option-cases (s.protos_by_category k)) [
  | inl e ↦ ground (arith, by_categories-all s q keys, e)
  | inr (hashes, e) ↦ ground (
    arith,
    e,
    by_categories-all s q keys,
    selected-all s q hashes,
    all-append (passes s q) (selected s q hashes) (by_categories s q keys),
  )
]

page-all :
    (s : State) (q : GetProtosParams) (hashes : List Hash256)
    → all (passes s q) hashes ≡ true
    → (length (page q hashes) ≤ q.limit) × (all (passes s q) (page q hashes) ≡ true)
page-all s q hashes e = (
  length-take q.limit (drop q.from hashes),
  all-take (passes s q) q.limit (drop q.from hashes) (all-drop (passes s q) q.from hashes e),
)

-- A listing is no longer than the limit that is asked for, and each Proto-Fragment of it passes
-- the filters on tags, categories and availability.
pub list_protos-filtered :
    (category_keys : List Categories) (s : State) (q : GetProtosParams) (xs : List Hash256)
    → list_protos category_keys s q ≡ some xs
    → (length xs ≤ q.limit) × (all (passes s q) xs ≡ true)
unfolding list_protos
list_protos-filtered category_keys s q xs e = elim (Option-cases q.owner) [
  | inl n ↦
      ground (arith, e, n, page-all s q _ (by_categories-all s q (order q.desc category_keys)))
  | inr (a, n) ↦ elim (Option-cases (s.protos_by_owner (user a))) [
    | inl m ↦ ground (arith, e, n, m)
    | inr (hashes, m) ↦ ground (arith, e, n, m, page-all s q _ (selected-all s q hashes))
  ]
]
