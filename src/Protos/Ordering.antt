-- ===== src/Protos/Ordering.antt =====
-- The pages of `get_protos` of pallets/protos/src/lib.rs, in either order.
use clamor.Protos.Types.{State}
use clamor.Protos.Query.{GetProtosParams, selected, by_categories, order, is_nil}
use clamor.Protos.QueryLaws.{passes}
use clamor.Base.{
  ℕ, ◌≡◌, refl, sym, ap, ◌∙◌, inl, inr, Bool, true, false, not, ◌&&◌, none, some, List, [], ◌∷◌,
  ◌++◌, reverse, append-nil, append_assoc, arith, if◌then◌else◌, Bool-cases, Option-cases, filter,
  contains, nat_eq,
}
use clamor.Host.{Hash256, Categories}
use mathlib.Core.List.{reverse-cons}

filter-append : (p : ℕ → Bool) (xs ys : List ℕ) → filter p (xs ++ ys) ≡ filter p xs ++ filter p ys
filter-append p [] ys = refl
filter-append p (x ∷ xs) ys = ground (arith, filter-append p xs ys)

pub filter-reverse : (p : ℕ → Bool) (xs : List ℕ) → filter p (reverse xs) ≡ reverse (filter p xs)
filter-reverse p [] = refl
filter-reverse p (x ∷ xs) =
    ap (filter p) (reverse-cons x xs)
    ∙ filter-append p (reverse xs) (x ∷ [])
    ∙ ap (λ (ys : List ℕ). ys ++ filter p (x ∷ [])) (filter-reverse p xs)
    ∙ elim (Bool-cases (p x)) [
      | inl e ↦ ground (arith, e, reverse-cons x (filter p xs))
      | inr e ↦ ground (arith, e, append-nil (reverse (filter p xs)))
    ]

reverse-append : (xs ys : List ℕ) → reverse (xs ++ ys) ≡ reverse ys ++ reverse xs
reverse-append [] ys = sym (append-nil (reverse ys))
reverse-append (x ∷ xs) ys =
    reverse-cons x (xs ++ ys)
    ∙ ap (λ (zs : List ℕ). zs ++ x ∷ []) (reverse-append xs ys)
    ∙ append_assoc (reverse ys) (reverse xs) (x ∷ [])
    ∙ ap (λ (zs : List ℕ). reverse ys ++ zs) (sym (reverse-cons x xs))

-- the request for a page in an order
abbrev pub page_of : GetProtosParams → Bool → ℕ → ℕ → GetProtosParams
page_of q desc from limit = record q { desc = desc; from = from; limit = limit }

-- one category's part of the list
abbrev part : State → GetProtosParams → Categories → List Hash256
part s q c =
    if not (is_nil q.categories) && not (contains q.categories c)
    then []
    else elim (s.protos_by_category c) [ none ↦ [] | some hashes ↦ selected s q hashes ]

by_categories-cons :
    (s : State) (q : GetProtosParams) (c : Categories) (keys : List Categories)
    → by_categories s q (c ∷ keys) ≡ part s q c ++ by_categories s q keys
unfolding by_categories
by_categories-cons s q c keys = ground arith

by_categories-append :
    (s : State) (q : GetProtosParams) (xs ys : List Categories)
    → by_categories s q (xs ++ ys) ≡ by_categories s q xs ++ by_categories s q ys
unfolding by_categories
by_categories-append s q [] ys = refl
by_categories-append s q (c ∷ xs) ys =
    by_categories-cons s q c (xs ++ ys)
    ∙ ap (λ (zs : List Hash256). part s q c ++ zs) (by_categories-append s q xs ys)
    ∙ sym (append_assoc (part s q c) (by_categories s q xs) (by_categories s q ys))
    ∙ ap (λ (zs : List Hash256). zs ++ by_categories s q ys) (sym (by_categories-cons s q c xs))

part-page :
    (s : State) (q : GetProtosParams) (desc : Bool) (from limit : ℕ) (c : Categories)
    → part s (page_of q desc from limit) c ≡ order desc (part s (record q { desc = false }) c)
unfolding selected
part-page s q true from limit c = elim (Option-cases (s.protos_by_category c)) [
  | inl e ↦ ground (arith, e)
  | inr (hashes, e) ↦ ground (arith, e, filter-reverse (passes s q) hashes)
]
part-page s q false from limit c = refl

-- The list by categories is turned round, or stays, for a page.
pub by_categories-page :
    (s : State) (q : GetProtosParams) (desc : Bool) (from limit : ℕ) (keys : List Categories)
    → by_categories s (page_of q desc from limit) (order desc keys)
      ≡ order desc (by_categories s (record q { desc = false }) keys)
unfolding by_categories selected
by_categories-page s q true from limit [] = refl
by_categories-page s q false from limit [] = refl
by_categories-page s q true from limit (c ∷ keys) =
    let p = page_of q true from limit in
    let asc = record q { desc = false } in
    ap (by_categories s p) (reverse-cons c keys)
    ∙ by_categories-append s p (reverse keys) (c ∷ [])
    ∙ ap (λ (zs : List Hash256). by_categories s p (reverse keys) ++ zs)
        (by_categories-cons s p c [] ∙ append-nil (part s p c) ∙ part-page s q true from limit c)
    ∙ ap (λ (zs : List Hash256). zs ++ reverse (part s asc c))
        (by_categories-page s q true from limit keys)
    ∙ sym (reverse-append (part s asc c) (by_categories s asc keys))
    ∙ ap reverse (sym (by_categories-cons s asc c keys))
by_categories-page s q false from limit (c ∷ keys) =
    let p = page_of q false from limit in
    let asc = record q { desc = false } in
    by_categories-cons s p c keys
    ∙ ap (λ (zs : List Hash256). part s asc c ++ zs) (by_categories-page s q false from limit keys)
    ∙ sym (by_categories-cons s asc c keys)
