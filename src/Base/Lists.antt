-- ===== src/Base/Lists.antt =====
-- Lists measured and searched over native numbers, with the operations of Rust's `Vec` that the
-- pallets use: `contains`, `retain`, `filter`, `skip`, `take`.
use Prim.Native.Nat.{ℕ, zero, suc, ◌+◌, ◌≤◌}
use mathlib.Core.Path.{◌≡◌}
use mathlib.Core.Bool.{Bool, true, false, not, ◌&&◌, ◌||◌}
use mathlib.Core.List.{List, [], ◌∷◌, ◌++◌}
use native.Mathlib.Omega.{arith}
use clamor.Base.Tests.{Eq, ◌==◌, ==_iff, if◌then◌else◌}

module _ {ℓ} {A : Type ℓ} where
  abbrev pub length : List A → ℕ
  length [] = 0
  length (x ∷ xs) = suc (length xs)

  pub length-append : (xs ys : List A) → length (xs ++ ys) ≡ length xs + length ys
  length-append [] ys = omega arith
  length-append (x ∷ xs) ys = omega (arith, length-append xs ys)

  -- `retain` and `filter` keep the items that pass the test
  abbrev pub filter : (A → Bool) → List A → List A
  filter p [] = []
  filter p (x ∷ xs) = let rest = filter p xs in if p x then x ∷ rest else rest

  abbrev pub all : (A → Bool) → List A → Bool
  all p [] = true
  all p (x ∷ xs) = p x && all p xs

  abbrev pub any : (A → Bool) → List A → Bool
  any p [] = false
  any p (x ∷ xs) = p x || any p xs

  abbrev pub take : ℕ → List A → List A
  take zero xs = []
  take (suc n) [] = []
  take (suc n) (x ∷ xs) = x ∷ take n xs

  abbrev pub drop : ℕ → List A → List A
  drop zero xs = xs
  drop (suc n) [] = []
  drop (suc n) (x ∷ xs) = drop n xs

module _ {ℓ} {A : Type ℓ} ⦃e : Eq A⦄ where
  abbrev pub contains : List A → A → Bool
  contains [] a = false
  contains (x ∷ xs) a = x == a || contains xs a

  -- how often an item stands in a list
  abbrev pub count : A → List A → ℕ
  count a [] = 0
  count a (x ∷ xs) = (if x == a then 1 else 0) + count a xs

  abbrev pub without : A → List A → List A
  without a = filter (λ x. not (x == a))

  pub count-append : (a : A) (xs ys : List A) → count a (xs ++ ys) ≡ count a xs + count a ys
  count-append a [] ys = omega arith
  count-append a (x ∷ xs) ys = omega (arith, count-append a xs ys)

  pub count-without :
      (a b : A) (xs : List A) → count b (without a xs) ≡ (if a == b then 0 else count b xs)
  count-without a b [] = ground arith
  count-without a b (x ∷ xs) =
      ground (arith, ==_iff x a, ==_iff x b, ==_iff a b, count-without a b xs)

  pub contains-count : (xs : List A) (a : A) → contains xs a ≡ true → 1 ≤ count a xs
  contains-count [] a e = ground arith
  contains-count (x ∷ xs) a e = ground (arith, contains-count xs a)

  pub count-contains : (xs : List A) (a : A) → 1 ≤ count a xs → contains xs a ≡ true
  count-contains [] a e = ground arith
  count-contains (x ∷ xs) a e = ground (arith, count-contains xs a)
