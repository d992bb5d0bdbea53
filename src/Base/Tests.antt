-- ===== src/Base/Tests.antt =====
-- Boolean tests on the native numbers, equality tests as an interface, and the conditional.
use Prim.Native.Nat.{ℕ, compare, Ordering}
use mathlib.Core.Path.{◌≡◌, refl}
use mathlib.Core.Logic.{◌↔◌, ◌⊎◌, inl, inr}
use mathlib.Core.Bool.{Bool, true, false, ◌&&◌}
use mathlib.Core.List.{List, [], ◌∷◌}
use mathlib.Core.Option.{Option, none, some}
use native.Mathlib.Omega.{arith}

abbrev pub ltb : ℕ → ℕ → Bool
ltb a b = elim (compare a b) [ Ordering.lt ↦ true | _ ↦ false ]

abbrev pub leb : ℕ → ℕ → Bool
leb a b = elim (compare a b) [ Ordering.gt ↦ false | _ ↦ true ]

abbrev pub nat_beq : ℕ → ℕ → Bool
nat_beq a b = elim (compare a b) [ Ordering.eq ↦ true | _ ↦ false ]

infix 1 if◌then◌else◌
abbrev pub if◌then◌else◌ {ℓ} : {A : Type ℓ} → Bool → A → A → A
if true then x else y = x
if false then x else y = y

pub Bool-cases : (b : Bool) → (b ≡ true) ⊎ (b ≡ false)
Bool-cases true = inl refl
Bool-cases false = inr refl

pub Option-cases {ℓ} : {A : Type ℓ} (o : Option A) → (o ≡ none) ⊎ ((a : A) × (o ≡ some a))
Option-cases none = inl refl
Option-cases (some a) = inr (a, refl)

abbrev pub is_some {ℓ} : {A : Type ℓ} → Option A → Bool
is_some none = false
is_some (some a) = true

abbrev pub get_or {ℓ} : {A : Type ℓ} → Option A → A → A
get_or none d = d
get_or (some a) d = a

-- Rust's `PartialEq`, as the pallets use it: a test that decides equality.

pub record Eq {ℓ} (A : Type ℓ) : Type ℓ where
  pub equal : A → A → Bool
  pub equal_iff : (x y : A) → (equal x y ≡ true) ↔ (x ≡ y)

pub nat_beq_iff : (a b : ℕ) → (nat_beq a b ≡ true) ↔ (a ≡ b)
nat_beq_iff a b = ground arith

instance abbrev pub nat_eq : Eq ℕ
nat_eq = record { equal = nat_beq; equal_iff = nat_beq_iff }

module _ {ℓ} {A : Type ℓ} ⦃e : Eq A⦄ where
  infix 50 ◌==◌
  abbrev pub ◌==◌ : A → A → Bool
  x == y = e.equal x y

  pub ==_iff : (a b : A) → (a == b ≡ true) ↔ (a ≡ b)
  ==_iff a b = e.equal_iff a b

  pub ==_refl : (a : A) → (a == a) ≡ true
  ==_refl a = (e.equal_iff a a).1 refl

module _ {ℓ κ} {A : Type ℓ} {B : Type κ} ⦃ea : Eq A⦄ ⦃eb : Eq B⦄ where
  abbrev pub pair_beq : A × B → A × B → Bool
  pair_beq p q = p.0 == q.0 && p.1 == q.1

  pub pair_beq_iff : (p q : A × B) → (pair_beq p q ≡ true) ↔ (p ≡ q)
  pair_beq_iff p q = ground (arith, ea.equal_iff p.0 q.0, eb.equal_iff p.1 q.1)

instance abbrev pub pair_eq {ℓ κ} : {A : Type ℓ} {B : Type κ} ⦃ea : Eq A⦄ ⦃eb : Eq B⦄ → Eq (A × B)
pair_eq = record { equal = pair_beq; equal_iff = pair_beq_iff }

module _ {ℓ} {A : Type ℓ} ⦃ea : Eq A⦄ where
  unfoldable pub list_beq : List A → List A → Bool
  list_beq [] [] = true
  list_beq [] (y ∷ ys) = false
  list_beq (x ∷ xs) [] = false
  list_beq (x ∷ xs) (y ∷ ys) = x == y && list_beq xs ys

  pub list_beq_iff : (xs ys : List A) → (list_beq xs ys ≡ true) ↔ (xs ≡ ys)
  unfolding list_beq
  list_beq_iff [] [] = ground arith
  list_beq_iff [] (y ∷ ys) = ground arith
  list_beq_iff (x ∷ xs) [] = ground arith
  list_beq_iff (x ∷ xs) (y ∷ ys) = ground (arith, ea.equal_iff x y, list_beq_iff xs ys)

instance abbrev pub bytes_eq : Eq (List ℕ)
bytes_eq = record { equal = list_beq; equal_iff = list_beq_iff }
