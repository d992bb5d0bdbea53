-- ===== src/Exec/Monad.antt =====
-- Origins, outcomes and the operations that dispatchables are written with.
use clamor.Base.{ℕ, Bool, true, false, Option, none, some}

-- frame's origin of a call
pub data Origin : Type 0 where
  root none_origin : Origin
  signed : ℕ → Origin

-- An error of the pallet, or one that the framework or another pallet returns.
pub data DispatchError {ℓ} (E : Type ℓ) : Type ℓ where
  bad_origin : DispatchError E
  foreign : ℕ → DispatchError E
  pallet : E → DispatchError E

pub data Outcome {ℓ} (E A : Type ℓ) : Type ℓ where
  ok : A → Outcome E A
  err : DispatchError E → Outcome E A
  panic : Outcome E A

abbrev pub Exec : Type 0 → Type 0 → Type 0 → Type 0
Exec S E A = S → Outcome E A × S

abbrev pub Call : Type 0 → Type 0 → Type 0
Call S E = Exec S E (Unit {0})

module _ {S E : Type 0} where
  infixl 5 ◌>>=◌ ◌>>◌
  abbrev pub ◌>>=◌ : {A B : Type 0} → Exec S E A → (A → Exec S E B) → Exec S E B
  ◌>>=◌ m k s =
      let (o, t) = m s in elim o [ ok a ↦ k a t | err e ↦ (err e, t) | panic ↦ (panic, t) ]

  abbrev pub ◌>>◌ : {A B : Type 0} → Exec S E A → Exec S E B → Exec S E B
  m >> k = m >>= λ _. k

  abbrev pub return : {A : Type 0} → A → Exec S E A
  return a s = (ok a, s)

  abbrev pub fail : {A : Type 0} → E → Exec S E A
  fail e s = (err (pallet e), s)

  -- `ensure!(test, error)`
  abbrev pub ensure : Bool → E → Call S E
  ensure true e s = (ok tt, s)
  ensure false e s = (err (pallet e), s)

  -- `option.ok_or(error)?`
  abbrev pub ok_or : {A : Type 0} → Option A → E → Exec S E A
  ok_or none e s = (err (pallet e), s)
  ok_or (some a) e s = (ok a, s)

  -- `option.unwrap()`
  abbrev pub unwrap : {A : Type 0} → Option A → Exec S E A
  unwrap none s = (panic, s)
  unwrap (some a) s = (ok a, s)

  abbrev pub gets : {A : Type 0} → (S → A) → Exec S E A
  gets f s = (ok (f s), s)

  abbrev pub modify : (S → S) → Call S E
  modify f s = (ok tt, f s)

  -- `ensure_signed(origin)?`, `ensure_root(origin)?`, `ensure_none(origin)?`
  abbrev pub ensure_signed : Origin → Exec S E ℕ
  ensure_signed root s = (err bad_origin, s)
  ensure_signed none_origin s = (err bad_origin, s)
  ensure_signed (signed who) s = (ok who, s)

  abbrev pub ensure_root : Origin → Call S E
  ensure_root root s = (ok tt, s)
  ensure_root none_origin s = (err bad_origin, s)
  ensure_root (signed who) s = (err bad_origin, s)

  abbrev pub ensure_none : Origin → Call S E
  ensure_none root s = (err bad_origin, s)
  ensure_none none_origin s = (ok tt, s)
  ensure_none (signed who) s = (err bad_origin, s)
