-- ===== src/Runtime/Period.antt =====
-- The period of a transaction's era against the number of block hashes that are kept.
use native.Mathlib.Omega.{pow_step}
use clamor.Runtime.Config.{power_from, checked_next_power_of_two, transaction_period}
use clamor.Base.{
  ℕ, zero, suc, ◌+◌, ◌*◌, ◌^◌, ◌≤◌, ◌<◌, ◌≡◌, subst, ◌∙◌, inl, inr, some, arith, leb, Bool-cases,
}

power_from-here : (rounds i n : ℕ) → n ≤ 2 ^ i → power_from (suc rounds) i n ≡ some (2 ^ i)
unfolding power_from
power_from-here rounds i n t = ground arith

power_from-later :
    (rounds i n : ℕ) → 2 ^ i < n → power_from (suc rounds) i n ≡ power_from rounds (suc i) n
unfolding power_from
power_from-later rounds i n t = ground arith

power_from-least :
    (rounds i n : ℕ)
    → 2 ^ i < 2 * n
    → n ≤ 2 ^ (i + rounds)
    → (k : ℕ) × (power_from (suc rounds) i n ≡ some (2 ^ k)) × (n ≤ 2 ^ k) × (2 ^ k < 2 * n)
power_from-least zero i n low high =
    let same : i + 0 ≡ i = omega arith in
    let t : n ≤ 2 ^ i = subst (λ j. n ≤ 2 ^ j) same high in (i, power_from-here zero i n t, t, low)
power_from-least (suc rounds) i n low high = elim (Bool-cases (leb n (2 ^ i))) [
  | inl t ↦ (i, power_from-here (suc rounds) i n (ground (arith, t)), ground (arith, t), low)
  | inr f ↦
      let small : 2 ^ i < n = ground (arith, f) in
      let same : i + suc rounds ≡ suc i + rounds = omega arith in
      let (k, e, p, q) =
        power_from-least rounds (suc i) n (omega (arith, pow_step 2 i, small))
          (subst (λ j. n ≤ 2 ^ j) same high) in
      (k, power_from-later (suc rounds) i n small ∙ e, p, q)
]

-- the half of a power of two that is not 1
half_power :
    (n k : ℕ)
    → checked_next_power_of_two n ≡ some (2 ^ k)
    → 1 < n
    → n ≤ 2 ^ k
    → 2 ^ k < 2 * n
    → (j : ℕ) × (transaction_period n ≡ 2 ^ j)
      × (transaction_period n < n)
      × (n ≤ 2 * transaction_period n)
unfolding transaction_period
half_power n zero e many p q = absurd (omega arith)
half_power n (suc j) e many p q =
    let t : transaction_period n ≡ 2 ^ j = ground (arith, e) in (j, t, omega arith, omega arith)

-- For a number of block hashes that is more than one and at most 2^31, the period of a
-- transaction's era is a power of two that is below it and at least half of it.
pub transaction_period-bounds :
    (n : ℕ)
    → 1 < n
    → n ≤ 2 ^ 31
    → (k : ℕ) × (transaction_period n ≡ 2 ^ k)
      × (transaction_period n < n)
      × (n ≤ 2 * transaction_period n)
unfolding checked_next_power_of_two
transaction_period-bounds n many fits =
    let (k, e, p, q) = power_from-least 31 0 n (omega arith) fits in half_power n k e many p q
