-- ===== src/Accounts/Hexadecimal.antt =====
-- pallets/accounts/src/lib.rs: what `sync_partner_contract` takes from the standard library: the
-- slice `[2..]` of a text, `u64::from_str_radix` with radix 16, and the format `{:x}`.
use clamor.Base.{
  ℕ, zero, suc, ◌+◌, ◌-◌, ◌*◌, ◌/◌, ◌%◌, ◌^◌, ◌<◌, ◌≡◌, inl, inr, ◌&&◌, Option, none, some, [], ◌∷◌,
  ◌++◌, arith, ltb, leb, if◌then◌else◌, Option-cases, ◌==◌, nat_eq, bytes_eq, pair_eq, refl, ◌≢◌,
  Bool-cases,
}
use clamor.Host.{Bytes, u64_mod, ascii}

-- `&text[2..]`; `none` is the panic, where the text is too short or a character is cut
abbrev pub skip_two : Bytes → Option Bytes
skip_two [] = none
skip_two (a ∷ []) = none
skip_two (a ∷ b ∷ []) = some []
skip_two (a ∷ b ∷ c ∷ text) = if leb 0x80 c && ltb c 0xc0 then none else some (c ∷ text)

abbrev pub hex_digit : ℕ → Option ℕ
hex_digit b =
    if leb 48 b && leb b 57
    then some (b - 48)
    else if leb 97 b && leb b 102
    then some (b - 87)
    else if leb 65 b && leb b 70
    then some (b - 55)
    else none

-- the digits that follow the value so far
unfoldable pub read_digits : ℕ → Bytes → Option ℕ
read_digits value [] = some value
read_digits value (b ∷ text) = elim (hex_digit b) [
  | none ↦ none
  | some d ↦
      let rest = read_digits (value * 16 + d) text in
      if ltb (value * 16 + d) u64_mod then rest else none
]

-- `u64::from_str_radix(text, 16).ok()`
unfoldable pub from_str_radix : Bytes → Option ℕ
unfolding read_digits
from_str_radix [] = none
from_str_radix (b ∷ []) = if b == 43 then none else read_digits 0 (b ∷ [])
from_str_radix (b ∷ c ∷ text) =
    if b == 43 then read_digits 0 (c ∷ text) else read_digits 0 (b ∷ c ∷ text)

abbrev digit_char : ℕ → ℕ
digit_char d = if ltb d 10 then 48 + d else 87 + d

-- `n` in at most as many digits as the fuel says
unfoldable pub hex_digits : ℕ → ℕ → Bytes
hex_digits zero n = []
hex_digits (suc fuel) n =
    let rest = hex_digits fuel (n / 16) in
    if ltb n 16 then digit_char n ∷ [] else rest ++ digit_char (n % 16) ∷ []

-- `format!("0x{:x}", n)` of a u64
unfoldable pub format_block : ℕ → Bytes
format_block n = ascii "0x" ++ hex_digits 16 n

digit_char-hex_digit : (d : ℕ) → d < 16 → hex_digit (digit_char d) ≡ some d
digit_char-hex_digit d b = ground arith

read_digits-append :
    (value : ℕ) (text : Bytes) (d : ℕ) (n : ℕ)
    → d < 16
    → read_digits value text ≡ some n
    → n * 16 + d < u64_mod
    → read_digits value (text ++ digit_char d ∷ []) ≡ some (n * 16 + d)
unfolding read_digits
read_digits-append value [] d n b e r = ground (arith, digit_char-hex_digit d b)
read_digits-append value (c ∷ text) d n b e r = elim (Option-cases (hex_digit c)) [
  | inl none_there ↦ absurd (ground (arith, e, none_there))
  | inr (x, there) ↦ ground (arith, e, there, read_digits-append (value * 16 + x) text d n b)
]

read_digits-hex_digits :
    (fuel n : ℕ) → n < 16 ^ fuel → n < u64_mod → read_digits 0 (hex_digits fuel n) ≡ some n
unfolding read_digits hex_digits
read_digits-hex_digits zero n b r = ground (arith, b)
read_digits-hex_digits (suc fuel) n b r = elim (Bool-cases (ltb n 16)) [
  | inl small ↦ ground (arith, small, digit_char-hex_digit n)
  | inr large ↦
      let rest = read_digits-hex_digits fuel (n / 16) (omega (arith, b)) (omega (arith, r)) in
      let last =
        read_digits-append 0 (hex_digits fuel (n / 16)) (n % 16) (n / 16) (omega arith) rest
          (omega (arith, r)) in
      ground (arith, large, last)
]

-- a text that is read as digits begins with one, so with no sign
read_digits-from_str_radix :
    (text : Bytes) (n : ℕ) → text ≢ [] → read_digits 0 text ≡ some n → from_str_radix text ≡ some n
unfolding from_str_radix
read_digits-from_str_radix [] n nonempty e = absurd (nonempty refl)
read_digits-from_str_radix (b ∷ []) n nonempty e = ground (arith, e)
read_digits-from_str_radix (b ∷ c ∷ text) n nonempty e = ground (arith, e)

read_digits-skip_two :
    (a b n : ℕ) (text : Bytes) → read_digits 0 text ≡ some n → skip_two (a ∷ b ∷ text) ≡ some text
unfolding read_digits
read_digits-skip_two a b n [] e = refl
read_digits-skip_two a b n (c ∷ text) e = ground (arith, e)

append-nonempty : (text : Bytes) (d : ℕ) → text ++ d ∷ [] ≢ []
append-nonempty [] d e = ground (arith, e)
append-nonempty (b ∷ text) d e = ground (arith, e)

hex_digits-nonempty : (fuel n : ℕ) → hex_digits (suc fuel) n ≢ []
unfolding hex_digits
hex_digits-nonempty fuel n e = elim (Bool-cases (ltb n 16)) [
  | inl small ↦ ground (arith, small, e)
  | inr large ↦
      append-nonempty (hex_digits fuel (n / 16)) (digit_char (n % 16)) (ground (arith, large, e))
]

-- What `format!` writes for a u64, without the first two characters, is read as that number.
pub format_block-from_str_radix :
    (n : ℕ)
    → n < u64_mod
    → (text : Bytes) × (skip_two (format_block n) ≡ some text) × (from_str_radix text ≡ some n)
unfolding format_block
format_block-from_str_radix n b =
    let text = hex_digits 16 n in
    let e = read_digits-hex_digits 16 n (omega (arith, b)) b in
    (
      text,
      read_digits-skip_two 48 120 n text e,
      read_digits-from_str_radix text n (hex_digits-nonempty 15 n) e,
    )
