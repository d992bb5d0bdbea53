-- ===== src/Json.antt =====
-- serde_json's `Value` and `Map`, as far as the pallets build and read them: an object keeps one
-- value for each key. The order of the keys, which is the crate's, is not modelled: a new key goes last.
use clamor.Base.{
  ℕ, zero, suc, ◌≡◌, Bool, true, false, ◌&&◌, Option, none, some, [], ◌∷◌, arith, ltb, leb,
  if◌then◌else◌, get_or, ◌==◌, ==_iff, nat_eq, bytes_eq, pair_eq,
}
use clamor.Host.{Bytes}

mutual
  pub data Json : Type 0 where
    null : Json
    number : ℕ → Json
    string : Bytes → Json
    object : Fields → Json
    array : Items → Json

  pub data Fields : Type 0 where
    end : Fields
    field : Bytes → Json → Fields → Fields

  pub data Items : Type 0 where
    no_items : Items
    item : Json → Items → Items

-- `Map::insert`
unfoldable pub set_field : Bytes → Json → Fields → Fields
set_field name v end = field name v end
set_field name v (field n w rest) =
    let others = set_field name v rest in if n == name then field n v rest else field n w others

-- `Map::get`
unfoldable pub get_field : Bytes → Fields → Option Json
get_field name end = none
get_field name (field n w rest) =
    let others = get_field name rest in if n == name then some w else others

-- `value[name]`: null where there is no such field
abbrev pub member : Bytes → Json → Json
member name (object m) = get_or (get_field name m) null
member name null = null
member name (number n) = null
member name (string text) = null
member name (array values) = null

-- `Value::as_str` and `Value::as_array`
abbrev pub as_str : Json → Option Bytes
as_str (string text) = some text
as_str null = none
as_str (number n) = none
as_str (object m) = none
as_str (array values) = none

abbrev pub as_array : Json → Option Items
as_array (array values) = some values
as_array null = none
as_array (number n) = none
as_array (string text) = none
as_array (object m) = none

-- the element at an index; `none` where indexing panics
abbrev pub nth : ℕ → Items → Option Json
nth n no_items = none
nth zero (item v rest) = some v
nth (suc n) (item v rest) = nth n rest

pub get_field-set_field :
    (name asked : Bytes) (v : Json) (m : Fields)
    → get_field asked (set_field name v m) ≡ (if name == asked then some v else get_field asked m)
unfolding get_field set_field
get_field-set_field name asked v end = ground arith
get_field-set_field name asked v (field n w rest) =
    ground (
      arith,
      get_field-set_field name asked v rest,
      ==_iff n name,
      ==_iff n asked,
      ==_iff name asked,
    )

-- the tail of a character of UTF-8: how many bytes follow, and the range of the first of them
abbrev lead : ℕ → Option (ℕ × ℕ × ℕ)
lead b =
    if ltb b 0x80
    then some (0, 0, 0)
    else if leb 0xc2 b && leb b 0xdf
    then some (1, 0x80, 0xbf)
    else if b == 0xe0
    then some (2, 0xa0, 0xbf)
    else if b == 0xed
    then some (2, 0x80, 0x9f)
    else if leb 0xe1 b && leb b 0xef
    then some (2, 0x80, 0xbf)
    else if b == 0xf0
    then some (3, 0x90, 0xbf)
    else if leb 0xf1 b && leb b 0xf3
    then some (3, 0x80, 0xbf)
    else if b == 0xf4
    then some (3, 0x80, 0x8f)
    else none

abbrev scan : ℕ → ℕ → ℕ → Bytes → Bool
scan zero low high [] = true
scan (suc n) low high [] = false
scan (suc n) low high (b ∷ bytes) = leb low b && leb b high && scan n 0x80 0xbf bytes
scan zero low high (b ∷ bytes) = elim (lead b) [ none ↦ false | some (n, l, u) ↦ scan n l u bytes ]

-- `String::from_utf8` succeeds
unfoldable pub is_utf8 : Bytes → Bool
is_utf8 bytes = scan 0 0 0 bytes
