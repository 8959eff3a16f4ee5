-- ===== src/TradeTypes/Price.antt =====
-- Price of src/libcix/order.rs, an f64: its 64 bits, with the comparisons of IEEE 754 that the code
-- uses. The code compares prices and never computes with them.
use cixrs.Base.{
  ℕ, ◌+◌, ◌-◌, ◌/◌, ◌%◌, ◌^◌, Bool, true, false, ◌||◌, Option, none, some, Ordering, compare, ltb,
  ◌==◌, if◌then◌else◌,
}

pub record Price : Type 0 where
  pub bits : ℕ

-- the exponent and the fraction
abbrev pub magnitude : Price → ℕ
magnitude p = p.bits % 2 ^ 63

abbrev pub is_nan : Price → Bool
is_nan p = ltb 0x7ff0000000000000 (magnitude p)

-- The values that are not NaN in their order; the two zeros are one value.
abbrev pub key : Price → ℕ
key p = if p.bits / 2 ^ 63 == 0 then 2 ^ 63 + magnitude p else 2 ^ 63 - magnitude p

unfoldable pub partial_cmp : Price → Price → Option Ordering
partial_cmp x y = if is_nan x || is_nan y then none else some (compare (key x) (key y))

-- x >= y
unfoldable pub ge : Price → Price → Bool
unfolding partial_cmp
ge x y = elim (partial_cmp x y) [
  | none ↦ false
  | some o ↦ elim o [ Ordering.lt ↦ false | _ ↦ true ]
]

-- x <= y
unfoldable pub le : Price → Price → Bool
unfolding partial_cmp
le x y = elim (partial_cmp x y) [
  | none ↦ false
  | some o ↦ elim o [ Ordering.gt ↦ false | _ ↦ true ]
]

-- x > y
unfoldable pub gt : Price → Price → Bool
unfolding partial_cmp
gt x y = elim (partial_cmp x y) [
  | none ↦ false
  | some o ↦ elim o [ Ordering.gt ↦ true | _ ↦ false ]
]

-- x == y
unfoldable pub price_eq : Price → Price → Bool
unfolding partial_cmp
price_eq x y = elim (partial_cmp x y) [
  | none ↦ false
  | some o ↦ elim o [ Ordering.eq ↦ true | _ ↦ false ]
]

abbrev pub price_zero : Price
price_zero = record { bits = 0 }

abbrev pub minus_one : Price
minus_one = record { bits = 0xbff0000000000000 }
