-- ===== src/Decimal.antt =====
-- Python's `decimal.Decimal` in the default context: finite values, 28 significant digits,
-- ROUND_HALF_EVEN for `+ - * /`, and `quantize` with ROUND_HALF_UP. A value is
-- coefficient / 10 ^ places; trailing zeros carry no meaning, and no bound on the exponent, no
-- infinity and no NaN is modelled.
pub mod Order
use forex_platform.Prelude.{
  ℕ, zero, suc, ◌+◌, ◌-◌, ◌*◌, ◌/◌, ◌%◌, ◌^◌, max, ltb, leb, ◌==◌, Bool, true, false, if◌then◌else◌,
  ℤ, pos, negsuc, pos_part, neg_part, sub_ℕ, neg_ℕ, abs_ℕ, ◌*ℤ◌, Result, ok, err, decimal_error,
}

pub record Decimal : Type 0 where
  pub coefficient : ℤ
  pub places : ℕ

-- `Decimal("-0.02")` is `decimal (negsuc 1) 2`.
abbrev pub decimal : ℤ → ℕ → Decimal
decimal c p = record { coefficient = c; places = p }

abbrev pub of_int : ℤ → Decimal
of_int n = decimal n 0

abbrev context_limit : ℕ
context_limit = 10 ^ 28

count_digits : ℕ → ℕ → ℕ
count_digits zero n = 1
count_digits (suc f) n = elim (ltb n 10) [ true ↦ 1 | false ↦ suc (count_digits f (n / 10)) ]

round_half_even : ℕ → ℕ → ℕ
round_half_even n p =
    let q = n / p in
    let twice = 2 * (n % p) in
    if ltb twice p then q else if ltb p twice then q + 1 else if (q % 2) == 0 then q else q + 1

round_half_up : ℕ → ℕ → ℕ
round_half_up n p = if leb p (2 * (n % p)) then n / p + 1 else n / p

-- `m` with the sign of `c`
abbrev with_sign : ℤ → ℕ → ℤ
with_sign (pos _) m = pos m
with_sign (negsuc _) m = neg_ℕ m

drop_digits : ℕ → Decimal → Decimal
unfolding round_half_even
drop_digits k d =
    let c = round_half_even (abs_ℕ d.coefficient) (10 ^ k) in
    if leb k d.places
    then decimal (with_sign d.coefficient c) (d.places - k)
    else decimal (with_sign d.coefficient (c * 10 ^ (k - d.places))) 0

-- The context's rounding of an exact result.
round_to_context : Decimal → Decimal
unfolding count_digits drop_digits
round_to_context d =
    let n = abs_ℕ d.coefficient in
    elim (ltb n context_limit) [ true ↦ d | false ↦ drop_digits (count_digits n n - 28) d ]

add_exact : Decimal → Decimal → Decimal
add_exact a b =
    let m = max a.places b.places in
    let x = 10 ^ (m - a.places) in
    let y = 10 ^ (m - b.places) in
    decimal
      (sub_ℕ (pos_part a.coefficient * x + pos_part b.coefficient * y)
        (neg_part a.coefficient * x + neg_part b.coefficient * y))
      m

negate : Decimal → Decimal
negate d = decimal (sub_ℕ (neg_part d.coefficient) (pos_part d.coefficient)) d.places

unfoldable pub add : Decimal → Decimal → Decimal
unfolding round_to_context add_exact
add a b = round_to_context (add_exact a b)

unfoldable pub sub : Decimal → Decimal → Decimal
unfolding round_to_context add_exact negate
sub a b = round_to_context (add_exact a (negate b))

unfoldable pub mul : Decimal → Decimal → Decimal
unfolding round_to_context ◌*ℤ◌
mul a b = round_to_context (decimal (a.coefficient *ℤ b.coefficient) (a.places + b.places))

-- `-d`
unfoldable pub neg : Decimal → Decimal
unfolding round_to_context negate
neg d = round_to_context (negate d)

unfoldable pub abs : Decimal → Decimal
unfolding round_to_context
abs d = round_to_context (decimal (pos (abs_ℕ d.coefficient)) d.places)

-- The quotient of the coefficients with a digit to spare, which a remainder makes sticky.
divide_sticky : ℕ → ℕ → Decimal
unfolding count_digits
divide_sticky n d =
    let k = count_digits d d + 29 - count_digits n n in
    let q = n * 10 ^ k / d in
    let exact = (n * 10 ^ k % d) == 0 in
    decimal (pos (if exact then q else if (q % 5) == 0 then q + 1 else q)) k

abbrev quotient_sign : ℤ → ℤ → Decimal → Decimal
quotient_sign (pos _) (pos _) d = d
quotient_sign (negsuc _) (negsuc _) d = d
quotient_sign _ _ d = decimal (neg_ℕ (pos_part d.coefficient)) d.places

unfoldable pub div : Decimal → Decimal → Result Decimal
unfolding round_to_context divide_sticky
div a b =
    let q =
      divide_sticky (abs_ℕ a.coefficient * 10 ^ b.places) (abs_ℕ b.coefficient * 10 ^ a.places) in
    if abs_ℕ b.coefficient == 0
    then err decimal_error
    else ok (round_to_context (quotient_sign a.coefficient b.coefficient q))

-- `d.quantize(Decimal(10) ** -n, rounding=ROUND_HALF_UP)`
unfoldable pub quantize : Decimal → ℕ → Result Decimal
unfolding round_half_up
quantize d n =
    let c = abs_ℕ d.coefficient in
    let m =
      if leb d.places n then c * 10 ^ (n - d.places) else round_half_up c (10 ^ (d.places - n)) in
    if ltb m context_limit then ok (decimal (with_sign d.coefficient m) n) else err decimal_error

-- `int(d)`, towards zero
unfoldable pub to_int : Decimal → ℤ
to_int d = with_sign d.coefficient (abs_ℕ d.coefficient / 10 ^ d.places)

-- Comparisons are exact.
unfoldable pub lt : Decimal → Decimal → Bool
lt a b =
    ltb (pos_part a.coefficient * 10 ^ b.places + neg_part b.coefficient * 10 ^ a.places)
      (pos_part b.coefficient * 10 ^ a.places + neg_part a.coefficient * 10 ^ b.places)

abbrev pub le : Decimal → Decimal → Bool
le a b = if lt b a then false else true

abbrev pub is_zero : Decimal → Bool
is_zero d = abs_ℕ d.coefficient == 0

-- `min(a, b)`
abbrev pub min : Decimal → Decimal → Decimal
min a b = if lt b a then b else a
