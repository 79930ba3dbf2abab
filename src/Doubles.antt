-- ===== src/Doubles.antt =====
-- The C `double` of the planner and of the CBOR numbers, as its 64 bits: IEEE 754 binary64 with
-- rounding to the nearest, ties to even. A finite magnitude is counted in units of 2 ^ -1074, of
-- which every finite double is a whole number, so that sums are exact before they are rounded.
pub mod Order
use fleece.Prelude.{
  ℕ, zero, suc, ◌+◌, ◌-◌, ◌*◌, ◌/◌, ◌%◌, ◌^◌, Bool, true, false, not, ◌&&◌, ◌||◌, ltb, leb, ◌==◌,
  if◌then◌else◌,
}

-- Positive zero, one, infinity and a quiet NaN.
abbrev pub dbl_zero : ℕ
dbl_zero = 0

abbrev pub dbl_one : ℕ
dbl_one = 0x3ff0_0000_0000_0000

abbrev pub dbl_infinity : ℕ
dbl_infinity = 0x7ff0_0000_0000_0000

abbrev pub dbl_nan : ℕ
dbl_nan = 0x7ff8_0000_0000_0000

-- The sign bit, and the bits without it.
unfoldable pub dbl_sign : ℕ → ℕ
dbl_sign d = d / 2 ^ 63 % 2

unfoldable pub dbl_abs : ℕ → ℕ
dbl_abs d = d % 2 ^ 63

unfoldable pub dbl_is_nan : ℕ → Bool
unfolding dbl_abs
dbl_is_nan d = ltb dbl_infinity (dbl_abs d)

unfoldable pub dbl_is_infinite : ℕ → Bool
unfolding dbl_abs
dbl_is_infinite d = dbl_abs d == dbl_infinity

-- The place of a number in the order of the reals, the two zeros at the same.
unfoldable pub dbl_rank : ℕ → ℕ
unfolding dbl_abs dbl_sign
dbl_rank d = if dbl_sign d == 0 then 2 ^ 63 + dbl_abs d else 2 ^ 63 - dbl_abs d

-- `a <= b`, `a < b` and `a == b`, all false on a NaN
unfoldable pub dbl_le : ℕ → ℕ → Bool
unfolding dbl_is_nan dbl_rank
dbl_le a b = not (dbl_is_nan a) && not (dbl_is_nan b) && leb (dbl_rank a) (dbl_rank b)

unfoldable pub dbl_lt : ℕ → ℕ → Bool
unfolding dbl_is_nan dbl_rank
dbl_lt a b = not (dbl_is_nan a) && not (dbl_is_nan b) && ltb (dbl_rank a) (dbl_rank b)

unfoldable pub dbl_eq : ℕ → ℕ → Bool
unfolding dbl_is_nan dbl_rank
dbl_eq a b = not (dbl_is_nan a) && not (dbl_is_nan b) && dbl_rank a == dbl_rank b

-- The units in a finite double.
unfoldable pub dbl_units : ℕ → ℕ
unfolding dbl_abs
dbl_units d =
    let e = dbl_abs d / 2 ^ 52 in
    let m = dbl_abs d % 2 ^ 52 in if e == 0 then m else (2 ^ 52 + m) * 2 ^ (e - 1)

-- The number of binary digits, on fuel that the number itself bounds.
unfoldable digit_count : ℕ → ℕ → ℕ
digit_count zero x = 0
digit_count (suc n) zero = 0
digit_count (suc n) (suc x) = suc (digit_count n (suc x / 2))

-- The double nearest to `num / den` units; a mantissa that rounds up to 2 ^ 53 carries into the
-- exponent by itself. 4400 digits are more than a quotient of two finite doubles has.
unfoldable dbl_round : ℕ → ℕ → ℕ
unfolding digit_count
dbl_round num den =
    let k = digit_count 4400 (num / den) - 53 in
    let unit = den * 2 ^ k in
    let m = num / unit in
    let r = num % unit in
    let up = ltb unit (2 * r) || (2 * r == unit && m % 2 == 1) in
    let bits = k * 2 ^ 52 + (if up then m + 1 else m) in
    if ltb bits dbl_infinity then bits else dbl_infinity

unfoldable with_sign : ℕ → ℕ → ℕ
with_sign s bits = s * 2 ^ 63 + bits

unfoldable pub dbl_neg : ℕ → ℕ
unfolding with_sign dbl_sign dbl_abs
dbl_neg d = with_sign (1 - dbl_sign d) (dbl_abs d)

-- a + b
unfoldable add_finite : ℕ → ℕ → ℕ
unfolding with_sign dbl_sign dbl_units dbl_round
add_finite a b =
    let x = dbl_units a in
    let y = dbl_units b in
    if dbl_sign a == dbl_sign b
    then with_sign (dbl_sign a) (dbl_round (x + y) 1)
    else if x == y
    then dbl_zero
    else if ltb y x
    then with_sign (dbl_sign a) (dbl_round (x - y) 1)
    else with_sign (dbl_sign b) (dbl_round (y - x) 1)

unfoldable pub dbl_add : ℕ → ℕ → ℕ
unfolding dbl_is_nan dbl_is_infinite dbl_sign add_finite
dbl_add a b =
    if dbl_is_nan a || dbl_is_nan b
    then dbl_nan
    else if dbl_is_infinite a
    then (if dbl_is_infinite b && not (dbl_sign a == dbl_sign b) then dbl_nan else a)
    else if dbl_is_infinite b
    then b
    else add_finite a b

unfoldable pub dbl_sub : ℕ → ℕ → ℕ
unfolding dbl_add dbl_neg
dbl_sub a b = dbl_add a (dbl_neg b)

-- a * b
unfoldable pub dbl_mul : ℕ → ℕ → ℕ
unfolding dbl_is_nan dbl_is_infinite dbl_sign dbl_abs with_sign dbl_units dbl_round
dbl_mul a b =
    let s = (dbl_sign a + dbl_sign b) % 2 in
    if dbl_is_nan a || dbl_is_nan b
    then dbl_nan
    else if dbl_is_infinite a || dbl_is_infinite b
    then (if dbl_abs a == 0 || dbl_abs b == 0 then dbl_nan else with_sign s dbl_infinity)
    else with_sign s (dbl_round (dbl_units a * dbl_units b) (2 ^ 1074))

-- a / b
unfoldable pub dbl_div : ℕ → ℕ → ℕ
unfolding dbl_is_nan dbl_is_infinite dbl_sign dbl_abs with_sign dbl_units dbl_round
dbl_div a b =
    let s = (dbl_sign a + dbl_sign b) % 2 in
    if dbl_is_nan a || dbl_is_nan b
    then dbl_nan
    else if dbl_is_infinite a
    then (if dbl_is_infinite b then dbl_nan else with_sign s dbl_infinity)
    else if dbl_is_infinite b
    then with_sign s 0
    else if dbl_abs b == 0
    then (if dbl_abs a == 0 then dbl_nan else with_sign s dbl_infinity)
    else with_sign s (dbl_round (dbl_units a * 2 ^ 1074) (dbl_units b))

-- (double)v
unfoldable pub dbl_of_uint : ℕ → ℕ
unfolding dbl_round
dbl_of_uint v = dbl_round (v * 2 ^ 1074) 1

-- (uint64_t)d, where `d` is in range
unfoldable pub dbl_to_uint : ℕ → ℕ
unfolding dbl_units
dbl_to_uint d = dbl_units d / 2 ^ 1074 % 2 ^ 64
