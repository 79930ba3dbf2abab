-- ===== src/Prelude/Bits.antt =====
-- `|` of fields that do not overlap, and `&` with a mask of low bits, as arithmetic.
use Prim.Native.Nat.{ℕ, zero, suc, ◌+◌, ◌*◌, ◌/◌, ◌%◌, ◌^◌, ◌≤◌, ◌<◌, max}
use Prim.Native.Nat.{bit_and, bit_or, digits, bit_or-bitwise}
use mathlib.Core.Path.{◌≡◌, refl, ap}
use mathlib.Core.Bool.{Bool, true, false}
use native.Mathlib.Nat.{pow-suc}
use native.Mathlib.Omega.{arith}
use fleece.Prelude.Tests.{◌==◌, if◌then◌else◌}

-- Over a small range every value is checked by evaluation.
pub agree_to : ℕ → (ℕ → ℕ) → (ℕ → ℕ) → Bool
agree_to zero f g = true
agree_to (suc n) f g = if f n == g n then agree_to n f g else false

agree_to→eq : (n : ℕ) (f g : ℕ → ℕ) (x : ℕ) → agree_to n f g ≡ true → x < n → f x ≡ g x
unfolding agree_to
agree_to→eq zero f g x h lt = absurd (omega arith)
agree_to→eq (suc n) f g x h lt = ground (arith, agree_to→eq n f g x)

-- `b & 0x1F` keeps the five low bits of a byte.
pub info_bits : (b : ℕ) → b < 256 → bit_and b 0x1f ≡ b % 32
unfolding agree_to
info_bits b h = agree_to→eq 256 (λ x. bit_and x 0x1f) (λ x. x % 32) b refl h

or_digits : ℕ → ℕ → ℕ → ℕ
or_digits n a b = digits (λ y. y) max n a b

-- The fuel of the digit recursion does not matter once it covers the first number.
or_digits_any : (n m a b : ℕ) → a ≤ n → a ≤ m → or_digits n a b ≡ or_digits m a b
unfolding or_digits
or_digits_any zero zero a b p q = refl
or_digits_any zero (suc m) zero b p q = refl
or_digits_any zero (suc m) (suc a) b p q = absurd (omega arith)
or_digits_any (suc n) zero zero b p q = refl
or_digits_any (suc n) zero (suc a) b p q = absurd (omega arith)
or_digits_any (suc n) (suc m) zero b p q = refl
or_digits_any (suc n) (suc m) (suc a) b p q =
    omega (arith, or_digits_any n m (suc a / 2) (b / 2) (omega arith) (omega arith))

-- One binary digit of `a | b`.
or_digit : (a b : ℕ) → bit_or a b ≡ bit_or (a / 2) (b / 2) * 2 + max (a % 2) (b % 2)
unfolding or_digits
or_digit zero b = omega (arith, bit_or-bitwise 0 b, bit_or-bitwise 0 (b / 2))
or_digit (suc a) b = omega (
  arith,
  bit_or-bitwise (suc a) b,
  bit_or-bitwise (suc a / 2) (b / 2),
  or_digits_any a (suc a / 2) (suc a / 2) (b / 2) (omega arith) (omega arith),
)

or_none : (n a : ℕ) → a ≤ n → bit_or a 0 ≡ a
or_none n zero h = refl
or_none zero (suc a) h = absurd (omega arith)
or_none (suc n) (suc a) h = omega (arith, or_digit (suc a) 0, or_none n (suc a / 2) (omega arith))

double_shift : (q k : ℕ) → q * 2 ^ suc k ≡ 2 * (q * 2 ^ k)
double_shift q k = omega (arith, ap (λ (t : ℕ). q * t) (pow-suc 2 k))

-- `(q << k) | r` is a sum where `r` has at most `k` bits.
or_disjoint : (k q r : ℕ) → r < 2 ^ k → bit_or (q * 2 ^ k) r ≡ q * 2 ^ k + r
or_disjoint zero q r h = ground (arith, or_none q q)
or_disjoint (suc k) q r h =
    ground
      (arith, or_digit (q * 2 ^ suc k) r, double_shift q k, or_disjoint k q (r / 2) (omega arith))

-- `(v << 8) | b` for a byte `b`.
pub or_byte : (v b : ℕ) → b < 256 → bit_or (v * 256) b ≡ v * 256 + b
or_byte v b h = or_disjoint 8 v b h

-- `(m << 5) | v` for a CBOR initial byte.
pub or_info : (m v : ℕ) → v < 32 → bit_or (m * 32) v ≡ m * 32 + v
or_info m v h = or_disjoint 5 m v h
