-- ===== src/Cbor/Numbers.antt =====
-- Doubles as CBOR numbers: their size, and what a reader makes of them.
use fleece.Prelude.{
  ℕ, ◌<◌, ◌^◌, ◌≡◌, refl, ap, List, [], ◌∷◌, ◌++◌, true, some, arith, length, Bool-cases, inl, inr,
  if◌then◌else◌, ◌⊎◌,
}
use fleece.Doubles.{dbl_eq, dbl_lt, dbl_rank, dbl_is_nan, dbl_to_uint, dbl_of_uint}
use fleece.Cbor.{write_num, num_size, is_uint, read_num, num_of_head, read_head, be_bytes}
use fleece.Cbor.Sizes.{length-write_uint, length-be_bytes}
use fleece.Cbor.RoundTrip.{read_head-write_uint, read_head-be_bytes}

-- The bytes of a number are as many as were measured.
pub length-write_num : (v : ℕ) → length (write_num v) ≡ num_size v
unfolding write_num num_size
length-write_num v = ground (arith, length-write_uint (dbl_to_uint v), length-be_bytes 8 v)

-- What a number is read back as: the whole number that it equals, or itself bit by bit.
unfoldable pub carried : ℕ → ℕ
carried v = if is_uint v then dbl_of_uint (dbl_to_uint v) else v

read_num_uint :
    (bs : List ℕ) (u : ℕ) (rest : List ℕ)
    → read_head bs ≡ some (0, u, rest)
    → read_num bs ≡ some (dbl_of_uint u, rest)
unfolding read_num num_of_head read_head
read_num_uint [] u rest h = cc
read_num_uint (b ∷ bs) u rest h = ap (num_of_head b) h

read_num_float :
    (v : ℕ) (rest : List ℕ) → v < 2 ^ 64 → read_num (0xfb ∷ be_bytes 8 v ++ rest) ≡ some (v, rest)
unfolding read_num num_of_head
read_num_float v rest h = ap (num_of_head 0xfb) (read_head-be_bytes v rest h)

dbl_to_uint_bound : (v : ℕ) → dbl_to_uint v < 2 ^ 64
unfolding dbl_to_uint
dbl_to_uint_bound v = omega arith

pub read_num-carried :
    (v : ℕ) (rest : List ℕ) → v < 2 ^ 64 → read_num (write_num v ++ rest) ≡ some (carried v, rest)
unfolding write_num carried
read_num-carried v rest h = elim (Bool-cases (is_uint v)) [
  | inl e ↦ rw e (
      read_num_uint _ (dbl_to_uint v) rest
        (read_head-write_uint (dbl_to_uint v) rest (dbl_to_uint_bound v)))
  | inr e ↦ rw e (read_num_float v rest h)
]

carried_eq : (v : ℕ) → (carried v ≡ v) ⊎ (dbl_eq v (carried v) ≡ true)
unfolding carried is_uint
carried_eq v = elim (Bool-cases (is_uint v)) [
  | inl e ↦ inr (rw e (ground (arith, e)))
  | inr e ↦ inl (rw e refl)
]

-- A number, written and read back, is the bits that were written or a whole number equal to them in
-- the comparison of doubles, and what follows it is left.
pub read_num-write_num :
    (v : ℕ) (rest : List ℕ)
    → v < 2 ^ 64
    → (w : ℕ) × (read_num (write_num v ++ rest) ≡ some (w, rest)) × ((w ≡ v) ⊎ (dbl_eq v w ≡ true))
read_num-write_num v rest h = (carried v, read_num-carried v rest h, carried_eq v)

carried_rank : (v : ℕ) → dbl_rank (carried v) ≡ dbl_rank v
unfolding carried is_uint dbl_eq
carried_rank v = elim (Bool-cases (is_uint v)) [
  | inl e ↦ rw (e, carried) (ground (arith, e))
  | inr e ↦ rw (e, carried) refl
]

carried_nan : (v : ℕ) → dbl_is_nan (carried v) ≡ dbl_is_nan v
unfolding carried is_uint dbl_eq
carried_nan v = elim (Bool-cases (is_uint v)) [
  | inl e ↦ rw (e, carried) (ground (arith, e))
  | inr e ↦ rw (e, carried) refl
]

-- A carried number compares as the number itself.
pub dbl_lt-carried : (v w : ℕ) → dbl_lt (carried v) (carried w) ≡ dbl_lt v w
unfolding dbl_lt
dbl_lt-carried v w = rw (carried_rank v, carried_rank w, carried_nan v, carried_nan w) refl
