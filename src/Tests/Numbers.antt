-- ===== src/Tests/Numbers.antt =====
-- Double arithmetic at known values, and numbers in CBOR.
use fleece.Prelude.{ℕ, ◌≡◌, ◌⊎◌, refl, [], ◌∷◌, ◌++◌, true, some, arith}
use fleece.Doubles.{dbl_of_uint, dbl_one, dbl_add, dbl_div, dbl_mul, dbl_to_uint, dbl_sub, dbl_eq}
use fleece.Cbor.{read_num, write_num}
use fleece.Cbor.Numbers.{read_num-write_num}

one_from_uint : dbl_of_uint 1 ≡ dbl_one
unfolding dbl_of_uint
one_from_uint = refl

three_from_uint : dbl_of_uint 3 ≡ 0x4008_0000_0000_0000
unfolding dbl_of_uint
three_from_uint = refl

-- 0.1 + 0.2
tenths_added : dbl_add 0x3fb999999999999a 0x3fc999999999999a ≡ 0x3fd3333333333334
unfolding dbl_add
tenths_added = refl

-- 1/3
third : dbl_div dbl_one 0x4008_0000_0000_0000 ≡ 0x3fd5555555555555
unfolding dbl_div
third = refl

third_times_three : dbl_mul 0x3fd5555555555555 0x4008_0000_0000_0000 ≡ dbl_one
unfolding dbl_mul
third_times_three = refl

uint_and_back : dbl_to_uint (dbl_of_uint 12345678901) ≡ 12345678901
unfolding dbl_to_uint dbl_of_uint
uint_and_back = refl

one_minus_three : dbl_sub dbl_one 0x4008_0000_0000_0000 ≡ 0xc000_0000_0000_0000
unfolding dbl_sub
one_minus_three = refl

read_num-write_num_example :
    (w : ℕ) × (read_num (write_num 0x4008_0000_0000_0000 ++ 7 ∷ []) ≡ some (w, 7 ∷ []))
    × ((w ≡ 0x4008_0000_0000_0000) ⊎ (dbl_eq 0x4008_0000_0000_0000 w ≡ true))
read_num-write_num_example = read_num-write_num 0x4008_0000_0000_0000 (7 ∷ []) (omega arith)
