-- ===== src/Cbor/Sizes.antt =====
-- The sizing helpers of fleece_cbor.c against the writers.
use fleece.Prelude.{
  ℕ, zero, suc, ◌≤◌, ◌<◌, ◌^◌, ◌≡◌, refl, List, Bool, true, false, arith, ap, length, length-append,
}
use fleece.Cbor.{
  uint_size, bytes_size, text_size, array_header_size, be_bytes, write_head, write_uint,
  write_array_header, write_bytes, write_text, write_bool,
}

pub length-be_bytes : (n v : ℕ) → length (be_bytes n v) ≡ n
unfolding be_bytes
length-be_bytes zero v = refl
length-be_bytes (suc n) v = ap suc (length-be_bytes n v)

pub length-write_head : (major v : ℕ) → length (write_head major v) ≡ uint_size v
unfolding write_head uint_size
length-write_head major v = ground (arith, length-be_bytes 4 v, length-be_bytes 8 v)

pub length-write_uint : (v : ℕ) → length (write_uint v) ≡ uint_size v
unfolding write_uint
length-write_uint v = length-write_head 0 v

pub length-write_array_header : (n : ℕ) → length (write_array_header n) ≡ array_header_size n
unfolding write_array_header array_header_size
length-write_array_header n = length-write_head 4 n

pub length-write_bytes : (bs : List ℕ) → length (write_bytes bs) ≡ bytes_size (length bs)
unfolding write_bytes bytes_size
length-write_bytes bs =
    omega (arith, length-append (write_head 2 (length bs)) bs, length-write_head 2 (length bs))

pub length-write_text : (bs : List ℕ) → length (write_text bs) ≡ text_size (length bs)
unfolding write_text text_size
length-write_text bs =
    omega (arith, length-append (write_head 3 (length bs)) bs, length-write_head 3 (length bs))

pub length-write_bool : (b : Bool) → length (write_bool b) ≡ 1
unfolding write_bool
length-write_bool true = refl
length-write_bool false = refl

pub uint_size_bounds : (v : ℕ) → (1 ≤ uint_size v) × (uint_size v ≤ 9)
unfolding uint_size
uint_size_bounds v = ground arith

pub uint_size_mono : (v w : ℕ) → v ≤ w → uint_size v ≤ uint_size w
unfolding uint_size
uint_size_mono v w h = ground arith

pub uint_size_u32 : (v : ℕ) → v < 2 ^ 32 → uint_size v ≤ 5
unfolding uint_size
uint_size_u32 v h = ground arith

pub uint_size_u16 : (v : ℕ) → v < 2 ^ 16 → uint_size v ≤ 3
unfolding uint_size
uint_size_u16 v h = ground arith

pub ruleset cbor_lengths = (
  length-write_uint, length-write_array_header, length-write_bytes, length-write_text,
  length-write_bool,
)
