-- ===== src/Cbor.antt =====
-- src/state/fleece_cbor.c: the CBOR subset of the gossip and control frames. A writer is the list of
-- the bytes that it stores at `buf[*pos]` onwards; a reader takes the bytes from `*pos` to `size` and
-- returns those that it has not consumed, `none` where the source returns false.
pub mod Sizes
pub mod RoundTrip
pub mod Numbers
use fleece.Prelude.{
  ℕ, zero, suc, ◌+◌, ◌-◌, ◌*◌, ◌/◌, ◌%◌, ◌^◌, bit_and, bit_or, Bool, true, false, Option, none,
  some, List, [], ◌∷◌, ◌++◌, ltb, leb, ◌==◌, if◌then◌else◌, length, ◌&&◌,
}
use fleece.Doubles.{dbl_zero, dbl_le, dbl_lt, dbl_eq, dbl_of_uint, dbl_to_uint}

-- fleece_cbor_uint_size
unfoldable pub uint_size : ℕ → ℕ
uint_size v =
    if ltb v 24
    then 1
    else if leb v 0xff
    then 2
    else if leb v 0xffff
    then 3
    else if leb v 0xffff_ffff
    then 5
    else 9

-- fleece_cbor_bytes_size, fleece_cbor_text_size, fleece_cbor_array_header_size
unfoldable pub bytes_size : ℕ → ℕ
bytes_size len = uint_size len + len

unfoldable pub text_size : ℕ → ℕ
text_size len = uint_size len + len

unfoldable pub array_header_size : ℕ → ℕ
array_header_size count = uint_size count

-- for (int i = n - 1; i >= 0; i--) buf[(*pos)++] = (uint8_t)(v >> (8 * i));
unfoldable pub be_bytes : ℕ → ℕ → List ℕ
be_bytes zero v = []
be_bytes (suc i) v = (v / 256 ^ i % 256) ∷ be_bytes i v

-- fleece_cbor_write_head
unfoldable pub write_head : ℕ → ℕ → List ℕ
unfolding be_bytes
write_head major v =
    let mt = major * 32 % 256 in
    if ltb v 24
    then (bit_or mt v % 256) ∷ []
    else if leb v 0xff
    then (bit_or mt 24 % 256) ∷ (v % 256) ∷ []
    else if leb v 0xffff
    then (bit_or mt 25 % 256) ∷ (v / 256 % 256) ∷ (v % 256) ∷ []
    else if leb v 0xffff_ffff
    then (bit_or mt 26 % 256) ∷ be_bytes 4 v
    else (bit_or mt 27 % 256) ∷ be_bytes 8 v

-- fleece_cbor_write_uint, fleece_cbor_write_array_header
unfoldable pub write_uint : ℕ → List ℕ
write_uint v = write_head 0 v

unfoldable pub write_array_header : ℕ → List ℕ
write_array_header count = write_head 4 count

-- fleece_cbor_write_bytes, fleece_cbor_write_text
unfoldable pub write_bytes : List ℕ → List ℕ
write_bytes bytes = write_head 2 (length bytes) ++ bytes

unfoldable pub write_text : List ℕ → List ℕ
write_text text = write_head 3 (length text) ++ text

-- fleece_cbor_write_bool
unfoldable pub write_bool : Bool → List ℕ
write_bool true = 0xf5 ∷ []
write_bool false = 0xf4 ∷ []

-- v = (v << 8) | buf[(*pos)++], `n` times
unfoldable read_be : ℕ → ℕ → List ℕ → Option (ℕ × List ℕ)
read_be zero v bs = some (v, bs)
read_be (suc n) v [] = none
read_be (suc n) v (b ∷ bs) = read_be n (bit_or (v * 256 % 2 ^ 64) b) bs

-- The argument that follows an initial byte in `n` bytes.
unfoldable read_argument : ℕ → ℕ → List ℕ → Option (ℕ × ℕ × List ℕ)
read_argument n major rest =
    if ltb (length rest) n
    then none
    else elim (read_be n 0 rest) [ none ↦ none | some (v, rest') ↦ some (major, v, rest') ]

-- fleece_cbor_read_head: the major type, the argument, and what follows
unfoldable pub read_head : List ℕ → Option (ℕ × ℕ × List ℕ)
unfolding read_argument read_be
read_head [] = none
read_head (initial ∷ rest) =
    let major = initial / 32 in
    let info = bit_and initial 0x1f in
    if ltb info 24
    then some (major, info, rest)
    else if info == 24
    then read_argument 1 major rest
    else if info == 25
    then read_argument 2 major rest
    else if info == 26
    then read_argument 4 major rest
    else if info == 27
    then read_argument 8 major rest
    else none

-- fleece_cbor_bounds_ok
unfoldable pub bounds_ok : ℕ → ℕ → ℕ → Bool
bounds_ok pos len size = if ltb size len then false else leb pos (size - len)

-- v >= 0.0 && v < 18446744073709551616.0 && v == (double)(uint64_t)v
unfoldable pub is_uint : ℕ → Bool
is_uint v =
    dbl_le dbl_zero v && dbl_lt v 0x43f0_0000_0000_0000 && dbl_eq v (dbl_of_uint (dbl_to_uint v))

-- fleece_cbor_num_size
unfoldable pub num_size : ℕ → ℕ
unfolding is_uint
num_size v = if is_uint v then uint_size (dbl_to_uint v) else 9

-- fleece_cbor_write_num
unfoldable pub write_num : ℕ → List ℕ
unfolding is_uint
write_num v = if is_uint v then write_uint (dbl_to_uint v) else 0xfb ∷ be_bytes 8 v

-- fleece_cbor_read_num, after its head
unfoldable pub num_of_head : ℕ → Option (ℕ × ℕ × List ℕ) → Option (ℕ × List ℕ)
num_of_head initial none = none
num_of_head initial (some (major, value, rest)) =
    if major == 0
    then some (dbl_of_uint value, rest)
    else if initial == 0xfb
    then some (value, rest)
    else none

-- fleece_cbor_read_num
unfoldable pub read_num : List ℕ → Option (ℕ × List ℕ)
unfolding num_of_head
read_num [] = none
read_num (initial ∷ rest) = num_of_head initial (read_head (initial ∷ rest))
