-- ===== src/Cbor/RoundTrip.antt =====
-- The readers of src/state/fleece_cbor.c on what its writers store.
use fleece.Prelude.{
  ℕ, zero, suc, ◌+◌, ◌*◌, ◌/◌, ◌%◌, ◌^◌, ◌≤◌, ◌<◌, ◌≡◌, ◌↔◌, refl, sym, ◌∙◌, bit_or, bit_and, List,
  [], ◌∷◌, ◌++◌, Bool, true, false, some, arith, ap, length-append, ltb, leb, ltb→lt, Bool-cases,
  inl, inr, if◌then◌else◌,
}
use fleece.Prelude.Bits.{info_bits, or_byte, or_info}
use fleece.Cbor.{
  be_bytes, write_head, write_uint, write_array_header, write_bool, read_be, read_argument,
  read_head, bounds_ok,
}
use fleece.Cbor.Sizes.{length-be_bytes}
use native.Mathlib.Nat.{pow-suc, div-div-eq-div-mul, div-one, div-le_self, div-eq_of_lt}

-- One round of `v = (v << 8) | b` while the value stays below 2 ^ 64.
read_be_step :
    (n v b : ℕ) (rest : List ℕ)
    → b < 256
    → v * 256 < 2 ^ 64
    → read_be (suc n) v (b ∷ rest) ≡ read_be n (v * 256 + b) rest
unfolding read_be
read_be_step n v b rest hb hv = ground (arith, or_byte v b hb)

div_pow_suc : (w i : ℕ) → w / 256 ^ suc i ≡ w / 256 ^ i / 256
div_pow_suc w i = ap (λ (t : ℕ). w / t) (pow-suc 256 i) ∙ sym (div-div-eq-div-mul w (256 ^ i) 256)

digits_join : (w i : ℕ) → w / 256 ^ suc i * 256 + w / 256 ^ i % 256 ≡ w / 256 ^ i
digits_join w i = omega (arith, div_pow_suc w i)

-- The loop reads the digits of `w` when it starts from those above them.
read_be-be_bytes :
    (n w : ℕ) (rest : List ℕ)
    → w < 2 ^ 64
    → read_be n (w / 256 ^ n) (be_bytes n w ++ rest) ≡ some (w, rest)
unfolding be_bytes
read_be-be_bytes zero w rest h = unfold read_be in rw div-one
read_be-be_bytes (suc n) w rest h =
    let e = div_pow_suc w n in
    let le = div-le_self w (256 ^ n) in
    read_be_step n (w / 256 ^ suc n) (w / 256 ^ n % 256) (be_bytes n w ++ rest) (omega arith)
      (omega (arith, e, le))
    ∙ rw (digits_join w n) (read_be-be_bytes n w rest h)

-- An argument of `n` bytes is read back.
read_argument-be_bytes :
    (n major w : ℕ) (rest : List ℕ)
    → w < 2 ^ 64
    → w < 256 ^ n
    → read_argument n major (be_bytes n w ++ rest) ≡ some (major, w, rest)
unfolding read_argument
read_argument-be_bytes n major w rest h fits = ground (
  arith,
  div-eq_of_lt fits,
  read_be-be_bytes n w rest h,
  length-append (be_bytes n w) rest,
  length-be_bytes n w,
)

-- The initial byte splits into the major type and the additional information again.
initial_byte :
    (major info : ℕ)
    → major < 8
    → info < 32
    → (bit_or (major * 32 % 256) info % 256 / 32 ≡ major)
      × (bit_and (bit_or (major * 32 % 256) info % 256) 0x1f ≡ info)
initial_byte major info hm hi =
    let e : bit_or (major * 32 % 256) info % 256 ≡ major * 32 + info =
      ground (arith, or_info major info hi) in
    rw e (omega arith, info_bits (major * 32 + info) (omega arith) ∙ omega arith)

be_bytes_one : (v : ℕ) → (v % 256) ∷ [] ≡ be_bytes 1 v
unfolding be_bytes
be_bytes_one v = rw div-one

be_bytes_two : (v : ℕ) → (v / 256 % 256) ∷ (v % 256) ∷ [] ≡ be_bytes 2 v
unfolding be_bytes
be_bytes_two v = rw div-one

module _ (major : ℕ) (hm : major < 8) (bs : List ℕ) where
  read_head_short :
      (info : ℕ)
      → info < 24
      → read_head ((bit_or (major * 32 % 256) info % 256) ∷ bs) ≡ some (major, info, bs)
  unfolding read_head
  read_head_short info h = ground (arith, initial_byte major info hm (omega arith))

  read_head_one : read_head ((bit_or (major * 32 % 256) 24 % 256) ∷ bs) ≡ read_argument 1 major bs
  unfolding read_head
  read_head_one = ground (arith, initial_byte major 24 hm (omega arith))

  read_head_two : read_head ((bit_or (major * 32 % 256) 25 % 256) ∷ bs) ≡ read_argument 2 major bs
  unfolding read_head
  read_head_two = ground (arith, initial_byte major 25 hm (omega arith))

  read_head_four : read_head ((bit_or (major * 32 % 256) 26 % 256) ∷ bs) ≡ read_argument 4 major bs
  unfolding read_head
  read_head_four = ground (arith, initial_byte major 26 hm (omega arith))

  read_head_eight : read_head ((bit_or (major * 32 % 256) 27 % 256) ∷ bs) ≡ read_argument 8 major bs
  unfolding read_head
  read_head_eight = ground (arith, initial_byte major 27 hm (omega arith))

-- The head of a major type below 8 with a 64-bit argument is read back as both, whatever its
-- width, and what follows it is left.
pub read_head-write_head :
    (major v : ℕ) (rest : List ℕ)
    → major < 8
    → v < 2 ^ 64
    → read_head (write_head major v ++ rest) ≡ some (major, v, rest)
unfolding write_head
read_head-write_head major v rest hm hv = elim (Bool-cases (ltb v 24)) [
  | inl a ↦ rw a (read_head_short major hm rest v (ltb→lt _ _ a))
  | inr a ↦ rw a (elim (Bool-cases (leb v 0xff)) [
    | inl b ↦ rw b (wide 1 _ (read_head_one major hm _) (be_bytes_one v) (ground arith))
    | inr b ↦ rw b (elim (Bool-cases (leb v 0xffff)) [
      | inl c ↦ rw c (wide 2 _ (read_head_two major hm _) (be_bytes_two v) (ground arith))
      | inr c ↦ rw c (elim (Bool-cases (leb v 0xffff_ffff)) [
        | inl d ↦ rw d (wide 4 _ (read_head_four major hm _) refl (ground arith))
        | inr d ↦ rw d (wide 8 _ (read_head_eight major hm _) refl (omega arith))
      ])
    ])
  ])
]
  where
    wide :
        (n initial : ℕ) {bytes : List ℕ}
        → read_head (initial ∷ bytes ++ rest) ≡ read_argument n major (bytes ++ rest)
        → bytes ≡ be_bytes n v
        → v < 256 ^ n
        → read_head (initial ∷ bytes ++ rest) ≡ some (major, v, rest)
    wide n initial e d h =
        e
        ∙ ap (λ (t : List ℕ). read_argument n major (t ++ rest)) d
        ∙ read_argument-be_bytes n major v rest hv h

-- The eight bytes after 0xfb are read back as the argument of major type 7.
pub read_head-be_bytes :
    (v : ℕ) (rest : List ℕ)
    → v < 2 ^ 64
    → read_head (0xfb ∷ be_bytes 8 v ++ rest) ≡ some (7, v, rest)
read_head-be_bytes v rest h =
    read_head_eight 7 (omega arith) (be_bytes 8 v ++ rest)
    ∙ read_argument-be_bytes 8 7 v rest h (omega arith)

pub read_head-write_uint :
    (v : ℕ) (rest : List ℕ) → v < 2 ^ 64 → read_head (write_uint v ++ rest) ≡ some (0, v, rest)
unfolding write_uint
read_head-write_uint v rest h = read_head-write_head 0 v rest (omega arith) h

pub read_head-write_array_header :
    (n : ℕ) (rest : List ℕ)
    → n < 2 ^ 64
    → read_head (write_array_header n ++ rest) ≡ some (4, n, rest)
unfolding write_array_header
read_head-write_array_header n rest h = read_head-write_head 4 n rest (omega arith) h

-- A Boolean comes back as major type 7 with the argument 21 or 20.
pub read_head-write_bool :
    (b : Bool) (rest : List ℕ)
    → read_head (write_bool b ++ rest) ≡ some (7, (if b then 21 else 20), rest)
unfolding write_bool read_head
read_head-write_bool true rest = refl
read_head-write_bool false rest = refl

-- `bounds_ok` says exactly that `len` bytes from `pos` on lie within `size`.
pub bounds_ok_iff : (pos len size : ℕ) → (bounds_ok pos len size ≡ true) ↔ (pos + len ≤ size)
unfolding bounds_ok
bounds_ok_iff pos len size = (λ h. ground arith, λ h. ground arith)
