-- ===== src/Runtime/Control/Bounds.antt =====
-- The length of a control frame and the buffer of send_control_ex.
use fleece.Prelude.{
  ℕ, zero, suc, ◌+◌, ◌*◌, ◌≤◌, ◌<◌, ◌^◌, ◌≡◌, ◌||◌, List, [], ◌∷◌, ltb, length, length-append, All,
  arith, inl, inr, Bool-cases,
}
use fleece.Cbor.{write_uint, uint_size, array_header_size}
use fleece.Cbor.Sizes.{
  cbor_lengths, length-write_uint, uint_size_bounds, uint_size_u32, uint_size_u16,
}
use fleece.State.{StateManager}
use fleece.State.Repair.{shared_at_least}
use fleece.Runtime.{max_fetch_keys}
use fleece.Runtime.Control.{write_uints, control_frame, wanted_keys, value_req}

-- char buf[16 + FLEECE_MAX_FETCH_KEYS * 5 + 16]
abbrev pub control_buffer_size : ℕ
control_buffer_size = 16 + max_fetch_keys * 5 + 16

length-write_uints :
    (hs : List ℕ) → All (λ h. h < 2 ^ 32) hs → length (write_uints hs) ≤ 5 * length hs
unfolding write_uints
length-write_uints [] p = omega arith
length-write_uints (h ∷ hs) p = omega (
  arith,
  length-append {0} (write_uint h) (write_uints hs),
  length-write_uint h,
  uint_size_u32 h p.0,
  length-write_uints hs p.1,
)

length-wanted_keys :
    (m : StateManager) (room : ℕ) (ps : List (ℕ × ℕ)) → length (wanted_keys m room ps) ≤ room
unfolding wanted_keys
length-wanted_keys m zero ps = omega arith
length-wanted_keys m (suc room) [] = omega arith
length-wanted_keys m (suc room) (p ∷ ps) =
    elim (Bool-cases (ltb 0xffff_ffff p.0 || shared_at_least m p.0 p.1)) [
      | inl e ↦ rw e (length-wanted_keys m (suc room) ps)
      | inr e ↦ rw e (omega (arith, length-wanted_keys m room ps))
    ]

wanted_keys-fit :
    (m : StateManager) (room : ℕ) (ps : List (ℕ × ℕ))
    → All (λ h. h < 2 ^ 32) (wanted_keys m room ps)
unfolding wanted_keys
wanted_keys-fit m zero ps = tt
wanted_keys-fit m (suc room) [] = tt
wanted_keys-fit m (suc room) (p ∷ ps) =
    elim (Bool-cases (ltb 0xffff_ffff p.0 || shared_at_least m p.0 p.1)) [
      | inl e ↦ rw e (wanted_keys-fit m (suc room) ps)
      | inr e ↦ rw e (ground arith, wanted_keys-fit m room ps)
    ]

length-control_frame :
    (m : StateManager) (tag : ℕ) (hashes : List ℕ)
    → length (control_frame m tag hashes)
      ≡ 3
        + uint_size 3
        + uint_size tag
        + uint_size m.node_id
        + uint_size (length hashes)
        + length (write_uints hashes)
unfolding control_frame array_header_size
length-control_frame m tag hashes = simp (length-append, cbor_lengths) (omega arith)

-- The value request for any index reply, in any store, fits the buffer that send_control_ex has for
-- it on its stack.
pub control_frame_fits :
    (m : StateManager) (pairs : List (ℕ × ℕ))
    → length (control_frame m value_req (wanted_keys m max_fetch_keys pairs)) ≤ control_buffer_size
control_frame_fits m pairs =
    let wanted = wanted_keys m max_fetch_keys pairs in
    let count = length-wanted_keys m max_fetch_keys pairs in
    omega (
      arith,
      length-control_frame m value_req wanted,
      uint_size_u16 3 (omega arith),
      uint_size_u16 value_req (omega arith),
      uint_size_bounds m.node_id,
      uint_size_u16 (length wanted) (omega (arith, count)),
      count,
      length-write_uints wanted (wanted_keys-fit m max_fetch_keys pairs),
    )
