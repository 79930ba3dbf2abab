-- ===== src/State/Export/Sizes.antt =====
-- The exporters of a whole stream and of a delta against the buffer that they allocate; the bounded
-- exporter is not considered here.
use fleece.Prelude.{
  ℕ, ◌+◌, ◌≡◌, refl, Bool, true, false, List, [], ◌∷◌, length, length-append, arith,
}
use fleece.Cbor.{uint_size, array_header_size}
use fleece.Cbor.Sizes.{cbor_lengths}
use fleece.State.{StateManager, FieldEntry}
use fleece.State.Export.{
  record_size, write_record, records_size, write_records, write_header, frame_of, buffer_size,
}

pub length-write_record :
    (shared : Bool) (f : FieldEntry) → length (write_record shared f) ≡ record_size shared f
unfolding write_record record_size
length-write_record true f = simp (length-append, cbor_lengths) (omega arith)
length-write_record false f = simp (length-append, cbor_lengths) (omega arith)

pub length-write_records :
    (shared : Bool) (fs : List FieldEntry)
    → length (write_records shared fs) ≡ records_size shared fs
unfolding write_records records_size
length-write_records shared [] = refl
length-write_records shared (f ∷ fs) = omega (
  arith,
  length-append (write_record shared f) (write_records shared fs),
  length-write_record shared f,
  length-write_records shared fs,
)

unfoldable pub header_size : ℕ → ℕ → ℕ → ℕ → ℕ → ℕ
header_size sender owner hw digest count =
    3
    + (array_header_size 5
        + uint_size sender
        + uint_size owner
        + uint_size hw
        + uint_size digest
        + array_header_size count)

pub length-write_header :
    (sender owner hw digest count : ℕ)
    → length (write_header sender owner hw digest count) ≡ header_size sender owner hw digest count
unfolding write_header header_size
length-write_header sender owner hw digest count = simp (length-append, cbor_lengths) (omega arith)

-- The frame of an export fills the buffer that was allocated for it exactly.
pub length-frame_of :
    (m : StateManager) (owner since : ℕ)
    → length (frame_of m owner since) ≡ buffer_size m owner since
unfolding frame_of buffer_size header_size
length-frame_of m owner since =
    simp (length-append, length-write_header, length-write_records) (omega arith)
