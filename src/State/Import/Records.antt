-- ===== src/State/Import/Records.antt =====
-- The importer's reading of a record that the exporter wrote.
use fleece.Prelude.{
  ℕ, ◌+◌, ◌-◌, ◌^◌, ◌≤◌, ◌<◌, ◌≡◌, refl, ap, Bool, true, false, some, List, ◌++◌, length,
  length-append, take-length-append, drop-length-append, take_of_length-le, arith, All, ==_iff, ◌≢◌,
}
use mathlib.Core.List.{append_assoc}
use fleece.Cbor.Sizes.{length-write_text, length-write_bytes}
use fleece.Cbor.{
  text_size, bytes_size, write_head, write_uint, write_array_header, write_bytes, write_text,
  write_bool,
}
use fleece.Cbor.RoundTrip.{
  read_head-write_head, read_head-write_uint, read_head-write_array_header, read_head-write_bool,
  bounds_ok_iff,
}
use fleece.State.{FieldEntry, field_name_max}
use fleece.State.Merge.{Remote}
use fleece.State.Export.{write_record, sent_bytes}
use fleece.State.Import.{expect, expect_bytes, expect_bool, read_origin, received, read_record}

-- An entry whose numbers fit 64 bits and whose name is a C string that fits its buffer.
pub record IsStorable (f : FieldEntry) : Type 0 where
  pub origin_fits : f.origin_node_id < 2 ^ 64
  pub timestamp_fits : f.timestamp < 2 ^ 64
  pub name_fits : length f.name < field_name_max
  pub bytes_fit : length f.bytes < 2 ^ 64
  pub name_chars : All (λ c. c ≢ 0) f.name

-- The record that stands for an entry of a shared stream.
unfoldable pub remote_of : FieldEntry → Remote
remote_of f = record {
  origin_node_id = f.origin_node_id;
  name = f.name;
  bytes = sent_bytes f;
  timestamp = f.timestamp;
  is_tombstone = f.is_tombstone;
}

pub expect_array :
    (n : ℕ) (rest : List ℕ) → n < 2 ^ 64 → expect 4 (write_array_header n ++ rest) ≡ some (n, rest)
unfolding expect
expect_array n rest h = rw (read_head-write_array_header n rest h)

pub expect_uint :
    (v : ℕ) (rest : List ℕ) → v < 2 ^ 64 → expect 0 (write_uint v ++ rest) ≡ some (v, rest)
unfolding expect
expect_uint v rest h = rw (read_head-write_uint v rest h)

expect_flag : (b : Bool) (rest : List ℕ) → expect_bool (write_bool b ++ rest) ≡ some (b, rest)
unfolding expect_bool expect
expect_flag true rest = rw (read_head-write_bool true rest)
expect_flag false rest = rw (read_head-write_bool false rest)

sent_fits : (f : FieldEntry) → IsStorable f → length (sent_bytes f) < 2 ^ 64
sent_fits f h = ground (arith, h.bytes_fit)

received-remote_of :
    (f : FieldEntry)
    → IsStorable f
    → received f.origin_node_id f.is_tombstone f.name f.timestamp (sent_bytes f) ≡ remote_of f
unfolding received remote_of
received-remote_of f h = ground (arith, take_of_length-le (field_name_max - 1) f.name (omega arith))

module _ (size : ℕ) where
  expect_payload :
      (k : ℕ) (bs rest : List ℕ)
      → k < 8
      → length bs < 2 ^ 64
      → length bs + length rest ≤ size
      → expect_bytes size k ((write_head k (length bs) ++ bs) ++ rest) ≡ some (bs, rest)
  unfolding expect_bytes expect
  expect_payload k bs rest hk hb fits =
      rw (append_assoc, read_head-write_head k (length bs) (bs ++ rest) hk hb)
        (rw ((==_iff k k).1 refl) (
          rw (
            (bounds_ok_iff (size - length (bs ++ rest)) (length bs) size).1
                (omega (arith, length-append bs rest)),
            take-length-append,
            drop-length-append,
          )))

  expect_text :
      (bs rest : List ℕ)
      → length bs < 2 ^ 64
      → length bs + length rest ≤ size
      → expect_bytes size 3 (write_text bs ++ rest) ≡ some (bs, rest)
  unfolding write_text
  expect_text bs rest hb fits = expect_payload 3 bs rest (omega arith) hb fits

  expect_data :
      (bs rest : List ℕ)
      → length bs < 2 ^ 64
      → length bs + length rest ≤ size
      → expect_bytes size 2 (write_bytes bs ++ rest) ≡ some (bs, rest)
  unfolding write_bytes
  expect_data bs rest hb fits = expect_payload 2 bs rest (omega arith) hb fits

  -- The name and the data of a written record lie within the frame.
  room :
      (f : FieldEntry) (rest : List ℕ)
      → length (write_record true f ++ rest) ≤ size
      → (length f.name + length (write_uint f.timestamp ++ (write_bytes (sent_bytes f) ++ rest))
          ≤ size)
        × (length (sent_bytes f) + length rest ≤ size)
  unfolding write_record text_size bytes_size
  room f rest fits =
      let total = simp (append_assoc, length-append) at fits in
      (
        simp length-append (omega (arith, total, length-write_text f.name)),
        omega (arith, total, length-write_bytes (sent_bytes f)),
      )

  -- A record of the shared stream is read back with what follows it.
  pub read_record-write_record :
      (f : FieldEntry) (owner : ℕ) (rest : List ℕ)
      → IsStorable f
      → length (write_record true f ++ rest) ≤ size
      → read_record size true owner (write_record true f ++ rest) ≡ some (remote_of f, rest)
  unfolding write_record read_record read_origin received remote_of
  read_record-write_record f owner rest h fits = simp append_assoc (
      rw
        (
          expect_array 5 _ (omega arith),
          expect_uint f.origin_node_id _ h.origin_fits,
          expect_flag f.is_tombstone _,
        )
        (rw
          (
            expect_text f.name _ (omega arith) (room f rest fits).0,
            expect_uint f.timestamp _ h.timestamp_fits,
            expect_data (sent_bytes f) rest (sent_fits f h) (room f rest fits).1,
          )
          (ap (λ (r : Remote). some (r, rest)) (received-remote_of f h))))
