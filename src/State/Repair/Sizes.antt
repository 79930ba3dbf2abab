-- ===== src/State/Repair/Sizes.antt =====
-- The lengths of the index and value replies and the buffers that are allocated for them.
use fleece.Prelude.{
  ℕ, ◌+◌, ◌*◌, ◌≤◌, ◌<◌, ◌^◌, ◌≡◌, refl, Bool, true, not, ◌&&◌, List, [], ◌∷◌, ltb, length,
  length-append, All, arith, inl, inr, Bool-cases,
}
use fleece.Cbor.{uint_size, array_header_size}
use fleece.Cbor.Sizes.{cbor_lengths, uint_size_bounds, uint_size_u32}
use fleece.State.{StateManager, FieldEntry, shared_owner_id, u64_max}
use fleece.State.Digest.{live_in_stream, max_timestamp}
use fleece.State.Export.{select, record_size, records_size}
use fleece.State.Export.Sizes.{length-write_records, length-write_header, header_size}
use fleece.State.Repair.{
  write_index, index_frame, index_buffer_size, requested, value_frame_byte_cap, choose, chosen,
  values_base, values_frame, values_buffer_size,
}

-- The keys are 32-bit hashes.
abbrev pub HasKey32 : FieldEntry → Type 0
HasKey32 f = f.key < 2 ^ 32

uint_size_one : uint_size 1 ≡ 1
unfolding uint_size
uint_size_one = refl

size_two : array_header_size 2 ≡ 1
unfolding array_header_size uint_size
size_two = refl

index_entry_size : array_header_size 2 + uint_size 0xffff_ffff + uint_size u64_max ≡ 15
unfolding array_header_size uint_size
index_entry_size = refl

length-write_index :
    (fs : List FieldEntry) → All HasKey32 fs → length (write_index fs) ≤ 15 * length fs
unfolding write_index
length-write_index [] p = omega arith
length-write_index (f ∷ fs) p =
    simp (length-append, cbor_lengths)
      (omega (
        arith,
        size_two,
        uint_size_u32 f.key p.0,
        uint_size_bounds f.timestamp,
        length-write_index fs p.1,
      ))

select-HasKey32 :
    (q : FieldEntry → Bool) (fs : List FieldEntry) → All HasKey32 fs → All HasKey32 (select q fs)
unfolding select
select-HasKey32 q [] p = tt
select-HasKey32 q (f ∷ fs) p = elim (Bool-cases (q f)) [
  | inl e ↦ rw e (p.0, select-HasKey32 q fs p.1)
  | inr e ↦ rw e (select-HasKey32 q fs p.1)
]

-- What the first pass adds to the body, and how many records it takes.
choose-sizes :
    (hashes : List ℕ) (fs : List FieldEntry) (body matched : ℕ)
    → ((choose hashes fs body matched).body
        ≡ body + records_size true (choose hashes fs body matched).entries)
      × ((choose hashes fs body matched).matched
          ≡ matched + length (choose hashes fs body matched).entries)
unfolding choose records_size
choose-sizes hashes [] body matched = (omega arith, omega arith)
choose-sizes hashes (f ∷ fs) body matched =
    let fits =
      live_in_stream shared_owner_id f
      && (requested hashes f
          && not (ltb 0 matched && ltb value_frame_byte_cap (body + record_size true f))) in
    elim (Bool-cases fits) [
      | inl e ↦
          let (b, n) = choose-sizes hashes fs (body + record_size true f) (matched + 1) in
          rw e (omega (arith, b), omega (arith, n))
      | inr e ↦ rw e (choose-sizes hashes fs body matched)
    ]

-- The value reply to any request fits the buffer that is allocated for it.
pub length-values_frame :
    (m : StateManager) (hashes : List ℕ)
    → length (values_frame m hashes) ≤ values_buffer_size m hashes
unfolding values_frame values_buffer_size chosen values_base header_size array_header_size
length-values_frame m hashes =
    let v = chosen m hashes in
    let (body, matched) = choose-sizes hashes m.fields (values_base m (length hashes)) 0 in
    simp (length-append, length-write_header, length-write_records)
      (omega (
        arith,
        body,
        matched,
        uint_size_bounds (max_timestamp (live_in_stream shared_owner_id) m.fields 0),
      ))

-- The index reply of a store whose keys are 32-bit hashes fits the buffer that is allocated for it.
pub length-index_frame :
    (m : StateManager) → All HasKey32 m.fields → length (index_frame m) ≤ index_buffer_size m
unfolding index_frame index_buffer_size
length-index_frame m keys =
    let entries = select (live_in_stream shared_owner_id) m.fields in
    rw index_entry_size (
      simp (length-append, cbor_lengths)
        (omega (
          arith,
          uint_size_one,
          length-write_index entries
              (select-HasKey32 (live_in_stream shared_owner_id) m.fields keys),
        )))
