-- ===== src/State/Repair.antt =====
-- The control frames of targeted repair: the index of the shared stream, the values for requested
-- key hashes, and the test of what is worth fetching.
pub mod Sizes
use fleece.Prelude.{
  ℕ, ◌+◌, ◌-◌, ◌*◌, Bool, true, false, not, ◌&&◌, Option, none, some, List, [], ◌∷◌, ◌++◌, ◌==◌,
  if◌then◌else◌, ltb, leb, length, get_or,
}
use fleece.Cbor.{uint_size, array_header_size, write_uint, write_array_header}
use fleece.State.{StateManager, FieldEntry, zero_entry, shared_owner_id, u64_max}
use fleece.State.Slots.{find_slot_owned}
use fleece.State.Digest.{live_in_stream, compute_stream_digest, max_timestamp}
use fleece.State.Export.{select, record_size, write_records, write_header}

-- FLEECE_CONTROL_MAGIC0, FLEECE_CONTROL_MAGIC1, FLEECE_CONTROL_PROTOCOL_VERSION
abbrev pub control_magic : List ℕ
control_magic = b'F' ∷ b'X' ∷ 2 ∷ []

unfoldable pub write_index : List FieldEntry → List ℕ
write_index [] = []
write_index (f ∷ fs) =
    write_array_header 2 ++ write_uint f.key ++ write_uint f.timestamp ++ write_index fs

-- The index reply and the size of its buffer.
unfoldable pub index_frame : StateManager → List ℕ
index_frame m =
    let entries = select (live_in_stream shared_owner_id) m.fields in
    control_magic
    ++ write_array_header 3
    ++ write_uint 1
    ++ write_uint m.node_id
    ++ write_array_header (length entries)
    ++ write_index entries

unfoldable pub index_buffer_size : StateManager → ℕ
index_buffer_size m =
    let count = length (select (live_in_stream shared_owner_id) m.fields) in
    3
    + array_header_size 3
    + 1
    + uint_size m.node_id
    + array_header_size count
    + count * (array_header_size 2 + uint_size 0xffff_ffff + uint_size u64_max)

-- fleece_state_manager_export_shared_index
unfoldable pub export_shared_index : (ℕ → Bool) → StateManager → Option (List ℕ)
export_shared_index alloc m = if alloc (index_buffer_size m) then some (index_frame m) else none

unfoldable pub requested : List ℕ → FieldEntry → Bool
requested [] f = false
requested (h ∷ hs) f = let rest = requested hs f in if h == f.key then true else rest

-- FLEECE_VALUE_FRAME_BYTE_CAP
abbrev pub value_frame_byte_cap : ℕ
value_frame_byte_cap = 320

-- The first pass over the slots: `body`, `matched` and the entries that are taken.
pub record Values : Type 0 where
  pub body : ℕ
  pub matched : ℕ
  pub entries : List FieldEntry

unfoldable pub choose : List ℕ → List FieldEntry → ℕ → ℕ → Values
choose hashes [] body matched = record { body = body; matched = matched; entries = [] }
choose hashes (f ∷ fs) body matched =
    let size = record_size true f in
    let fits =
      live_in_stream shared_owner_id f
      && (requested hashes f && not (ltb 0 matched && ltb value_frame_byte_cap (body + size))) in
    let rest =
      choose hashes fs (if fits then body + size else body)
        (if fits then matched + 1 else matched) in
    if fits then record rest { entries = f ∷ rest.entries } else rest

-- The header as it is budgeted for the first pass, with the count of the request.
unfoldable pub values_base : StateManager → ℕ → ℕ
values_base m count =
    array_header_size 5
    + uint_size m.node_id
    + uint_size shared_owner_id
    + 9
    + uint_size (compute_stream_digest m shared_owner_id)
    + array_header_size count

unfoldable pub chosen : StateManager → List ℕ → Values
chosen m hashes = choose hashes m.fields (values_base m (length hashes)) 0

unfoldable pub values_frame : StateManager → List ℕ → List ℕ
values_frame m hashes =
    let v = chosen m hashes in
    write_header m.node_id shared_owner_id
      (max_timestamp (live_in_stream shared_owner_id) m.fields 0)
      (compute_stream_digest m shared_owner_id) v.matched
    ++ write_records true v.entries

-- The size of the buffer: the count header is shrunk to what is written.
unfoldable pub values_buffer_size : StateManager → List ℕ → ℕ
values_buffer_size m hashes =
    let v = chosen m hashes in
    3 + (v.body - array_header_size (length hashes) + array_header_size v.matched)

-- fleece_state_manager_export_shared_by_hash
unfoldable pub export_shared_by_hash : (ℕ → Bool) → StateManager → List ℕ → Option (List ℕ)
export_shared_by_hash alloc m hashes =
    if alloc (values_buffer_size m hashes) then some (values_frame m hashes) else none

-- fleece_state_manager_shared_at_least
unfoldable pub shared_at_least : StateManager → ℕ → ℕ → Bool
shared_at_least m key_hash ts = elim (find_slot_owned m.fields key_hash shared_owner_id) [
  | none ↦ false
  | some i ↦ leb ts (get_or m.fields i zero_entry).timestamp
]
