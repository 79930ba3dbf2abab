-- ===== src/State/Export.antt =====
-- export_fields_since: the gossip frame of a stream, full or from a timestamp on.
pub mod Sizes
use fleece.Prelude.{
  ℕ, ◌+◌, Bool, true, false, not, ◌&&◌, Option, none, some, List, [], ◌∷◌, ◌++◌, ◌==◌,
  if◌then◌else◌, ltb, length,
}
use fleece.Cbor.{
  uint_size, bytes_size, text_size, array_header_size, write_uint, write_array_header, write_bytes,
  write_text, write_bool,
}
use fleece.State.{StateManager, FieldEntry, shared_owner_id}
use fleece.State.Digest.{in_stream, compute_stream_digest, max_timestamp}

-- FLEECE_GOSSIP_MAGIC0, FLEECE_GOSSIP_MAGIC1, FLEECE_GOSSIP_VERSION
abbrev pub gossip_magic : List ℕ
gossip_magic = b'F' ∷ b'G' ∷ 5 ∷ []

-- The entries of the stream that are newer than `since`.
unfoldable pub eligible : ℕ → ℕ → FieldEntry → Bool
eligible owner since f = in_stream owner f && ltb since f.timestamp

unfoldable pub select : (FieldEntry → Bool) → List FieldEntry → List FieldEntry
select p [] = []
select p (f ∷ fs) = let rest = select p fs in if p f then f ∷ rest else rest

-- A tombstone is sent without data.
abbrev pub sent_bytes : FieldEntry → List ℕ
sent_bytes f = if f.is_tombstone then [] else f.bytes

-- The bytes that a record is budgeted with, and those that it takes.
unfoldable pub record_size : Bool → FieldEntry → ℕ
record_size shared f =
    array_header_size (if shared then 5 else 4)
    + (if shared then uint_size f.origin_node_id else 0)
    + 1
    + text_size (length f.name)
    + uint_size f.timestamp
    + bytes_size (length (sent_bytes f))

unfoldable pub write_record : Bool → FieldEntry → List ℕ
write_record shared f =
    write_array_header (if shared then 5 else 4)
    ++ (if shared then write_uint f.origin_node_id else [])
    ++ write_bool f.is_tombstone
    ++ write_text f.name
    ++ write_uint f.timestamp
    ++ write_bytes (sent_bytes f)

unfoldable pub records_size : Bool → List FieldEntry → ℕ
records_size shared [] = 0
records_size shared (f ∷ fs) = record_size shared f + records_size shared fs

unfoldable pub write_records : Bool → List FieldEntry → List ℕ
write_records shared [] = []
write_records shared (f ∷ fs) = write_record shared f ++ write_records shared fs

-- The header [sender, owner, hw, digest, [records]] behind the magic.
unfoldable pub write_header : ℕ → ℕ → ℕ → ℕ → ℕ → List ℕ
write_header sender owner hw digest count =
    gossip_magic
    ++ write_array_header 5
    ++ write_uint sender
    ++ write_uint owner
    ++ write_uint hw
    ++ write_uint digest
    ++ write_array_header count

-- The frame, and the size of the buffer that it is written to (`3 + body_size`).
unfoldable pub frame_of : StateManager → ℕ → ℕ → List ℕ
frame_of m owner since =
    let shared = owner == shared_owner_id in
    let records = select (eligible owner since) m.fields in
    write_header m.node_id owner (max_timestamp (in_stream owner) m.fields 0)
      (compute_stream_digest m owner) (length records)
    ++ write_records shared records

unfoldable pub buffer_size : StateManager → ℕ → ℕ → ℕ
buffer_size m owner since =
    let records = select (eligible owner since) m.fields in
    3
    + (array_header_size 5
        + uint_size m.node_id
        + uint_size owner
        + uint_size (max_timestamp (in_stream owner) m.fields 0)
        + uint_size (compute_stream_digest m owner)
        + records_size (owner == shared_owner_id) records
        + array_header_size (length records))

-- export_fields_since
unfoldable pub export_fields_since : (ℕ → Bool) → StateManager → ℕ → ℕ → Option (List ℕ)
export_fields_since alloc m owner since =
    if alloc (buffer_size m owner since) then some (frame_of m owner since) else none

-- fleece_state_manager_export, export_delta, export_shared, export_shared_delta
unfoldable pub export : (ℕ → Bool) → StateManager → Option (List ℕ)
export alloc m = export_fields_since alloc m m.node_id 0

unfoldable pub export_delta : (ℕ → Bool) → StateManager → ℕ → Option (List ℕ)
export_delta alloc m since = export_fields_since alloc m m.node_id since

unfoldable pub export_shared : (ℕ → Bool) → StateManager → Option (List ℕ)
export_shared alloc m = export_fields_since alloc m shared_owner_id 0

unfoldable pub export_shared_delta : (ℕ → Bool) → StateManager → ℕ → Option (List ℕ)
export_shared_delta alloc m since = export_fields_since alloc m shared_owner_id since
