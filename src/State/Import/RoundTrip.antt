-- ===== src/State/Import/RoundTrip.antt =====
-- The import of a frame that another node exports.
use fleece.Prelude.{
  c_string, ℕ, ◌^◌, ◌≤◌, ◌<◌, ◌≡◌, ◌≢◌, refl, Bool, true, false, not, ◌||◌, some, List, [], ◌∷◌,
  ◌++◌, ◌==◌, length, length-append, arith, All, map, Bool-cases, inl, inr,
}
use mathlib.Core.List.{append_assoc}
use fleece.Cbor.{write_array_header}
use fleece.State.{FieldEntry, StateManager, shared_owner_id}
use fleece.State.Fields.{is_empty}
use fleece.State.Peers.{touch_peer}
use fleece.State.Merge.{merge_shared}
use fleece.State.Merge.Convergence.{merge_all}
use fleece.State.Digest.{in_stream, compute_stream_digest, max_timestamp, digest_loop}
use fleece.State.Export.{eligible, select, write_record, write_records, write_header, frame_of}
use fleece.State.Import.{is_gossip, merge_record, import_records, read_header, report, import_impl}
use fleece.State.Import.Records.{
  IsStorable, remote_of, expect_array, expect_uint, read_record-write_record,
}

c_string_self : (cs : List ℕ) → All (λ c. c ≢ 0) cs → c_string cs ≡ cs
c_string_self [] h = refl
c_string_self (c ∷ cs) h = ground (arith, c_string_self cs h.1, h.0)

-- What an import does with the record of a named entry.
merge_record_of :
    (alloc : ℕ → Bool) (owner : ℕ) (m : StateManager) (f : FieldEntry)
    → IsStorable f
    → is_empty f.name ≡ false
    → merge_record alloc true owner m (remote_of f) ≡ (merge_shared alloc m (remote_of f)).0
unfolding merge_record remote_of
merge_record_of alloc owner m f h n = rw (n, c_string_self f.name h.name_chars)

abbrev pub IsNamed : FieldEntry → Type 0
IsNamed f = IsStorable f × (is_empty f.name ≡ false)

import_records-write_records :
    (alloc : ℕ → Bool) (size owner : ℕ) (m : StateManager) (fs : List FieldEntry)
    → All IsNamed fs
    → length (write_records true fs) ≤ size
    → import_records alloc size true owner (length fs) m (write_records true fs)
      ≡ (merge_all alloc m (map remote_of fs), true)
unfolding import_records write_records merge_all
import_records-write_records alloc size owner m [] h fits = refl
import_records-write_records alloc size owner m (f ∷ fs) h fits =
    rw (read_record-write_record size f owner (write_records true fs) h.0.0 fits, import_records)
      (rw (merge_record_of alloc owner m f h.0.0 h.0.1) (
        import_records-write_records alloc size owner (merge_shared alloc m (remote_of f)).0 fs h.1
          (omega (arith, length-append (write_record true f) (write_records true fs)))))

-- The store of a real node, all of whose entries can be sent.
pub record IsSendable (m : StateManager) : Type 0 where
  pub node_fits : m.node_id < 2 ^ 64
  pub not_shared : m.node_id ≢ shared_owner_id
  pub capacity_fits : length m.fields < 2 ^ 64
  pub storable : All IsStorable m.fields

digest_fits :
    (owner : ℕ) (fs : List FieldEntry) (sum : ℕ) → sum < 2 ^ 64 → digest_loop owner fs sum < 2 ^ 64
unfolding digest_loop
digest_fits owner [] sum h = h
digest_fits owner (f ∷ fs) sum h = digest_fits owner fs _ (ground arith)

hw_fits :
    (p : FieldEntry → Bool) (fs : List FieldEntry) (hw : ℕ)
    → All IsStorable fs
    → hw < 2 ^ 64
    → max_timestamp p fs hw < 2 ^ 64
unfolding max_timestamp
hw_fits p [] hw h lt = lt
hw_fits p (f ∷ fs) hw h lt = hw_fits p fs _ h.1 (ground (arith, h.0.timestamp_fits))

select-IsNamed :
    (since : ℕ) (fs : List FieldEntry)
    → All IsStorable fs
    → All IsNamed (select (eligible shared_owner_id since) fs)
      × (length (select (eligible shared_owner_id since) fs) ≤ length fs)
unfolding select eligible in_stream
select-IsNamed since [] h = (tt, omega arith)
select-IsNamed since (f ∷ fs) h =
    let ih = select-IsNamed since fs h.1 in
    elim (Bool-cases (eligible shared_owner_id since f)) [
      | inl e ↦ rw e (((h.0, ground arith), ih.0), omega (arith, ih.1))
      | inr e ↦ rw e (ih.0, omega (arith, ih.1))
    ]

module _ (m n : StateManager) (since : ℕ) (ok : IsSendable m) where
  stranger :
      m.node_id ≢ n.node_id → (m.node_id == n.node_id || m.node_id == shared_owner_id) ≡ false
  stranger ne = ground (arith, ok.not_shared)

  -- What the importer has after the frame.
  abbrev pub merged : (ℕ → Bool) → StateManager
  merged alloc =
      merge_all alloc (touch_peer n m.node_id)
        (map remote_of (select (eligible shared_owner_id since) m.fields))

  -- The importer reads the header that the exporter wrote.
  read_header-frame :
      (hw digest count : ℕ) (rest : List ℕ)
      → m.node_id ≢ n.node_id
      → hw < 2 ^ 64
      → digest < 2 ^ 64
      → read_header n.node_id (write_header m.node_id shared_owner_id hw digest count ++ rest)
        ≡ some (record {
          sender = m.node_id;
          owner = shared_owner_id;
          digest = digest;
          rest = write_array_header count ++ rest;
        })
  unfolding read_header write_header is_gossip
  read_header-frame hw digest count rest ne h d = simp append_assoc (
      rw (expect_array 5 _ (omega arith), expect_uint m.node_id _ ok.node_fits)
        (rw (stranger ne) (
          rw (
            expect_uint shared_owner_id _ (omega arith),
            expect_uint hw _ h,
            expect_uint digest _ d,
          ))))

  in_frame :
      length (write_records true (select (eligible shared_owner_id since) m.fields))
      ≤ length (frame_of m shared_owner_id since)
  unfolding frame_of
  in_frame = ground (
    arith,
    length-append {0}
        (write_header m.node_id shared_owner_id
          (max_timestamp (in_stream shared_owner_id) m.fields 0)
          (compute_stream_digest m shared_owner_id)
          (length (select (eligible shared_owner_id since) m.fields)))
        (write_records true (select (eligible shared_owner_id since) m.fields)),
  )

  -- A node other than the importer, whose numbers fit 64 bits and whose names are C strings of
  -- less than 64 bytes, sends its shared stream, or what is new in it since a timestamp: the
  -- importer hears it and merges the records of its eligible entries in their order; the report
  -- names the sender, says behind on the shared stream exactly if the digests of the two shared
  -- streams still differ, and sets the flag of the self stream to not behind.
  pub import_impl-frame_of :
      (alloc : ℕ → Bool)
      → m.node_id ≢ n.node_id
      → import_impl alloc n (frame_of m shared_owner_id since) ≡ (
        merged alloc,
        some (record {
          sender = m.node_id;
          behind_self = false;
          behind_shared = not (
              compute_stream_digest (merged alloc) shared_owner_id
              == compute_stream_digest m shared_owner_id);
        }),
      )
  unfolding import_impl frame_of report
  import_impl-frame_of alloc ne =
      let records = select (eligible shared_owner_id since) m.fields in
      let (named, fewer) = select-IsNamed since m.fields ok.storable in
      rw
        (
          read_header-frame (max_timestamp (in_stream shared_owner_id) m.fields 0)
              (compute_stream_digest m shared_owner_id) (length records)
              (write_records true records) ne
              (hw_fits (in_stream shared_owner_id) m.fields 0 ok.storable (omega arith))
              (unfold compute_stream_digest in
                digest_fits shared_owner_id m.fields 0 (omega arith)),
          import_impl,
        )
        (rw
          (expect_array (length records) (write_records true records)
            (omega (arith, ok.capacity_fits, fewer)))
          (rw
            (import_records-write_records alloc (length (frame_of m shared_owner_id since))
              shared_owner_id (touch_peer n m.node_id) records named in_frame)
            refl))
