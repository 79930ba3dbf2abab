-- ===== src/State/Fields/Writes.antt =====
-- The local writers: what a reader sees afterwards, and the clock.
use fleece.Prelude.{
  ℕ, ◌≡◌, ◌∙◌, refl, Bool, true, false, ◌&&◌, some, List, [], ◌∷◌, ◌==◌, if◌then◌else◌, length,
  arith,
}
use fleece.State.{StateManager, ok, shared_owner_id}
use fleece.State.Hash.{hash_name}
use fleece.State.Slots.{find_field, Write, upsert_field, bump}
use fleece.State.Slots.Writes.{IsPacked, fits, upsert_fits, upsert_frame}
use fleece.State.Slots.Cells.{cell_at, cell_written, cell_at-upsert}
use fleece.State.Merge.Step.{HasRoom, IsReady, ready}
use fleece.State.Fields.{is_empty, note_write, set_raw, get_raw, set_named, get_named, set_shared}
use fleece.State.Fields.Reads.{live, bytes_of, get_raw-cell, get_named-cell}

module _ (alloc : ℕ → Bool) (m : StateManager) (w : Write) where
  pub room_fits : IsReady alloc 1 m → fits alloc m w ≡ true
  unfolding fits
  room_fits h = ground (arith, h.memory (length w.bytes))

  -- A live write is what is read back, and other keys are read as before.
  live-write :
      (j p : ℕ)
      → IsReady alloc 1 m
      → w.is_tombstone ≡ false
      → bytes_of (live (cell_at (upsert_field alloc m w).0 j p)) ≡ (
          if w.key == j && w.owner_node_id == p
          then some w.bytes
          else bytes_of (live (cell_at m j p)))
  unfolding live cell_written
  live-write j p h t = rw (cell_at-upsert alloc m w j p h.packed (room_fits h)) (ground arith)

pub bump-IsReady :
    (alloc : ℕ → Bool) (n : ℕ) (m : StateManager) → IsReady alloc n m → IsReady alloc n (bump m)
unfolding bump
bump-IsReady alloc n m h = record { memory = h.memory; slots = h.slots; packed = h.packed }

-- A live write is what the readers of names return.
pub get_named-write :
    (alloc : ℕ → Bool) (m : StateManager) (w : Write) (owner : ℕ) (other : List ℕ)
    → IsReady alloc 1 m
    → w.is_tombstone ≡ false
    → get_named alloc (upsert_field alloc m w).0 owner other ≡ (
        if w.key == hash_name other && w.owner_node_id == owner
        then some w.bytes
        else get_named alloc m owner other)
get_named-write alloc m w owner other h t =
    get_named-cell alloc (upsert_field alloc m w).0 h.memory owner other
    ∙ rw (get_named-cell alloc m h.memory owner other)
        (live-write alloc m w (hash_name other) owner h t)

get_raw-write :
    (alloc : ℕ → Bool) (m : StateManager) (w : Write) (j : ℕ)
    → IsReady alloc 1 m
    → w.is_tombstone ≡ false
    → w.owner_node_id ≡ m.node_id
    → get_raw alloc (upsert_field alloc m w).0 j
      ≡ (if w.key == j then some w.bytes else get_raw alloc m j)
get_raw-write alloc m w j h t own =
    get_raw-cell alloc (upsert_field alloc m w).0 h.memory j
    ∙ rw ((upsert_frame alloc m w).1, get_raw-cell alloc m h.memory j)
        (live-write alloc m w j m.node_id h t ∙ ground arith)

cell_at-bump : (m : StateManager) (j p : ℕ) → cell_at (bump m) j p ≡ cell_at m j p
unfolding bump cell_at
cell_at-bump m j p = refl

cell_at-note : (m : StateManager) (j p : ℕ) → cell_at (note_write m) j p ≡ cell_at m j p
unfolding cell_at
cell_at-note m j p = refl

pub note-IsReady :
    (alloc : ℕ → Bool) (n : ℕ) (m : StateManager)
    → IsReady alloc n m
    → IsReady alloc n (note_write m)
note-IsReady alloc n m h = record { memory = h.memory; slots = h.slots; packed = h.packed }

get_raw-bump :
    (alloc : ℕ → Bool) (m : StateManager) (j : ℕ) → get_raw alloc (bump m) j ≡ get_raw alloc m j
unfolding get_raw find_field bump
get_raw-bump alloc m j = refl

pub get_named-bump :
    (alloc : ℕ → Bool) (m : StateManager) (o : ℕ) (name : List ℕ)
    → get_named alloc (bump m) o name ≡ get_named alloc m o name
unfolding get_named bump
get_named-bump alloc m o name = refl

pub get_named-note :
    (alloc : ℕ → Bool) (m : StateManager) (o : ℕ) (name : List ℕ)
    → get_named alloc (note_write m) o name ≡ get_named alloc m o name
unfolding get_named
get_named-note alloc m o name = refl

module _ (alloc : ℕ → Bool) (m : StateManager) (room : HasRoom alloc 1 m)
    (packed : IsPacked m) where
  -- Where every allocation succeeds, the fields are in the first field_count slots and one more slot
  -- is there, a raw-key write of a value that is not empty succeeds; its key then reads as the value,
  -- and every other raw key as before.
  pub get_raw-set_raw :
      (key : ℕ) (bytes : List ℕ) (j : ℕ)
      → is_empty bytes ≡ false
      → ((set_raw alloc m key bytes).1 ≡ ok)
        × (get_raw alloc (set_raw alloc m key bytes).0 j
            ≡ (if key == j then some bytes else get_raw alloc m j))
  unfolding set_raw
  get_raw-set_raw key bytes j e =
      let r = bump-IsReady alloc 1 m (ready room packed) in
      rw (e, set_raw)
        (
          upsert_fits alloc (bump m) _ (room_fits alloc (bump m) _ r),
          get_raw-write alloc (bump m) _ j r refl refl ∙ rw (get_raw-bump alloc m j),
        )

  -- Where every allocation succeeds, the fields are in the first field_count slots and one more slot
  -- is there, set_named of a name and a value that are not empty succeeds; the local node's field of
  -- that name hash then reads as the value, and every other named field as before.
  pub get_named-set_named :
      (name bytes : List ℕ) (owner : ℕ) (other : List ℕ)
      → is_empty name ≡ false
      → is_empty bytes ≡ false
      → ((set_named alloc m name bytes).1 ≡ ok)
        × (get_named alloc (set_named alloc m name bytes).0 owner other ≡ (
            if hash_name name == hash_name other && m.node_id == owner
            then some bytes
            else get_named alloc m owner other))
  unfolding set_named
  get_named-set_named [] bytes owner other n e = cc
  get_named-set_named (c ∷ cs) bytes owner other n e =
      let r = bump-IsReady alloc 1 m (ready room packed) in
      rw (e, set_named)
        (
          upsert_fits alloc (bump m) _ (room_fits alloc (bump m) _ r),
          get_named-write alloc (bump m) _ owner other r refl
              ∙ rw (get_named-bump alloc m owner other),
        )

  -- Where every allocation succeeds, the fields are in the first field_count slots and one more slot
  -- is there, set_shared of a name and a value that are not empty succeeds; the shared field of that
  -- name hash then reads as the value, and every other named field as before.
  pub get_named-set_shared :
      (name bytes : List ℕ) (owner : ℕ) (other : List ℕ)
      → is_empty name ≡ false
      → is_empty bytes ≡ false
      → ((set_shared alloc m name bytes).1 ≡ ok)
        × (get_named alloc (set_shared alloc m name bytes).0 owner other ≡ (
            if hash_name name == hash_name other && shared_owner_id == owner
            then some bytes
            else get_named alloc m owner other))
  unfolding set_shared
  get_named-set_shared [] bytes owner other n e = cc
  get_named-set_shared (c ∷ cs) bytes owner other n e =
      let m' = note_write m in
      let r = bump-IsReady alloc 1 m' (note-IsReady alloc 1 m (ready room packed)) in
      rw (e, set_shared)
        (
          upsert_fits alloc (bump m') _ (room_fits alloc (bump m') _ r),
          get_named-write alloc (bump m') _ owner other r refl
              ∙ rw (get_named-bump alloc m' owner other, get_named-note alloc m owner other),
        )
