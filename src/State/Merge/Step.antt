-- ===== src/State/Merge/Step.antt =====
-- One merge_shared on the cells of the store.
use fleece.Prelude.{
  ℕ, suc, ◌+◌, ◌-◌, ◌≤◌, ◌≡◌, ◌∙◌, refl, Bool, true, not, ◌&&◌, ◌||◌, Option, none, some, [], ◌==◌,
  if◌then◌else◌, ltb, leb, length, get_or, take, arith, if-both,
}
use fleece.State.{StateManager, Code, ok, failed, zero_entry, shared_owner_id, field_name_max}
use fleece.State.Hash.{hash_name}
use fleece.State.Slots.{Write, upsert_field, stored_name}
use fleece.State.Slots.View.{lookup, find_slot_owned-Found, absent, present}
use fleece.State.Slots.Writes.{IsPacked, fits, upsert-IsPacked, upsert_frame}
use fleece.State.Slots.Cells.{Cell, cell_at, cell_written, cell_at-upsert}
use fleece.State.Merge.{
  Remote, acceptable, advance_clock, remote_write, keeps_incumbent, merge_shared,
}

-- The cell that a record carries.
unfoldable pub cell : Remote → Cell
cell r = record {
  origin_node_id = r.origin_node_id;
  name = take (field_name_max - 1) r.name;
  bytes = if r.is_tombstone then [] else r.bytes;
  timestamp = r.timestamp;
  is_tombstone = r.is_tombstone;
}

-- The order of versions: by timestamp, then by author.
unfoldable pub stamp_le : Cell → Cell → Bool
stamp_le a b =
    ltb a.timestamp b.timestamp
    || (b.timestamp == a.timestamp && leb a.origin_node_id b.origin_node_id)

-- The candidate replaces what is stored.
unfoldable pub beats : Cell → Option Cell → Bool
beats c none = true
beats c (some old) = not (stamp_le c old)

-- A record that merge_shared considers for the key `k`.
unfoldable pub relevant : ℕ → Remote → Bool
relevant k r = acceptable r && hash_name r.name == k

unfoldable pub next_cell : ℕ → Remote → Option Cell → Option Cell
next_cell k r c = if relevant k r && beats (cell r) c then some (cell r) else c

-- Every allocation succeeds, and the array has room for `n` more fields.
pub record HasRoom (alloc : ℕ → Bool) (n : ℕ) (m : StateManager) : Type 0 where
  pub memory : (size : ℕ) → alloc size ≡ true
  pub slots : m.field_count + n ≤ length m.fields

-- The same, of a store that keeps its fields in the first field_count slots.
pub record IsReady (alloc : ℕ → Bool) (n : ℕ) (m : StateManager) : Type 0 where
  pub memory : (size : ℕ) → alloc size ≡ true
  pub slots : m.field_count + n ≤ length m.fields
  pub packed : IsPacked m

pub ready :
    {alloc : ℕ → Bool} {n : ℕ} {m : StateManager}
    → HasRoom alloc n m
    → IsPacked m
    → IsReady alloc n m
ready h packed = record { memory = h.memory; slots = h.slots; packed = packed }

write-IsReady :
    (alloc : ℕ → Bool) (m : StateManager) (w : Write) (n : ℕ)
    → IsReady alloc (suc n) m
    → IsReady alloc n (upsert_field alloc m w).0
write-IsReady alloc m w n h = record {
  memory = h.memory;
  slots = omega (arith, upsert_frame alloc m w);
  packed = upsert-IsPacked alloc m w h.packed;
}

module _ (alloc : ℕ → Bool) (m : StateManager) (r : Remote) where
  abbrev clocked : StateManager
  clocked = advance_clock m r.timestamp

  room_fits :
      (n : ℕ) → IsReady alloc (suc n) m → fits alloc clocked (remote_write shared_owner_id r) ≡ true
  unfolding fits advance_clock remote_write
  room_fits n h = ground (arith, h.memory (length r.bytes))

  cell_written_remote : (o : Option Cell) → cell_written (remote_write shared_owner_id r) o ≡ cell r
  unfolding cell_written remote_write cell stored_name
  cell_written_remote o = refl

  incumbent_stamp :
      (i : ℕ)
      → lookup m.fields (hash_name r.name) shared_owner_id ≡ some (get_or m.fields i zero_entry)
      → keeps_incumbent (get_or m.fields i zero_entry) r
        ≡ not (beats (cell r) (cell_at m (hash_name r.name) shared_owner_id))
  unfolding keeps_incumbent beats cell_at cell stamp_le
  incumbent_stamp i l = rw l (ground arith)

  -- The guards of merge_shared, read on the map.
  merge_shared_lem : merge_shared alloc m r ≡ (
      if acceptable r
      then (if beats (cell r) (cell_at m (hash_name r.name) shared_owner_id)
          then upsert_field alloc clocked (remote_write shared_owner_id r)
          else (clocked, ok))
      else (m, failed))
  unfolding merge_shared
  merge_shared_lem = elim (find_slot_owned-Found m.fields (hash_name r.name) shared_owner_id) [
    | absent e l ↦ rw e (unfold beats cell_at in rw l (ground arith))
    | present i e l o b ↦ rw e (rw (incumbent_stamp i l) (ground arith))
  ]

  cell_at-clocked : (j p : ℕ) → cell_at clocked j p ≡ cell_at m j p
  unfolding cell_at advance_clock
  cell_at-clocked j p = refl

  cell_at-write :
      (n j : ℕ)
      → IsReady alloc (suc n) m
      → cell_at (upsert_field alloc clocked (remote_write shared_owner_id r)).0 j shared_owner_id
        ≡ (if hash_name r.name == j then some (cell r) else cell_at m j shared_owner_id)
  unfolding remote_write
  cell_at-write n j h =
      cell_at-upsert alloc clocked (remote_write shared_owner_id r) j shared_owner_id
        (unfold advance_clock in h.packed) (room_fits n h)
      ∙ ground (
        arith,
        cell_written_remote (cell_at clocked (hash_name r.name) shared_owner_id),
        cell_at-clocked j shared_owner_id,
      )

  pub merge_cell :
      (n j : ℕ)
      → IsReady alloc (suc n) m
      → cell_at (merge_shared alloc m r).0 j shared_owner_id
        ≡ next_cell j r (cell_at m j shared_owner_id)
  unfolding next_cell relevant
  merge_cell n j h =
      rw merge_shared_lem (ground (arith, cell_at-write n j h, cell_at-clocked j shared_owner_id))

  -- Where every allocation succeeds, the fields are in the first field_count slots and one more slot
  -- is there, merge_shared replaces the shared cell of its record's key exactly where the record is
  -- acceptable and newer, and changes no other shared cell.
  pub merge_shared_cell :
      (j : ℕ)
      → HasRoom alloc 1 m
      → IsPacked m
      → cell_at (merge_shared alloc m r).0 j shared_owner_id
        ≡ next_cell j r (cell_at m j shared_owner_id)
  merge_shared_cell j h packed = merge_cell 0 j (ready h packed)

  clocked-IsReady : (n : ℕ) → IsReady alloc n m → IsReady alloc n clocked
  unfolding advance_clock
  clocked-IsReady n h = record { memory = h.memory; slots = h.slots; packed = h.packed }

  -- A merge uses up at most one free slot.
  pub merge_shared-IsReady :
      (n : ℕ) → IsReady alloc (suc n) m → IsReady alloc n (merge_shared alloc m r).0
  merge_shared-IsReady n h = rw merge_shared_lem (
      if-both P (acceptable r) _ (m, failed)
        (if-both P (beats (cell r) (cell_at m (hash_name r.name) shared_owner_id)) _ (clocked, ok)
          (write-IsReady alloc clocked (remote_write shared_owner_id r) n
            (clocked-IsReady (suc n) h))
          (clocked-IsReady n (less n h)))
        (less n h))
    where
      P : StateManager × Code → Type 0
      P s = IsReady alloc n s.0

      less : (n : ℕ) → IsReady alloc (suc n) m → IsReady alloc n m
      less n h = record { memory = h.memory; slots = omega arith; packed = h.packed }
