-- ===== src/State/Validity/Newest.antt =====
-- The version of a local write or removal of a shared field against the one that it replaces.
use fleece.Prelude.{
  ℕ, ◌+◌, ◌^◌, ◌<◌, ◌≡◌, ◌∙◌, refl, Bool, true, false, some, List, [], ◌∷◌, take, ◌-◌, arith,
  Option-cases, inl, inr,
}
use fleece.State.{StateManager, shared_owner_id, field_name_max}
use fleece.State.Hash.{hash_name}
use fleece.State.Slots.{Write, upsert_field, bump, stored_name}
use fleece.State.Slots.Cells.{Cell, cell_at, cell_written, cell_at-upsert}
use fleece.State.Merge.Step.{HasRoom, IsReady, ready, beats, stamp_le}
use fleece.State.Fields.{is_empty, local_write, note_write, set_shared, remove_shared, exists_named}
use fleece.State.Fields.Writes.{room_fits, bump-IsReady, note-IsReady}
use fleece.State.Fields.Removes.{next_tick, buried, remove_shared_cell}
use fleece.State.Fields.Reads.{live, exists_named-cell}
use fleece.State.Validity.{IsValid}

-- The clock of a valid store is past every version that it holds.
beats_clock :
    (m : StateManager) (k o : ℕ) (c : Cell)
    → IsValid m
    → m.local_timestamp < c.timestamp
    → beats c (cell_at m k o) ≡ true
unfolding beats stamp_le
beats_clock m k o c v h = elim (Option-cases (cell_at m k o)) [
  | inl e ↦ rw e
  | inr (d, e) ↦ rw e (ground (arith, v.clock k o d e))
]

abbrev shared_write : StateManager → List ℕ → List ℕ → Write
shared_write m name bytes =
    local_write (bump (note_write m)) (hash_name name) shared_owner_id (some name) bytes

set_shared_lem :
    (alloc : ℕ → Bool) (m : StateManager) (name bytes : List ℕ)
    → is_empty name ≡ false
    → is_empty bytes ≡ false
    → set_shared alloc m name bytes
      ≡ upsert_field alloc (bump (note_write m)) (shared_write m name bytes)
unfolding set_shared
set_shared_lem alloc m [] bytes n e = cc
set_shared_lem alloc m (c ∷ cs) bytes n e = rw (e, set_shared)

module _ (m : StateManager) (name : List ℕ) (v : IsValid m)
    (tick_room : m.local_timestamp + 1 < 2 ^ 64) where
  written_cell :
      (alloc : ℕ → Bool) (bytes : List ℕ)
      → IsReady alloc 1 m
      → cell_at
          (upsert_field alloc (bump (note_write m)) (shared_write m name bytes)).0
          (hash_name name)
          shared_owner_id
        ≡ some (record {
          origin_node_id = m.node_id;
          name = take (field_name_max - 1) name;
          bytes = bytes;
          timestamp = next_tick m;
          is_tombstone = false;
        })
  unfolding cell_written stored_name bump
  written_cell alloc bytes room =
      let r = bump-IsReady alloc 1 (note_write m) (note-IsReady alloc 1 m room) in
      cell_at-upsert alloc (bump (note_write m)) (shared_write m name bytes) (hash_name name)
        shared_owner_id r.packed
        (room_fits alloc (bump (note_write m)) (shared_write m name bytes) r)
      ∙ ground arith

  -- In a valid store whose clock has room for a tick, where every allocation succeeds and one more
  -- slot is there, set_shared
  -- of a name and a value that are not empty leaves a live cell of the local node with the value,
  -- which beats the cell that the name had before.
  pub set_shared-newest :
      (alloc : ℕ → Bool) (bytes : List ℕ)
      → HasRoom alloc 1 m
      → is_empty name ≡ false
      → is_empty bytes ≡ false
      → (c : Cell) × (cell_at (set_shared alloc m name bytes).0 (hash_name name) shared_owner_id
          ≡ some c)
        × (c.bytes ≡ bytes)
        × (c.is_tombstone ≡ false)
        × (c.origin_node_id ≡ m.node_id)
        × (beats c (cell_at m (hash_name name) shared_owner_id) ≡ true)
  set_shared-newest alloc bytes room n e =
      let c : Cell = record {
        origin_node_id = m.node_id;
        name = take (field_name_max - 1) name;
        bytes = bytes;
        timestamp = next_tick m;
        is_tombstone = false;
      } in
      (
        c,
        rw (set_shared_lem alloc m name bytes n e) (written_cell alloc bytes (ready room v.packed)),
        refl,
        refl,
        refl,
        beats_clock m (hash_name name) shared_owner_id c v (omega arith),
      )

  -- In a valid store whose clock has room for a tick, removing a live shared field leaves a tombstone
  -- of the local node, which beats the cell that the name had before.
  pub remove_shared-newest :
      exists_named m shared_owner_id name ≡ true
      → (c : Cell) × (cell_at (remove_shared m name).0 (hash_name name) shared_owner_id ≡ some c)
        × (c.is_tombstone ≡ true)
        × (c.origin_node_id ≡ m.node_id)
        × (beats c (cell_at m (hash_name name) shared_owner_id) ≡ true)
  unfolding buried live
  remove_shared-newest present = elim (Option-cases (cell_at m (hash_name name) shared_owner_id)) [
    | inl none_there ↦ absurd (ground (arith, exists_named-cell m shared_owner_id name))
    | inr (d, e) ↦
        let c = buried (next_tick m) m.node_id d in
        (
          c,
          (remove_shared_cell m name (hash_name name) shared_owner_id).1 ∙ ground (arith, e),
          refl,
          refl,
          beats_clock m (hash_name name) shared_owner_id c v (omega arith),
        )
  ]
