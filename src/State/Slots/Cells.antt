-- ===== src/State/Slots/Cells.antt =====
-- What a reader or a peer can observe of a slot: its content without the book-keeping of the exporter.
use fleece.Prelude.{
  ℕ, ◌≡◌, refl, true, false, ◌&&◌, Option, none, some, List, [], ◌==◌, if◌then◌else◌, Bool,
}
use mathlib.Core.Option
use fleece.State.{FieldEntry, StateManager}
use fleece.State.Slots.{Write, fill_slot, open_slot, stored_name, upsert_field}
use fleece.State.Slots.View.{lookup}
use fleece.State.Slots.Writes.{IsPacked, fits, written, upsert_lookup}

pub record Cell : Type 0 where
  pub origin_node_id : ℕ
  pub name : List ℕ
  pub bytes : List ℕ
  pub timestamp : ℕ
  pub is_tombstone : Bool

abbrev pub cell_of : FieldEntry → Cell
cell_of f = record {
  origin_node_id = f.origin_node_id;
  name = f.name;
  bytes = f.bytes;
  timestamp = f.timestamp;
  is_tombstone = f.is_tombstone;
}

-- The map from keys and owners to cells that a store represents.
unfoldable pub cell_at : StateManager → ℕ → ℕ → Option Cell
cell_at m key owner = Option.map cell_of (lookup m.fields key owner)

abbrev pub name_of : Option Cell → List ℕ
name_of none = []
name_of (some c) = c.name

-- The cell that a write leaves, given the one before.
unfoldable pub cell_written : Write → Option Cell → Cell
unfolding stored_name
cell_written w old = record {
  origin_node_id = w.origin_node_id;
  name = stored_name (name_of old) w.name;
  bytes = if w.is_tombstone then [] else w.bytes;
  timestamp = w.timestamp;
  is_tombstone = w.is_tombstone;
}

cell_of-written :
    (m : StateManager) (w : Write) (o : Option FieldEntry)
    → cell_of (written m w o) ≡ cell_written w (Option.map cell_of o)
unfolding written fill_slot open_slot cell_written
cell_of-written m w none = refl
cell_of-written m w (some f) = refl

map-if {ℓ} :
    {A B : Type ℓ} (g : A → B) (b : Bool) (x : A) (y : Option A)
    → Option.map g (if b then some x else y) ≡ (if b then some (g x) else Option.map g y)
map-if g true x y = refl
map-if g false x y = refl

-- In a store whose used slots stand in front of the free ones, a write that has memory and a slot
-- replaces the cell of its key and owner by the one it carries, and no other.
pub cell_at-upsert :
    (alloc : ℕ → Bool) (m : StateManager) (w : Write) (j p : ℕ)
    → IsPacked m
    → fits alloc m w ≡ true
    → cell_at (upsert_field alloc m w).0 j p ≡ (
        if w.key == j && w.owner_node_id == p
        then some (cell_written w (cell_at m w.key w.owner_node_id))
        else cell_at m j p)
unfolding cell_at
cell_at-upsert alloc m w j p pk h = rw (
  upsert_lookup alloc m w j p pk h,
  map-if,
  cell_of-written m w (lookup m.fields w.key w.owner_node_id),
)
