-- ===== src/State/Slots.antt =====
-- Finding and writing slots: find_slot_owned, find_field_owned, find_field and upsert_field.
pub mod View
pub mod Writes
pub mod Cells
use fleece.Prelude.{
  ℕ, zero, suc, ◌+◌, ◌-◌, ◌%◌, ◌^◌, Bool, true, false, not, ◌&&◌, Option, none, some, List, [], ◌∷◌,
  ◌==◌, if◌then◌else◌, leb, length, get_or, set, take,
}
use mathlib.Core.Option
use fleece.State.{FieldEntry, StateManager, Code, ok, failed, zero_entry, field_name_max}

-- The condition under which find_slot_owned returns a slot.
abbrev pub owns : ℕ → ℕ → FieldEntry → Bool
owns key owner f = f.exists && (f.key == key && f.node_id == owner)

-- find_slot_owned: the index of the slot that the pointer designates
unfoldable pub find_slot_owned : List FieldEntry → ℕ → ℕ → Option ℕ
find_slot_owned [] key owner = none
find_slot_owned (f ∷ fs) key owner =
    if owns key owner f then some 0 else Option.map suc (find_slot_owned fs key owner)

-- find_field_owned: the slot, unless it is a tombstone
unfoldable pub find_field_owned : List FieldEntry → ℕ → ℕ → Option ℕ
find_field_owned fields key owner = elim (find_slot_owned fields key owner) [
  | none ↦ none
  | some i ↦ if (get_or fields i zero_entry).is_tombstone then none else some i
]

-- find_field
unfoldable pub find_field : StateManager → ℕ → Option ℕ
unfolding find_field_owned
find_field m key = find_field_owned m.fields key m.node_id

-- The arguments of upsert_field; a NULL `name` is `none`.
pub record Write : Type 0 where
  pub key : ℕ
  pub owner_node_id : ℕ
  pub origin_node_id : ℕ
  pub name : Option (List ℕ)
  pub bytes : List ℕ
  pub timestamp : ℕ
  pub is_tombstone : Bool

-- strncpy(field->name, name, FLEECE_FIELD_NAME_MAX - 1), if there is a name
unfoldable pub stored_name : List ℕ → Option (List ℕ) → List ℕ
stored_name old none = old
stored_name old (some name) = take (field_name_max - 1) name

-- The assignments to `*field` that both branches of upsert_field end with.
unfoldable pub fill_slot : FieldEntry → Write → FieldEntry
unfolding stored_name
fill_slot field w = record field {
  bytes = if w.is_tombstone then [] else w.bytes;
  timestamp = w.timestamp;
  node_id = w.owner_node_id;
  origin_node_id = w.origin_node_id;
  is_tombstone = w.is_tombstone;
  name = stored_name field.name w.name;
}

-- A slot taken from behind the used ones.
unfoldable pub open_slot : FieldEntry → ℕ → FieldEntry
open_slot field key = record field { key = key; exists = true; name = [] }

-- upsert_field
unfoldable pub upsert_field : (ℕ → Bool) → StateManager → Write → StateManager × Code
unfolding fill_slot open_slot
upsert_field alloc m w =
    if not w.is_tombstone && not (alloc (length w.bytes))
    then (m, failed)
    else elim (find_slot_owned m.fields w.key w.owner_node_id) [
      | some i ↦
          (record m { fields = set m.fields i (fill_slot (get_or m.fields i zero_entry) w) }, ok)
      | none ↦ if leb (length m.fields) m.field_count then (m, failed) else (
        record m {
          fields =
              set m.fields m.field_count
                (fill_slot (open_slot (get_or m.fields m.field_count zero_entry) w.key) w);
          field_count = m.field_count + 1;
        },
        ok,
      )
    ]

-- ++manager->local_timestamp
unfoldable pub bump : StateManager → StateManager
bump m = record m { local_timestamp = (m.local_timestamp + 1) % 2 ^ 64 }
