-- ===== src/State/Fields.antt =====
-- The local operations on raw-key, named and shared fields.
pub mod Reads
pub mod Writes
pub mod Removes
pub mod CompareAndSet
use fleece.Prelude.{
  ℕ, ◌+◌, ◌%◌, ◌^◌, Bool, true, false, not, ◌&&◌, Option, none, some, List, [], ◌∷◌, ◌==◌,
  if◌then◌else◌, length, get_or, set, bytes_eq,
}
use fleece.State.{FieldEntry, StateManager, Code, ok, failed, conflict, zero_entry, shared_owner_id}
use fleece.State.Hash.{hash_name}
use fleece.State.Slots.{find_field_owned, find_field, Write, upsert_field, bump}

abbrev pub is_empty : List ℕ → Bool
is_empty [] = true
is_empty (x ∷ xs) = false

-- What the local writers pass to upsert_field; the clock was bumped before.
abbrev pub local_write : StateManager → ℕ → ℕ → Option (List ℕ) → List ℕ → Write
local_write m key owner name bytes = record {
  key = key;
  owner_node_id = owner;
  origin_node_id = m.node_id;
  name = name;
  bytes = bytes;
  timestamp = m.local_timestamp;
  is_tombstone = false;
}

-- fleece_state_manager_set
unfoldable pub set_raw : (ℕ → Bool) → StateManager → ℕ → List ℕ → StateManager × Code
unfolding bump
set_raw alloc m key bytes =
    if is_empty bytes
    then (m, failed)
    else let m' = bump m in upsert_field alloc m' (local_write m' key m.node_id none bytes)

-- The copy that fleece_state_manager_get and get_named hand out.
unfoldable copy_out : (ℕ → Bool) → List FieldEntry → Option ℕ → Option (List ℕ)
copy_out alloc fields none = none
copy_out alloc fields (some i) =
    let bytes = (get_or fields i zero_entry).bytes in
    if alloc (length bytes) then some bytes else none

-- fleece_state_manager_get
unfoldable pub get_raw : (ℕ → Bool) → StateManager → ℕ → Option (List ℕ)
unfolding copy_out
get_raw alloc m key = copy_out alloc m.fields (find_field m key)

unfoldable found : Option ℕ → Bool
found none = false
found (some i) = true

-- fleece_state_manager_exists
unfoldable pub exists_raw : StateManager → ℕ → Bool
unfolding found
exists_raw m key = found (find_field m key)

-- The slot of a removed field: no data, a fresh clock tick, and the tombstone mark.
unfoldable pub bury : ℕ → ℕ → FieldEntry → FieldEntry
bury timestamp origin f = record f {
  bytes = [];
  timestamp = timestamp;
  origin_node_id = origin;
  is_tombstone = true;
}

-- fleece_state_manager_remove
unfoldable pub remove_raw : StateManager → ℕ → StateManager × Code
unfolding bury bump
remove_raw m key = elim (find_field m key) [
  | none ↦ (m, failed)
  | some i ↦
      let m' = bump m in
      let f = get_or m.fields i zero_entry in
      (record m' { fields = set m.fields i (bury m'.local_timestamp f.origin_node_id f) }, ok)
]

-- FleeceFieldVersion
pub record FieldVersion : Type 0 where
  pub timestamp : ℕ
  pub node_id : ℕ
  pub size : ℕ

-- fleece_state_manager_get_version
unfoldable pub get_version : StateManager → ℕ → Option FieldVersion
get_version m key = elim (find_field m key) [
  | none ↦ none
  | some i ↦
      let f = get_or m.fields i zero_entry in
      some (record { timestamp = f.timestamp; node_id = f.node_id; size = length f.bytes })
]

-- fleece_state_manager_set_named
unfoldable pub set_named : (ℕ → Bool) → StateManager → List ℕ → List ℕ → StateManager × Code
unfolding bump
set_named alloc m [] bytes = (m, failed)
set_named alloc m (c ∷ cs) bytes =
    if is_empty bytes
    then (m, failed)
    else let m' = bump m in
      upsert_field alloc m' (local_write m' (hash_name (c ∷ cs)) m.node_id (some (c ∷ cs)) bytes)

-- fleece_state_manager_remove_named
unfoldable pub remove_named : StateManager → List ℕ → StateManager × Code
unfolding bury bump
remove_named m name = elim (find_field_owned m.fields (hash_name name) m.node_id) [
  | none ↦ (m, failed)
  | some i ↦
      let m' = bump m in
      let f = get_or m.fields i zero_entry in
      (record m' { fields = set m.fields i (bury m'.local_timestamp f.origin_node_id f) }, ok)
]

-- fleece_state_manager_get_named
unfoldable pub get_named : (ℕ → Bool) → StateManager → ℕ → List ℕ → Option (List ℕ)
unfolding copy_out
get_named alloc m owner name =
    copy_out alloc m.fields (find_field_owned m.fields (hash_name name) owner)

-- fleece_state_manager_exists_named
unfoldable pub exists_named : StateManager → ℕ → List ℕ → Bool
unfolding found
exists_named m owner name = found (find_field_owned m.fields (hash_name name) owner)

-- fleece_state_manager_get_meta_named: the timestamp and the author of a live field
unfoldable pub get_meta_named : StateManager → ℕ → List ℕ → Option (ℕ × ℕ)
get_meta_named m owner name = elim (find_field_owned m.fields (hash_name name) owner) [
  | none ↦ none
  | some i ↦ let f = get_or m.fields i zero_entry in some (f.timestamp, f.origin_node_id)
]

-- manager->last_write_tick = manager->current_tick
abbrev pub note_write : StateManager → StateManager
note_write m = record m { last_write_tick = m.current_tick }

-- fleece_state_manager_set_shared
unfoldable pub set_shared : (ℕ → Bool) → StateManager → List ℕ → List ℕ → StateManager × Code
unfolding bump
set_shared alloc m [] bytes = (m, failed)
set_shared alloc m (c ∷ cs) bytes =
    if is_empty bytes
    then (m, failed)
    else let m' = bump (note_write m) in
      upsert_field alloc m'
        (local_write m' (hash_name (c ∷ cs)) shared_owner_id (some (c ∷ cs)) bytes)

-- fleece_state_manager_remove_shared
unfoldable pub remove_shared : StateManager → List ℕ → StateManager × Code
unfolding bury bump
remove_shared m name = elim (find_field_owned m.fields (hash_name name) shared_owner_id) [
  | none ↦ (m, failed)
  | some i ↦
      let m' = note_write (bump m) in
      let f = get_or m.fields i zero_entry in
      (record m' { fields = set m.fields i (bury m'.local_timestamp m.node_id f) }, ok)
]

-- The comparison of fleece_state_manager_set_shared_cas; an `expected` of `none` is NULL.
unfoldable pub expectation_met : Option (List ℕ) → Option (List ℕ) → Bool
expectation_met none none = true
expectation_met none (some current) = false
expectation_met (some expected) none = false
expectation_met (some expected) (some current) = bytes_eq current expected

unfoldable pub live_bytes : List FieldEntry → Option ℕ → Option (List ℕ)
live_bytes fields none = none
live_bytes fields (some i) = some (get_or fields i zero_entry).bytes

unfoldable pub on_success : StateManager × Code → StateManager × Code
on_success (m, ok) = (note_write m, ok)
on_success (m, _) = (m, failed)

-- fleece_state_manager_set_shared_cas
unfoldable pub set_shared_cas :
    (ℕ → Bool) → StateManager → List ℕ → Option (List ℕ) → List ℕ → StateManager × Code
unfolding bump on_success expectation_met live_bytes
set_shared_cas alloc m [] expected bytes = (m, failed)
set_shared_cas alloc m (c ∷ cs) expected bytes =
    let key = hash_name (c ∷ cs) in
    let current = live_bytes m.fields (find_field_owned m.fields key shared_owner_id) in
    if is_empty bytes
    then (m, failed)
    else if not (expectation_met expected current)
    then (m, conflict)
    else let m' = bump m in
      on_success (upsert_field alloc m' (local_write m' key shared_owner_id (some (c ∷ cs)) bytes))
