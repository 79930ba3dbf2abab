-- ===== src/Tests/Compaction.antt =====
-- Stores before and after fleece_state_manager_compact.
use fleece.Prelude.{◌≡◌, refl, [], ◌∷◌, ◌++◌, none, some, take, true}
use fleece.State.{StateManager, FieldEntry, ok, zero_entry}
use fleece.State.Slots.{find_slot_owned, find_field_owned, find_field, upsert_field}
use fleece.State.Fields.{set_raw, get_raw, remove_raw}
use fleece.State.Compact.{compact, kept}
use fleece.State.Compact.Laws.{survivors, take-compact}
use fleece.State.Compact.Unmoved.{compact-unmoved}
use fleece.Tests.Samples.{always, empty_store, small_store, pos_entry}

-- Two raw fields, of which the second is removed.
abbrev half_removed : StateManager
half_removed =
    (remove_raw (set_raw always (set_raw always empty_store 1 (10 ∷ [])).0 2 (20 ∷ [])).0 2).0

-- After the sweep, the removed key and then a new one are written.
abbrev rewritten : StateManager
rewritten = (set_raw always (compact half_removed) 2 (21 ∷ [])).0

abbrev overwritten : StateManager
overwritten = (set_raw always rewritten 3 (30 ∷ [])).0

-- The write of the new key takes the slot of the other, whose value is lost.
value_is_lost :
    (get_raw always rewritten 2 ≡ some (21 ∷ []))
    × ((set_raw always rewritten 3 (30 ∷ [])).1 ≡ ok)
    × (get_raw always overwritten 2 ≡ none)
unfolding compact set_raw get_raw remove_raw find_field find_field_owned find_slot_owned
    upsert_field
value_is_lost = (refl, refl, refl)

take-compact_example :
    take (compact half_removed).field_count (compact half_removed).fields
    ≡ survivors half_removed.fields
take-compact_example = take-compact half_removed

abbrev dead_entry : FieldEntry
dead_entry = record pos_entry { name = []; bytes = []; is_tombstone = true }

abbrev trailing_dead : StateManager
trailing_dead = record small_store {
  fields = pos_entry ∷ dead_entry ∷ zero_entry ∷ [];
  field_count = 2;
}

compact-unmoved_example : compact trailing_dead ≡ record trailing_dead {
  fields = (pos_entry ∷ []) ++ (dead_entry ∷ zero_entry ∷ []);
  field_count = 1;
}
unfolding kept
compact-unmoved_example =
    compact-unmoved trailing_dead (pos_entry ∷ []) (dead_entry ∷ zero_entry ∷ []) refl (refl, tt)
      (refl, (refl, tt))
