-- ===== src/State/Compact.antt =====
-- fleece_state_manager_compact: an in-place sweep over all slots.
pub mod Laws
pub mod Unmoved
use fleece.Prelude.{
  ℕ, zero, suc, ◌+◌, Bool, not, ◌&&◌, ◌||◌, List, ◌==◌, if◌then◌else◌, length, get_or, set,
}
use fleece.State.{FieldEntry, StateManager, zero_entry}
use fleece.State.Fields.{is_empty}

-- Live entries of any kind and named tombstones are kept.
unfoldable pub kept : FieldEntry → Bool
kept f = f.exists && (not f.is_tombstone || not (is_empty f.name))

-- The body of the loop: the slots and `write_idx` after the slot `read_idx`.
unfoldable pub compact_step : List FieldEntry → ℕ → ℕ → List FieldEntry × ℕ
unfolding kept
compact_step fields write_idx read_idx =
    let f = get_or fields read_idx zero_entry in
    if kept f
    then (
      if write_idx == read_idx then fields else set (set fields write_idx f) read_idx zero_entry,
      write_idx + 1,
    )
    else (fields, write_idx)

-- The loop, with the rounds that are left.
unfoldable pub compact_loop : ℕ → ℕ → List FieldEntry × ℕ → List FieldEntry × ℕ
unfolding compact_step
compact_loop zero read_idx s = s
compact_loop (suc n) read_idx (fields, write_idx) =
    compact_loop n (read_idx + 1) (compact_step fields write_idx read_idx)

unfoldable pub compact : StateManager → StateManager
unfolding compact_loop
compact m =
    let (fields, write_idx) = compact_loop (length m.fields) 0 (m.fields, 0) in
    record m { fields = fields; field_count = write_idx }
