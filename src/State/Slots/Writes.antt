-- ===== src/State/Slots/Writes.antt =====
-- upsert_field on the map that the slots represent.
use fleece.Prelude.{
  ℕ, ◌+◌, ◌≤◌, ◌<◌, ◌≡◌, refl, Bool, true, false, ◌&&◌, not, Option, none, some, ◌==◌,
  if◌then◌else◌, leb, length, length-set, get_or, set, arith, inl, inr, Bool-cases,
}
use native.Mathlib.Numerals.{add-one}
use fleece.State.{FieldEntry, StateManager, ok, failed, zero_entry}
use fleece.State.Slots.{find_slot_owned, Write, fill_slot, open_slot, upsert_field}
use fleece.State.Slots.View.{
  lookup, Packed, absent, present, find_slot_owned-Found, lookup-set_found, lookup-set_new,
  Packed-set_found, Packed-set_new,
}

abbrev pub IsPacked : StateManager → Type 0
IsPacked m = Packed m.field_count m.fields

-- The entry that upsert_field leaves, given the one that was there.
unfoldable pub written : StateManager → Write → Option FieldEntry → FieldEntry
unfolding fill_slot open_slot
written m w (some f) = fill_slot f w
written m w none = fill_slot (open_slot (get_or m.fields m.field_count zero_entry) w.key) w

-- The tests of upsert_field: the allocation, and a slot for the key.
unfoldable pub fits : (ℕ → Bool) → StateManager → Write → Bool
fits alloc m w =
    if not w.is_tombstone && not (alloc (length w.bytes))
    then false
    else elim (lookup m.fields w.key w.owner_node_id) [
      | some f ↦ true
      | none ↦ not (leb (length m.fields) m.field_count)
    ]

module _ (alloc : ℕ → Bool) (m : StateManager) (w : Write) where
  -- What does not fit is refused, and nothing is changed.
  pub upsert_refused : fits alloc m w ≡ false → upsert_field alloc m w ≡ (m, failed)
  unfolding upsert_field fits
  upsert_refused h = elim (find_slot_owned-Found m.fields w.key w.owner_node_id) [
    | absent e l ↦ rw e (ground arith)
    | present i e l o b ↦ rw e (ground arith)
  ]

  pub upsert_fits : fits alloc m w ≡ true → (upsert_field alloc m w).1 ≡ ok
  unfolding upsert_field fits
  upsert_fits h = elim (find_slot_owned-Found m.fields w.key w.owner_node_id) [
    | absent e l ↦ rw e (ground arith)
    | present i e l o b ↦ rw e (ground arith)
  ]

  -- What fits is written, and every other key keeps its entry.
  pub upsert_lookup :
      (j p : ℕ)
      → IsPacked m
      → fits alloc m w ≡ true
      → lookup (upsert_field alloc m w).0.fields j p ≡ (
          if w.key == j && w.owner_node_id == p
          then some (written m w (lookup m.fields w.key w.owner_node_id))
          else lookup m.fields j p)
  unfolding upsert_field fits written
  upsert_lookup j p pk h = elim (find_slot_owned-Found m.fields w.key w.owner_node_id) [
    | absent e l ↦
        rw (e, l)
          (ground (
            arith,
            l,
            lookup-set_new m.fields m.field_count w.key w.owner_node_id
                (fill_slot (open_slot (get_or m.fields m.field_count zero_entry) w.key) w) j p,
          ))
    | present i e l o b ↦
        rw (e, l)
          (ground (
            arith,
            lookup-set_found m.fields w.key w.owner_node_id i
                (fill_slot (get_or m.fields i zero_entry) w) j p,
          ))
  ]

  upsert_found :
      (i : ℕ)
      → find_slot_owned m.fields w.key w.owner_node_id ≡ some i
      → fits alloc m w ≡ true
      → upsert_field alloc m w
        ≡ (record m { fields = set m.fields i (fill_slot (get_or m.fields i zero_entry) w) }, ok)
  unfolding upsert_field fits
  upsert_found i e h = rw e (ground arith)

  upsert_new :
      find_slot_owned m.fields w.key w.owner_node_id ≡ none
      → lookup m.fields w.key w.owner_node_id ≡ none
      → fits alloc m w ≡ true
      → (m.field_count < length m.fields)
        × (upsert_field alloc m w ≡ (
          record m {
            fields = set m.fields m.field_count (written m w none);
            field_count = m.field_count + 1;
          },
          ok,
        ))
  unfolding upsert_field fits written
  upsert_new e l h = (ground arith, rw e (ground arith))

  -- In a store whose used slots stand in front of the free ones, they still do after any write, be it
  -- refused or not.
  pub upsert-IsPacked : IsPacked m → IsPacked (upsert_field alloc m w).0
  upsert-IsPacked pk = elim (Bool-cases (fits alloc m w)) [
    | inr no_room ↦ rw (upsert_refused no_room) pk
    | inl room ↦ elim (find_slot_owned-Found m.fields w.key w.owner_node_id) [
      | absent e l ↦
          let (lt, eq) = upsert_new e l room in
          rw (eq, add-one)
            (Packed-set_new m.field_count m.fields (written m w none) pk lt
              (unfold written fill_slot open_slot in refl))
      | present i e l o b ↦ rw (upsert_found i e room) (
          Packed-set_found m.field_count m.fields i _ pk (ground arith)
            (unfold fill_slot in ground arith))
    ]
  ]

  -- Nothing but the slots and their count is touched, and no slot is added beyond one.
  pub upsert_frame :
      ((upsert_field alloc m w).0.local_timestamp ≡ m.local_timestamp)
      × ((upsert_field alloc m w).0.node_id ≡ m.node_id)
      × ((upsert_field alloc m w).0.last_write_tick ≡ m.last_write_tick)
      × ((upsert_field alloc m w).0.current_tick ≡ m.current_tick)
      × ((upsert_field alloc m w).0.peers_seen ≡ m.peers_seen)
      × (length (upsert_field alloc m w).0.fields ≡ length m.fields)
      × ((upsert_field alloc m w).0.field_count ≤ m.field_count + 1)
  upsert_frame = elim (Bool-cases (fits alloc m w)) [
    | inr no_room ↦ rw (upsert_refused no_room) (ground arith)
    | inl room ↦ elim (find_slot_owned-Found m.fields w.key w.owner_node_id) [
      | absent e l ↦
          rw ((upsert_new e l room).1)
            (ground (arith, length-set m.fields m.field_count (written m w none)))
      | present i e l o b ↦
          rw (upsert_found i e room)
            (ground (arith, length-set m.fields i (fill_slot (get_or m.fields i zero_entry) w)))
    ]
  ]
