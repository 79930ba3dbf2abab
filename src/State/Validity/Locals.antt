-- ===== src/State/Validity/Locals.antt =====
-- The local operations, with regard to the invariant of State/Validity and to the clock.
use fleece.Prelude.{
  ℕ, ◌+◌, ◌^◌, ◌<◌, ◌≡◌, refl, Bool, true, Option, some, List, [], ◌∷◌, if-both, get_or, set, arith,
  inl,
}
use fleece.State.{StateManager, Code, ok, failed, conflict, zero_entry, shared_owner_id}
use fleece.State.Hash.{hash_name}
use fleece.State.Slots.{owns, find_slot_owned, find_field, Write, upsert_field, bump}
use fleece.State.Slots.Cells.{cell_of, cell_at}
use fleece.State.Fields.{
  is_empty, note_write, bury, set_raw, remove_raw, set_named, remove_named, set_shared,
  remove_shared, set_shared_cas, on_success,
}
use fleece.State.Fields.Reads.{found_field, gone, alive}
use fleece.State.Fields.Removes.{next_tick}
use fleece.State.Validity.{IsValid}
use fleece.State.Validity.Moves.{
  Moves, bury-IsValid, stay, write-Moves, bump-Moves, note-IsValid, note-Moves,
}

-- The remaining slots and clock of the operations, from a valid store whose clock has room for a tick.
module _ (alloc : ℕ → Bool) (m : StateManager) (v : IsValid m)
    (tick_room : m.local_timestamp + 1 < 2 ^ 64) where
  abbrev pub now : ℕ
  now = m.local_timestamp

  abbrev pub MovesPair : StateManager × Code → Type 0
  MovesPair s = Moves now 0 s.0

  pub local_moves :
      (w : Write)
      → w.timestamp ≡ (bump m).local_timestamp
      → MovesPair (upsert_field alloc (bump m) w)
  local_moves w e =
      write-Moves now 0 alloc (bump m) w (bump-Moves now 0 m refl tick_room v) (omega arith)

  pub set_raw_moves : (key : ℕ) (bytes : List ℕ) → MovesPair (set_raw alloc m key bytes)
  unfolding set_raw
  set_raw_moves key bytes =
      if-both MovesPair (is_empty bytes) (m, failed) _ (stay now 0 m refl v) (local_moves _ refl)

  pub set_named_moves : (name bytes : List ℕ) → MovesPair (set_named alloc m name bytes)
  unfolding set_named
  set_named_moves [] bytes = stay now 0 m refl v
  set_named_moves (c ∷ cs) bytes =
      if-both MovesPair (is_empty bytes) (m, failed) _ (stay now 0 m refl v) (local_moves _ refl)

  pub set_shared_moves : (name bytes : List ℕ) → MovesPair (set_shared alloc m name bytes)
  unfolding set_shared
  set_shared_moves [] bytes = stay now 0 m refl v
  set_shared_moves (c ∷ cs) bytes =
      if-both MovesPair (is_empty bytes) (m, failed) _ (stay now 0 m refl v)
        (write-Moves now 0 alloc (bump (note_write m)) _
          (bump-Moves now 0 (note_write m) refl tick_room (note-IsValid now 0 m v)) (omega arith))

  pub on_success-Moves :
      (s : StateManager × Code) → Moves now 0 s.0 → Moves now 0 m → MovesPair (on_success s)
  unfolding on_success
  on_success-Moves (n, ok) mv stays = note-Moves now 0 n mv
  on_success-Moves (n, failed) mv stays = mv
  on_success-Moves (n, conflict) mv stays = mv

  pub compare_and_set_moves :
      (name : List ℕ) (expected : Option (List ℕ)) (bytes : List ℕ)
      → MovesPair (set_shared_cas alloc m name expected bytes)
  unfolding set_shared_cas
  compare_and_set_moves [] expected bytes = stay now 0 m refl v
  compare_and_set_moves (c ∷ cs) expected bytes =
      if-both MovesPair (is_empty bytes) (m, failed) _ (stay now 0 m refl v)
        (if-both MovesPair _ (m, conflict) _ (stay now 0 m refl v)
          (on_success-Moves _ (local_moves _ refl) (stay now 0 m refl v)))

  pub buried-Moves :
      (m' : StateManager) (k o i og : ℕ)
      → find_slot_owned m.fields k o ≡ some i
      → owns k o (get_or m.fields i zero_entry) ≡ true
      → cell_at m k o ≡ some (cell_of (get_or m.fields i zero_entry))
      → m'.fields ≡ set m.fields i (bury (next_tick m) og (get_or m.fields i zero_entry))
      → m'.field_count ≡ m.field_count
      → m'.local_timestamp ≡ next_tick m
      → Moves now 0 m'
  buried-Moves m' k o i og s w c f n e = record {
    valid = bury-IsValid m m' k o i (next_tick m) og s w c f n (omega arith) (omega arith) v;
    later = omega arith;
    bounded = inl (omega arith);
  }

  pub remove_shared_moves : (name : List ℕ) → MovesPair (remove_shared m name)
  unfolding remove_shared
  remove_shared_moves name = elim (found_field m (hash_name name) shared_owner_id) [
    | gone e l ↦ rw (e, remove_shared) (stay now 0 m refl v)
    | alive i s e w d c ↦
        rw (e, remove_shared)
          (buried-Moves _ (hash_name name) shared_owner_id i m.node_id s w c refl refl refl)
  ]

  pub remove_named_moves : (name : List ℕ) → MovesPair (remove_named m name)
  unfolding remove_named
  remove_named_moves name = elim (found_field m (hash_name name) m.node_id) [
    | gone e l ↦ rw (e, remove_named) (stay now 0 m refl v)
    | alive i s e w d c ↦
        rw (e, remove_named) (buried-Moves _ (hash_name name) m.node_id i _ s w c refl refl refl)
  ]

  pub remove_raw_moves : (key : ℕ) → MovesPair (remove_raw m key)
  unfolding remove_raw find_field
  remove_raw_moves key = elim (found_field m key m.node_id) [
    | gone e l ↦ rw (e, remove_raw, find_field) (stay now 0 m refl v)
    | alive i s e w d c ↦
        rw (e, remove_raw, find_field) (buried-Moves _ key m.node_id i _ s w c refl refl refl)
  ]
