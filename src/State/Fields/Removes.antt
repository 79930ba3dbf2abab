-- ===== src/State/Fields/Removes.antt =====
-- The removals: what a reader sees afterwards, and the tombstone that is left.
use fleece.Prelude.{
  ℕ, ◌+◌, ◌%◌, ◌^◌, ◌≡◌, ◌∙◌, refl, Bool, true, false, ◌&&◌, Option, none, some, List, [], ◌==◌,
  if◌then◌else◌, get_or, set, arith,
}
use mathlib.Core.Option
use fleece.State.{FieldEntry, StateManager, ok, failed, zero_entry, shared_owner_id}
use fleece.State.Hash.{hash_name}
use fleece.State.Slots.{owns, find_slot_owned, find_field_owned}
use fleece.State.Slots.View.{lookup-set_found}
use fleece.State.Slots.Cells.{Cell, cell_of, cell_at}
use fleece.State.Fields.{bury, remove_named, remove_shared, get_named, exists_named}
use fleece.State.Fields.Reads.{live, gone, alive, found_field, get_named-cell, exists_named-cell}

-- The cell of a removed field.
unfoldable pub buried : ℕ → ℕ → Cell → Cell
buried timestamp origin c = record c {
  bytes = [];
  timestamp = timestamp;
  origin_node_id = origin;
  is_tombstone = true;
}

-- The store with the live slot `i` of the key and owner buried.
pub cell_at-bury :
    (m m' : StateManager) (k o i ts og j p : ℕ)
    → find_slot_owned m.fields k o ≡ some i
    → owns k o (get_or m.fields i zero_entry) ≡ true
    → cell_at m k o ≡ some (cell_of (get_or m.fields i zero_entry))
    → m'.fields ≡ set m.fields i (bury ts og (get_or m.fields i zero_entry))
    → cell_at m' j p
      ≡ (if k == j && o == p then Option.map (buried ts og) (cell_at m k o) else cell_at m j p)
unfolding cell_at bury buried
cell_at-bury m m' k o i ts og j p s w c e =
    rw (e, c, lookup-set_found m.fields k o i (bury ts og (get_or m.fields i zero_entry)) j p s w)
      (ground arith)

live-some :
    (m : StateManager) (k o i : ℕ)
    → (get_or m.fields i zero_entry).is_tombstone ≡ false
    → cell_at m k o ≡ some (cell_of (get_or m.fields i zero_entry))
    → live (cell_at m k o) ≡ some (cell_of (get_or m.fields i zero_entry))
live-some m k o i t c = rw c (unfold live in rw t)

live-buried : (ts og : ℕ) (c : Option Cell) → live (Option.map (buried ts og) c) ≡ none
unfolding live buried
live-buried ts og none = refl
live-buried ts og (some c) = refl

-- The clock tick that a removal stamps its tombstone with.
abbrev pub next_tick : StateManager → ℕ
next_tick m = (m.local_timestamp + 1) % 2 ^ 64

-- What each removal returns without a live field, and the slots that it leaves with one.
buried_fields : StateManager → ℕ → ℕ → List FieldEntry
buried_fields m i og = set m.fields i (bury (next_tick m) og (get_or m.fields i zero_entry))

module _ (m : StateManager) (name : List ℕ) where
  shared_gone :
      find_field_owned m.fields (hash_name name) shared_owner_id ≡ none
      → remove_shared m name ≡ (m, failed)
  unfolding remove_shared
  shared_gone e = rw (e, remove_shared)

  shared_alive :
      (i : ℕ)
      → find_field_owned m.fields (hash_name name) shared_owner_id ≡ some i
      → ((remove_shared m name).1 ≡ ok)
        × ((remove_shared m name).0.fields ≡ buried_fields m i m.node_id)
  unfolding remove_shared buried_fields
  shared_alive i e = (rw (e, remove_shared), rw (e, remove_shared))

  named_gone :
      find_field_owned m.fields (hash_name name) m.node_id ≡ none
      → remove_named m name ≡ (m, failed)
  unfolding remove_named
  named_gone e = rw (e, remove_named)

  named_alive :
      (i : ℕ)
      → find_field_owned m.fields (hash_name name) m.node_id ≡ some i
      → ((remove_named m name).1 ≡ ok)
        × ((remove_named m name).0.fields
            ≡ buried_fields m i (get_or m.fields i zero_entry).origin_node_id)
  unfolding remove_named buried_fields
  named_alive i e = (rw (e, remove_named), rw (e, remove_named))

  -- remove_shared buries the live shared cell of the name under a fresh timestamp and the local
  -- node's authorship; without one it changes nothing and fails.
  pub remove_shared_cell :
      (j p : ℕ)
      → ((remove_shared m name).1 ≡ (if exists_named m shared_owner_id name then ok else failed))
        × (cell_at (remove_shared m name).0 j p ≡ (
            if exists_named m shared_owner_id name && (hash_name name == j && shared_owner_id == p)
            then Option.map (buried (next_tick m) m.node_id) (cell_at m j p)
            else cell_at m j p))
  remove_shared_cell j p = elim (found_field m (hash_name name) shared_owner_id) [
    | gone e l ↦ rw (shared_gone e, exists_named-cell m shared_owner_id name, l) (refl, refl)
    | alive i s e w t c ↦
        let (code, fs) = shared_alive i e in
        rw (exists_named-cell m shared_owner_id name, live-some m _ _ _ t c)
          (
            code,
            cell_at-bury m (remove_shared m name).0 (hash_name name) shared_owner_id i (next_tick m)
                  m.node_id j p s w c (unfold buried_fields in fs)
                ∙ ground arith,
          )
  ]

  -- remove_named succeeds exactly if the local node's own field of that name is live; then its cell
  -- becomes a tombstone of the same author that is stamped by a tick of the clock, and every other cell
  -- stays as it was.
  pub remove_named_cell :
      (j p : ℕ)
      → ((remove_named m name).1 ≡ (if exists_named m m.node_id name then ok else failed))
        × (cell_at (remove_named m name).0 j p ≡ (
            if exists_named m m.node_id name && (hash_name name == j && m.node_id == p)
            then Option.map (λ c. buried (next_tick m) c.origin_node_id c) (cell_at m j p)
            else cell_at m j p))
  remove_named_cell j p = elim (found_field m (hash_name name) m.node_id) [
    | gone e l ↦ rw (named_gone e, exists_named-cell m m.node_id name, l) (refl, refl)
    | alive i s e w t c ↦
        let (code, fs) = named_alive i e in
        rw (exists_named-cell m m.node_id name, live-some m _ _ _ t c)
          (
            code,
            cell_at-bury m (remove_named m name).0 (hash_name name) m.node_id i (next_tick m)
                  (get_or m.fields i zero_entry).origin_node_id j p s w c
                  (unfold buried_fields in fs)
                ∙ ground (arith, c),
          )
  ]

  -- Where every allocation succeeds for the reader: remove_shared succeeds exactly if a reader
  -- finds the field; afterwards the field reads as absent, and every other named field as before.
  pub get_named-remove_shared :
      (alloc : ℕ → Bool) (owner : ℕ) (other : List ℕ)
      → ((n : ℕ) → alloc n ≡ true)
      → ((remove_shared m name).1 ≡ (if exists_named m shared_owner_id name then ok else failed))
        × (get_named alloc (remove_shared m name).0 owner other ≡ (
            if hash_name name == hash_name other && shared_owner_id == owner
            then none
            else get_named alloc m owner other))
  get_named-remove_shared alloc owner other h = (
    (remove_shared_cell 0 0).0,
    rw
        (
          get_named-cell alloc (remove_shared m name).0 h owner other,
          get_named-cell alloc m h owner other,
          (remove_shared_cell (hash_name other) owner).1,
        )
        (ground (
          arith,
          exists_named-cell m shared_owner_id name,
          live-buried (next_tick m) m.node_id (cell_at m (hash_name other) owner),
        )),
  )
