-- ===== src/State/Fields/Reads.antt =====
-- The readers of fields as functions of the cell that the store has for the name.
use fleece.Prelude.{
  ℕ, ◌≡◌, Bool, true, false, Option, none, some, List, if◌then◌else◌, length, get_or, arith, inl,
  inr, Bool-cases,
}
use mathlib.Core.Option
use fleece.State.{StateManager, zero_entry}
use fleece.State.Hash.{hash_name}
use fleece.State.Slots.{owns, find_slot_owned, find_field_owned, find_field}
use fleece.State.Slots.View.{find_slot_owned-Found, absent, present}
use fleece.State.Slots.Cells.{Cell, cell_of, cell_at}
use fleece.State.Fields.{
  copy_out, get_raw, found, exists_raw, get_named, exists_named, get_meta_named, live_bytes,
}

-- A tombstone reads as no field.
unfoldable pub live : Option Cell → Option Cell
live none = none
live (some c) = if c.is_tombstone then none else some c

abbrev pub bytes_of : Option Cell → Option (List ℕ)
bytes_of = Option.map (λ c. c.bytes)

abbrev pub is_some {ℓ} : {A : Type ℓ} → Option A → Bool
is_some none = false
is_some (some a) = true

-- What find_field_owned returns, and what the map has then.
pub data FieldFound (m : StateManager) (k o : ℕ) : Type 0 where
  gone : find_field_owned m.fields k o ≡ none → live (cell_at m k o) ≡ none → FieldFound m k o
  alive :
      (i : ℕ)
      → find_slot_owned m.fields k o ≡ some i
      → find_field_owned m.fields k o ≡ some i
      → owns k o (get_or m.fields i zero_entry) ≡ true
      → (get_or m.fields i zero_entry).is_tombstone ≡ false
      → cell_at m k o ≡ some (cell_of (get_or m.fields i zero_entry))
      → FieldFound m k o

pub found_field : (m : StateManager) (k o : ℕ) → FieldFound m k o
unfolding find_field_owned live cell_at
found_field m k o = elim (find_slot_owned-Found m.fields k o) [
  | absent e l ↦ gone (rw (e, find_field_owned)) (rw (l, live))
  | present i e l w b ↦ elim (Bool-cases (get_or m.fields i zero_entry).is_tombstone) [
    | inl dead ↦ gone (rw (e, find_field_owned) (rw dead)) (rw (l, live) (rw dead))
    | inr not_dead ↦ alive i e (rw (e, find_field_owned) (rw not_dead)) w not_dead (rw l)
  ]
]

module _ (alloc : ℕ → Bool) (m : StateManager) (k o : ℕ) where
  pub live_bytes-cell :
      live_bytes m.fields (find_field_owned m.fields k o) ≡ bytes_of (live (cell_at m k o))
  unfolding live_bytes live
  live_bytes-cell = elim (found_field m k o) [
    | gone e l ↦ rw (e, l)
    | alive i s e w t c ↦ rw (e, c) (ground arith)
  ]

  copy_out-cell :
      ((n : ℕ) → alloc n ≡ true)
      → copy_out alloc m.fields (find_field_owned m.fields k o) ≡ bytes_of (live (cell_at m k o))
  unfolding copy_out live
  copy_out-cell h = elim (found_field m k o) [
    | gone e l ↦ rw (e, l)
    | alive i s e w t c ↦
        rw (e, c) (ground (arith, h (length (get_or m.fields i zero_entry).bytes)))
  ]

  found-cell : found (find_field_owned m.fields k o) ≡ is_some (live (cell_at m k o))
  unfolding found live
  found-cell = elim (found_field m k o) [
    | gone e l ↦ rw (e, l)
    | alive i s e w t c ↦ rw (e, c) (ground arith)
  ]

module _ (alloc : ℕ → Bool) (m : StateManager) (h : (n : ℕ) → alloc n ≡ true) where
  -- Every reader sees the same live cell.
  pub get_raw-cell : (k : ℕ) → get_raw alloc m k ≡ bytes_of (live (cell_at m k m.node_id))
  unfolding get_raw find_field
  get_raw-cell k = copy_out-cell alloc m k m.node_id h

  pub get_named-cell :
      (o : ℕ) (name : List ℕ)
      → get_named alloc m o name ≡ bytes_of (live (cell_at m (hash_name name) o))
  unfolding get_named
  get_named-cell o name = copy_out-cell alloc m (hash_name name) o h

pub exists_raw-cell :
    (m : StateManager) (k : ℕ) → exists_raw m k ≡ is_some (live (cell_at m k m.node_id))
unfolding exists_raw find_field
exists_raw-cell m k = found-cell (λ n. true) m k m.node_id

pub exists_named-cell :
    (m : StateManager) (o : ℕ) (name : List ℕ)
    → exists_named m o name ≡ is_some (live (cell_at m (hash_name name) o))
unfolding exists_named
exists_named-cell m o name = found-cell (λ n. true) m (hash_name name) o

pub get_meta_named-cell :
    (m : StateManager) (o : ℕ) (name : List ℕ)
    → get_meta_named m o name
      ≡ Option.map (λ c. (c.timestamp, c.origin_node_id)) (live (cell_at m (hash_name name) o))
unfolding get_meta_named live
get_meta_named-cell m o name = elim (found_field m (hash_name name) o) [
  | gone e l ↦ rw (e, get_meta_named) (rw l)
  | alive i s e w t c ↦ rw (e, get_meta_named) (rw c (ground arith))
]
