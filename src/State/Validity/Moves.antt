-- ===== src/State/Validity/Moves.antt =====
-- The parts that the proof of the invariant has for each operation: a write, a burial, a tick of the
-- clock.
use fleece.Prelude.{
  ℕ, ◌+◌, ◌^◌, ◌≤◌, ◌<◌, ◌≡◌, refl, Bool, true, ◌⊎◌, some, get_or, set, arith, inl, inr, Bool-cases,
}
use fleece.State.{StateManager, zero_entry}
use fleece.State.Slots.{owns, find_slot_owned, Write, upsert_field, bump}
use fleece.State.Slots.View.{Packed-set_found}
use fleece.State.Slots.Writes.{fits, upsert_refused, upsert-IsPacked, upsert_frame}
use fleece.State.Slots.Cells.{cell_of, cell_at, cell_written, cell_at-upsert}
use fleece.State.Fields.{note_write, bury}
use fleece.State.Fields.Removes.{buried, cell_at-bury}
use fleece.State.Validity.{IsValid}

-- The store is valid, and its clock stands between `t` and one tick past it, or past it at `b`.
pub record Moves (t b : ℕ) (m : StateManager) : Type 0 where
  pub valid : IsValid m
  pub later : t ≤ m.local_timestamp
  pub bounded : (m.local_timestamp ≤ t + 1) ⊎ (m.local_timestamp ≤ b)

-- Only the slots, their count and the clock matter to validity.
pub IsValid-frame :
    (m m' : StateManager)
    → m'.fields ≡ m.fields
    → m'.field_count ≡ m.field_count
    → m.local_timestamp ≤ m'.local_timestamp
    → IsValid m
    → IsValid m'
unfolding cell_at
IsValid-frame m m' f n t v = record {
  packed = rw (f, n) v.packed;
  clock = λ j p c e. ground (arith, v.clock j p c (rw f at e));
}

pub write-IsValid :
    (alloc : ℕ → Bool) (m : StateManager) (w : Write)
    → w.timestamp ≤ m.local_timestamp
    → IsValid m
    → IsValid (upsert_field alloc m w).0
unfolding cell_written
write-IsValid alloc m w t v = elim (Bool-cases (fits alloc m w)) [
  | inr no_room ↦ rw (upsert_refused alloc m w no_room) v
  | inl room ↦ record {
    packed = upsert-IsPacked alloc m w v.packed;
    clock = λ j p c e. ground (
      arith,
      upsert_frame alloc m w,
      cell_at-upsert alloc m w j p v.packed room,
      v.clock j p c,
      e,
    );
  }
]

-- A store whose live slot `i` is buried under a timestamp that the clock has reached.
pub bury-IsValid :
    (m m' : StateManager) (k o i ts og : ℕ)
    → find_slot_owned m.fields k o ≡ some i
    → owns k o (get_or m.fields i zero_entry) ≡ true
    → cell_at m k o ≡ some (cell_of (get_or m.fields i zero_entry))
    → m'.fields ≡ set m.fields i (bury ts og (get_or m.fields i zero_entry))
    → m'.field_count ≡ m.field_count
    → m.local_timestamp ≤ m'.local_timestamp
    → ts ≤ m'.local_timestamp
    → IsValid m
    → IsValid m'
unfolding buried bury
bury-IsValid m m' k o i ts og s w c f n t h v = record {
  packed =
      rw (f, n)
        (Packed-set_found m.field_count m.fields i _ v.packed (ground arith) (ground arith));
  clock = λ j p d e. ground (arith, cell_at-bury m m' k o i ts og j p s w c f, v.clock j p d, e);
}

module _ (t b : ℕ) where
  pub stay : (m : StateManager) → m.local_timestamp ≡ t → IsValid m → Moves t b m
  stay m e v = record { valid = v; later = omega arith; bounded = inl (omega arith) }

  -- A write on a store whose clock has just been moved.
  pub write-Moves :
      (alloc : ℕ → Bool) (m : StateManager) (w : Write)
      → Moves t b m
      → w.timestamp ≤ m.local_timestamp
      → Moves t b (upsert_field alloc m w).0
  write-Moves alloc m w mv h = record {
    valid = write-IsValid alloc m w h mv.valid;
    later = rw ((upsert_frame alloc m w).0) mv.later;
    bounded = rw ((upsert_frame alloc m w).0) mv.bounded;
  }

  pub bump-Moves :
      (m : StateManager) → m.local_timestamp ≡ t → t + 1 < 2 ^ 64 → IsValid m → Moves t b (bump m)
  unfolding bump
  bump-Moves m e h v = record {
    valid = IsValid-frame m (bump m) refl refl (omega arith) v;
    later = omega arith;
    bounded = inl (omega arith);
  }

  pub note-IsValid : (m : StateManager) → IsValid m → IsValid (note_write m)
  note-IsValid m v = IsValid-frame m (note_write m) refl refl (omega arith) v

  pub note-Moves : (m : StateManager) → Moves t b m → Moves t b (note_write m)
  note-Moves m mv = record {
    valid = note-IsValid m mv.valid;
    later = mv.later;
    bounded = mv.bounded;
  }
