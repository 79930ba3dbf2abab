-- ===== src/State/Bounded/Progress.antt =====
-- The records that a frame of the bounded exporter carries.
use fleece.Prelude.{ℕ, ◌≡◌, true, List, ◌∷◌, ◌++◌}
use fleece.State.{FieldEntry, shared_owner_id}
use fleece.State.Export.{eligible}
use fleece.State.Bounded.{PackState, is_taken}
use fleece.State.Bounded.Found.{IsDue}

-- The slot `j` is taken, and its entry is due.
abbrev IsCarried : ℕ → ℕ → PackState → Type 0
IsCarried since j s = (is_taken s.taken j ≡ true) × IsDue since s.fields j

-- The entry of a slot that is taken is among those that are written.
abbrev IsSplit : ℕ → List FieldEntry → Type 0
IsSplit since records =
    (f : FieldEntry) × (before after : List FieldEntry) × (records ≡ before ++ f ∷ after)
    × (eligible shared_owner_id since f ≡ true)
