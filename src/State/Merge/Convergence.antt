-- ===== src/State/Merge/Convergence.antt =====
-- Streams of records, merged one after the other.
use fleece.Prelude.{ℕ, ◌≡◌, refl, ◌∙◌, ap, Bool, Option, List, [], ◌∷◌, length}
use fleece.State.{StateManager, shared_owner_id}
use fleece.State.Slots.Cells.{Cell, cell_at}
use fleece.State.Slots.Writes.{IsPacked}
use fleece.State.Merge.{Remote, merge_shared}
use fleece.State.Merge.Step.{HasRoom, IsReady, ready, merge_cell, merge_shared-IsReady}
use fleece.State.Merge.Winner.{
  last_cell, IsLast, last_cell-IsLast, IsConsistent, SameRecords, IsLast-unique,
}

-- The records of a stream, merged one after the other.
unfoldable pub merge_all : (ℕ → Bool) → StateManager → List Remote → StateManager
merge_all alloc m [] = m
merge_all alloc m (r ∷ rs) = merge_all alloc (merge_shared alloc m r).0 rs

module _ (alloc : ℕ → Bool) where
  merge_all_cell :
      (m : StateManager) (rs : List Remote) (j : ℕ)
      → IsReady alloc (length rs) m
      → cell_at (merge_all alloc m rs) j shared_owner_id
        ≡ last_cell j (cell_at m j shared_owner_id) rs
  unfolding merge_all last_cell
  merge_all_cell m [] j h = refl
  merge_all_cell m (r ∷ rs) j h =
      merge_all_cell (merge_shared alloc m r).0 rs j (merge_shared-IsReady alloc m r (length rs) h)
      ∙ ap (λ (c : Option Cell). last_cell j c rs) (merge_cell alloc m r (length rs) j h)

  -- The cell of a key after any sequence of merges is the one that was there, if no record of the key
  -- is newer, or that of a record which is newer than it and at least as new as every other, where
  -- every allocation succeeds, the fields are in the first field_count slots and there is a slot more
  -- for each record.
  pub merge_all-IsLast :
      (m : StateManager) (rs : List Remote) (j : ℕ)
      → HasRoom alloc (length rs) m
      → IsPacked m
      → IsLast j (cell_at m j shared_owner_id) rs (cell_at (merge_all alloc m rs) j shared_owner_id)
  merge_all-IsLast m rs j h packed =
      rw (merge_all_cell m rs j (ready h packed)) (last_cell-IsLast j _ rs)

  -- Two stores that agree on the shared cells and merge the same set of records, in any order and
  -- with any repetitions, agree on them afterwards, if records of one key and one version carry the
  -- same cell, every allocation succeeds, and both stores have their fields in the first field_count
  -- slots and a slot more for each record.
  pub convergence :
      (m n : StateManager) (rs ss : List Remote)
      → HasRoom alloc (length rs) m
      → HasRoom alloc (length ss) n
      → IsPacked m
      → IsPacked n
      → SameRecords rs ss
      → IsConsistent rs
      → ((j : ℕ) → cell_at m j shared_owner_id ≡ cell_at n j shared_owner_id)
      → (j : ℕ)
      → cell_at (merge_all alloc m rs) j shared_owner_id
        ≡ cell_at (merge_all alloc n ss) j shared_owner_id
  convergence m n rs ss hm hn pm pn same con agree j =
      IsLast-unique j (cell_at m j shared_owner_id) rs ss _ _ same con
        (merge_all-IsLast m rs j hm pm) (rw (agree j) (merge_all-IsLast n ss j hn pn))
