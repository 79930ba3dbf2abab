-- ===== src/Tests/Merges.antt =====
-- Replicas that get the same records in different orders.
use fleece.Prelude.{◌≡◌, refl, List, [], ◌∷◌, some, arith, ap, inl, inr, Among}
use fleece.State.{shared_owner_id}
use fleece.State.Hash.{hash_name}
use fleece.State.Slots.{find_slot_owned, upsert_field}
use fleece.State.Slots.View.{lookup}
use fleece.State.Slots.Writes.{IsPacked}
use fleece.State.Slots.Cells.{cell_at}
use fleece.State.Merge.{Remote, merge_shared}
use fleece.State.Merge.Step.{HasRoom, next_cell, merge_shared_cell, cell}
use fleece.State.Merge.Winner.{IsLast, IsConsistent, SameRecords}
use fleece.State.Merge.Convergence.{merge_all, merge_all-IsLast, convergence}
use fleece.Tests.Samples.{always, bat_name, empty_store, bat_written, bat_removed}

empty_store-HasRoom : HasRoom always 2 empty_store
empty_store-HasRoom = record { memory = λ n. refl; slots = omega arith }

empty_store-IsPacked : IsPacked empty_store
empty_store-IsPacked = (refl, (refl, (refl, tt)))

abbrev one_order : List Remote
one_order = bat_written ∷ bat_removed ∷ []

abbrev other_order : List Remote
other_order = bat_removed ∷ bat_written ∷ []

either_order : (r a b : Remote) → Among r (a ∷ b ∷ []) → Among r (b ∷ a ∷ [])
either_order r a b (inl e) = inr (inl e)
either_order r a b (inr (inl e)) = inl e
either_order r a b (inr (inr n)) = absurd n

same_records : SameRecords one_order other_order
same_records r = (either_order r bat_written bat_removed, either_order r bat_removed bat_written)

-- Of the two records, only one has each timestamp.
consistent : IsConsistent one_order
unfolding cell
consistent r s k (inl e) (inl e') p q t o = rw (e, e') refl
consistent r s k (inr (inl e)) (inr (inl e')) p q t o = rw (e, e') refl
consistent r s k (inl e) (inr (inl e')) p q t o =
    absurd (omega (arith, ap (λ x. x.timestamp) e, ap (λ x. x.timestamp) e'))
consistent r s k (inr (inl e)) (inl e') p q t o =
    absurd (omega (arith, ap (λ x. x.timestamp) e, ap (λ x. x.timestamp) e'))
consistent r s k (inr (inr n)) (inl e') p q t o = absurd n
consistent r s k (inr (inr n)) (inr (inl e')) p q t o = absurd n
consistent r s k (inr (inr n)) (inr (inr x)) p q t o = absurd n
consistent r s k (inl e) (inr (inr n)) p q t o = absurd n
consistent r s k (inr (inl e)) (inr (inr n)) p q t o = absurd n

convergence_example :
    cell_at (merge_all always empty_store one_order) (hash_name bat_name) shared_owner_id
    ≡ cell_at (merge_all always empty_store other_order) (hash_name bat_name) shared_owner_id
convergence_example =
    convergence always empty_store empty_store one_order other_order empty_store-HasRoom
      empty_store-HasRoom empty_store-IsPacked empty_store-IsPacked same_records consistent
      (λ k. refl) (hash_name bat_name)

merge_all-IsLast_example :
    IsLast
      (hash_name bat_name)
      (cell_at empty_store (hash_name bat_name) shared_owner_id)
      one_order
      (cell_at (merge_all always empty_store one_order) (hash_name bat_name) shared_owner_id)
merge_all-IsLast_example =
    merge_all-IsLast always empty_store one_order (hash_name bat_name) empty_store-HasRoom
      empty_store-IsPacked

-- Both orders end with the removal.
removal_wins :
    (cell_at (merge_all always empty_store one_order) (hash_name bat_name) shared_owner_id
      ≡ some (cell bat_removed))
    × (cell_at (merge_all always empty_store other_order) (hash_name bat_name) shared_owner_id
        ≡ some (cell bat_removed))
unfolding merge_all merge_shared cell_at lookup cell find_slot_owned upsert_field hash_name
removal_wins = (refl, refl)

merge_shared_cell_example :
    cell_at (merge_shared always empty_store bat_written).0 (hash_name bat_name) shared_owner_id
    ≡ next_cell
        (hash_name bat_name)
        bat_written
        (cell_at empty_store (hash_name bat_name) shared_owner_id)
merge_shared_cell_example =
    merge_shared_cell always empty_store bat_written (hash_name bat_name)
      (record { memory = λ n. refl; slots = omega arith }) empty_store-IsPacked
