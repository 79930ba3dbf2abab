-- ===== src/Tests/Stores.antt =====
-- The operations of a store, run and applied.
use fleece.Prelude.{
  ◌≡◌, ◌⊎◌, refl, true, false, ◌&&◌, List, [], ◌∷◌, none, some, ◌==◌, if◌then◌else◌, arith,
}
use fleece.State.{StateManager, ok, failed, conflict, shared_owner_id, zero_entry}
use fleece.State.Hash.{hash_name}
use fleece.State.Slots.View.{Packed}
use fleece.State.Slots.Writes.{IsPacked}
use fleece.State.Slots.Cells.{Cell, cell_at}
use fleece.State.Merge.Step.{HasRoom, beats}
use fleece.State.Fields.{
  set_named, get_named, set_shared, remove_shared, set_shared_cas, exists_named,
}
use fleece.State.Fields.Writes.{get_named-set_named, get_named-set_shared}
use fleece.State.Fields.CompareAndSet.{compare_and_set}
use fleece.State.Fields.Removes.{get_named-remove_shared}
use fleece.State.Slots.{find_slot_owned, find_field_owned, upsert_field}
use fleece.State.Validity.{IsValid, Operation, set_shared_op, tick_op, operate_all, merge_shared_op}
use fleece.State.Validity.Steps.{operate_all-IsValid}
use fleece.State.Validity.Newest.{set_shared-newest, remove_shared-newest}
use fleece.State.Peers.{touch_peer, ticks_since_seen}
use fleece.State.Peers.Laws.{ticks_since_seen-touch_peer, has_place}
use fleece.Tests.Samples.{always, pos_name, bat_name, two_bytes, small_store, bat_removed}

small_store-HasRoom : HasRoom always 1 small_store
small_store-HasRoom = record { memory = λ n. refl; slots = omega arith }

small_store-IsPacked : IsPacked small_store
small_store-IsPacked = (refl, (refl, (refl, (refl, tt))))

small_store-IsValid : IsValid small_store
unfolding cell_at fleece.State.Slots.View.lookup
small_store-IsValid = record { packed = small_store-IsPacked; clock = λ j p c e. ground arith }

get_named-set_named_example :
    ((set_named always small_store pos_name two_bytes).1 ≡ ok)
    × (get_named always (set_named always small_store pos_name two_bytes).0 5 pos_name
        ≡ some two_bytes)
unfolding hash_name
get_named-set_named_example =
    get_named-set_named always small_store small_store-HasRoom small_store-IsPacked pos_name
      two_bytes 5 pos_name refl refl

get_named-set_shared_example :
    ((set_shared always small_store pos_name two_bytes).1 ≡ ok)
    × (get_named always (set_shared always small_store pos_name two_bytes).0 0 pos_name
        ≡ some two_bytes)
unfolding hash_name
get_named-set_shared_example =
    get_named-set_shared always small_store small_store-HasRoom small_store-IsPacked pos_name
      two_bytes 0 pos_name refl refl

compare_and_set_example :
    ((get_named always small_store shared_owner_id pos_name ≡ some two_bytes)
      × ((set_shared_cas always small_store pos_name (some two_bytes) (9 ∷ [])).1 ≡ ok)
      × (get_named always
            (set_shared_cas always small_store pos_name (some two_bytes) (9 ∷ [])).0
            0
            pos_name
          ≡ (if hash_name pos_name == hash_name pos_name && shared_owner_id == 0
              then some (9 ∷ [])
              else get_named always small_store 0 pos_name)))
    ⊎ ((¬ (get_named always small_store shared_owner_id pos_name ≡ some two_bytes))
        × (set_shared_cas always small_store pos_name (some two_bytes) (9 ∷ [])
            ≡ (small_store, conflict)))
compare_and_set_example =
    compare_and_set always small_store small_store-HasRoom small_store-IsPacked pos_name
      (some two_bytes) (9 ∷ []) 0 pos_name refl refl

-- The expectation of that run is not met, and one that is.
conflict_run :
    ((set_shared_cas always small_store pos_name (some two_bytes) (9 ∷ [])).1 ≡ conflict)
    × ((set_shared_cas always small_store pos_name (some (1 ∷ 2 ∷ [])) (9 ∷ [])).1 ≡ ok)
unfolding set_shared_cas find_field_owned find_slot_owned hash_name upsert_field
conflict_run = (refl, refl)

abbrev three_operations : List Operation
three_operations = tick_op ∷ set_shared_op bat_name two_bytes ∷ merge_shared_op bat_removed ∷ []

operate_all-IsValid_example : IsValid (operate_all always small_store three_operations)
operate_all-IsValid_example =
    operate_all-IsValid always small_store three_operations 10 small_store-IsValid (omega arith)
      (omega arith, (omega arith, (omega arith, tt))) (omega arith)

set_shared-newest_example :
    (c : Cell) × (cell_at
        (set_shared always small_store pos_name two_bytes).0
        (hash_name pos_name)
        shared_owner_id
      ≡ some c)
    × (c.bytes ≡ two_bytes)
    × (c.is_tombstone ≡ false)
    × (c.origin_node_id ≡ 5)
    × (beats c (cell_at small_store (hash_name pos_name) shared_owner_id) ≡ true)
set_shared-newest_example =
    set_shared-newest small_store pos_name small_store-IsValid (omega arith) always two_bytes
      small_store-HasRoom refl refl

pos_is_there : exists_named small_store shared_owner_id pos_name ≡ true
unfolding exists_named find_field_owned find_slot_owned hash_name
pos_is_there = refl

remove_shared-newest_example :
    (c : Cell) × (cell_at
        (remove_shared small_store pos_name).0
        (hash_name pos_name)
        shared_owner_id
      ≡ some c)
    × (c.is_tombstone ≡ true)
    × (c.origin_node_id ≡ 5)
    × (beats c (cell_at small_store (hash_name pos_name) shared_owner_id) ≡ true)
remove_shared-newest_example =
    remove_shared-newest small_store pos_name small_store-IsValid (omega arith) pos_is_there

ticks_since_seen-touch_peer_example : ticks_since_seen (touch_peer small_store 9) 9 ≡ 0
unfolding has_place
ticks_since_seen-touch_peer_example =
    ticks_since_seen-touch_peer small_store 9 9 (λ e. omega (arith, e)) (λ e. omega (arith, e)) refl

get_named-remove_shared_example :
    ((remove_shared small_store pos_name).1
      ≡ (if exists_named small_store shared_owner_id pos_name then ok else failed))
    × (get_named always (remove_shared small_store pos_name).0 0 pos_name ≡ none)
unfolding hash_name
get_named-remove_shared_example =
    get_named-remove_shared small_store pos_name always 0 pos_name (λ n. refl)
