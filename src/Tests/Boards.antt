-- ===== src/Tests/Boards.antt =====
-- Small blackboards.
use fleece.Prelude.{◌≡◌, refl, [], ◌∷◌, ℕ, false, true, some, bytes_eq, if◌then◌else◌}
use mathlib.Core.List.{Permᴰ}
use fleece.Planner.Blackboard.{GoapField, Blackboard, bb_get, bb_set, make_state_key}
use fleece.Planner.Blackboard.Laws.{bb_get-bb_set}
use fleece.Planner.Blackboard.KeyOrder.{IsDistinct, make_state_key-Perm}

abbrev field_of : ℕ → GoapField
field_of c = record { name = c ∷ []; bytes = 49 ∷ []; is_shared = false }

abbrev two_fields : Blackboard
two_fields = field_of 98 ∷ field_of 97 ∷ []

abbrev two_swapped : Blackboard
two_swapped = field_of 97 ∷ field_of 98 ∷ []

abbrev two_updated : Blackboard
two_updated = field_of 98 ∷ record { name = 97 ∷ []; bytes = 50 ∷ 51 ∷ []; is_shared = true } ∷ []

two_fields_set : bb_set two_fields (97 ∷ []) (50 ∷ 51 ∷ []) true ≡ some two_updated
unfolding bb_set
two_fields_set = refl

bb_get-bb_set_example :
    bb_get two_updated (98 ∷ [])
    ≡ (if bytes_eq (97 ∷ []) (98 ∷ []) then some (50 ∷ 51 ∷ []) else bb_get two_fields (98 ∷ []))
bb_get-bb_set_example =
    bb_get-bb_set two_fields two_updated (97 ∷ []) (50 ∷ 51 ∷ []) (98 ∷ []) true two_fields_set

two_fields-IsDistinct : IsDistinct two_fields
unfolding IsDistinct
two_fields-IsDistinct = ((refl, tt), (tt, tt))

make_state_key-Perm_example : make_state_key two_fields ≡ make_state_key two_swapped
make_state_key-Perm_example =
    make_state_key-Perm two_fields two_swapped two_fields-IsDistinct (Permᴰ.swap refl refl)
