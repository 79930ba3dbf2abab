-- ===== src/Tests/Tables.antt =====
-- Registration, and a plan blob that is written and loaded.
use fleece.Prelude.{ℕ, ◌+◌, ◌≡◌, ◌⊎◌, refl, arith, List, [], ◌∷◌, ◌++◌, true, none, some, length}
use fleece.Doubles.{dbl_one, dbl_lt}
use fleece.Planner.{FleeceGoap, GoapActionDef, GoapAction, GoapGoal, GoapUtility, GoapMission}
use fleece.Planner.Tables.{create_goap, add_action, point_after}
use fleece.Planner.Tables.Laws.{HasRoom, action_of, add_action_cases}
use fleece.Planner.Wire.{serialize, serialize_body_size}
use fleece.Planner.Wire.Decode.{deserialize}
use fleece.Planner.Wire.Reading.{IsText}
use fleece.Planner.Wire.RoundTrip.{IsStored, loaded_planner, deserialize-serialize}
use fleece.Planner.Wire.Sizes.{length-serialize}

abbrev word : List ℕ
word = 103 ∷ 111 ∷ []

word-IsText : IsText word
word-IsText = (refl, omega arith)

nothing-IsText : IsText []
nothing-IsText = (refl, omega arith)

abbrev go_action : GoapAction
go_action = record {
  id = word;
  name = word;
  cost = [];
  exec = [];
  dest = [];
  dur = dbl_one;
  pre = word ∷ [];
  eff = [];
}

abbrev go_goal : GoapGoal
go_goal = record { id = word; name = word; expr = word; priority = dbl_one; curve_id = word }

-- From (0, 1) down to (1.0, 0).
abbrev go_curve : GoapUtility
go_curve = record {
  id = word;
  name = word;
  dim = word;
  x_min = 0;
  x_max = dbl_one;
  points = record { x = 0; y = dbl_one } ∷ record { x = dbl_one; y = 0 } ∷ [];
}

abbrev go_mission : GoapMission
go_mission = record { id = word; name = word; goal_ids = word ∷ []; note = [] }

abbrev go_planner : FleeceGoap
go_planner = record create_goap {
  name = word;
  actions = go_action ∷ [];
  goals = go_goal ∷ [];
  utilities = go_curve ∷ [];
  missions = go_mission ∷ [];
}

-- Two definitions: the action, and one with no id.
abbrev go_def : GoapActionDef
go_def = record {
  id = some word;
  name = some word;
  cost = none;
  dest = none;
  dur = dbl_one;
  exec = none;
  pre = word ∷ [];
  eff = [];
}

abbrev no_id : GoapActionDef
no_id = record go_def { id = none }

go_registered :
    (add_action create_goap go_def ≡ some (record create_goap { actions = go_action ∷ [] }))
    × (add_action create_goap no_id ≡ none)
unfolding add_action create_goap
go_registered = (refl, refl)

add_action_cases_example :
    ((add_action create_goap go_def
        ≡ some (record create_goap { actions = create_goap.actions ++ action_of go_def ∷ [] }))
      × (¬ (go_def.id ≡ none))
      × HasRoom (action_of go_def))
    ⊎ ((add_action create_goap go_def ≡ none)
        × ((go_def.id ≡ none) ⊎ (¬ HasRoom (action_of go_def))))
add_action_cases_example = add_action_cases create_goap go_def

go_planner-IsStored : IsStored go_planner
unfolding point_after dbl_lt
go_planner-IsStored = record {
  name = (word-IsText, omega arith);
  actions = (
    (
      (
        record {
          id = word-IsText;
          name = word-IsText;
          cost = nothing-IsText;
          exec = nothing-IsText;
          dest = nothing-IsText;
          dur = omega arith;
          pre = ((word-IsText, tt), omega arith);
          eff = (tt, omega arith);
        },
        (omega arith, omega arith, omega arith, omega arith, omega arith),
      ),
      tt,
    ),
    omega arith,
  );
  goals = (
    (
      (
        record {
          id = word-IsText;
          name = word-IsText;
          expr = word-IsText;
          priority = omega arith;
          curve_id = word-IsText;
        },
        (omega arith, omega arith, omega arith, omega arith),
      ),
      tt,
    ),
    omega arith,
  );
  utilities = (
    (
      (
        record {
          id = word-IsText;
          name = word-IsText;
          dim = word-IsText;
          x_min = omega arith;
          x_max = omega arith;
          points = ((omega arith, omega arith), ((omega arith, omega arith), tt));
          count = omega arith;
        },
        (omega arith, omega arith, omega arith),
        (refl, tt),
      ),
      tt,
    ),
    omega arith,
  );
  missions = (
    (
      (
        record {
          id = word-IsText;
          name = word-IsText;
          goal_ids = ((word-IsText, tt), omega arith);
          note = nothing-IsText;
        },
        (omega arith, omega arith, omega arith),
      ),
      tt,
    ),
    omega arith,
  );
}

deserialize-serialize_example :
    deserialize create_goap (serialize go_planner) ≡ (loaded_planner create_goap go_planner, true)
deserialize-serialize_example = deserialize-serialize create_goap go_planner go_planner-IsStored

length-serialize_example : length (serialize go_planner) ≡ 3 + serialize_body_size go_planner
length-serialize_example = length-serialize go_planner
