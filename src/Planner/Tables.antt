-- ===== src/Planner/Tables.antt =====
-- Registration and lookup of src/planner/fleece_planner.c. Allocations are taken to succeed.
pub mod Laws
use fleece.Prelude.{
  ℕ, zero, suc, List, [], ◌∷◌, ◌++◌, Bool, true, false, Option, none, some, length, ltb, leb,
  bytes_eq, ◌==◌, if◌then◌else◌,
}
use fleece.Prelude.Maybe.{◌>>=◌, ◌>>◌, require}
use fleece.Doubles.{dbl_lt}
use fleece.Planner.{
  FleeceGoap, GoapAction, GoapGoal, GoapPoint, GoapUtility, GoapMission, GoapActionDef, GoapGoalDef,
  GoapUtilityDef, GoapMissionDef, name_max, source_max, note_max,
}
use fleece.Planner.Sorting.{insertion_sort}

-- fleece_goap_create
unfoldable pub create_goap : FleeceGoap
create_goap = record {
  name = [];
  actions = [];
  goals = [];
  utilities = [];
  missions = [];
  max_iters = 2048;
  max_nodes = 512;
  max_plan_depth = 8;
}

-- fleece_goap_reset: the budgets stay.
unfoldable pub reset : FleeceGoap → FleeceGoap
reset g = record g { name = []; actions = []; goals = []; utilities = []; missions = [] }

-- copy_str: what `dst` holds afterwards, and whether the string fitted
unfoldable pub copy_str : ℕ → Option (List ℕ) → List ℕ × Bool
copy_str dst_sz none = ([], true)
copy_str dst_sz (some src) = if leb dst_sz (length src) then ([], false) else (src, true)

-- copy_str(...) != 0 as a failure, and what is copied otherwise
unfoldable pub copied : ℕ → Option (List ℕ) → Option (List ℕ)
unfolding copy_str
copied dst_sz src = let (dst, fitted) = copy_str dst_sz src in if fitted then some dst else none

-- fleece_goap_set_name: the name is emptied where it does not fit.
unfoldable pub set_name : FleeceGoap → Option (List ℕ) → FleeceGoap × Bool
unfolding copy_str
set_name g name = let (stored, ok) = copy_str name_max name in (record g { name = stored }, ok)

-- fleece_goap_set_max_iters, fleece_goap_set_max_nodes, fleece_goap_set_max_plan_depth
unfoldable pub set_max_iters : FleeceGoap → ℕ → FleeceGoap
set_max_iters g n = if ltb 0 n then record g { max_iters = n } else g

unfoldable pub set_max_nodes : FleeceGoap → ℕ → FleeceGoap
set_max_nodes g n = if ltb 0 n then record g { max_nodes = n } else g

unfoldable pub set_max_plan_depth : FleeceGoap → ℕ → FleeceGoap
set_max_plan_depth g n = if ltb 0 n then record g { max_plan_depth = n } else g

-- fleece_goap_add_action: `none` is -1, and then the table has the actions that it had.
unfoldable pub add_action : FleeceGoap → GoapActionDef → Option FleeceGoap
unfolding copied
add_action g def = do
  _ ← def.id
  id ← copied name_max def.id
  name ← copied name_max def.name
  cost ← copied source_max def.cost
  exec ← copied source_max def.exec
  dest ← copied name_max def.dest
  some (record g {
    actions =
        g.actions
        ++ record {
          id = id;
          name = name;
          cost = cost;
          exec = exec;
          dest = dest;
          dur = def.dur;
          pre = def.pre;
          eff = def.eff;
        }
          ∷ [];
  })

-- fleece_goap_add_goal
unfoldable pub add_goal : FleeceGoap → GoapGoalDef → Option FleeceGoap
unfolding copied
add_goal g def = do
  _ ← def.id
  id ← copied name_max def.id
  name ← copied name_max def.name
  expr ← copied source_max def.expr
  curve_id ← copied name_max def.curve_id
  some (record g {
    goals =
        g.goals
        ++ record {
          id = id;
          name = name;
          expr = expr;
          priority = def.priority;
          curve_id = curve_id;
        }
          ∷ [];
  })

-- u->points[j].x > key.x
unfoldable pub point_after : GoapPoint → GoapPoint → Bool
point_after p key = dbl_lt key.x p.x

-- The curve with its points sorted ascending by `x`.
unfoldable pub sorted_curve : GoapUtility → GoapUtility
unfolding point_after insertion_sort
sorted_curve u = record u { points = insertion_sort point_after u.points }

-- fleece_goap_add_utility
unfoldable pub add_utility : FleeceGoap → GoapUtilityDef → Option FleeceGoap
unfolding copied sorted_curve
add_utility g def = do
  _ ← def.id
  id ← copied name_max def.id
  name ← copied name_max def.name
  dim ← copied name_max def.dim
  some (record g {
    utilities =
        g.utilities
        ++ sorted_curve (record {
          id = id;
          name = name;
          dim = dim;
          x_min = def.x_min;
          x_max = def.x_max;
          points = def.points;
        })
          ∷ [];
  })

-- fleece_goap_add_mission
unfoldable pub add_mission : FleeceGoap → GoapMissionDef → Option FleeceGoap
unfolding copied
add_mission g def = do
  _ ← def.id
  id ← copied name_max def.id
  name ← copied name_max def.name
  note ← copied note_max def.note
  some (record g {
    missions =
        g.missions ++ record { id = id; name = name; goal_ids = def.goal_ids; note = note } ∷ [];
  })

-- The definitions that fleece_goap_deserialize registers: its strings are those that it has read.
abbrev pub action_def : GoapAction → GoapActionDef
action_def a = record {
  id = some a.id;
  name = some a.name;
  cost = some a.cost;
  dest = some a.dest;
  dur = a.dur;
  exec = some a.exec;
  pre = a.pre;
  eff = a.eff;
}

abbrev pub goal_def : GoapGoal → GoapGoalDef
goal_def x = record {
  id = some x.id;
  name = some x.name;
  expr = some x.expr;
  priority = x.priority;
  curve_id = some x.curve_id;
}

abbrev pub utility_def : GoapUtility → GoapUtilityDef
utility_def u = record {
  id = some u.id;
  name = some u.name;
  dim = some u.dim;
  x_min = u.x_min;
  x_max = u.x_max;
  points = u.points;
}

abbrev pub mission_def : GoapMission → GoapMissionDef
mission_def m = record {
  id = some m.id;
  name = some m.name;
  goal_ids = m.goal_ids;
  note = some m.note;
}

-- The loop of the four lookups from `i` on; UINT32_MAX is `none`.
unfoldable pub find_from : {A : Type 0} → (A → List ℕ) → ℕ → List A → List ℕ → Option ℕ
find_from id_of i [] id = none
find_from id_of i (x ∷ xs) id =
    let rest = find_from id_of (suc i) xs id in if bytes_eq (id_of x) id then some i else rest

-- fleece_goap_find_action, fleece_goap_find_goal, fleece_goap_find_utility
unfoldable pub find_action : FleeceGoap → List ℕ → Option ℕ
unfolding find_from
find_action g id = find_from (λ a. a.id) 0 g.actions id

unfoldable pub find_goal : FleeceGoap → List ℕ → Option ℕ
unfolding find_from
find_goal g id = find_from (λ a. a.id) 0 g.goals id

unfoldable pub find_utility : FleeceGoap → List ℕ → Option ℕ
unfolding find_from
find_utility g id = find_from (λ a. a.id) 0 g.utilities id
