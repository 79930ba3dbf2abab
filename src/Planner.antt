-- ===== src/Planner.antt =====
-- src/planner/fleece_planner.c: the planner's tables, and what their readers see of them. A C string
-- is the list of its bytes before the NUL. A string of a definition is `none` where it may be NULL and
-- is; those of an array are not NULL. A double is its 64 bits.
pub mod Sorting
pub mod Blackboard
pub mod Tables
pub mod Readers
pub mod Visited
pub mod Heap
pub mod Goals
pub mod Search
pub mod Wire
use fleece.Prelude.{ℕ, List, [], Option, none, some, length, get_elem?, ltb, if◌then◌else◌}
use fleece.Doubles.{dbl_zero}

-- FLEECE_GOAP_NAME_MAX, FLEECE_GOAP_SOURCE_MAX, FLEECE_GOAP_NOTE_MAX
abbrev pub name_max : ℕ
name_max = 64

abbrev pub source_max : ℕ
source_max = 2048

abbrev pub note_max : ℕ
note_max = 128

-- GoapAction: `pre` and `eff` hold `pre_count` and `eff_count` strings.
pub record GoapAction : Type 0 where
  pub id : List ℕ
  pub name : List ℕ
  pub cost : List ℕ
  pub exec : List ℕ
  pub dest : List ℕ
  pub dur : ℕ
  pub pre : List (List ℕ)
  pub eff : List (List ℕ)

-- GoapGoal
pub record GoapGoal : Type 0 where
  pub id : List ℕ
  pub name : List ℕ
  pub expr : List ℕ
  pub priority : ℕ
  pub curve_id : List ℕ

-- FleeceGoapPoint
pub record GoapPoint : Type 0 where
  pub x : ℕ
  pub y : ℕ

-- GoapUtility
pub record GoapUtility : Type 0 where
  pub id : List ℕ
  pub name : List ℕ
  pub dim : List ℕ
  pub x_min : ℕ
  pub x_max : ℕ
  pub points : List GoapPoint

-- GoapMission
pub record GoapMission : Type 0 where
  pub id : List ℕ
  pub name : List ℕ
  pub goal_ids : List (List ℕ)
  pub note : List ℕ

-- FleeceGoapActionDef
pub record GoapActionDef : Type 0 where
  pub id : Option (List ℕ)
  pub name : Option (List ℕ)
  pub cost : Option (List ℕ)
  pub dest : Option (List ℕ)
  pub dur : ℕ
  pub exec : Option (List ℕ)
  pub pre : List (List ℕ)
  pub eff : List (List ℕ)

-- FleeceGoapGoalDef
pub record GoapGoalDef : Type 0 where
  pub id : Option (List ℕ)
  pub name : Option (List ℕ)
  pub expr : Option (List ℕ)
  pub priority : ℕ
  pub curve_id : Option (List ℕ)

-- FleeceGoapUtilityDef
pub record GoapUtilityDef : Type 0 where
  pub id : Option (List ℕ)
  pub name : Option (List ℕ)
  pub dim : Option (List ℕ)
  pub x_min : ℕ
  pub x_max : ℕ
  pub points : List GoapPoint

-- FleeceGoapMissionDef
pub record GoapMissionDef : Type 0 where
  pub id : Option (List ℕ)
  pub name : Option (List ℕ)
  pub goal_ids : List (List ℕ)
  pub note : Option (List ℕ)

-- struct FleeceGoap: the counts are the lengths of the tables, and the capacities are not kept.
pub record FleeceGoap : Type 0 where
  pub name : List ℕ
  pub actions : List GoapAction
  pub goals : List GoapGoal
  pub utilities : List GoapUtility
  pub missions : List GoapMission
  pub max_iters : ℕ
  pub max_nodes : ℕ
  pub max_plan_depth : ℕ

-- struct FleeceGoapPlan: `length` is that of `action_ids`.
pub record FleeceGoapPlan : Type 0 where
  pub action_ids : List (List ℕ)
  pub total_cost : ℕ
  pub iters : ℕ

-- fleece_goap_plan_length, _action_id, _cost and _iters, where a plan that is absent is `none`
unfoldable pub plan_length : Option FleeceGoapPlan → ℕ
plan_length none = 0
plan_length (some p) = length p.action_ids

unfoldable pub plan_action_id : Option FleeceGoapPlan → ℕ → Option (List ℕ)
plan_action_id none i = none
plan_action_id (some p) i = get_elem? p.action_ids i

unfoldable pub plan_cost : Option FleeceGoapPlan → ℕ
plan_cost none = dbl_zero
plan_cost (some p) = p.total_cost

unfoldable pub plan_iters : Option FleeceGoapPlan → ℕ
plan_iters none = 0
plan_iters (some p) = p.iters
