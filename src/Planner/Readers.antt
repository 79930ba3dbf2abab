-- ===== src/Planner/Readers.antt =====
-- The readers of the tables in src/planner/fleece_planner.c. NULL, for an index out of range, is
-- `none`.
use fleece.Prelude.{ℕ, List, Option, none, some, length, get_elem?}
use fleece.Prelude.Maybe.{◌>>=◌}
use fleece.Doubles.{dbl_zero}
use fleece.Planner.{FleeceGoap, GoapPoint}

-- fleece_goap_name
unfoldable pub planner_name : FleeceGoap → List ℕ
planner_name g = g.name

-- The readers of one action.
unfoldable pub action_count : FleeceGoap → ℕ
action_count g = length g.actions

unfoldable pub action_id : FleeceGoap → ℕ → Option (List ℕ)
action_id g idx = get_elem? g.actions idx >>= λ x. some x.id

unfoldable pub action_name : FleeceGoap → ℕ → Option (List ℕ)
action_name g idx = get_elem? g.actions idx >>= λ x. some x.name

unfoldable pub action_cost_source : FleeceGoap → ℕ → Option (List ℕ)
action_cost_source g idx = get_elem? g.actions idx >>= λ x. some x.cost

unfoldable pub action_exec : FleeceGoap → ℕ → Option (List ℕ)
action_exec g idx = get_elem? g.actions idx >>= λ x. some x.exec

unfoldable pub action_dest : FleeceGoap → ℕ → Option (List ℕ)
action_dest g idx = get_elem? g.actions idx >>= λ x. some x.dest

unfoldable pub action_dur : FleeceGoap → ℕ → ℕ
action_dur g idx = elim (get_elem? g.actions idx) [ none ↦ dbl_zero | some x ↦ x.dur ]

unfoldable pub action_pre_count : FleeceGoap → ℕ → ℕ
action_pre_count g idx = elim (get_elem? g.actions idx) [ none ↦ 0 | some x ↦ length x.pre ]

unfoldable pub action_pre : FleeceGoap → ℕ → ℕ → Option (List ℕ)
action_pre g idx i = get_elem? g.actions idx >>= λ x. get_elem? x.pre i

unfoldable pub action_eff_count : FleeceGoap → ℕ → ℕ
action_eff_count g idx = elim (get_elem? g.actions idx) [ none ↦ 0 | some x ↦ length x.eff ]

unfoldable pub action_eff : FleeceGoap → ℕ → ℕ → Option (List ℕ)
action_eff g idx i = get_elem? g.actions idx >>= λ x. get_elem? x.eff i

-- The readers of one goal.
unfoldable pub goal_count : FleeceGoap → ℕ
goal_count g = length g.goals

unfoldable pub goal_id : FleeceGoap → ℕ → Option (List ℕ)
goal_id g idx = get_elem? g.goals idx >>= λ x. some x.id

unfoldable pub goal_name : FleeceGoap → ℕ → Option (List ℕ)
goal_name g idx = get_elem? g.goals idx >>= λ x. some x.name

unfoldable pub goal_expr : FleeceGoap → ℕ → Option (List ℕ)
goal_expr g idx = get_elem? g.goals idx >>= λ x. some x.expr

unfoldable pub goal_curve_id : FleeceGoap → ℕ → Option (List ℕ)
goal_curve_id g idx = get_elem? g.goals idx >>= λ x. some x.curve_id

unfoldable pub goal_priority : FleeceGoap → ℕ → ℕ
goal_priority g idx = elim (get_elem? g.goals idx) [ none ↦ dbl_zero | some x ↦ x.priority ]

-- The readers of one utility.
unfoldable pub utility_count : FleeceGoap → ℕ
utility_count g = length g.utilities

unfoldable pub utility_id : FleeceGoap → ℕ → Option (List ℕ)
utility_id g idx = get_elem? g.utilities idx >>= λ x. some x.id

unfoldable pub utility_name : FleeceGoap → ℕ → Option (List ℕ)
utility_name g idx = get_elem? g.utilities idx >>= λ x. some x.name

unfoldable pub utility_dim : FleeceGoap → ℕ → Option (List ℕ)
utility_dim g idx = get_elem? g.utilities idx >>= λ x. some x.dim

unfoldable pub utility_x_min : FleeceGoap → ℕ → ℕ
utility_x_min g idx = elim (get_elem? g.utilities idx) [ none ↦ dbl_zero | some x ↦ x.x_min ]

unfoldable pub utility_x_max : FleeceGoap → ℕ → ℕ
utility_x_max g idx = elim (get_elem? g.utilities idx) [ none ↦ dbl_zero | some x ↦ x.x_max ]

unfoldable pub utility_point_count : FleeceGoap → ℕ → ℕ
utility_point_count g idx = elim (get_elem? g.utilities idx) [ none ↦ 0 | some x ↦ length x.points ]

-- The readers of one mission.
unfoldable pub mission_count : FleeceGoap → ℕ
mission_count g = length g.missions

unfoldable pub mission_id : FleeceGoap → ℕ → Option (List ℕ)
mission_id g idx = get_elem? g.missions idx >>= λ x. some x.id

unfoldable pub mission_name : FleeceGoap → ℕ → Option (List ℕ)
mission_name g idx = get_elem? g.missions idx >>= λ x. some x.name

unfoldable pub mission_note : FleeceGoap → ℕ → Option (List ℕ)
mission_note g idx = get_elem? g.missions idx >>= λ x. some x.note

unfoldable pub mission_goal_count : FleeceGoap → ℕ → ℕ
mission_goal_count g idx = elim (get_elem? g.missions idx) [ none ↦ 0 | some x ↦ length x.goal_ids ]

unfoldable pub mission_goal_id : FleeceGoap → ℕ → ℕ → Option (List ℕ)
mission_goal_id g idx i = get_elem? g.missions idx >>= λ x. get_elem? x.goal_ids i

-- The origin where there is no such point.
unfoldable pub utility_point : FleeceGoap → ℕ → ℕ → GoapPoint
utility_point g idx i = elim (get_elem? g.utilities idx >>= λ x. get_elem? x.points i) [
  | none ↦ record { x = dbl_zero; y = dbl_zero }
  | some p ↦ p
]
