-- ===== src/Planner/Goals.antt =====
-- Utility and goal selection of src/planner/fleece_planner.c. The host's callbacks are a parameter,
-- functions of the index and the blackboard, and `none` is a nonzero return.
pub mod Ranking
use fleece.Prelude.{
  c_string, ℕ, zero, suc, ◌+◌, List, [], ◌∷◌, Bool, true, false, not, ◌&&◌, ◌||◌, Option, none,
  some, length, get_elem?, leb, bytes_eq, ◌==◌, if◌then◌else◌,
}
use fleece.Doubles.{dbl_zero, dbl_one, dbl_le, dbl_lt, dbl_eq, dbl_add, dbl_sub, dbl_mul, dbl_div}
use fleece.Planner.{FleeceGoap, GoapGoal, GoapPoint, GoapUtility}
use fleece.Planner.Blackboard.{Blackboard, bb_get}
use fleece.Planner.Sorting.{insertion_sort}

-- FleeceGoapEval: only `action_cost` may be NULL.
pub record GoapEval : Type 0 where
  pub action_pre : ℕ → Blackboard → Option Bool
  pub action_apply : ℕ → Blackboard → Option Blackboard
  pub goal_satisfied : ℕ → Blackboard → Option Bool
  pub action_cost : Option (ℕ → Blackboard → Option ℕ)

-- bool sat = false; if (eval->goal_satisfied(...) == 0) ... sat
unfoldable pub is_satisfied : Option Bool → Bool
is_satisfied none = false
is_satisfied (some b) = b

-- !(eval->goal_satisfied(...) != 0 || sat)
unfoldable pub is_open : Option Bool → Bool
is_open none = false
is_open (some b) = not b

-- fleece_goap_goal_satisfied: `none` is -1 or the callback's own failure.
unfoldable pub goal_satisfied : FleeceGoap → ℕ → Blackboard → GoapEval → Option Bool
goal_satisfied g idx bb eval = if leb (length g.goals) idx then none else eval.goal_satisfied idx bb

-- a->y + (b->y - a->y) * k, where k = (v - a->x) / (b->x - a->x), the divisor 1.0 where it is zero
unfoldable pub interpolate : GoapPoint → GoapPoint → ℕ → ℕ
interpolate a b v =
    let dx = dbl_sub b.x a.x in
    let k = dbl_div (dbl_sub v a.x) (if dbl_eq dx dbl_zero then dbl_one else dx) in
    dbl_add a.y (dbl_mul (dbl_sub b.y a.y) k)

-- The loop of curve_score over the segments, the first of which starts at `a`.
unfoldable pub segments_score : GoapPoint → List GoapPoint → ℕ → ℕ
unfolding interpolate
segments_score a [] v = dbl_zero
segments_score a (b ∷ ps) v =
    let rest = segments_score b ps v in
    if dbl_le a.x v && dbl_le v b.x then interpolate a b v else rest

-- pts[u->point_count - 1]
unfoldable pub last_point : GoapPoint → List GoapPoint → GoapPoint
last_point p [] = p
last_point p (q ∷ ps) = last_point q ps

-- curve_score
unfoldable pub curve_score : GoapUtility → ℕ → ℕ
unfolding segments_score last_point
curve_score u v = elim u.points [
  | [] ↦ dbl_zero
  | p ∷ ps ↦
      let q = last_point p ps in
      if dbl_le v p.x then p.y else if dbl_le q.x v then q.y else segments_score p ps v
]

-- u->point_count ? u->points[0].y : 1.0
unfoldable pub base_score : GoapUtility → ℕ
base_score u = elim u.points [ [] ↦ dbl_one | p ∷ ps ↦ p.y ]

-- The search of fleece_goap_goal_utility for the goal's curve, by its id.
unfoldable pub curve_by_id : List GoapUtility → List ℕ → Option GoapUtility
curve_by_id [] id = none
curve_by_id (u ∷ us) id = let rest = curve_by_id us id in if bytes_eq u.id id then some u else rest

unfoldable pub curve_of : FleeceGoap → GoapGoal → Option GoapUtility
unfolding curve_by_id
curve_of g goal = elim goal.curve_id [ [] ↦ none | c ∷ cs ↦ curve_by_id g.utilities goal.curve_id ]

-- `strtod` of the C library: the value, and how many bytes it has consumed.
module _ (strtod : List ℕ → ℕ × ℕ) where
  -- json_to_double
  unfoldable pub json_to_double : List ℕ → Option ℕ
  json_to_double json =
      let (v, consumed) = strtod (c_string json) in
      if length json == 0 || leb 64 (length json)
      then none
      else if consumed == 0 || not (consumed == length (c_string json))
      then none
      else some v

  -- The score of a curve on the field that it names.
  unfoldable pub field_score : GoapUtility → Option (List ℕ) → ℕ
  unfolding json_to_double curve_score base_score
  field_score u none = base_score u
  field_score u (some json) = elim (json_to_double json) [
    | none ↦ dbl_zero
    | some v ↦ curve_score u v
  ]

  unfoldable pub goal_score : Option GoapUtility → Blackboard → ℕ
  unfolding field_score base_score
  goal_score none bb = dbl_one
  goal_score (some u) bb = elim u.dim [
    | [] ↦ base_score u
    | d ∷ ds ↦ field_score u (bb_get bb u.dim)
  ]

  -- fleece_goap_goal_utility
  unfoldable pub goal_utility : FleeceGoap → ℕ → Blackboard → ℕ
  unfolding goal_score curve_of
  goal_utility g idx bb = elim (get_elem? g.goals idx) [
    | none ↦ dbl_zero
    | some goal ↦ dbl_mul (goal_score (curve_of g goal) bb) goal.priority
  ]

  -- The loop of fleece_goap_select_goal, with the best goal so far and its score.
  unfoldable pub select_from :
      FleeceGoap → Blackboard → GoapEval → ℕ → List GoapGoal → Option ℕ → ℕ → Option ℕ
  select_from g bb eval i [] best best_score = best
  select_from g bb eval i (x ∷ xs) best best_score =
      let s = goal_utility g i bb in
      let better = is_open (eval.goal_satisfied i bb) && dbl_lt best_score s in
      select_from g bb eval (suc i) xs (if better then some i else best)
        (if better then s else best_score)

  -- fleece_goap_select_goal: -1 is `none`.
  unfoldable pub select_goal : FleeceGoap → Blackboard → GoapEval → ℕ → Option ℕ
  unfolding select_from
  select_goal g bb eval threshold = select_from g bb eval 0 g.goals none threshold

  -- Whether fleece_goap_rank_goals keeps goal `i`.
  unfoldable pub ranked : FleeceGoap → Blackboard → GoapEval → ℕ → ℕ → Bool
  unfolding is_open
  ranked g bb eval threshold i =
      is_open (eval.goal_satisfied i bb) && not (dbl_le (goal_utility g i bb) threshold)

  -- Its first loop, which has `room` entries of `out` left.
  unfoldable pub collect_goals : (ℕ → Bool) → ℕ → List GoapGoal → ℕ → List ℕ
  collect_goals keep i [] room = []
  collect_goals keep i (x ∷ xs) zero = []
  collect_goals keep i (x ∷ xs) (suc room) =
      let more = collect_goals keep (suc i) xs in if keep i then i ∷ more room else more (suc room)

  -- fleece_goap_goal_utility(out[j]) < kscore
  unfoldable pub goal_after : FleeceGoap → Blackboard → ℕ → ℕ → Bool
  goal_after g bb i key = dbl_lt (goal_utility g i bb) (goal_utility g key bb)

  -- fleece_goap_rank_goals
  unfoldable pub rank_goals : FleeceGoap → Blackboard → GoapEval → ℕ → ℕ → List ℕ
  unfolding ranked collect_goals goal_after insertion_sort
  rank_goals g bb eval threshold room =
      insertion_sort (goal_after g bb) (collect_goals (ranked g bb eval threshold) 0 g.goals room)
