-- ===== src/Planner/Search/Runs.antt =====
-- What it means to carry out a plan, said without the search: the actions one after the other, from
-- a blackboard and a cost so far.
use fleece.Prelude.{ℕ, List, [], ◌∷◌, Option, none, some, get_elem?, if◌then◌else◌}
use fleece.Prelude.Maybe.{◌>>=◌}
use fleece.Doubles.{dbl_add}
use fleece.Planner.{FleeceGoap}
use fleece.Planner.Blackboard.{Blackboard}
use fleece.Planner.Goals.{GoapEval, is_satisfied}
use fleece.Planner.Search.{action_cost_for}

module _ (goap : FleeceGoap) (eval : GoapEval) where
  -- One action: it is in the table, its precondition holds, and its effect can be applied.
  unfoldable pub carry_out : ℕ → Blackboard → ℕ → Option (Blackboard × ℕ)
  carry_out a bb cost = elim (get_elem? goap.actions a) [
    | none ↦ none
    | some act ↦
        if is_satisfied (eval.action_pre a bb)
        then elim (eval.action_apply a bb) [
          | none ↦ none
          | some dst ↦ some (dst, dbl_add cost (action_cost_for eval act a bb))
        ]
        else none
  ]

  unfoldable pub carry_out_all : List ℕ → Blackboard → ℕ → Option (Blackboard × ℕ)
  unfolding carry_out
  carry_out_all [] bb cost = some (bb, cost)
  carry_out_all (a ∷ steps) bb cost = carry_out a bb cost >>= λ r. carry_out_all steps r.0 r.1
