-- ===== src/Tests/Plans.antt =====
-- A planner with two actions, its runs, and what the theorems say of them.
use fleece.Prelude.{
  ℕ, zero, suc, ◌+◌, ◌≤◌, ◌<◌, ◌≡◌, ◌⊎◌, ◌↔◌, refl, arith, List, [], ◌∷◌, Bool, true, false, Option,
  none, some, length, ◌==◌, if◌then◌else◌,
}
use fleece.Doubles.{dbl_zero, dbl_one, dbl_le, dbl_lt, dbl_mul, dbl_is_nan, dbl_rank}
use fleece.Planner.{FleeceGoap, FleeceGoapPlan, GoapAction, GoapGoal}
use fleece.Planner.Blackboard.{Blackboard, bb_get, bb_set, bb_clone}
use fleece.Planner.Goals.{GoapEval, is_open, goal_utility, select_goal}
use fleece.Planner.Goals.Ranking.{IsOpen, utility, select_goal-best}
use fleece.Planner.Heap.{Heap, HeapEntry, item, heap_push, heap_pop}
use fleece.Planner.Heap.Slots.{IsNumeric, IsHeap, key, count, tally}
use fleece.Planner.Heap.Order.{heap_push-IsHeap, heap_pop-IsHeap}
use fleece.Planner.Search.{
  SearchState, initial, root_node, plan, targets_of, ids_at, goals_met, search, round, Round, stop,
  found, go,
}
use fleece.Planner.Search.Reachable.{begins, goes_on, IsSane, Onward, Reachable-Onward}
use fleece.Planner.Search.Rounds.{search_terminates}
use fleece.Planner.Visited.{VisitedSet, visited_init, visited_add}
use fleece.Planner.Visited.Fresh.{Seen}
use fleece.Planner.Visited.Refines.{
  IsFull, visited_add-Seen, visited_add_refused, visited_add-IsTable, visited_init-IsTable,
}
use fleece.Planner.Search.Runs.{carry_out_all}
use fleece.Planner.Search.Sound.{plan-Reaches}

-- Field "a", field "b", and the JSON text 1.
abbrev field_a : List ℕ
field_a = 97 ∷ []

abbrev field_b : List ℕ
field_b = 98 ∷ []

abbrev json_one : List ℕ
json_one = 49 ∷ []

abbrev action_named : List ℕ → GoapAction
action_named id = record {
  id = id;
  name = id;
  cost = [];
  exec = [];
  dest = [];
  dur = 0;
  pre = [];
  eff = [];
}

abbrev goal_b : GoapGoal
goal_b = record { id = field_b; name = field_b; expr = []; priority = dbl_one; curve_id = [] }

abbrev two_actions : FleeceGoap
two_actions = record {
  name = [];
  actions = action_named field_a ∷ action_named field_b ∷ [];
  goals = goal_b ∷ [];
  utilities = [];
  missions = [];
  max_iters = 8;
  max_nodes = 4;
  max_plan_depth = 3;
}

abbrev has_field : Option (List ℕ) → Bool
has_field none = false
has_field (some x) = true

-- Action 0 sets `a`; action 1 sets `b` and needs `a`; the goal is that `b` is set.
abbrev two_steps : GoapEval
two_steps = record {
  action_pre = λ a bb. some (if a == 0 then true else has_field (bb_get bb field_a));
  action_apply = λ a bb. bb_set bb (if a == 0 then field_a else field_b) json_one false;
  goal_satisfied = λ g bb. some (has_field (bb_get bb field_b));
  action_cost = none;
}

abbrev two_plan : FleeceGoapPlan
two_plan = record {
  action_ids = field_a ∷ field_b ∷ [];
  total_cost = 0x4000_0000_0000_0000;
  iters = 3;
}

two_plan_found : plan two_actions [] [] two_steps ≡ some two_plan
unfolding plan bb_get
two_plan_found = refl

plan-Reaches_example :
    (steps : List ℕ) × (last : Blackboard) × (two_plan.action_ids ≡ ids_at two_actions steps)
    × (carry_out_all two_actions two_steps steps [] dbl_zero ≡ some (last, two_plan.total_cost))
    × (goals_met two_steps (0 ∷ []) last ≡ true)
    × (length steps ≤ two_actions.max_plan_depth)
    × (two_plan.iters ≤ two_actions.max_iters)
plan-Reaches_example =
    plan-Reaches two_actions two_steps [] [] [] (0 ∷ []) two_plan (unfold targets_of in refl)
      (unfold bb_clone in refl) two_plan_found

abbrev start_state : SearchState
start_state = initial two_actions (root_node two_steps (0 ∷ []) [])

search_terminates_example :
    search two_actions two_steps (0 ∷ []) 100 start_state 0
    ≡ search two_actions two_steps (0 ∷ []) two_actions.max_iters start_state 0
search_terminates_example =
    search_terminates two_actions two_steps (0 ∷ []) 100 start_state (omega arith)

-- The state after the first round.
abbrev state_after : Round → SearchState
state_after stop = start_state
state_after (found p) = start_state
state_after (go s) = s

abbrev second_state : SearchState
unfolding round
second_state = state_after (round two_actions two_steps (0 ∷ []) start_state 0)

first_round : round two_actions two_steps (0 ∷ []) start_state 0 ≡ go second_state
unfolding round initial root_node bb_get
first_round = refl

Reachable-Onward_example :
    IsSane second_state
    × Onward two_actions two_steps
        (0 ∷ [])
        second_state
        1
        (round two_actions two_steps (0 ∷ []) second_state 1)
Reachable-Onward_example =
    Reachable-Onward two_actions two_steps (0 ∷ []) (root_node two_steps (0 ∷ []) []) second_state 1
      (goes_on begins first_round)

-- A table of five slots, empty and with one key.
abbrev no_states : VisitedSet
no_states = visited_init 2

abbrev one_state : VisitedSet
one_state = (visited_add no_states field_a).0

field_b_added : visited_add one_state field_b ≡ ((visited_add one_state field_b).0, true)
unfolding visited_add visited_init
field_b_added = refl

field_a_refused : visited_add one_state field_a ≡ (one_state, false)
unfolding visited_add visited_init
field_a_refused = refl

visited_add-Seen_example :
    (¬ Seen field_b one_state)
    × (Seen field_a (visited_add one_state field_b).0
        ↔ ((field_a ≡ field_b) ⊎ Seen field_a one_state))
visited_add-Seen_example =
    visited_add-Seen one_state (visited_add one_state field_b).0 field_b field_a
      (visited_add-IsTable no_states field_a (visited_init-IsTable 2)) field_b_added

visited_add_refused_example :
    (one_state ≡ one_state) × (Seen field_a one_state ⊎ IsFull one_state field_a)
visited_add_refused_example = visited_add_refused one_state one_state field_a field_a_refused

-- Two entries, 1.0 above 2.0.
abbrev two_entries : Heap
two_entries = record { f = dbl_one; idx = 7 } ∷ record { f = 0x4000_0000_0000_0000; idx = 5 } ∷ []

two_entries-IsNumeric : IsNumeric two_entries
unfolding IsNumeric dbl_is_nan item
two_entries-IsNumeric zero lt = refl
two_entries-IsNumeric (suc zero) lt = refl
two_entries-IsNumeric (suc (suc i)) lt = absurd (omega arith)

two_entries-IsHeap : IsHeap two_entries
unfolding IsHeap key dbl_rank item
two_entries-IsHeap zero pos lt = absurd (omega arith)
two_entries-IsHeap (suc zero) pos lt = omega arith
two_entries-IsHeap (suc (suc i)) pos lt = absurd (omega arith)

abbrev is_five : HeapEntry → Bool
is_five e = e.idx == 5

-- Pushing 1.5 and popping.
heap_push-IsHeap_example :
    IsNumeric (heap_push two_entries 9 0x3ff8_0000_0000_0000)
    × IsHeap (heap_push two_entries 9 0x3ff8_0000_0000_0000)
    × (count is_five (heap_push two_entries 9 0x3ff8_0000_0000_0000)
        ≡ count is_five two_entries + tally is_five (record { f = 0x3ff8_0000_0000_0000; idx = 9 }))
heap_push-IsHeap_example =
    heap_push-IsHeap two_entries 9 0x3ff8_0000_0000_0000 is_five two_entries-IsNumeric
      (unfold dbl_is_nan in refl) two_entries-IsHeap

abbrev left_entry : Heap
left_entry = record { f = 0x4000_0000_0000_0000; idx = 5 } ∷ []

heap_pop-IsHeap_example :
    IsNumeric left_entry
    × IsHeap left_entry
    × ((item two_entries 0).idx ≡ 7)
    × (count is_five left_entry + tally is_five (item two_entries 0) ≡ count is_five two_entries)
    × (dbl_le (item two_entries 0).f (item two_entries 1).f ≡ true)
heap_pop-IsHeap_example =
    heap_pop-IsHeap is_five two_entries left_entry 7 1 two_entries-IsNumeric two_entries-IsHeap
      (unfold heap_pop in refl) (omega arith)

-- A `strtod` that consumes nothing.
abbrev no_number : List ℕ → ℕ × ℕ
no_number s = (0, 0)

goal_selected : select_goal no_number two_actions [] two_steps dbl_zero ≡ some 0
unfolding select_goal goal_utility is_open bb_get dbl_lt dbl_mul
goal_selected = refl

goal-IsOpen : IsOpen no_number two_actions [] two_steps 0
unfolding is_open bb_get
goal-IsOpen = refl

select_goal-best_example :
    (0 < length two_actions.goals)
    × IsOpen no_number two_actions [] two_steps 0
    × (dbl_lt dbl_zero (utility no_number two_actions [] two_steps 0) ≡ true)
    × (dbl_lt
          (utility no_number two_actions [] two_steps 0)
          (utility no_number two_actions [] two_steps 0)
        ≡ false)
select_goal-best_example =
    select_goal-best no_number two_actions [] two_steps dbl_zero 0 0 goal_selected (omega arith)
      goal-IsOpen
