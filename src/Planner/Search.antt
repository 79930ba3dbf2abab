-- ===== src/Planner/Search.antt =====
-- The A* search of src/planner/fleece_planner.c, fleece_goap_plan. Allocations are taken to succeed;
-- the callbacks are those of `GoapEval`.
pub mod Runs
pub mod Rounds
pub mod Links
pub mod Sound
pub mod Reachable
use fleece.Prelude.{
  ℕ, zero, suc, ◌+◌, ◌-◌, ◌^◌, List, [], ◌∷◌, ◌++◌, Bool, true, false, not, ◌&&◌, Option, none,
  some, length, get_elem?, ltb, leb, if◌then◌else◌, rev_append, drop,
}
use fleece.Prelude.Maybe.{◌>>=◌}
use fleece.Doubles.{dbl_zero, dbl_one, dbl_lt, dbl_add, dbl_of_uint}
use fleece.Planner.{FleeceGoap, FleeceGoapPlan, GoapAction, GoapGoal}
use fleece.Planner.Blackboard.{Blackboard, bb_clone, make_state_key}
use fleece.Planner.Goals.{GoapEval, is_satisfied}
use fleece.Planner.Heap.{Heap, heap_push, heap_pop}
use fleece.Planner.Tables.{find_goal}
use fleece.Planner.Visited.{VisitedSet, visited_init, visited_add}

-- SearchNode: `parent` and `action_idx` are UINT32_MAX at the root, `none` and 2 ^ 32 - 1 here.
pub record SearchNode : Type 0 where
  pub bb : Blackboard
  pub parent : Option ℕ
  pub action_idx : ℕ
  pub depth : ℕ
  pub g : ℕ
  pub f : ℕ

-- What the search keeps: NodeList, Heap and VisitedSet.
pub record SearchState : Type 0 where
  pub nodes : List SearchNode
  pub heap : Heap
  pub visited : VisitedSet

-- What a round of the search loop comes to: the loop ends, a plan is found, or it goes on.
pub data Round : Type 0 where
  stop : Round
  found : FleeceGoapPlan → Round
  go : SearchState → Round

-- goals_met
unfoldable pub goals_met : GoapEval → List ℕ → Blackboard → Bool
unfolding is_satisfied
goals_met eval [] bb = true
goals_met eval (t ∷ ts) bb = is_satisfied (eval.goal_satisfied t bb) && goals_met eval ts bb

-- count_unsatisfied
unfoldable pub count_unsatisfied : GoapEval → List ℕ → Blackboard → ℕ
unfolding is_satisfied
count_unsatisfied eval [] bb = 0
count_unsatisfied eval (t ∷ ts) bb =
    let h = count_unsatisfied eval ts bb in
    if is_satisfied (eval.goal_satisfied t bb) then h else h + 1

-- What action_cost_for makes of the callback's answer.
unfoldable pub cost_or_default : Option ℕ → ℕ
cost_or_default none = dbl_one
cost_or_default (some c) = if not (dbl_lt c dbl_zero) then c else dbl_one

-- action_cost_for
unfoldable pub action_cost_for : GoapEval → GoapAction → ℕ → Blackboard → ℕ
unfolding cost_or_default
action_cost_for eval act a bb = elim act.cost [
  | [] ↦ dbl_one
  | c ∷ cs ↦ elim eval.action_cost [ none ↦ dbl_one | some cost ↦ cost_or_default (cost a bb) ]
]

-- goap->goals by id, all or nothing
unfoldable pub resolve_goals : FleeceGoap → List (List ℕ) → Option (List ℕ)
resolve_goals goap [] = some []
resolve_goals goap (id ∷ ids) = do
  idx ← find_goal goap id
  rest ← resolve_goals goap ids
  some (idx ∷ rest)

-- for (uint32_t i = 0; i < n_targets; i++) targets[i] = i;
unfoldable pub indices_from : {A : Type 0} → ℕ → List A → List ℕ
indices_from i [] = []
indices_from i (x ∷ xs) = i ∷ indices_from (suc i) xs

-- The goal set: explicit ids, or all goals.
unfoldable pub targets_of : FleeceGoap → List (List ℕ) → Option (List ℕ)
unfolding resolve_goals indices_from
targets_of goap [] = some (indices_from 0 goap.goals)
targets_of goap (id ∷ ids) = resolve_goals goap (id ∷ ids)

-- The root, a clone of `start`.
unfoldable pub root_node : GoapEval → List ℕ → Blackboard → SearchNode
unfolding count_unsatisfied dbl_of_uint
root_node eval targets bb = record {
  bb = bb;
  parent = none;
  action_idx = 2 ^ 32 - 1;
  depth = 0;
  g = dbl_zero;
  f = dbl_of_uint (count_unsatisfied eval targets bb);
}

-- The search with the root alone in it.
unfoldable pub initial : FleeceGoap → SearchNode → SearchState
unfolding heap_push visited_init visited_add make_state_key
initial goap root = record {
  nodes = root ∷ [];
  heap = heap_push [] 0 root.f;
  visited = (visited_add (visited_init goap.max_nodes) (make_state_key root.bb)).0;
}

-- The walk from a node to the root, collecting the action indices; a parent comes before its
-- child in the list, so as many rounds as there are nodes are enough.
unfoldable pub walk : ℕ → List SearchNode → Option ℕ → List ℕ
walk zero nodes cur = []
walk (suc n) nodes none = []
walk (suc n) nodes (some cur) = elim (get_elem? nodes cur) [
  | none ↦ []
  | some node ↦ node.action_idx ∷ walk n nodes node.parent
]

-- rev[k - 2 - i] for i = 0, 1, ...: the walk backwards, without the root's entry
unfoldable pub plan_steps : List SearchNode → ℕ → List ℕ
unfolding walk rev_append
plan_steps nodes node_idx = drop 1 (rev_append (walk (length nodes) nodes (some node_idx)) [])

-- goap->actions[ai].id
unfoldable pub id_at : FleeceGoap → ℕ → List ℕ
id_at goap a = elim (get_elem? goap.actions a) [ none ↦ [] | some act ↦ act.id ]

unfoldable pub ids_at : FleeceGoap → List ℕ → List (List ℕ)
unfolding id_at
ids_at goap [] = []
ids_at goap (a ∷ steps) = id_at goap a ∷ ids_at goap steps

unfoldable pub plan_to : FleeceGoap → List SearchNode → ℕ → SearchNode → ℕ → FleeceGoapPlan
unfolding plan_steps ids_at
plan_to goap nodes node_idx node iters = record {
  action_ids = ids_at goap (plan_steps nodes node_idx);
  total_cost = node.g;
  iters = iters;
}

module _ (goap : FleeceGoap) (eval : GoapEval) (targets : List ℕ) where
  -- The node that action `a` leads to from `node`, at `dst`.
  unfoldable pub next_node : GoapAction → ℕ → ℕ → SearchNode → Blackboard → SearchNode
  unfolding action_cost_for count_unsatisfied dbl_add dbl_of_uint
  next_node act a node_idx node dst =
      let g' = dbl_add node.g (action_cost_for eval act a node.bb) in
      record {
        bb = dst;
        parent = some node_idx;
        action_idx = a;
        depth = node.depth + 1;
        g = g';
        f = dbl_add g' (dbl_of_uint (count_unsatisfied eval targets dst));
      }

  -- if (!visited_add(...)) continue; if (next.depth > max_plan_depth) continue; push
  unfoldable pub offer : SearchState → SearchNode → SearchState
  unfolding visited_add heap_push make_state_key
  offer s next =
      let (visited', fresh) = visited_add s.visited (make_state_key next.bb) in
      if not fresh
      then s
      else if ltb goap.max_plan_depth next.depth
      then record s { visited = visited' }
      else record {
        nodes = s.nodes ++ next ∷ [];
        heap = heap_push s.heap (length s.nodes) next.f;
        visited = visited';
      }

  -- One action of the expansion: its precondition, its effect, and the offer.
  unfoldable pub try_action : SearchState → ℕ → SearchNode → GoapAction → ℕ → SearchState
  unfolding is_satisfied offer next_node
  try_action s node_idx node act a =
      if is_satisfied (eval.action_pre a node.bb)
      then elim (eval.action_apply a node.bb) [
        | none ↦ s
        | some dst ↦ offer s (next_node act a node_idx node dst)
      ]
      else s

  -- for (uint32_t a = 0; a < goap->action_count; a++), from `a` on
  unfoldable pub expand : SearchState → ℕ → SearchNode → List GoapAction → ℕ → SearchState
  unfolding try_action
  expand s node_idx node [] a = s
  expand s node_idx node (act ∷ acts) a =
      expand (try_action s node_idx node act a) node_idx node acts (suc a)

  -- One round of the search loop: its condition, the pop, the goal test, the expansion.
  unfoldable pub round : SearchState → ℕ → Round
  unfolding goals_met expand plan_to heap_pop
  round s iters =
      if leb (length s.nodes) goap.max_nodes && ltb iters goap.max_iters
      then elim (heap_pop s.heap) [
        | none ↦ stop
        | some (node_idx, heap') ↦ elim (get_elem? s.nodes node_idx) [
          | none ↦ stop
          | some node ↦
              if goals_met eval targets node.bb
              then found (plan_to goap s.nodes node_idx node (iters + 1))
              else go (expand (record s { heap = heap' }) node_idx node goap.actions 0)
        ]
      ]
      else stop

  -- The search loop, with at most `n` rounds left; `max_iters` of them are all that it makes.
  unfoldable pub search : ℕ → SearchState → ℕ → Option FleeceGoapPlan
  unfolding round
  search zero s iters = none
  search (suc n) s iters = elim (round s iters) [
    | stop ↦ none
    | found p ↦ some p
    | go s' ↦ search n s' (iters + 1)
  ]

-- fleece_goap_plan
unfoldable pub plan : FleeceGoap → Blackboard → List (List ℕ) → GoapEval → Option FleeceGoapPlan
unfolding targets_of search root_node initial bb_clone
plan goap start goal_ids eval = do
  targets ← targets_of goap goal_ids
  bb ← bb_clone start
  search goap eval targets goap.max_iters (initial goap (root_node eval targets bb)) 0
