-- ===== src/Planner/Search/Reachable.antt =====
-- The states that the search loop of fleece_goap_plan runs through, and what holds in all of them.
use fleece.Prelude.{
  ℕ, suc, ◌+◌, ◌<◌, ◌≤◌, ◌≡◌, refl, List, [], ◌∷◌, true, ◌&&◌, none, some, inl, inr, arith, length,
  length-append, get_elem?, get_elem?-some, Bool-cases, Option-cases, ltb, leb,
}
use mathlib.Core.Path.{subst}
use fleece.Planner.{FleeceGoap, GoapAction}
use fleece.Planner.Goals.{GoapEval, is_satisfied}
use fleece.Planner.Blackboard.{make_state_key}
use fleece.Planner.Heap.{heap_push, heap_pop}
use fleece.Planner.Heap.Slots.{count}
use fleece.Planner.Heap.Contents.{IsWithin, heap_push-IsWithin, heap_pop-IsWithin}
use fleece.Planner.Search.{
  SearchNode, SearchState, initial, offer, next_node, try_action, expand, goals_met, round, Round,
  stop, found, go, plan_to,
}
use fleece.Planner.Visited.{visited_add}
use fleece.Planner.Visited.Fresh.{IsTable}
use fleece.Planner.Visited.Refines.{visited_add-IsTable, visited_init-IsTable}

-- Every index in the heap is that of a node, and every key of the table stands where its probing
-- comes to.
unfoldable pub IsSane : SearchState → Type 0
IsSane s = IsWithin (length s.nodes) s.heap × IsTable s.visited

initial-IsSane : (goap : FleeceGoap) (root : SearchNode) → IsSane (initial goap root)
unfolding IsSane initial
initial-IsSane goap root = (
  heap_push-IsWithin 0 [] root.f (unfold IsWithin count in refl),
  visited_add-IsTable _ (make_state_key root.bb) (visited_init-IsTable goap.max_nodes),
)

module _ (goap : FleeceGoap) (eval : GoapEval) (targets : List ℕ) where
  -- The states that rounds lead to from `start`, with the rounds made.
  pub data Reachable (start : SearchState) : SearchState → ℕ → Type 0 where
    begins : Reachable start start 0
    goes_on :
        {s s' : SearchState} {iters : ℕ}
        → Reachable start s iters
        → round goap eval targets s iters ≡ go s'
        → Reachable start s' (iters + 1)

  offer-IsSane :
      (s : SearchState) (next : SearchNode) → IsSane s → IsSane (offer goap eval targets s next)
  unfolding IsSane offer
  offer-IsSane s next (within, table) =
      let table' = visited_add-IsTable s.visited (make_state_key next.bb) table in
      elim (Bool-cases (visited_add s.visited (make_state_key next.bb)).1) [
        | inr e ↦ rw (e, offer) (within, table)
        | inl e ↦ elim (Bool-cases (ltb goap.max_plan_depth next.depth)) [
          | inl d ↦ rw (e, d, offer) (within, table')
          | inr d ↦
              rw (e, d, offer)
                (
                  subst (λ n. IsWithin n (heap_push s.heap (length s.nodes) next.f))
                      (omega (arith, length-append s.nodes (next ∷ [])))
                      (heap_push-IsWithin (length s.nodes) s.heap next.f within),
                  table',
                )
        ]
      ]

  try_action-IsSane :
      (s : SearchState) (i : ℕ) (node : SearchNode) (act : GoapAction) (a : ℕ)
      → IsSane s
      → IsSane (try_action goap eval targets s i node act a)
  unfolding try_action
  try_action-IsSane s i node act a sane =
      elim (Bool-cases (is_satisfied (eval.action_pre a node.bb))) [
        | inr e ↦ rw (e, try_action) sane
        | inl e ↦ elim (Option-cases (eval.action_apply a node.bb)) [
          | inl q ↦ rw (e, q, try_action) sane
          | inr (dst, q) ↦
              rw (e, q, try_action)
                (offer-IsSane s (next_node goap eval targets act a i node dst) sane)
        ]
      ]

  expand-IsSane :
      (s : SearchState) (i : ℕ) (node : SearchNode) (acts : List GoapAction) (a : ℕ)
      → IsSane s
      → IsSane (expand goap eval targets s i node acts a)
  unfolding expand
  expand-IsSane s i node [] a sane = sane
  expand-IsSane s i node (act ∷ acts) a sane =
      expand-IsSane (try_action goap eval targets s i node act a) i node acts (suc a)
        (try_action-IsSane s i node act a sane)

  -- Why a round ends the loop without a plan.
  pub data GaveUp (s : SearchState) (iters : ℕ) : Type 0 where
    nodes_spent : goap.max_nodes < length s.nodes → GaveUp s iters
    iters_spent : goap.max_iters ≤ iters → GaveUp s iters
    heap_empty : heap_pop s.heap ≡ none → GaveUp s iters

  -- What a round from a sane state comes to: the loop ends for one of the reasons above, a node is
  -- found at which the goals are met, or the state is a sane one again.
  abbrev pub Onward : SearchState → ℕ → Round → Type 0
  Onward s iters stop = GaveUp s iters
  Onward s iters (found p) =
      (i : ℕ) × (node : SearchNode) × (get_elem? s.nodes i ≡ some node)
      × (goals_met eval targets node.bb ≡ true)
      × (p ≡ plan_to goap s.nodes i node (iters + 1))
  Onward s iters (go s') = IsSane s'

  round-Onward :
      (s : SearchState) (iters : ℕ) → IsSane s → Onward s iters (round goap eval targets s iters)
  unfolding round IsSane
  round-Onward s iters (within, table) =
      elim (Bool-cases (leb (length s.nodes) goap.max_nodes && ltb iters goap.max_iters)) [
        | inr e ↦
            rw (e, round)
              (elim (Bool-cases (leb (length s.nodes) goap.max_nodes)) [
                | inl few ↦ iters_spent (ground arith)
                | inr many ↦ nodes_spent (ground arith)
              ])
        | inl e ↦ elim (Option-cases (heap_pop s.heap)) [
          | inl h ↦ rw (e, h, round) (heap_empty h)
          | inr ((i, heap'), h) ↦
              let (lt, within') = heap_pop-IsWithin (length s.nodes) s.heap heap' i within h in
              let (node, g) = get_elem?-some s.nodes i lt in
              elim (Bool-cases (goals_met eval targets node.bb)) [
                | inl m ↦ rw (e, h, g, m, round) (i, node, g, m, refl)
                | inr m ↦
                    rw (e, h, g, m, round)
                      (expand-IsSane (record s { heap = heap' }) i node goap.actions 0
                        (within', table))
              ]
        ]
      ]

  Reachable-IsSane :
      (start s : SearchState) (iters : ℕ) → IsSane start → Reachable start s iters → IsSane s
  Reachable-IsSane start s iters sane begins = sane
  Reachable-IsSane start s iters sane (goes_on {s = before} {iters = k} run e) =
      subst (Onward before k) e (round-Onward before k (Reachable-IsSane start before k sane run))

  -- In every state that rounds of the search lead to from the root alone, every index in the heap is that
  -- of a node and every key of the visited table stands where its probing comes to; and a round from
  -- there finds a node at which the goals are met, or leads to such a state again, or ends the loop,
  -- which it does only for the number of nodes, the number of rounds or an empty heap.
  pub Reachable-Onward :
      (root : SearchNode) (s : SearchState) (iters : ℕ)
      → Reachable (initial goap root) s iters
      → IsSane s × Onward s iters (round goap eval targets s iters)
  Reachable-Onward root s iters run =
      let sane = Reachable-IsSane (initial goap root) s iters (initial-IsSane goap root) run in
      (sane, round-Onward s iters sane)
