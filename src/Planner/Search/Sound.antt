-- ===== src/Planner/Search/Sound.antt =====
-- The plan that fleece_goap_plan returns, carried out.
use fleece.Prelude.{
  ℕ, zero, suc, ◌+◌, ◌≤◌, ◌<◌, ◌≡◌, refl, sym, ◌∙◌, ap, List, [], ◌∷◌, true, ◌&&◌, none, some, inl,
  inr, arith, length, get_elem?, get_elem?-lt, rev_append, drop, Bool-cases, Option-cases, ltb, leb,
}
use fleece.Prelude.Maybe.{◌>>=◌}
use mathlib.Core.Path.{subst}
use mathlib.Core.Option.{some-injective, none-ne-some}
use fleece.Doubles.{dbl_zero}
use fleece.Planner.{FleeceGoap, FleeceGoapPlan}
use fleece.Planner.Blackboard.{Blackboard, bb_clone}
use fleece.Planner.Goals.{GoapEval}
use fleece.Planner.Heap.{heap_pop}
use fleece.Planner.Search.{
  plan, targets_of, initial, root_node, SearchNode, SearchState, walk, plan_steps, plan_to, ids_at,
  goals_met, search, round, Round, stop, found, go,
}
use fleece.Planner.Search.Rounds.{Round-cases, search-stop, search-found, search-go}
use fleece.Planner.Search.Runs.{carry_out_all}
use fleece.Planner.Search.Links.{
  Origin, IsLinked, at_root, by_action, expand_all-IsLinked, initial-IsLinked,
}

walk_step :
    (fuel : ℕ) (nodes : List SearchNode) (i : ℕ) (n : SearchNode)
    → get_elem? nodes i ≡ some n
    → walk (suc fuel) nodes (some i) ≡ n.action_idx ∷ walk fuel nodes n.parent
unfolding walk
walk_step fuel nodes i n at = rw (at, walk) refl

walk_end : (fuel : ℕ) (nodes : List SearchNode) → walk fuel nodes none ≡ []
unfolding walk
walk_end zero nodes = refl
walk_end (suc fuel) nodes = refl

module _ (goap : FleeceGoap) (eval : GoapEval) (start : Blackboard) where
  -- The walk from node `i`, backwards, leads from the start to that node.
  walk-carry_out_all :
      (fuel : ℕ) (nodes : List SearchNode) (i : ℕ) (n : SearchNode) (acc : List ℕ)
      → i < fuel
      → IsLinked goap eval start nodes
      → get_elem? nodes i ≡ some n
      → carry_out_all goap eval (drop 1 (rev_append (walk fuel nodes (some i)) acc)) start dbl_zero
        ≡ carry_out_all goap eval acc n.bb n.g
  unfolding IsLinked rev_append carry_out_all
  walk-carry_out_all zero nodes i n acc lt links at = absurd (omega arith)
  walk-carry_out_all (suc fuel) nodes i n acc lt links at =
      rw (walk_step fuel nodes i n at) (elim (links i n at) [
        | at_root p b g d ↦ rw (p, walk_end fuel nodes, b, g) refl
        | by_action p m q below at' run d deep ↦ rw q (
            walk-carry_out_all fuel nodes p m (n.action_idx ∷ acc) (omega arith) links at'
            ∙ ap (λ o. o >>= λ r. carry_out_all goap eval acc r.0 r.1) run)
      ])

  length-walk :
      (fuel : ℕ) (nodes : List SearchNode) (i : ℕ) (n : SearchNode) (acc : List ℕ)
      → i < fuel
      → IsLinked goap eval start nodes
      → get_elem? nodes i ≡ some n
      → length (drop 1 (rev_append (walk fuel nodes (some i)) acc)) ≡ n.depth + length acc
  unfolding IsLinked rev_append
  length-walk zero nodes i n acc lt links at = absurd (omega arith)
  length-walk (suc fuel) nodes i n acc lt links at =
      rw (walk_step fuel nodes i n at) (elim (links i n at) [
        | at_root p b g d ↦ rw (p, walk_end fuel nodes, d) (omega arith)
        | by_action p m q below at' run d deep ↦
            rw (q, d)
              (omega
                (arith, length-walk fuel nodes p m (n.action_idx ∷ acc) (omega arith) links at'))
      ])

  depth_bound :
      (nodes : List SearchNode) (i : ℕ) (n : SearchNode)
      → Origin goap eval start nodes i n
      → n.depth ≤ goap.max_plan_depth
  depth_bound nodes i n (at_root p b g d) = omega arith
  depth_bound nodes i n (by_action p m q below at run d deep) = deep

  module _ (targets : List ℕ) where
    -- The actions of a plan, and the blackboard that they lead to.
    abbrev pub Reaches : FleeceGoapPlan → Type 0
    Reaches p =
        (steps : List ℕ) × (last : Blackboard) × (p.action_ids ≡ ids_at goap steps)
        × (carry_out_all goap eval steps start dbl_zero ≡ some (last, p.total_cost))
        × (goals_met eval targets last ≡ true)
        × (length steps ≤ goap.max_plan_depth)
        × (p.iters ≤ goap.max_iters)

    plan_to-Reaches :
        (nodes : List SearchNode) (i : ℕ) (n : SearchNode) (iters : ℕ)
        → IsLinked goap eval start nodes
        → get_elem? nodes i ≡ some n
        → goals_met eval targets n.bb ≡ true
        → iters ≤ goap.max_iters
        → Reaches (plan_to goap nodes i n iters)
    unfolding plan_to plan_steps carry_out_all IsLinked
    plan_to-Reaches nodes i n iters links at met few =
        let lt = get_elem?-lt nodes i at in
        (
          plan_steps nodes i,
          n.bb,
          refl,
          walk-carry_out_all (length nodes) nodes i n [] lt links at,
          met,
          omega (
            arith,
            length-walk (length nodes) nodes i n [] lt links at,
            depth_bound nodes i n (links i n at),
          ),
          few,
        )

    -- What a round must come to.
    abbrev IsSound : Round → Type 0
    IsSound stop = Unit
    IsSound (found p) = Reaches p
    IsSound (go s) = IsLinked goap eval start s.nodes

    round-IsSound :
        (s : SearchState) (iters : ℕ)
        → IsLinked goap eval start s.nodes
        → IsSound (round goap eval targets s iters)
    unfolding round
    round-IsSound s iters links =
        elim (Bool-cases (leb (length s.nodes) goap.max_nodes && ltb iters goap.max_iters)) [
          | inr e ↦ rw (e, round) tt
          | inl e ↦
              rw (e, round)
                (elim (Option-cases (heap_pop s.heap)) [
                  | inl h ↦ rw (h, round) tt
                  | inr (popped, h) ↦
                      rw (h, round)
                        (elim (Option-cases (get_elem? s.nodes popped.0)) [
                          | inl g ↦ rw (g, round) tt
                          | inr (node, g) ↦
                              rw (g, round)
                                (elim (Bool-cases (goals_met eval targets node.bb)) [
                                  | inl m ↦
                                      rw (m, round)
                                        (plan_to-Reaches s.nodes popped.0 node (iters + 1) links g m
                                          (ground arith))
                                  | inr m ↦
                                      rw (m, round)
                                        (expand_all-IsLinked goap eval start targets
                                          (record s { heap = popped.1 }) popped.0 node g links)
                                ])
                        ])
                ])
        ]

    pub search-Reaches :
        (fuel : ℕ) (s : SearchState) (iters : ℕ) (p : FleeceGoapPlan)
        → IsLinked goap eval start s.nodes
        → search goap eval targets fuel s iters ≡ some p
        → Reaches p
    unfolding search
    search-Reaches zero s iters p links e = cc
    search-Reaches (suc fuel) s iters p links e =
        let sound = round-IsSound s iters links in
        elim (Round-cases (round goap eval targets s iters)) [
          | inl q ↦ absurd (none-ne-some p (sym (search-stop goap eval targets fuel s iters q) ∙ e))
          | inr (inl (p', q)) ↦
              subst Reaches
                (some-injective p' p (sym (search-found goap eval targets fuel s iters p' q) ∙ e))
                (subst IsSound q sound)
          | inr (inr (s', q)) ↦
              search-Reaches fuel s' (iters + 1) p (subst IsSound q sound)
                (sym (search-go goap eval targets fuel s iters s' q) ∙ e)
        ]

-- Where the goal ids resolve_goals to `targets` and `start` copies to `root`, a plan that is found names
-- actions of the table that can be carried out one after the other from `root`, every precondition
-- holding where its action begins, ends where all the targets are satisfied, costs what these actions
-- cost together in double arithmetic, has at most `max_plan_depth` actions and took at most
-- `max_iters` rounds.
pub plan-Reaches :
    (goap : FleeceGoap) (eval : GoapEval) (start root : Blackboard) (goal_ids : List (List ℕ))
    (targets : List ℕ) (p : FleeceGoapPlan)
    → targets_of goap goal_ids ≡ some targets
    → bb_clone start ≡ some root
    → plan goap start goal_ids eval ≡ some p
    → (steps : List ℕ) × (last : Blackboard) × (p.action_ids ≡ ids_at goap steps)
      × (carry_out_all goap eval steps root dbl_zero ≡ some (last, p.total_cost))
      × (goals_met eval targets last ≡ true)
      × (length steps ≤ goap.max_plan_depth)
      × (p.iters ≤ goap.max_iters)
unfolding plan
plan-Reaches goap eval start root goal_ids targets p resolved cloned found_p =
    search-Reaches goap eval root targets goap.max_iters _ 0 p
      (initial-IsLinked goap eval root targets)
      (sym (
          ap
            (λ o. o >>= λ ts. bb_clone start >>= λ bb.
              search goap eval ts goap.max_iters (initial goap (root_node eval ts bb)) 0)
            resolved
          ∙ ap
              (λ o. o >>= λ bb.
                search goap eval targets goap.max_iters (initial goap (root_node eval targets bb))
                  0)
              cloned)
        ∙ found_p)
