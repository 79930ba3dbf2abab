-- ===== src/Planner/Search/Links.antt =====
-- Where the nodes of a search come from.
use fleece.Prelude.{
  ℕ, zero, suc, ◌+◌, ◌≤◌, ◌<◌, ◌≡◌, refl, sym, List, [], ◌∷◌, ◌++◌, true, none, some, inl, inr,
  arith, length, get_elem?, get_elem?-append, get_elem?-snoc, get_elem?-lt, Bool-cases,
  Option-cases, ltb,
}
use mathlib.Core.Path.{subst}
use mathlib.Core.Option.{some-injective}
use fleece.Doubles.{dbl_zero}
use fleece.Planner.{FleeceGoap, GoapAction}
use fleece.Planner.Blackboard.{Blackboard, make_state_key}
use fleece.Planner.Goals.{GoapEval, is_satisfied}
use fleece.Planner.Visited.{visited_add}
use fleece.Planner.Search.{
  SearchNode, SearchState, next_node, offer, try_action, expand, root_node, initial,
}
use fleece.Planner.Search.Runs.{carry_out}

module _ (goap : FleeceGoap) (eval : GoapEval) (start : Blackboard) where
  pub data Origin (nodes : List SearchNode) (i : ℕ) (n : SearchNode) : Type 0 where
    at_root : n.parent ≡ none → n.bb ≡ start → n.g ≡ dbl_zero → n.depth ≡ 0 → Origin nodes i n
    by_action :
        (p : ℕ) (m : SearchNode)
        → n.parent ≡ some p
        → p < i
        → get_elem? nodes p ≡ some m
        → carry_out goap eval n.action_idx m.bb m.g ≡ some (n.bb, n.g)
        → n.depth ≡ m.depth + 1
        → n.depth ≤ goap.max_plan_depth
        → Origin nodes i n

  unfoldable pub IsLinked : List SearchNode → Type 0
  IsLinked nodes = (i : ℕ) (n : SearchNode) → get_elem? nodes i ≡ some n → Origin nodes i n

  Origin-append :
      (nodes more : List SearchNode) (i : ℕ) (n : SearchNode)
      → Origin nodes i n
      → Origin (nodes ++ more) i n
  Origin-append nodes more i n (at_root a b c d) = at_root a b c d
  Origin-append nodes more i n (by_action p m a lt at b c d) =
      by_action p m a lt (get_elem?-append nodes more p at) b c d

  IsLinked-snoc :
      (nodes : List SearchNode) (n : SearchNode)
      → IsLinked nodes
      → Origin nodes (length nodes) n
      → IsLinked (nodes ++ n ∷ [])
  unfolding IsLinked
  IsLinked-snoc nodes n links o i m at = elim (get_elem?-snoc nodes n i at) [
    | inl e ↦ Origin-append nodes (n ∷ []) i m (links i m e)
    | inr (e, q) ↦ subst (Origin (nodes ++ n ∷ []) i) q (
        subst (λ k. Origin (nodes ++ n ∷ []) k n) (sym e)
          (Origin-append nodes (n ∷ []) (length nodes) n o))
  ]

  -- The node that an applicable action leads to is one that may stand at the end of the list.
  next_node-Origin :
      (targets : List ℕ) (nodes : List SearchNode) (node_idx a : ℕ) (node : SearchNode)
      (act : GoapAction) (dst : Blackboard)
      → get_elem? nodes node_idx ≡ some node
      → get_elem? goap.actions a ≡ some act
      → is_satisfied (eval.action_pre a node.bb) ≡ true
      → eval.action_apply a node.bb ≡ some dst
      → node.depth + 1 ≤ goap.max_plan_depth
      → Origin nodes (length nodes) (next_node goap eval targets act a node_idx node dst)
  unfolding next_node carry_out
  next_node-Origin targets nodes node_idx a node act dst at table pre apply deep =
      by_action node_idx node refl (get_elem?-lt nodes node_idx at) at
        (rw (table, carry_out) (rw (pre, carry_out) (rw (apply, carry_out) refl))) refl deep

  module _ (targets : List ℕ) where
    offer-IsLinked :
        (s : SearchState) (next : SearchNode)
        → IsLinked s.nodes
        → (next.depth ≤ goap.max_plan_depth → Origin s.nodes (length s.nodes) next)
        → IsLinked (offer goap eval targets s next).nodes
    unfolding offer
    offer-IsLinked s next links o =
        elim (Bool-cases (visited_add s.visited (make_state_key next.bb)).1) [
          | inr e ↦ rw e links
          | inl e ↦ rw e (elim (Bool-cases (ltb goap.max_plan_depth next.depth)) [
            | inl d ↦ rw d links
            | inr d ↦ rw d (IsLinked-snoc s.nodes next links (o (ground arith)))
          ])
        ]

    offer-get_elem? :
        (s : SearchState) (next : SearchNode) (k : ℕ) (m : SearchNode)
        → get_elem? s.nodes k ≡ some m
        → get_elem? (offer goap eval targets s next).nodes k ≡ some m
    unfolding offer
    offer-get_elem? s next k m at =
        elim (Bool-cases (visited_add s.visited (make_state_key next.bb)).1) [
          | inr e ↦ rw e at
          | inl e ↦ rw e (elim (Bool-cases (ltb goap.max_plan_depth next.depth)) [
            | inl d ↦ rw d at
            | inr d ↦ rw d (get_elem?-append s.nodes (next ∷ []) k at)
          ])
        ]

    try_action-get_elem? :
        (s : SearchState) (node_idx : ℕ) (node : SearchNode) (act : GoapAction) (a k : ℕ)
        (m : SearchNode)
        → get_elem? s.nodes k ≡ some m
        → get_elem? (try_action goap eval targets s node_idx node act a).nodes k ≡ some m
    unfolding try_action
    try_action-get_elem? s node_idx node act a k m at =
        elim (Bool-cases (is_satisfied (eval.action_pre a node.bb))) [
          | inr e ↦ rw e at
          | inl e ↦ rw e (elim (Option-cases (eval.action_apply a node.bb)) [
            | inl d ↦ rw d at
            | inr (dst, d) ↦
                rw d
                  (offer-get_elem? s (next_node goap eval targets act a node_idx node dst) k m at)
          ])
        ]

    try_action-IsLinked :
        (s : SearchState) (node_idx : ℕ) (node : SearchNode) (act : GoapAction) (a : ℕ)
        → get_elem? goap.actions a ≡ some act
        → get_elem? s.nodes node_idx ≡ some node
        → IsLinked s.nodes
        → IsLinked (try_action goap eval targets s node_idx node act a).nodes
    unfolding try_action
    try_action-IsLinked s node_idx node act a table at links =
        elim (Bool-cases (is_satisfied (eval.action_pre a node.bb))) [
          | inr e ↦ rw e links
          | inl e ↦ rw e (elim (Option-cases (eval.action_apply a node.bb)) [
            | inl d ↦ rw d links
            | inr (dst, d) ↦ rw d (
                offer-IsLinked s (next_node goap eval targets act a node_idx node dst) links
                  (next_node-Origin targets s.nodes node_idx a node act dst at table e d))
          ])
        ]

    -- The actions that are left are those of the table from `a` on.
    abbrev Suffix : List GoapAction → ℕ → Type 0
    Suffix acts a =
        (k : ℕ) (x : GoapAction)
        → get_elem? acts k ≡ some x
        → get_elem? goap.actions (a + k) ≡ some x

    Suffix-tail :
        (act : GoapAction) (acts : List GoapAction) (a : ℕ)
        → Suffix (act ∷ acts) a
        → Suffix acts (suc a)
    Suffix-tail act acts a suffix k x at =
        subst (λ i. get_elem? goap.actions i ≡ some x) (omega arith) (suffix (suc k) x at)

    expand-IsLinked :
        (s : SearchState) (node_idx : ℕ) (node : SearchNode) (acts : List GoapAction) (a : ℕ)
        → Suffix acts a
        → get_elem? s.nodes node_idx ≡ some node
        → IsLinked s.nodes
        → IsLinked (expand goap eval targets s node_idx node acts a).nodes
    unfolding expand
    expand-IsLinked s node_idx node [] a suffix at links = links
    expand-IsLinked s node_idx node (act ∷ acts) a suffix at links =
        expand-IsLinked (try_action goap eval targets s node_idx node act a) node_idx node acts
          (suc a) (Suffix-tail act acts a suffix)
          (try_action-get_elem? s node_idx node act a node_idx node at)
          (try_action-IsLinked s node_idx node act a
            (subst (λ i. get_elem? goap.actions i ≡ some act) (omega arith) (suffix 0 act refl)) at
            links)

    -- A round of the search keeps its nodes linked.
    pub expand_all-IsLinked :
        (s : SearchState) (node_idx : ℕ) (node : SearchNode)
        → get_elem? s.nodes node_idx ≡ some node
        → IsLinked s.nodes
        → IsLinked (expand goap eval targets s node_idx node goap.actions 0).nodes
    expand_all-IsLinked s node_idx node at links =
        expand-IsLinked s node_idx node goap.actions 0
          (λ k x e. subst (λ i. get_elem? goap.actions i ≡ some x) (omega arith) e) at links

    pub initial-IsLinked : IsLinked (initial goap (root_node eval targets start)).nodes
    unfolding IsLinked initial root_node
    initial-IsLinked zero n at =
        subst (Origin (initial goap (root_node eval targets start)).nodes 0) (some-injective _ _ at)
          (at_root refl refl refl refl)
    initial-IsLinked (suc i) n at = cc
