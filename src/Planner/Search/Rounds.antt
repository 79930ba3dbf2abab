-- ===== src/Planner/Search/Rounds.antt =====
-- The search loop round by round, and how many rounds it can make.
use fleece.Prelude.{
  ℕ, zero, suc, ◌+◌, ◌≤◌, ◌≡◌, refl, sym, ◌∙◌, List, ◌&&◌, none, some, ◌⊎◌, inl, inr, arith, length,
  Bool-cases, ltb, leb,
}
use fleece.Planner.{FleeceGoap, FleeceGoapPlan}
use fleece.Planner.Goals.{GoapEval}
use fleece.Planner.Search.{SearchState, search, round, Round, stop, found, go}

pub Round-cases :
    (r : Round)
    → (r ≡ stop) ⊎ (((p : FleeceGoapPlan) × (r ≡ found p)) ⊎ ((s : SearchState) × (r ≡ go s)))
Round-cases stop = inl refl
Round-cases (found p) = inr (inl (p, refl))
Round-cases (go s) = inr (inr (s, refl))

module _ (goap : FleeceGoap) (eval : GoapEval) (targets : List ℕ) where
  module _ (fuel : ℕ) (s : SearchState) (iters : ℕ) where
    pub search-stop :
        round goap eval targets s iters ≡ stop → search goap eval targets (suc fuel) s iters ≡ none
    unfolding search
    search-stop q = rw (q, search) refl

    pub search-found :
        (p : FleeceGoapPlan)
        → round goap eval targets s iters ≡ found p
        → search goap eval targets (suc fuel) s iters ≡ some p
    unfolding search
    search-found p q = rw (q, search) refl

    pub search-go :
        (s' : SearchState)
        → round goap eval targets s iters ≡ go s'
        → search goap eval targets (suc fuel) s iters ≡ search goap eval targets fuel s' (iters + 1)
    unfolding search
    search-go s' q = rw (q, search) refl

  round_spent :
      (s : SearchState) (iters : ℕ)
      → goap.max_iters ≤ iters
      → round goap eval targets s iters ≡ stop
  unfolding round
  round_spent s iters spent =
      elim (Bool-cases (leb (length s.nodes) goap.max_nodes && ltb iters goap.max_iters)) [
        | inl e ↦ absurd (ground arith)
        | inr e ↦ rw (e, round) refl
      ]

  -- Where the budget is spent, the search makes no round.
  search_spent :
      (fuel : ℕ) (s : SearchState) (iters : ℕ)
      → goap.max_iters ≤ iters
      → search goap eval targets fuel s iters ≡ none
  unfolding search
  search_spent zero s iters spent = refl
  search_spent (suc fuel) s iters spent = search-stop fuel s iters (round_spent s iters spent)

  -- Two numbers of rounds that both cover what is left of the budget give the same search.
  search_any :
      (n k : ℕ) (s : SearchState) (iters : ℕ)
      → goap.max_iters ≤ iters + n
      → goap.max_iters ≤ iters + k
      → search goap eval targets n s iters ≡ search goap eval targets k s iters
  search_any zero k s iters p q =
      search_spent 0 s iters (omega arith) ∙ sym (search_spent k s iters (omega arith))
  search_any (suc n) zero s iters p q =
      search_spent (suc n) s iters (omega arith) ∙ sym (search_spent 0 s iters (omega arith))
  search_any (suc n) (suc k) s iters p q = elim (Round-cases (round goap eval targets s iters)) [
    | inl e ↦ search-stop n s iters e ∙ sym (search-stop k s iters e)
    | inr (inl (r, e)) ↦ search-found n s iters r e ∙ sym (search-found k s iters r e)
    | inr (inr (s', e)) ↦
        search-go n s iters s' e
        ∙ search_any n k s' (iters + 1) (omega arith) (omega arith)
        ∙ sym (search-go k s iters s' e)
  ]

  -- The search loop ends by itself within `max_iters` rounds: from any state, with any greater number
  -- of rounds allowed, its result is the same.
  pub search_terminates :
      (fuel : ℕ) (s : SearchState)
      → goap.max_iters ≤ fuel
      → search goap eval targets fuel s 0 ≡ search goap eval targets goap.max_iters s 0
  search_terminates fuel s enough = search_any fuel goap.max_iters s 0 (omega arith) (omega arith)
