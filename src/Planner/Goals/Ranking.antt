-- ===== src/Planner/Goals/Ranking.antt =====
-- What fleece_goap_select_goal chooses.
use fleece.Prelude.{
  ℕ, suc, ◌+◌, ◌<◌, ◌≡◌, refl, sym, ◌∙◌, ap, List, [], ◌∷◌, Bool, true, false, ◌&&◌, Option, none,
  some, arith, length, Bool-cases, ◌==◌, ==_iff, inl, inr,
}
use mathlib.Core.Path.{subst}
use fleece.Doubles.{dbl_lt}
use fleece.Doubles.Order.{dbl_lt_trans, dbl_lt_self, dbl_lt_less}
use fleece.Planner.{FleeceGoap, GoapGoal}
use fleece.Planner.Blackboard.{Blackboard}
use fleece.Planner.Goals.{GoapEval, is_open, goal_utility, select_from, select_goal}

first_true : (a b : Bool) → (a && b) ≡ true → a ≡ true
first_true true b h = refl
first_true false b h = cc

second_true : (a b : Bool) → (a && b) ≡ true → b ≡ true
second_true true b h = h
second_true false b h = cc

module _ (strtod : List ℕ → ℕ × ℕ) (g : FleeceGoap) (bb : Blackboard) (eval : GoapEval) where
  -- The goal can be chosen.
  abbrev pub IsOpen : ℕ → Type 0
  IsOpen i = is_open (eval.goal_satisfied i bb) ≡ true

  abbrev pub utility : ℕ → ℕ
  utility i = goal_utility strtod g i bb

  -- Where the loop's best goal comes from.
  abbrev IsChosen : ℕ → ℕ → Option ℕ → ℕ → Type 0
  IsChosen threshold i none s = s ≡ threshold
  IsChosen threshold i (some b) s =
      (s ≡ utility b) × (b < i) × IsOpen b × (dbl_lt threshold s ≡ true)

  -- What the loop knows of the goals below `i`: none that can be chosen has more than the best score.
  abbrev IsBest : ℕ → ℕ → Option ℕ → ℕ → Type 0
  IsBest threshold i best s =
      IsChosen threshold i best s × ((k : ℕ) → k < i → IsOpen k → dbl_lt s (utility k) ≡ false)

  IsChosen-above :
      (threshold i : ℕ) (best : Option ℕ) (s t : ℕ)
      → IsChosen threshold i best s
      → dbl_lt s t ≡ true
      → dbl_lt threshold t ≡ true
  IsChosen-above threshold i none s t e lt = rw (sym e) lt
  IsChosen-above threshold i (some b) s t (e, below, open_b, above) lt =
      dbl_lt_trans threshold s t above lt

  IsChosen-suc :
      (threshold i : ℕ) (best : Option ℕ) (s : ℕ)
      → IsChosen threshold i best s
      → IsChosen threshold (suc i) best s
  IsChosen-suc threshold i none s e = e
  IsChosen-suc threshold i (some b) s (e, below, open_b, above) = (e, omega arith, open_b, above)

  -- Goal `i` is better, and then the best; or it is not, and the best stays.
  IsBest-better :
      (threshold i : ℕ) (best : Option ℕ) (s : ℕ)
      → IsOpen i
      → dbl_lt s (utility i) ≡ true
      → IsBest threshold i best s
      → IsBest threshold (suc i) (some i) (utility i)
  IsBest-better threshold i best s open_i lt (chosen, top) = (
    (refl, omega arith, open_i, IsChosen-above threshold i best s (utility i) chosen lt),
    λ k k_lt open_k. elim (Bool-cases (k == i)) [
      | inl e ↦ rw ((==_iff k i).0 e) (dbl_lt_self (utility i))
      | inr e ↦ dbl_lt_less s (utility i) (utility k) lt (top k (ground arith) open_k)
    ],
  )

  IsBest-kept :
      (threshold i : ℕ) (best : Option ℕ) (s : ℕ)
      → (is_open (eval.goal_satisfied i bb) && dbl_lt s (utility i)) ≡ false
      → IsBest threshold i best s
      → IsBest threshold (suc i) best s
  IsBest-kept threshold i best s not_better (chosen, top) = (
    IsChosen-suc threshold i best s chosen,
    λ k k_lt open_k. elim (Bool-cases (k == i)) [
      | inl e ↦
          let same = (==_iff k i).0 e in
          rw same (
            rest_false _ _ (ap (λ x. is_open (eval.goal_satisfied x bb)) (sym same) ∙ open_k)
              not_better)
      | inr e ↦ top k (ground arith) open_k
    ],
  )
    where
      rest_false : (a b : Bool) → a ≡ true → (a && b) ≡ false → b ≡ false
      rest_false true b p q = q
      rest_false false b p q = cc

  select_from-IsBest :
      (threshold i : ℕ) (xs : List GoapGoal) (best : Option ℕ) (s : ℕ)
      → IsBest threshold i best s
      → (t : ℕ) × IsBest threshold (i + length xs) (select_from strtod g bb eval i xs best s) t
  unfolding select_from
  select_from-IsBest threshold i [] best s b =
      (s, subst (λ n. IsBest threshold n best s) (omega arith) b)
  select_from-IsBest threshold i (x ∷ xs) best s b =
      elim (Bool-cases (is_open (eval.goal_satisfied i bb) && dbl_lt s (utility i))) [
        | inl e ↦
            rw (e, select_from)
              (let (t, r) =
                  select_from-IsBest threshold (suc i) xs (some i) (utility i)
                    (IsBest-better threshold i best s (first_true _ _ e) (second_true _ _ e) b) in
                (
                  t,
                  subst
                      (λ n.
                        IsBest threshold n
                          (select_from strtod g bb eval (suc i) xs (some i) (utility i)) t)
                      (omega arith) r,
                ))
        | inr e ↦
            rw (e, select_from)
              (let (t, r) =
                  select_from-IsBest threshold (suc i) xs best s
                    (IsBest-kept threshold i best s e b) in
                (
                  t,
                  subst (λ n. IsBest threshold n (select_from strtod g bb eval (suc i) xs best s) t)
                      (omega arith) r,
                ))
      ]

  -- Where a goal is selected, it is one of the table, unsatisfied, of a utility over the threshold, and
  -- no unsatisfied goal of the table has a greater utility.
  pub select_goal-best :
      (threshold b k : ℕ)
      → select_goal strtod g bb eval threshold ≡ some b
      → k < length g.goals
      → IsOpen k
      → (b < length g.goals)
        × IsOpen b
        × (dbl_lt threshold (utility b) ≡ true)
        × (dbl_lt (utility b) (utility k) ≡ false)
  unfolding select_goal
  select_goal-best threshold b k e k_lt open_k =
      let (t, r) =
        select_from-IsBest threshold 0 g.goals none threshold
          (refl, λ j j_lt open_j. absurd (omega arith)) in
      let (chosen, top) = subst (λ o. IsBest threshold (0 + length g.goals) o t) e r in
      let (same, below, open_b, above) = chosen in
      (omega arith, open_b, rw (sym same) above, rw (sym same) (top k (omega arith) open_k))
