-- ===== src/State/Compact/Unmoved.antt =====
-- What the sweep of fleece_state_manager_compact leaves behind the used slots.
use fleece.Prelude.{
  ℕ, ◌+◌, ◌≡◌, refl, sym, ap, true, false, List, [], ◌∷◌, ◌++◌, length, length-append, All, arith,
}
use mathlib.Core.Path.{◌∙◌}
use mathlib.Core.List.{append_assoc, append-nil}
use fleece.State.{FieldEntry, StateManager}
use fleece.State.Compact.{kept, compact_loop, compact}
use fleece.State.Compact.Laws.{drops, keeps, regroup, length-regrouped}

-- Every slot in front is kept, and none behind is: the sweep leaves the slots as they are.
idle_rounds :
    (back front : List FieldEntry) (done : List FieldEntry) (i : ℕ)
    → i ≡ length (front ++ done)
    → All (λ f. kept f ≡ false) back
    → compact_loop (length back) i ((front ++ done) ++ back, length front)
      ≡ ((front ++ done) ++ back, length front)
unfolding compact_loop
idle_rounds [] front done i e p = refl
idle_rounds (f ∷ back) front done i e p =
    ap (compact_loop (length back) (i + 1)) (drops front f back done i e p.0)
    ∙ ap (λ l. compact_loop (length back) (i + 1) (l, length front)) (regroup front done f back)
    ∙ idle_rounds back front (done ++ f ∷ []) (i + 1) (omega (arith, length-regrouped front done f))
        p.1
    ∙ ap (λ l. (l, length front)) (sym (regroup front done f back))

kept_rounds :
    (rest front back : List FieldEntry) (i : ℕ)
    → i ≡ length front
    → All (λ f. kept f ≡ true) rest
    → All (λ f. kept f ≡ false) back
    → compact_loop (length (rest ++ back)) i (front ++ (rest ++ back), length front)
      ≡ (front ++ (rest ++ back), length (front ++ rest))
unfolding compact_loop
kept_rounds [] front back i e p q =
    ap (λ l. compact_loop (length back) i (l ++ back, length front)) (sym (append-nil front))
    ∙ idle_rounds back front [] i (e ∙ ap length (sym (append-nil front))) q
    ∙ ap (λ l. (l ++ back, length front)) (append-nil front)
    ∙ ap (λ l. (front ++ back, length l)) (sym (append-nil front))
kept_rounds (f ∷ rest) front back i e p q =
    ap (compact_loop (length (rest ++ back)) (i + 1)) (keeps front f (rest ++ back) i e p.0)
    ∙ ap (λ l. compact_loop (length (rest ++ back)) (i + 1) (l, length front + 1))
        (sym (append_assoc front (f ∷ []) (rest ++ back)))
    ∙ ap
        (λ n. compact_loop (length (rest ++ back)) (i + 1) ((front ++ f ∷ []) ++ (rest ++ back), n))
        (sym (length-append front (f ∷ [])))
    ∙ kept_rounds rest (front ++ f ∷ []) back (i + 1) (omega (arith, length-append front (f ∷ [])))
        p.1 q
    ∙ ap (λ l. (l, length ((front ++ f ∷ []) ++ rest))) (append_assoc front (f ∷ []) (rest ++ back))
    ∙ ap (λ l. (front ++ f ∷ (rest ++ back), length l)) (append_assoc front (f ∷ []) rest)

-- In a store whose slots are kept ones followed by slots that are not, compact changes nothing but
-- field_count, which becomes the number of the kept ones: a removed slot behind them stays in use.
pub compact-unmoved :
    (m : StateManager) (front back : List FieldEntry)
    → m.fields ≡ front ++ back
    → All (λ f. kept f ≡ true) front
    → All (λ f. kept f ≡ false) back
    → compact m ≡ record m { fields = front ++ back; field_count = length front }
unfolding compact
compact-unmoved m front back e p q =
    ap
      (λ l. record m {
        fields = (compact_loop (length l) 0 (l, 0)).0;
        field_count = (compact_loop (length l) 0 (l, 0)).1;
      })
      e
    ∙ ap (λ (s : List FieldEntry × ℕ). record m { fields = s.0; field_count = s.1 })
        (kept_rounds front [] back 0 refl p q)
