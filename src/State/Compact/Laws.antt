-- ===== src/State/Compact/Laws.antt =====
-- The sweep of fleece_state_manager_compact over the slots: what it keeps and in which order.
use fleece.Prelude.{
  ℕ, zero, suc, ◌+◌, ◌≡◌, refl, sym, ap, ◌∙◌, true, false, List, [], ◌∷◌, ◌++◌, ◌==◌, if◌then◌else◌,
  length, length-append, get_or, set, take, take-length-append, arith, Bool-cases, inl, inr,
}
use mathlib.Core.List.{append_assoc, append-nil}
use fleece.State.{FieldEntry, StateManager, zero_entry}
use fleece.State.Compact.{kept, compact_loop, compact, compact_step}

-- The entries that the sweep keeps, in their order.
unfoldable pub survivors : List FieldEntry → List FieldEntry
survivors [] = []
survivors (f ∷ fs) = let rest = survivors fs in if kept f then f ∷ rest else rest

get_or_at :
    (xs : List FieldEntry) (f : FieldEntry) (ys : List FieldEntry) (i : ℕ)
    → i ≡ length xs
    → get_or (xs ++ f ∷ ys) i zero_entry ≡ f
get_or_at [] f ys zero e = refl
get_or_at [] f ys (suc i) e = absurd (omega arith)
get_or_at (x ∷ xs) f ys zero e = absurd (omega arith)
get_or_at (x ∷ xs) f ys (suc i) e = get_or_at xs f ys i (omega arith)

set_at :
    (xs : List FieldEntry) (f : FieldEntry) (ys : List FieldEntry) (i : ℕ) (v : FieldEntry)
    → i ≡ length xs
    → set (xs ++ f ∷ ys) i v ≡ xs ++ v ∷ ys
set_at [] f ys zero v e = refl
set_at [] f ys (suc i) v e = absurd (omega arith)
set_at (x ∷ xs) f ys zero v e = absurd (omega arith)
set_at (x ∷ xs) f ys (suc i) v e = ap (◌∷◌ x) (set_at xs f ys i v (omega arith))

-- One round at the slot of `f`, with the kept slots in front and the gap behind them.
module _ (front : List FieldEntry) (f : FieldEntry) (rest : List FieldEntry) where
  pub drops :
      (gap : List FieldEntry) (i : ℕ)
      → i ≡ length (front ++ gap)
      → kept f ≡ false
      → compact_step ((front ++ gap) ++ f ∷ rest) (length front) i
        ≡ ((front ++ gap) ++ f ∷ rest, length front)
  unfolding compact_step
  drops gap i e k = rw (get_or_at (front ++ gap) f rest i e) (rw k refl)

  pub keeps :
      (i : ℕ)
      → i ≡ length front
      → kept f ≡ true
      → compact_step (front ++ f ∷ rest) (length front) i ≡ (front ++ f ∷ rest, length front + 1)
  unfolding compact_step
  keeps i e k =
      let here : (length front == i) ≡ true = ground (arith, e) in
      rw (get_or_at front f rest i e) (rw (k) (rw (here) refl))

  moves :
      (g : FieldEntry) (gap : List FieldEntry) (i : ℕ)
      → i ≡ length (front ++ g ∷ gap)
      → kept f ≡ true
      → compact_step ((front ++ g ∷ gap) ++ f ∷ rest) (length front) i
        ≡ ((front ++ f ∷ gap) ++ zero_entry ∷ rest, length front + 1)
  unfolding compact_step
  moves g gap i e k =
      let behind : (length front == i) ≡ false = ground (arith, e, length-append front (g ∷ gap)) in
      let there : i ≡ length (front ++ f ∷ gap) =
        omega (arith, e, length-append front (g ∷ gap), length-append front (f ∷ gap)) in
      let put : set ((front ++ g ∷ gap) ++ f ∷ rest) (length front) f
          ≡ (front ++ f ∷ gap) ++ f ∷ rest =
        ap (λ l. set l (length front) f) (append_assoc front (g ∷ gap) (f ∷ rest))
        ∙ set_at front g (gap ++ f ∷ rest) (length front) f refl
        ∙ sym (append_assoc front (f ∷ gap) (f ∷ rest)) in
      rw (get_or_at (front ++ g ∷ gap) f rest i e) (
        rw (k)
          (rw (behind) (rw (put) (rw (set_at (front ++ f ∷ gap) f rest i zero_entry there) refl))))

-- The used slots after `n` rounds.
unfoldable swept : ℕ → ℕ → List FieldEntry × ℕ → List FieldEntry
swept n i s = let (fields, count) = compact_loop n i s in take count fields

-- The first element behind a gap is taken for the last of it.
pub regroup :
    (front gap : List FieldEntry) (f : FieldEntry) (rest : List FieldEntry)
    → (front ++ gap) ++ f ∷ rest ≡ (front ++ (gap ++ f ∷ [])) ++ rest
regroup front gap f rest =
    append_assoc front gap (f ∷ rest)
    ∙ ap (λ l. front ++ l) (sym (append_assoc gap (f ∷ []) rest))
    ∙ sym (append_assoc front (gap ++ f ∷ []) rest)

-- One round, given the rounds behind it.
module _ (front : List FieldEntry) (f : FieldEntry) (rest : List FieldEntry) (i : ℕ) where
  abbrev behind : List FieldEntry × ℕ → List FieldEntry
  behind s = swept (length rest) (i + 1) s

  dropped :
      (gap : List FieldEntry)
      → i ≡ length (front ++ gap)
      → kept f ≡ false
      → behind ((front ++ (gap ++ f ∷ [])) ++ rest, length front) ≡ front ++ survivors rest
      → swept (length (f ∷ rest)) i ((front ++ gap) ++ f ∷ rest, length front)
        ≡ front ++ survivors (f ∷ rest)
  unfolding survivors swept compact_loop
  dropped gap e k later = rw k (
      ap behind (drops front f rest gap i e k)
      ∙ ap (λ l. behind (l, length front)) (regroup front gap f rest)
      ∙ later)

  -- The slot of `f` is the next in front: what the rounds behind it make of that.
  grown :
      (fields gap : List FieldEntry)
      → fields ≡ ((front ++ f ∷ []) ++ gap) ++ rest
      → behind (((front ++ f ∷ []) ++ gap) ++ rest, length (front ++ f ∷ []))
        ≡ (front ++ f ∷ []) ++ survivors rest
      → behind (fields, length front + 1) ≡ front ++ f ∷ survivors rest
  grown fields gap e later =
      ap (λ l. behind (l, length front + 1)) e
      ∙ ap (λ n. behind (((front ++ f ∷ []) ++ gap) ++ rest, n))
          (sym (length-append front (f ∷ [])))
      ∙ later
      ∙ append_assoc front (f ∷ []) (survivors rest)

  kept_in_place :
      i ≡ length (front ++ [])
      → kept f ≡ true
      → behind (((front ++ f ∷ []) ++ []) ++ rest, length (front ++ f ∷ []))
        ≡ (front ++ f ∷ []) ++ survivors rest
      → swept (length (f ∷ rest)) i ((front ++ []) ++ f ∷ rest, length front)
        ≡ front ++ survivors (f ∷ rest)
  unfolding survivors swept compact_loop
  kept_in_place e k later = rw k (
      ap (λ l. behind (compact_step (l ++ f ∷ rest) (length front) i)) (append-nil front)
      ∙ ap behind (keeps front f rest i (e ∙ ap length (append-nil front)) k)
      ∙ grown (front ++ f ∷ rest) []
          (sym (append_assoc front (f ∷ []) rest)
            ∙ ap (λ l. l ++ rest) (sym (append-nil (front ++ f ∷ []))))
          later)

  kept_moved :
      (g : FieldEntry) (gap : List FieldEntry)
      → i ≡ length (front ++ g ∷ gap)
      → kept f ≡ true
      → behind (((front ++ f ∷ []) ++ (gap ++ zero_entry ∷ [])) ++ rest, length (front ++ f ∷ []))
        ≡ (front ++ f ∷ []) ++ survivors rest
      → swept (length (f ∷ rest)) i ((front ++ g ∷ gap) ++ f ∷ rest, length front)
        ≡ front ++ survivors (f ∷ rest)
  unfolding survivors swept compact_loop
  kept_moved g gap e k later = rw k (
      ap behind (moves front f rest g gap i e k)
      ∙ grown ((front ++ f ∷ gap) ++ zero_entry ∷ rest) (gap ++ zero_entry ∷ [])
          (regroup front (f ∷ gap) zero_entry rest
            ∙ ap (λ l. l ++ rest) (sym (append_assoc front (f ∷ []) (gap ++ zero_entry ∷ []))))
          later)

pub length-regrouped :
    (front gap : List FieldEntry) (f : FieldEntry)
    → length (front ++ (gap ++ f ∷ [])) ≡ length (front ++ gap) + 1
length-regrouped front gap f = omega (
  arith,
  length-append front (gap ++ f ∷ []),
  length-append gap (f ∷ []),
  length-append front gap,
)

length-grown :
    (front gap : List FieldEntry) (f : FieldEntry)
    → length ((front ++ f ∷ []) ++ gap) ≡ length (front ++ gap) + 1
length-grown front gap f = omega (
  arith,
  length-append (front ++ f ∷ []) gap,
  length-append front (f ∷ []),
  length-append front gap,
)

-- The slots in front of the slot `i` are the kept ones `front` and a gap.
sweep :
    (rest front gap : List FieldEntry) (i : ℕ)
    → i ≡ length (front ++ gap)
    → swept (length rest) i ((front ++ gap) ++ rest, length front) ≡ front ++ survivors rest
unfolding survivors swept compact_loop
sweep [] front gap i e =
    ap (take (length front)) (append_assoc front gap [])
    ∙ take-length-append front (gap ++ [])
    ∙ sym (append-nil front)
sweep (f ∷ rest) front [] i e = elim (Bool-cases (kept f)) [
  | inr k ↦
      dropped front f rest i [] e k
        (sweep rest front (f ∷ []) (i + 1) (omega (arith, length-regrouped front [] f)))
  | inl k ↦
      kept_in_place front f rest i e k
        (sweep rest (front ++ f ∷ []) [] (i + 1) (omega (arith, length-grown front [] f)))
]
sweep (f ∷ rest) front (g ∷ gap) i e = elim (Bool-cases (kept f)) [
  | inr k ↦ dropped front f rest i (g ∷ gap) e k (
      sweep rest front ((g ∷ gap) ++ f ∷ []) (i + 1)
        (omega (arith, length-regrouped front (g ∷ gap) f)))
  | inl k ↦ kept_moved front f rest i g gap e k (
      sweep rest (front ++ f ∷ []) (gap ++ zero_entry ∷ []) (i + 1) (
        omega (
          arith,
          length-grown front (gap ++ zero_entry ∷ []) f,
          length-append front (gap ++ zero_entry ∷ []),
          length-append gap (zero_entry ∷ []),
          length-append front (g ∷ gap),
        )))
]

-- After fleece_state_manager_compact the first field_count slots hold exactly the live entries and the
-- named tombstones of the store before, in their order.
pub take-compact :
    (m : StateManager) → take (compact m).field_count (compact m).fields ≡ survivors m.fields
unfolding compact swept
take-compact m = sweep m.fields [] [] 0 refl
