-- ===== src/Planner/Heap/Order.antt =====
-- heap_push and heap_pop, with regard to the order of the heap and to its entries.
use fleece.Prelude.{
  ℕ, zero, suc, ◌+◌, ◌-◌, ◌/◌, ◌≤◌, ◌<◌, ◌≡◌, refl, ◌∙◌, ap, [], ◌∷◌, ◌++◌, Bool, true, false, some,
  arith, length, length-append, length-set, length-take, get_or-take, take-snoc, set, take,
  Bool-cases, inl, inr, ◌==◌, ==_iff,
}
use mathlib.Core.Option.{some-injective}
use mathlib.Core.Path.{subst}
use fleece.Doubles.{dbl_rank, dbl_is_nan, dbl_le}
use fleece.Doubles.Order.{dbl_le-true}
use fleece.Planner.Heap.{Heap, HeapEntry, no_entry, item, heap_push, heap_pop}
use fleece.Planner.Heap.Slots.{
  key, key-set_other, item-set_self, item-set_other, IsNumeric, IsHeap, count, tally, count-set,
  count-append,
}
use fleece.Planner.Heap.Up.{IsUp, sift_up-IsHeap, count-sift_up}
use fleece.Planner.Heap.Down.{IsDown, sift_down-IsHeap, count-sift_down}

-- No entry of a heap comes before its top.
top_least : (h : Heap) (fuel i : ℕ) → i ≤ fuel → IsHeap h → i < length h → key h 0 ≤ key h i
unfolding IsHeap
top_least h fuel zero le heap lt = omega arith
top_least h zero (suc i) le heap lt = absurd (omega arith)
top_least h (suc fuel) (suc i) le heap lt = omega (
  arith,
  heap (suc i) (omega arith) lt,
  top_least h fuel ((suc i - 1) / 2) (omega arith) heap (omega arith),
)

item-snoc_left : (h : Heap) (e : HeapEntry) (i : ℕ) → i < length h → item (h ++ e ∷ []) i ≡ item h i
unfolding item
item-snoc_left [] e i lt = absurd (omega arith)
item-snoc_left (x ∷ h) e zero lt = refl
item-snoc_left (x ∷ h) e (suc i) lt = item-snoc_left h e i (omega arith)

pub set-snoc : (h : Heap) (e : HeapEntry) → set (h ++ e ∷ []) (length h) e ≡ h ++ e ∷ []
set-snoc [] e = refl
set-snoc (x ∷ h) e = ap (◌∷◌ x) (set-snoc h e)

item-snoc_end : (h : Heap) (e : HeapEntry) → item (h ++ e ∷ []) (length h) ≡ e
unfolding item
item-snoc_end [] e = refl
item-snoc_end (x ∷ h) e = item-snoc_end h e

module _ (h : Heap) (idx f : ℕ) where
  abbrev pub pushed : Heap
  pushed = h ++ record { f = f; idx = idx } ∷ []

  pub pushed-length : length pushed ≡ length h + 1
  pushed-length = length-append h _

  pushed-IsNumeric : IsNumeric h → dbl_is_nan f ≡ false → IsNumeric pushed
  unfolding IsNumeric
  pushed-IsNumeric num ok i lt = elim (Bool-cases (i == length h)) [
    | inl e ↦ rw ((==_iff i _).0 e, item-snoc_end h (record { f = f; idx = idx })) ok
    | inr e ↦
        let below : i < length h = ground (arith, pushed-length) in
        rw (item-snoc_left h _ i below) (num i below)
  ]

  pushed-IsUp : IsHeap h → IsUp pushed (length h)
  unfolding IsUp IsHeap key
  pushed-IsUp heap = (
    λ j pos lt apart.
        let below : j < length h = ground (arith, pushed-length) in
        rw (item-snoc_left h _ j below, item-snoc_left h _ ((j - 1) / 2) (omega arith))
          (heap j pos below),
    λ j pos lt child p. absurd (omega (arith, pushed-length)),
  )

  -- Pushing an index with an `f` that is not a NaN on a heap whose `f` are not gives such a heap, in
  -- which every test holds of as many entries as before, and of the new one.
  pub heap_push-IsHeap :
      (t : HeapEntry → Bool)
      → IsNumeric h
      → dbl_is_nan f ≡ false
      → IsHeap h
      → IsNumeric (heap_push h idx f)
        × IsHeap (heap_push h idx f)
        × (count t (heap_push h idx f) ≡ count t h + tally t (record { f = f; idx = idx }))
  unfolding heap_push count
  heap_push-IsHeap t num ok heap =
      let e : HeapEntry = record { f = f; idx = idx } in
      let size = pushed-length in
      let (a, b) =
        sift_up-IsHeap (length h) pushed (length h) e (omega arith) (omega arith)
          (rw (set-snoc h e) (pushed-IsNumeric num ok)) (rw (set-snoc h e) (pushed-IsUp heap)) in
      (
        a,
        b,
        omega (
          arith,
          count-sift_up t (length h) pushed (length h) e (omega arith),
          ap (count t) (set-snoc h e),
          count-append t h (e ∷ []),
        ),
      )

-- What is left below a top, with the last entry in the hole.
module _ (top next : HeapEntry) (rest : Heap) where
  abbrev pub whole : Heap
  whole = top ∷ next ∷ rest

  abbrev pub size : ℕ
  size = length (next ∷ rest)

  abbrev pub last : HeapEntry
  last = item whole size

  pub length-rest : length (take size whole) ≡ size
  length-rest = length-take size whole (omega arith)

  item-take : (i : ℕ) → i < size → item (take size whole) i ≡ item whole i
  unfolding item
  item-take i lt = get_or-take size whole i no_entry lt

  rest-IsNumeric : IsNumeric whole → IsNumeric (set (take size whole) 0 last)
  unfolding IsNumeric
  rest-IsNumeric num zero lt =
      rw (item-set_self (take size whole) 0 last (omega (arith, length-rest)))
        (num size (omega arith))
  rest-IsNumeric num (suc i) lt =
      let below : suc i < size = omega (arith, length-rest, length-set (take size whole) 0 last) in
      rw (item-set_other (take size whole) 0 (suc i) last (ground arith), item-take (suc i) below)
        (num (suc i) (omega arith))

  rest-key : (i : ℕ) → 0 < i → i < size → key (set (take size whole) 0 last) i ≡ key whole i
  unfolding key
  rest-key i pos lt =
      key-set_other (take size whole) 0 last i (ground arith)
      ∙ ap (λ (e : HeapEntry). dbl_rank e.f) (item-take i lt)

  rest-IsDown : IsHeap whole → IsDown (set (take size whole) 0 last) 0
  unfolding IsDown IsHeap
  rest-IsDown heap = (
    λ j pos lt apart.
        let below : j < size = omega (arith, length-rest, length-set (take size whole) 0 last) in
        omega (
          arith,
          rest-key j pos below,
          rest-key ((j - 1) / 2) (ground arith) (omega arith),
          heap j pos (omega arith),
        ),
    λ j pos lt child p. absurd (omega arith),
  )

  pub rest-count :
      (t : HeapEntry → Bool) → count t (set (take size whole) 0 last) + tally t top ≡ count t whole
  unfolding count item
  rest-count t = omega (
    arith,
    count-set t (take size whole) 0 last (omega (arith, length-rest)),
    ap (tally t) (item-take 0 (omega arith)),
    count-append t (take size whole) (last ∷ []),
    ap (count t) (take-last),
    item_zero,
  )
    where
      take-last : take size whole ++ last ∷ [] ≡ whole
      take-last = take-snoc size whole no_entry refl

      item_zero : tally t (item whole 0) ≡ tally t top
      item_zero = refl

-- What heap_pop promises of the heap that it leaves.
abbrev IsPopped : (HeapEntry → Bool) → Heap → ℕ × Heap → Type 0
IsPopped t h r =
    IsNumeric r.1
    × IsHeap r.1
    × ((item h 0).idx ≡ r.0)
    × (count t r.1 + tally t (item h 0) ≡ count t h)

heap_pop-IsPopped :
    (t : HeapEntry → Bool) (h : Heap) (r : ℕ × Heap)
    → IsNumeric h
    → IsHeap h
    → heap_pop h ≡ some r
    → IsPopped t h r
unfolding heap_pop
heap_pop-IsPopped t [] r num heap e = cc
heap_pop-IsPopped t (top ∷ []) r num heap e = subst (IsPopped t (top ∷ [])) (some-injective _ r e) (
  unfold IsNumeric in λ i lt. absurd (omega arith),
  unfold IsHeap in λ i pos lt. absurd (omega arith),
  unfold item in refl,
  unfold count in omega arith,
)
heap_pop-IsPopped t (top ∷ next ∷ rest) r num heap e =
    let taken = length-rest top next rest in
    let below =
      sift_down-IsHeap (length (next ∷ rest)) (take (size top next rest) (whole top next rest)) 0
        (last top next rest) (omega arith) (omega arith) (rest-IsNumeric top next rest num)
        (rest-IsDown top next rest heap) in
    subst (IsPopped t (top ∷ next ∷ rest)) (some-injective _ r e) (
      below.0,
      below.1,
      unfold item in refl,
      omega (
        arith,
        count-sift_down t (length (next ∷ rest)) (take (size top next rest) (whole top next rest)) 0
            (last top next rest) (omega arith),
        rest-count top next rest t,
      ),
    )

-- Popping a heap whose `f` are not NaN gives the index at its top, whose `f` is at most that of every
-- entry, and leaves such a heap, in which every test holds of as many entries as before less the top.
pub heap_pop-IsHeap :
    (t : HeapEntry → Bool) (h h' : Heap) (idx i : ℕ)
    → IsNumeric h
    → IsHeap h
    → heap_pop h ≡ some (idx, h')
    → i < length h
    → IsNumeric h'
      × IsHeap h'
      × ((item h 0).idx ≡ idx)
      × (count t h' + tally t (item h 0) ≡ count t h)
      × (dbl_le (item h 0).f (item h i).f ≡ true)
unfolding IsNumeric
heap_pop-IsHeap t h h' idx i num heap e lt =
    let (a, b, c, d) = heap_pop-IsPopped t h (idx, h') num heap e in
    (
      a,
      b,
      c,
      d,
      dbl_le-true _ _ (num 0 (omega arith)) (num i lt)
          (unfold key in top_least h i i (omega arith) heap lt),
    )
