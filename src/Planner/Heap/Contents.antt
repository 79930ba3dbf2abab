-- ===== src/Planner/Heap/Contents.antt =====
-- What heap_push and heap_pop hold, whatever the order of the numbers in the heap.
use fleece.Prelude.{
  ℕ, suc, ◌+◌, ◌<◌, ◌≤◌, ◌≡◌, refl, ap, [], ◌∷◌, Bool, not, some, arith, length, take, ltb,
  Bool-cases, inl, inr,
}
use mathlib.Core.Option.{some-injective}
use mathlib.Core.Path.{subst}
use fleece.Planner.Heap.{Heap, HeapEntry, item, heap_push, heap_pop}
use fleece.Planner.Heap.Slots.{count, tally, count-append}
use fleece.Planner.Heap.Up.{count-sift_up}
use fleece.Planner.Heap.Down.{count-sift_down}
use fleece.Planner.Heap.Order.{
  set-snoc, whole, size, last, length-rest, rest-count, pushed, pushed-length,
}

count-heap_push :
    (t : HeapEntry → Bool) (h : Heap) (idx f : ℕ)
    → count t (heap_push h idx f) ≡ count t h + tally t (record { f = f; idx = idx })
unfolding heap_push count
count-heap_push t h idx f =
    let e : HeapEntry = record { f = f; idx = idx } in
    omega (
      arith,
      count-sift_up t (length h) (pushed h idx f) (length h) e
          (omega (arith, pushed-length h idx f)),
      ap (count t) (set-snoc h e),
      count-append t h (e ∷ []),
    )

abbrev Holds : (HeapEntry → Bool) → Heap → ℕ × Heap → Type 0
Holds t h r = ((item h 0).idx ≡ r.0) × (count t r.1 + tally t (item h 0) ≡ count t h)

count-heap_pop :
    (t : HeapEntry → Bool) (h : Heap) (r : ℕ × Heap) → heap_pop h ≡ some r → Holds t h r
unfolding heap_pop
count-heap_pop t [] r e = cc
count-heap_pop t (top ∷ []) r e =
    subst (Holds t (top ∷ [])) (some-injective _ r e)
      (unfold item in refl, unfold count in omega arith)
count-heap_pop t (top ∷ next ∷ rest) r e =
    let taken = length-rest top next rest in
    subst (Holds t (top ∷ next ∷ rest)) (some-injective _ r e) (
      unfold item in refl,
      omega (
        arith,
        count-sift_down t (length (next ∷ rest)) (take (size top next rest) (whole top next rest)) 0
            (last top next rest) (omega arith),
        rest-count top next rest t,
      ),
    )

-- Every index in the heap is below `n`.
abbrev is_beyond : ℕ → HeapEntry → Bool
is_beyond n e = not (ltb e.idx n)

unfoldable pub IsWithin : ℕ → Heap → Type 0
IsWithin n h = count (is_beyond n) h ≡ 0

count-beyond_suc : (n : ℕ) (h : Heap) → count (is_beyond (suc n)) h ≤ count (is_beyond n) h
unfolding count
count-beyond_suc n [] = omega arith
count-beyond_suc n (e ∷ h) = ground (arith, count-beyond_suc n h)

-- A node more is pushed under its index.
pub heap_push-IsWithin :
    (n : ℕ) (h : Heap) (f : ℕ) → IsWithin n h → IsWithin (suc n) (heap_push h n f)
unfolding IsWithin
heap_push-IsWithin n h f w =
    ground (arith, count-heap_push (is_beyond (suc n)) h n f, count-beyond_suc n h)

pub heap_pop-IsWithin :
    (n : ℕ) (h h' : Heap) (idx : ℕ)
    → IsWithin n h
    → heap_pop h ≡ some (idx, h')
    → (idx < n) × IsWithin n h'
unfolding IsWithin
heap_pop-IsWithin n h h' idx w e =
    let (top, sum) = count-heap_pop (is_beyond n) h (idx, h') e in
    (
      elim (Bool-cases (ltb (item h 0).idx n)) [
        | inl lt ↦ ground arith
        | inr ge ↦ absurd (ground arith)
      ],
      omega arith,
    )
