-- ===== src/Planner/Heap/Up.antt =====
-- The loop of heap_push. The entry is taken to stand in the hole that the loop moves up.
use fleece.Prelude.{
  ℕ, zero, suc, ◌-◌, ◌/◌, ◌≤◌, ◌<◌, ◌≡◌, refl, sym, ◌∙◌, ap, Bool, false, arith, length, length-set,
  set, Bool-cases, inl, inr, ◌==◌, ==_iff,
}
use fleece.Doubles.{dbl_le}
use fleece.Doubles.Order.{dbl_le→le, dbl_le-false}
use fleece.Planner.Heap.{Heap, HeapEntry, item, sift_up}
use fleece.Planner.Heap.Slots.{
  key, IsNumeric, IsHeap, IsSwap, set-IsSwap, IsSwap-IsNumeric, swap_first, swap_second,
  swap_others, key-set_self, key-set_other, IsNumeric-entry, IsNumeric-item, count, count-moved,
}

-- A heap but for the entry `i` and its parent; that parent is not after the children of `i` either.
unfoldable pub IsUp : Heap → ℕ → Type 0
IsUp a i =
    ((j : ℕ) → 0 < j → j < length a → (i == j) ≡ false → key a ((j - 1) / 2) ≤ key a j)
    × ((j : ℕ) → 0 < j → j < length a → (j - 1) / 2 ≡ i → 0 < i → key a ((i - 1) / 2) ≤ key a j)

IsUp-IsHeap : (a : Heap) (i : ℕ) → IsUp a i → (0 < i → key a ((i - 1) / 2) ≤ key a i) → IsHeap a
unfolding IsUp IsHeap
IsUp-IsHeap a i (edges, bridge) last j pos lt = elim (Bool-cases (i == j)) [
  | inl e ↦ rw (sym ((==_iff i j).0 e)) (last (ground arith))
  | inr e ↦ edges j pos lt e
]

module _ (a b : Heap) (i : ℕ) (pos : 0 < i) (i_lt : i < length a) (same : length b ≡ length a)
    (swap : IsSwap a b i ((i - 1) / 2)) (less : key a i < key a ((i - 1) / 2)) where
  up_edges :
      IsUp a i
      → (j : ℕ) → 0 < j
      → j < length b
      → (((i - 1) / 2) == j) ≡ false
      → key b ((j - 1) / 2) ≤ key b j
  unfolding IsUp
  up_edges (edges, bridge) j j_pos j_lt apart =
      let p = (i - 1) / 2 in
      elim (Bool-cases (i == j)) [
        | inl e ↦
            rw (sym ((==_iff i j).0 e))
              (omega (arith, swap_first a b i p swap, swap_second a b i p swap))
        | inr e ↦ elim (Bool-cases (i == ((j - 1) / 2))) [
          | inl c ↦ rw (sym ((==_iff i _).0 c)) (
              omega (
                arith,
                swap_first a b i p swap,
                swap_others a b i p swap j e apart,
                bridge j j_pos (omega arith) (sym ((==_iff i _).0 c)) pos,
              ))
          | inr c ↦ elim (Bool-cases (p == ((j - 1) / 2))) [
            | inl d ↦ rw (sym ((==_iff p _).0 d)) (
                omega (
                  arith,
                  swap_second a b i p swap,
                  swap_others a b i p swap j e apart,
                  ap (key a) ((==_iff p _).0 d),
                  edges j j_pos (omega arith) e,
                ))
            | inr d ↦ omega (
              arith,
              swap_others a b i p swap j e apart,
              swap_others a b i p swap ((j - 1) / 2) c d,
              edges j j_pos (omega arith) e,
            )
          ]
        ]
      ]

  up_bridge :
      IsUp a i
      → (j : ℕ) → 0 < j
      → j < length b
      → (j - 1) / 2 ≡ (i - 1) / 2
      → 0 < (i - 1) / 2
      → key b (((i - 1) / 2 - 1) / 2) ≤ key b j
  unfolding IsUp
  up_bridge (edges, bridge) j j_pos j_lt child p_pos =
      let p = (i - 1) / 2 in
      let above = edges p p_pos (omega arith) (ground arith) in
      let kept = swap_others a b i p swap ((p - 1) / 2) (ground arith) (ground arith) in
      elim (Bool-cases (i == j)) [
        | inl e ↦ rw (sym ((==_iff i j).0 e)) (omega (arith, above, kept, swap_first a b i p swap))
        | inr e ↦ omega (
          arith,
          above,
          kept,
          swap_others a b i p swap j e (ground arith),
          ap (key a) child,
          edges j j_pos (omega arith) e,
        )
      ]

  IsUp-move : IsUp a i → IsUp b ((i - 1) / 2)
  unfolding IsUp
  IsUp-move up = (up_edges up, up_bridge up)

-- The loop gives a heap of numbers again.
pub sift_up-IsHeap :
    (n : ℕ) (h : Heap) (i : ℕ) (e : HeapEntry)
    → i ≤ n
    → i < length h
    → IsNumeric (set h i e)
    → IsUp (set h i e) i
    → IsNumeric (sift_up n h i e) × IsHeap (sift_up n h i e)
unfolding sift_up
sift_up-IsHeap zero h i e fuel lt num up =
    (num, IsUp-IsHeap (set h i e) i up (λ pos. absurd (omega arith)))
sift_up-IsHeap (suc n) h i e fuel lt num up =
    let p = (i - 1) / 2 in
    elim (Bool-cases (i == 0)) [
      | inl z ↦ rw (z, sift_up) (num, IsUp-IsHeap (set h i e) i up (λ pos. absurd (ground arith)))
      | inr z ↦
          let self = key-set_self h i e lt in
          let other = key-set_other h i e p (ground arith) in
          elim (Bool-cases (dbl_le (item h p).f e.f)) [
            | inl le ↦
                rw (z, sift_up)
                  (rw (le, sift_up)
                    (
                      num,
                      IsUp-IsHeap (set h i e) i up
                          (λ pos. omega (arith, self, other, dbl_le→le _ _ le)),
                    ))
            | inr gt ↦
                rw (z, sift_up)
                  (rw (gt, sift_up)
                    (let p_lt : p < length h = omega arith in
                      let apart : (i == p) ≡ false = ground arith in
                      let same : length (set (set h i (item h p)) p e) ≡ length (set h i e) =
                        omega (
                          arith,
                          length-set h i (item h p),
                          length-set (set h i (item h p)) p e,
                          length-set h i e,
                        ) in
                      let i_lt : i < length (set h i e) = omega (arith, length-set h i e) in
                      let swap = set-IsSwap h i p e lt p_lt apart in
                      let more =
                        dbl_le-false _ _ (IsNumeric-item h i e p p_lt apart num)
                          (IsNumeric-entry h i e lt num) gt in
                      sift_up-IsHeap n (set h i (item h p)) p e (omega arith)
                        (omega (arith, length-set h i (item h p)))
                        (IsSwap-IsNumeric _ _ i p swap i_lt (omega arith) same num)
                        (IsUp-move (set h i e) _ i (ground arith) i_lt same swap
                          (omega (arith, self, other, more)) up)))
          ]
    ]

-- The loop keeps every entry, and adds the one that it carries.
pub count-sift_up :
    (t : HeapEntry → Bool) (n : ℕ) (h : Heap) (i : ℕ) (e : HeapEntry)
    → i < length h
    → count t (sift_up n h i e) ≡ count t (set h i e)
unfolding sift_up
count-sift_up t zero h i e lt = refl
count-sift_up t (suc n) h i e lt =
    let p = (i - 1) / 2 in
    elim (Bool-cases (i == 0)) [
      | inl z ↦ rw (z, sift_up) refl
      | inr z ↦ elim (Bool-cases (dbl_le (item h p).f e.f)) [
        | inl le ↦ rw (z, sift_up) (rw (le, sift_up) refl)
        | inr gt ↦
            rw (z, sift_up)
              (rw (gt, sift_up)
                (count-sift_up t n (set h i (item h p)) p e
                    (omega (arith, length-set h i (item h p)))
                  ∙ count-moved t h i p e lt (omega arith) (ground arith)))
      ]
    ]
