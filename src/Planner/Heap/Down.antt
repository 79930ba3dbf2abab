-- ===== src/Planner/Heap/Down.antt =====
-- The loop of heap_pop. The last entry is taken to stand in the hole that the loop moves down.
use fleece.Prelude.{
  ℕ, zero, suc, ◌+◌, ◌-◌, ◌*◌, ◌/◌, ◌≤◌, ◌<◌, ◌≡◌, ◌⊎◌, refl, sym, ◌∙◌, ap, Bool, true, false, ◌&&◌,
  arith, length, length-set, set, Bool-cases, inl, inr, ltb, ltb→lt, lt→ltb, ◌==◌, ==_iff,
}
use fleece.Doubles.{dbl_le, dbl_lt}
use fleece.Doubles.Order.{dbl_le→le, dbl_le-false, dbl_lt→lt, dbl_lt-false}
use fleece.Planner.Heap.{Heap, HeapEntry, item, least_child, sift_down}
use fleece.Planner.Heap.Slots.{
  key, IsNumeric, IsHeap, IsSwap, set-IsSwap, IsSwap-IsNumeric, swap_first, swap_second,
  swap_others, key-set_self, key-set_other, IsNumeric-entry, IsNumeric-item, count, count-moved,
}

-- A heap but for the entry `i` and its children, which are not before the parent of `i` either.
unfoldable pub IsDown : Heap → ℕ → Type 0
IsDown a i =
    ((j : ℕ) → 0 < j → j < length a → (i == ((j - 1) / 2)) ≡ false → key a ((j - 1) / 2) ≤ key a j)
    × ((j : ℕ) → 0 < j → j < length a → (j - 1) / 2 ≡ i → 0 < i → key a ((i - 1) / 2) ≤ key a j)

-- Not after any child of `i`.
unfoldable IsLeast : Heap → ℕ → ℕ → Type 0
IsLeast a i m = (j : ℕ) → 0 < j → j < length a → (j - 1) / 2 ≡ i → key a m ≤ key a j

IsDown-IsHeap : (a : Heap) (i : ℕ) → IsDown a i → IsLeast a i i → IsHeap a
unfolding IsDown IsHeap IsLeast
IsDown-IsHeap a i (edges, bridge) least j pos lt = elim (Bool-cases (i == ((j - 1) / 2))) [
  | inl e ↦ let c = (==_iff i _).0 e in omega (arith, ap (key a) c, least j pos lt (sym c))
  | inr e ↦ edges j pos lt e
]

module _ (a b : Heap) (i m : ℕ) (pos : 0 < m) (m_lt : m < length a) (child : (m - 1) / 2 ≡ i)
    (least : IsLeast a i m) (same : length b ≡ length a) (swap : IsSwap a b i m)
    (more : key a m < key a i) where
  down_edges :
      IsDown a i
      → (j : ℕ) → 0 < j
      → j < length b
      → (m == ((j - 1) / 2)) ≡ false
      → key b ((j - 1) / 2) ≤ key b j
  unfolding IsDown IsLeast
  down_edges (edges, bridge) j j_pos j_lt apart =
      let first = swap_first a b i m swap in
      let second = swap_second a b i m swap in
      elim (Bool-cases (m == j)) [
        | inl e ↦ rw (sym ((==_iff m j).0 e), child) (omega (arith, first, second))
        | inr e ↦ elim (Bool-cases (i == j)) [
          | inl c ↦ rw (sym ((==_iff i j).0 c)) (
              omega (
                arith,
                first,
                swap_others a b i m swap ((i - 1) / 2) (ground arith) (ground arith),
                bridge m pos m_lt child (ground arith),
              ))
          | inr c ↦ elim (Bool-cases (i == ((j - 1) / 2))) [
            | inl d ↦ rw (sym ((==_iff i _).0 d)) (
                omega (
                  arith,
                  first,
                  swap_others a b i m swap j c e,
                  least j j_pos (omega arith) (sym ((==_iff i _).0 d)),
                ))
            | inr d ↦ omega (
              arith,
              swap_others a b i m swap j c e,
              swap_others a b i m swap ((j - 1) / 2) d apart,
              edges j j_pos (omega arith) d,
            )
          ]
        ]
      ]

  down_bridge :
      IsDown a i
      → (j : ℕ) → 0 < j
      → j < length b
      → (j - 1) / 2 ≡ m
      → 0 < m
      → key b ((m - 1) / 2) ≤ key b j
  unfolding IsDown
  down_bridge (edges, bridge) j j_pos j_lt grandchild m_pos = rw child (
      omega (
        arith,
        swap_first a b i m swap,
        swap_others a b i m swap j (ground arith) (ground arith),
        ap (key a) grandchild,
        edges j j_pos (omega arith) (ground arith),
      ))

  IsDown-move : IsDown a i → IsDown b m
  unfolding IsDown
  IsDown-move down = (down_edges down, down_bridge down)

-- The child that the loop compares with the last entry is one of the two, and the lesser.
least_child_place :
    (h : Heap) (i : ℕ) → (least_child h i ≡ i * 2 + 1) ⊎ (least_child h i ≡ i * 2 + 1 + 1)
unfolding least_child
least_child_place h i = ground arith

least_child_after : (h : Heap) (i : ℕ) → i < least_child h i
least_child_after h i = elim (least_child_place h i) [ inl e ↦ omega arith | inr e ↦ omega arith ]

least_child_parent : (h : Heap) (i : ℕ) → (least_child h i - 1) / 2 ≡ i
least_child_parent h i = elim (least_child_place h i) [ inl e ↦ omega arith | inr e ↦ omega arith ]

least_child-lt : (h : Heap) (i : ℕ) → i * 2 + 1 < length h → least_child h i < length h
unfolding least_child
least_child-lt h i lt = ground arith

least_child-IsLeast :
    (h : Heap) (i : ℕ) (e : HeapEntry)
    → i < length h
    → i * 2 + 1 < length h
    → IsNumeric (set h i e)
    → IsLeast (set h i e) i (least_child h i)
unfolding IsLeast least_child
least_child-IsLeast h i e i_lt lt num j pos j_lt child =
    let l = i * 2 + 1 in
    let r = i * 2 + 1 + 1 in
    let key_l = key-set_other h i e l (ground arith) in
    let key_r = key-set_other h i e r (ground arith) in
    let size = length-set h i e in
    elim (Bool-cases (ltb r (length h) && dbl_lt (item h r).f (item h l).f)) [
      | inl c ↦
          rw (c, least_child)
            (elim (Bool-cases (j == l)) [
              | inl d ↦
                  rw ((==_iff j l).0 d)
                    (omega (arith, key_l, key_r, dbl_lt→lt _ _ (and_right (ltb r (length h)) _ c)))
              | inr d ↦ rw (second_child d) (omega arith)
            ])
      | inr c ↦
          rw (c, least_child)
            (elim (Bool-cases (j == l)) [
              | inl d ↦ rw ((==_iff j l).0 d) (omega arith)
              | inr d ↦
                  let e_r = second_child d in
                  let r_lt : r < length h = omega arith in
                  rw e_r (
                    omega (
                      arith,
                      key_l,
                      key_r,
                      dbl_lt-false _ _ (IsNumeric-item h i e r r_lt (ground arith) num)
                          (IsNumeric-item h i e l lt (ground arith) num)
                          (and_false (ltb r (length h)) _ (lt→ltb _ _ r_lt) c),
                    ))
            ])
    ]
  where
    second_child : (j == (i * 2 + 1)) ≡ false → j ≡ i * 2 + 1 + 1
    second_child d = ground arith

    and_right : (a b : Bool) → (a && b) ≡ true → b ≡ true
    and_right true b h = h
    and_right false b h = cc

    and_false : (a b : Bool) → a ≡ true → (a && b) ≡ false → b ≡ false
    and_false true b p q = q
    and_false false b p q = cc

-- The loop gives a heap of numbers again.
pub sift_down-IsHeap :
    (n : ℕ) (h : Heap) (i : ℕ) (e : HeapEntry)
    → length h ≤ i + n
    → i < length h
    → IsNumeric (set h i e)
    → IsDown (set h i e) i
    → IsNumeric (sift_down n h i e) × IsHeap (sift_down n h i e)
unfolding sift_down IsLeast
sift_down-IsHeap zero h i e fuel lt num down = absurd (omega arith)
sift_down-IsHeap (suc n) h i e fuel lt num down =
    let m = least_child h i in
    let size = length-set h i e in
    elim (Bool-cases (ltb (i * 2 + 1) (length h))) [
      | inr z ↦
          rw (z, sift_down)
            (num, IsDown-IsHeap (set h i e) i down (λ j pos j_lt child. absurd (ground arith)))
      | inl z ↦
          let l_lt = ltb→lt _ _ z in
          let m_lt = least_child-lt h i l_lt in
          let after : i < m = least_child_after h i in
          let child : (m - 1) / 2 ≡ i = least_child_parent h i in
          let least = least_child-IsLeast h i e lt l_lt num in
          let self = key-set_self h i e lt in
          let other = key-set_other h i e m (ground arith) in
          elim (Bool-cases (dbl_le e.f (item h m).f)) [
            | inl le ↦
                rw (z, sift_down)
                  (rw (le, sift_down)
                    (
                      num,
                      IsDown-IsHeap (set h i e) i down (λ j pos j_lt c.
                          omega (arith, self, other, dbl_le→le _ _ le, least j pos j_lt c)),
                    ))
            | inr gt ↦
                rw (z, sift_down)
                  (rw (gt, sift_down)
                    (let apart : (i == m) ≡ false = ground arith in
                      let same : length (set (set h i (item h m)) m e) ≡ length (set h i e) =
                        omega
                          (arith, length-set h i (item h m), length-set (set h i (item h m)) m e) in
                      let swap = set-IsSwap h i m e lt m_lt apart in
                      let more =
                        dbl_le-false _ _ (IsNumeric-entry h i e lt num)
                          (IsNumeric-item h i e m m_lt apart num) gt in
                      sift_down-IsHeap n (set h i (item h m)) m e
                        (omega (arith, length-set h i (item h m)))
                        (omega (arith, length-set h i (item h m)))
                        (IsSwap-IsNumeric _ _ i m swap (omega arith) (omega arith) same num)
                        (IsDown-move (set h i e) _ i m (omega arith) (omega arith) child least same
                          swap (omega (arith, self, other, more)) down)))
          ]
    ]

-- The loop keeps every entry, and adds the one that it carries.
pub count-sift_down :
    (t : HeapEntry → Bool) (n : ℕ) (h : Heap) (i : ℕ) (e : HeapEntry)
    → i < length h
    → count t (sift_down n h i e) ≡ count t (set h i e)
unfolding sift_down
count-sift_down t zero h i e lt = refl
count-sift_down t (suc n) h i e lt =
    let m = least_child h i in
    elim (Bool-cases (ltb (i * 2 + 1) (length h))) [
      | inr z ↦ rw (z, sift_down) refl
      | inl z ↦ elim (Bool-cases (dbl_le e.f (item h m).f)) [
        | inl le ↦ rw (z, sift_down) (rw (le, sift_down) refl)
        | inr gt ↦
            rw (z, sift_down)
              (rw (gt, sift_down)
                (let m_lt = least_child-lt h i (ltb→lt _ _ z) in
                  count-sift_down t n (set h i (item h m)) m e
                    (omega (arith, length-set h i (item h m)))
                  ∙ count-moved t h i m e lt m_lt (ground (arith, least_child_after h i))))
      ]
    ]
