-- ===== src/Planner/Heap/Slots.antt =====
-- The heap's array: reading after a write, moving an entry into the hole, and counting.
use fleece.Prelude.{
  ℕ, zero, suc, ◌+◌, ◌-◌, ◌/◌, ◌≤◌, ◌<◌, ◌≡◌, sym, ◌∙◌, ap, [], ◌∷◌, ◌++◌, Bool, false, arith,
  length, length-set, set, get_or-set_self, get_or-set_other, Bool-cases, inl, inr, ◌==◌, ==_iff,
  if◌then◌else◌,
}
use fleece.Doubles.{dbl_rank, dbl_is_nan}
use fleece.Planner.Heap.{Heap, HeapEntry, no_entry, item}

-- The place of an entry's `f` in the order of the numbers.
unfoldable pub key : Heap → ℕ → ℕ
key h i = dbl_rank (item h i).f

-- No `f` is a NaN.
unfoldable pub IsNumeric : Heap → Type 0
IsNumeric h = (i : ℕ) → i < length h → dbl_is_nan (item h i).f ≡ false

-- No entry comes before its parent.
unfoldable pub IsHeap : Heap → Type 0
unfolding key
IsHeap h = (i : ℕ) → 0 < i → i < length h → key h ((i - 1) / 2) ≤ key h i

pub item-set_self : (h : Heap) (i : ℕ) (e : HeapEntry) → i < length h → item (set h i e) i ≡ e
unfolding item
item-set_self h i e lt = get_or-set_self h i e no_entry lt

pub item-set_other :
    (h : Heap) (i j : ℕ) (e : HeapEntry) → (i == j) ≡ false → item (set h i e) j ≡ item h j
unfolding item
item-set_other h i j e other = get_or-set_other h i j e no_entry other

-- Two arrays that differ by exchanging the entries `i` and `p`.
pub record IsSwap (a b : Heap) (i p : ℕ) : Type 0 where
  pub first : item b i ≡ item a p
  pub second : item b p ≡ item a i
  pub others : (j : ℕ) → (i == j) ≡ false → (p == j) ≡ false → item b j ≡ item a j

-- Moving entry `p` into the hole `i` exchanges the two where `e` is taken to stand in the hole.
pub set-IsSwap :
    (h : Heap) (i p : ℕ) (e : HeapEntry)
    → i < length h
    → p < length h
    → (i == p) ≡ false
    → IsSwap (set h i e) (set (set h i (item h p)) p e) i p
set-IsSwap h i p e i_lt p_lt apart =
    let moved = set h i (item h p) in
    record {
      first =
          item-set_other moved p i e (ground arith)
          ∙ item-set_self h i (item h p) i_lt
          ∙ sym (item-set_other h i p e apart);
      second =
          item-set_self moved p e (omega (arith, length-set h i (item h p)))
          ∙ sym (item-set_self h i e i_lt);
      others = λ j oi op.
          item-set_other moved p j e op
          ∙ item-set_other h i j (item h p) oi
          ∙ sym (item-set_other h i j e oi);
    }

pub IsSwap-IsNumeric :
    (a b : Heap) (i p : ℕ)
    → IsSwap a b i p
    → i < length a
    → p < length a
    → length b ≡ length a
    → IsNumeric a
    → IsNumeric b
unfolding IsNumeric
IsSwap-IsNumeric a b i p swap i_lt p_lt same num j lt = elim (Bool-cases (i == j)) [
  | inl e ↦ rw (sym ((==_iff i j).0 e), swap.first) (num p p_lt)
  | inr e ↦ elim (Bool-cases (p == j)) [
    | inl d ↦ rw (sym ((==_iff p j).0 d), swap.second) (num i i_lt)
    | inr d ↦ rw (swap.others j e d) (num j (omega arith))
  ]
]

-- How many entries a test holds of.
unfoldable pub count : (HeapEntry → Bool) → Heap → ℕ
count t [] = 0
count t (e ∷ es) = (if t e then 1 else 0) + count t es

abbrev pub tally : (HeapEntry → Bool) → HeapEntry → ℕ
tally t e = if t e then 1 else 0

pub count-set :
    (t : HeapEntry → Bool) (h : Heap) (i : ℕ) (e : HeapEntry)
    → i < length h
    → count t (set h i e) + tally t (item h i) ≡ count t h + tally t e
unfolding count item
count-set t [] i e lt = absurd (omega arith)
count-set t (x ∷ h) zero e lt = omega arith
count-set t (x ∷ h) (suc i) e lt = omega (arith, count-set t h i e (omega arith))

pub count-append : (t : HeapEntry → Bool) (a b : Heap) → count t (a ++ b) ≡ count t a + count t b
unfolding count
count-append t [] b = omega arith
count-append t (x ∷ a) b = omega (arith, count-append t a b)

-- Moving an entry into the hole changes no count.
pub count-moved :
    (t : HeapEntry → Bool) (h : Heap) (i p : ℕ) (e : HeapEntry)
    → i < length h
    → p < length h
    → (i == p) ≡ false
    → count t (set (set h i (item h p)) p e) ≡ count t (set h i e)
count-moved t h i p e i_lt p_lt apart = omega (
  arith,
  count-set t (set h i (item h p)) p e (omega (arith, length-set h i (item h p))),
  count-set t h i (item h p) i_lt,
  count-set t h i e i_lt,
  ap (tally t) (item-set_other h i p (item h p) apart),
)

module _ (a b : Heap) (i p : ℕ) (swap : IsSwap a b i p) where
  pub swap_first : key b i ≡ key a p
  unfolding key
  swap_first = ap (λ (e : HeapEntry). dbl_rank e.f) swap.first

  pub swap_second : key b p ≡ key a i
  unfolding key
  swap_second = ap (λ (e : HeapEntry). dbl_rank e.f) swap.second

  pub swap_others : (j : ℕ) → (i == j) ≡ false → (p == j) ≡ false → key b j ≡ key a j
  unfolding key
  swap_others j x y = ap (λ (e : HeapEntry). dbl_rank e.f) (swap.others j x y)

module _ (h : Heap) (i : ℕ) (e : HeapEntry) where
  pub key-set_self : i < length h → key (set h i e) i ≡ dbl_rank e.f
  unfolding key
  key-set_self lt = ap (λ (x : HeapEntry). dbl_rank x.f) (item-set_self h i e lt)

  pub key-set_other : (j : ℕ) → (i == j) ≡ false → key (set h i e) j ≡ dbl_rank (item h j).f
  unfolding key
  key-set_other j apart = ap (λ (x : HeapEntry). dbl_rank x.f) (item-set_other h i j e apart)

  pub IsNumeric-entry : i < length h → IsNumeric (set h i e) → dbl_is_nan e.f ≡ false
  unfolding IsNumeric
  IsNumeric-entry lt num =
      ap (λ (x : HeapEntry). dbl_is_nan x.f) (sym (item-set_self h i e lt))
      ∙ num i (omega (arith, length-set h i e))

  pub IsNumeric-item :
      (j : ℕ)
      → j < length h
      → (i == j) ≡ false
      → IsNumeric (set h i e)
      → dbl_is_nan (item h j).f ≡ false
  unfolding IsNumeric
  IsNumeric-item j lt apart num =
      ap (λ (x : HeapEntry). dbl_is_nan x.f) (sym (item-set_other h i j e apart))
      ∙ num j (omega (arith, length-set h i e))
