-- ===== src/State/Merge/Winner.antt =====
-- The last writer among the records of a key.
use fleece.Prelude.{
  ℕ, ◌≡◌, refl, sym, ◌∙◌, true, false, ◌&&◌, inl, inr, Option, none, some, List, [], ◌∷◌, arith,
  Bool-cases, Among, ◌↔◌,
}
use fleece.State.Slots.Cells.{Cell}
use fleece.State.Merge.{Remote}
use fleece.State.Merge.Step.{cell, stamp_le, beats, relevant, next_cell}

-- The cell of the key `k` after the records, in the order of the list.
unfoldable pub last_cell : ℕ → Option Cell → List Remote → Option Cell
last_cell k c [] = c
last_cell k c (r ∷ rs) = last_cell k (next_cell k r c) rs

beats_trans :
    (a b : Cell) (c : Option Cell) → beats a (some b) ≡ true → beats b c ≡ true → beats a c ≡ true
unfolding beats stamp_le
beats_trans a b none p q = refl
beats_trans a b (some c) p q = ground arith

le_of_beats : (a b : Cell) → beats a (some b) ≡ true → stamp_le b a ≡ true
unfolding beats stamp_le
le_of_beats a b p = ground arith

le_of_not_beats : (a b : Cell) → beats a (some b) ≡ false → stamp_le a b ≡ true
unfolding beats
le_of_not_beats a b p = ground arith

stamp_le_self : (a : Cell) → stamp_le a a ≡ true
unfolding stamp_le
stamp_le_self a = ground arith

-- What does not replace a cell does not exceed what replaces that cell.
le_of_passed :
    (a b : Cell) (c : Option Cell) → beats a c ≡ false → beats b c ≡ true → stamp_le a b ≡ true
unfolding beats stamp_le
le_of_passed a b none p q = cc
le_of_passed a b (some c) p q = ground arith

-- `c` is what the records of the key `k` make of `c0`: either none of them is newer and `c0` stays, or
-- `c` is the cell of one that is newer than `c0` and as new as each of them.
pub data IsLast (k : ℕ) (c0 : Option Cell) (rs : List Remote) (c : Option Cell) : Type 0 where
  stays :
      c ≡ c0
      → ((r : Remote) → Among r rs → relevant k r ≡ true → beats (cell r) c0 ≡ false)
      → IsLast k c0 rs c
  taken :
      (r : Remote)
      → Among r rs
      → relevant k r ≡ true
      → beats (cell r) c0 ≡ true
      → c ≡ some (cell r)
      → ((s : Remote) → Among s rs → relevant k s ≡ true → stamp_le (cell s) (cell r) ≡ true)
      → IsLast k c0 rs c

module _ (k : ℕ) (c0 : Option Cell) (r : Remote) (rs : List Remote) (c : Option Cell) where
  -- A first record that changes nothing: it is of another key, or not newer.
  skip_first :
      (relevant k r ≡ true → beats (cell r) c0 ≡ false) → IsLast k c0 rs c → IsLast k c0 (r ∷ rs) c
  skip_first h (stays e below) =
      stays e (λ s a rel. elim a [ inl p ↦ rw p (h (rw p at rel)) | inr t ↦ below s t rel ])
  skip_first h (taken s a rel b e above) = taken s (inr a) rel b e (λ t at rt. elim at [
    | inl p ↦ rw p (le_of_passed (cell r) (cell s) c0 (h (rw p at rt)) b)
    | inr u ↦ above t u rt
  ])

  -- A first record that is newer than `c0`.
  take_first :
      relevant k r ≡ true
      → beats (cell r) c0 ≡ true
      → IsLast k (some (cell r)) rs c
      → IsLast k c0 (r ∷ rs) c
  take_first rel b (stays e below) = taken r (inl refl) rel b e (λ s a rs'. elim a [
    | inl p ↦ rw p (stamp_le_self (cell r))
    | inr t ↦ le_of_not_beats (cell s) (cell r) (below s t rs')
  ])
  take_first rel b (taken s a rs' b' e above) =
      taken s (inr a) rs' (beats_trans (cell s) (cell r) c0 b' b) e (λ t at rt. elim at [
        | inl p ↦ rw p (le_of_beats (cell s) (cell r) b')
        | inr u ↦ above t u rt
      ])

next_kept :
    (k : ℕ) (r : Remote) (c : Option Cell)
    → (relevant k r && beats (cell r) c) ≡ false
    → next_cell k r c ≡ c
unfolding next_cell
next_kept k r c h = rw h

next_taken :
    (k : ℕ) (r : Remote) (c : Option Cell)
    → (relevant k r && beats (cell r) c) ≡ true
    → next_cell k r c ≡ some (cell r)
unfolding next_cell
next_taken k r c h = rw h

pub last_cell-IsLast :
    (k : ℕ) (c0 : Option Cell) (rs : List Remote) → IsLast k c0 rs (last_cell k c0 rs)
unfolding last_cell
last_cell-IsLast k c0 [] = stays refl (λ r a rel. absurd a)
last_cell-IsLast k c0 (r ∷ rs) = elim (Bool-cases (relevant k r)) [
  | inr other ↦
      rw (next_kept k r c0 (rw other))
        (skip_first k c0 r rs _ (λ rel. cc) (last_cell-IsLast k c0 rs))
  | inl rel ↦ elim (Bool-cases (beats (cell r) c0)) [
    | inr old ↦
        rw (next_kept k r c0 (rw (rel, old)))
          (skip_first k c0 r rs _ (λ _. old) (last_cell-IsLast k c0 rs))
    | inl new ↦
        rw (next_taken k r c0 (rw (rel, new)))
          (take_first k c0 r rs _ rel new (last_cell-IsLast k (some (cell r)) rs))
  ]
]

-- Two records of one key and one version are the same cell.
abbrev pub IsConsistent : List Remote → Type 0
IsConsistent rs =
    (r s : Remote) (k : ℕ)
    → Among r rs
    → Among s rs
    → relevant k r ≡ true
    → relevant k s ≡ true
    → r.timestamp ≡ s.timestamp
    → r.origin_node_id ≡ s.origin_node_id
    → cell r ≡ cell s

abbrev pub SameRecords : List Remote → List Remote → Type 0
SameRecords rs ss = (r : Remote) → Among r rs ↔ Among r ss

stamp_antisym :
    (r s : Remote)
    → stamp_le (cell r) (cell s) ≡ true
    → stamp_le (cell s) (cell r) ≡ true
    → (r.timestamp ≡ s.timestamp) × (r.origin_node_id ≡ s.origin_node_id)
unfolding stamp_le cell
stamp_antisym r s p q = ground arith

-- The outcome depends on the set of records alone: not on their order, nor on repetitions.
pub IsLast-unique :
    (k : ℕ) (c0 : Option Cell) (rs ss : List Remote) (c d : Option Cell)
    → SameRecords rs ss
    → IsConsistent rs
    → IsLast k c0 rs c
    → IsLast k c0 ss d
    → c ≡ d
IsLast-unique k c0 rs ss c d same con (stays e b) (stays e' b') = e ∙ sym e'
IsLast-unique k c0 rs ss c d same con (stays e b) (taken s a rel w e' ab) =
    cc (b s ((same s).1 a) rel)
IsLast-unique k c0 rs ss c d same con (taken r a rel w e ab) (stays e' b) =
    cc (b r ((same r).0 a) rel)
IsLast-unique k c0 rs ss c d same con (taken r a rel w e ab) (taken s a' rel' w' e' ab') =
    let (t, o) = stamp_antisym r s (ab' r ((same r).0 a) rel) (ab s ((same s).1 a') rel') in
    cc (con r s k a ((same s).1 a') rel rel' t o)
