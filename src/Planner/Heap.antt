-- ===== src/Planner/Heap.antt =====
-- The open list of the search in src/planner/fleece_planner.c: a binary heap of node indices by `f`.
-- The array grows as it is needed.
pub mod Slots
pub mod Up
pub mod Down
pub mod Order
pub mod Contents
use fleece.Prelude.{
  ℕ, zero, suc, ◌+◌, ◌-◌, ◌*◌, ◌/◌, List, [], ◌∷◌, ◌++◌, Bool, true, false, ◌&&◌, Option, none,
  some, length, get_or, set, take, ltb, ◌==◌, if◌then◌else◌,
}
use fleece.Doubles.{dbl_le, dbl_lt}

-- HeapEntry
pub record HeapEntry : Type 0 where
  pub f : ℕ
  pub idx : ℕ

abbrev pub no_entry : HeapEntry
no_entry = record { f = 0; idx = 0 }

abbrev pub Heap : Type 0
Heap = List HeapEntry

-- heap->items[i]
unfoldable pub item : Heap → ℕ → HeapEntry
item h i = get_or h i no_entry

-- The loop of heap_push for an entry that has come down to `i`; `i` rounds are more than it makes.
unfoldable pub sift_up : ℕ → Heap → ℕ → HeapEntry → Heap
unfolding item
sift_up zero h i e = set h i e
sift_up (suc n) h i e =
    let parent = (i - 1) / 2 in
    let rest = sift_up n (set h i (item h parent)) parent e in
    if i == 0 then set h i e else if dbl_le (item h parent).f e.f then set h i e else rest

-- heap_push: the new slot, which the loop fills, holds the entry until then.
unfoldable pub heap_push : Heap → ℕ → ℕ → Heap
unfolding sift_up
heap_push h idx f =
    let e : HeapEntry = record { f = f; idx = idx } in sift_up (length h) (h ++ e ∷ []) (length h) e

-- The child that the loop of heap_pop compares with the last entry.
unfoldable pub least_child : Heap → ℕ → ℕ
unfolding item
least_child h i =
    let l = i * 2 + 1 in
    let r = l + 1 in if ltb r (length h) && dbl_lt (item h r).f (item h l).f then r else l

-- The loop of heap_pop for the last entry; every round moves down, so `length h` rounds are enough.
unfoldable pub sift_down : ℕ → Heap → ℕ → HeapEntry → Heap
unfolding least_child
sift_down zero h i last = set h i last
sift_down (suc n) h i last =
    let m = least_child h i in
    let rest = sift_down n (set h i (item h m)) m last in
    if ltb (i * 2 + 1) (length h)
    then (if dbl_le last.f (item h m).f then set h i last else rest)
    else set h i last

-- heap_pop: the index at the top, and the heap without it. Where the last entry is the top itself,
-- the source stores it past the heap's end.
unfoldable pub heap_pop : Heap → Option (ℕ × Heap)
unfolding sift_down
heap_pop [] = none
heap_pop (top ∷ rest) =
    let len = length rest in
    let last = item (top ∷ rest) len in some (top.idx, sift_down len (take len (top ∷ rest)) 0 last)
