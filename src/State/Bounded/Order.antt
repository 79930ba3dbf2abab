-- ===== src/State/Bounded/Order.antt =====
-- The insertion sort of the bounded exporter: the order of its result, and the items in it.
use fleece.Prelude.{
  ℕ, zero, suc, ◌+◌, ◌<◌, ◌≡◌, true, false, some, List, [], ◌∷◌, All, All-rev_append, All-map,
  Among, Among-rev_append, rev_append, arith, ap, ◌⊎◌, inl, inr, Bool-cases, get_elem?,
}
use mathlib.Core.Path.{subst}
use fleece.State.{FieldEntry, shared_owner_id}
use fleece.State.Export.{eligible}
use fleece.State.Bounded.{Item, collect, later, sift, sort_loop, sorted_items}

-- No element of the list comes later than one behind it.
abbrev pub Ascending : List Item → Type 0
Ascending [] = Unit {0}
Ascending (x ∷ xs) = All (λ y. later x y ≡ false) xs × Ascending xs

-- The same from the right end to the left.
abbrev Descending : List Item → Type 0
Descending [] = Unit {0}
Descending (x ∷ xs) = All (λ y. later y x ≡ false) xs × Descending xs

later_trans : (a b c : Item) → later a b ≡ false → later b c ≡ false → later a c ≡ false
unfolding later
later_trans a b c p q = ground arith

later_asym : (a b : Item) → later a b ≡ true → later b a ≡ false
unfolding later
later_asym a b p = ground arith

pub All-sift :
    (P : Item → Type 0) (key : Item) (xs : List Item) → P key → All P xs → All P (sift key xs)
unfolding sift
All-sift P key [] k p = (k, tt)
All-sift P key (x ∷ xs) k p = elim (Bool-cases (later x key)) [
  | inl e ↦ rw e (p.0, All-sift P key xs k p.1)
  | inr e ↦ rw e (k, p)
]

sift-Descending : (key : Item) (xs : List Item) → Descending xs → Descending (sift key xs)
unfolding sift
sift-Descending key [] d = (tt, tt)
sift-Descending key (x ∷ xs) d = elim (Bool-cases (later x key)) [
  | inl e ↦ rw e (
    All-sift (λ y. later y x ≡ false) key xs (later_asym x key e) d.0,
    sift-Descending key xs d.1,
  )
  | inr e ↦ rw e (
    (
      e,
      All-map (λ y. later y x ≡ false) (λ y. later y key ≡ false) xs
          (λ y p. later_trans y x key p e) d.0,
    ),
    d,
  )
]

sort_loop-Descending : (done xs : List Item) → Descending done → Descending (sort_loop done xs)
unfolding sort_loop
sort_loop-Descending done [] d = d
sort_loop-Descending done (x ∷ xs) d =
    sort_loop-Descending (sift x done) xs (sift-Descending x done d)

-- Reversing a descending list onto an ascending one that comes no earlier.
rev_append-Ascending :
    (xs ys : List Item)
    → Descending xs
    → Ascending ys
    → All (λ y. All (λ x. later x y ≡ false) xs) ys
    → Ascending (rev_append xs ys)
unfolding rev_append
rev_append-Ascending [] ys d a p = a
rev_append-Ascending (x ∷ xs) ys d a p =
    rev_append-Ascending xs (x ∷ ys) d.1
      (
        All-map (λ y. All (λ z. later z y ≡ false) (x ∷ xs)) (λ y. later x y ≡ false) ys
            (λ y q. q.0) p,
        a,
      )
      (
        d.0,
        All-map (λ y. All (λ z. later z y ≡ false) (x ∷ xs)) (λ y. All (λ z. later z y ≡ false) xs)
            ys (λ y q. q.1) p,
      )

pub sorted_items-Ascending : (since : ℕ) (fs : List FieldEntry) → Ascending (sorted_items since fs)
unfolding sorted_items
sorted_items-Ascending since fs =
    rev_append-Ascending (sort_loop [] (collect since 0 fs)) [] (sort_loop-Descending [] _ tt) tt tt

Among-sift : (x key : Item) (xs : List Item) → (x ≡ key) ⊎ Among x xs → Among x (sift key xs)
unfolding sift
Among-sift x key [] (inl e) = inl e
Among-sift x key [] (inr a) = absurd a
Among-sift x key (y ∷ ys) (inl e) = elim (Bool-cases (later y key)) [
  | inr p ↦ rw p (inl e)
  | inl p ↦ rw p (inr (Among-sift x key ys (inl e)))
]
Among-sift x key (y ∷ ys) (inr (inl e)) = elim (Bool-cases (later y key)) [
  | inr p ↦ rw p (inr (inl e))
  | inl p ↦ rw p (inl e)
]
Among-sift x key (y ∷ ys) (inr (inr a)) = elim (Bool-cases (later y key)) [
  | inr p ↦ rw p (inr (inr a))
  | inl p ↦ rw p (inr (Among-sift x key ys (inr a)))
]

Among-sort_loop :
    (x : Item) (done xs : List Item) → Among x done ⊎ Among x xs → Among x (sort_loop done xs)
unfolding sort_loop
Among-sort_loop x done [] (inl a) = a
Among-sort_loop x done [] (inr a) = absurd a
Among-sort_loop x done (y ∷ ys) (inl a) =
    Among-sort_loop x (sift y done) ys (inl (Among-sift x y done (inr a)))
Among-sort_loop x done (y ∷ ys) (inr (inl e)) =
    Among-sort_loop x (sift y done) ys (inl (Among-sift x y done (inl e)))
Among-sort_loop x done (y ∷ ys) (inr (inr a)) = Among-sort_loop x (sift y done) ys (inr a)

-- The scan meets every eligible slot, and nothing whose timestamp is 0.
abbrev pub item_of : ℕ → FieldEntry → Item
item_of i f = record { index = i; export_ts = f.last_export_ts; ts = f.timestamp }

Among-collect :
    (since base i : ℕ) (fs : List FieldEntry) (f : FieldEntry)
    → get_elem? fs i ≡ some f
    → eligible shared_owner_id since f ≡ true
    → Among (item_of (base + i) f) (collect since base fs)
unfolding collect
Among-collect since base i [] f e p = absurd (ground (arith, e))
Among-collect since base zero (g ∷ fs) f e p =
    let g≡f : g ≡ f = ground (arith, e) in rw (g≡f, p) (inl (ap (λ n. item_of n f) (omega arith)))
Among-collect since base (suc i) (g ∷ fs) f e p =
    let rest : Among (item_of (base + suc i) f) (collect since (base + 1) fs) =
      subst (λ n. Among (item_of n f) (collect since (base + 1) fs)) (omega arith)
        (Among-collect since (base + 1) i fs f e p) in
    elim (Bool-cases (eligible shared_owner_id since g)) [
      | inl q ↦ rw q (inr rest)
      | inr q ↦ rw q rest
    ]

pub Among-sorted_items :
    (since i : ℕ) (fs : List FieldEntry) (f : FieldEntry)
    → get_elem? fs i ≡ some f
    → eligible shared_owner_id since f ≡ true
    → Among (item_of i f) (sorted_items since fs)
unfolding sorted_items
Among-sorted_items since i fs f e p =
    Among-rev_append (item_of i f) (sort_loop [] (collect since 0 fs)) [] (
      inl (
        Among-sort_loop (item_of i f) [] (collect since 0 fs) (
          inr (
            subst (λ n. Among (item_of n f) (collect since 0 fs)) (omega arith)
              (Among-collect since 0 i fs f e p)))))

abbrev pub IsNewer : ℕ → Item → Type 0
IsNewer since x = since < x.ts

collect-IsNewer :
    (since base : ℕ) (fs : List FieldEntry) → All (IsNewer since) (collect since base fs)
unfolding collect eligible
collect-IsNewer since base [] = tt
collect-IsNewer since base (f ∷ fs) = elim (Bool-cases (eligible shared_owner_id since f)) [
  | inl e ↦ rw e (ground arith, collect-IsNewer since (base + 1) fs)
  | inr e ↦ rw e (collect-IsNewer since (base + 1) fs)
]

pub All-sort_loop :
    (P : Item → Type 0) (done xs : List Item) → All P done → All P xs → All P (sort_loop done xs)
unfolding sort_loop
All-sort_loop P done [] p q = p
All-sort_loop P done (x ∷ xs) p q = All-sort_loop P (sift x done) xs (All-sift P x done q.0 p) q.1

pub sorted_items-IsNewer :
    (since : ℕ) (fs : List FieldEntry) → All (IsNewer since) (sorted_items since fs)
unfolding sorted_items
sorted_items-IsNewer since fs =
    All-rev_append (IsNewer since) (sort_loop [] (collect since 0 fs)) []
      (All-sort_loop (IsNewer since) [] (collect since 0 fs) tt (collect-IsNewer since 0 fs)) tt
