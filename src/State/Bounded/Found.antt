-- ===== src/State/Bounded/Found.antt =====
-- The slots that the scan of the bounded exporter finds, and the marks of its packing.
use fleece.Prelude.{
  ℕ, zero, suc, ◌+◌, ◌≡◌, refl, sym, true, List, [], ◌∷◌, some, set, get_or, All, All-map,
  All-rev_append, inl, inr, Bool-cases, get_elem?, arith,
}
use mathlib.Core.Path.{subst}
use mathlib.Core.Option.{some-injective}
use fleece.State.{FieldEntry, zero_entry, shared_owner_id}
use fleece.State.Digest.{in_stream}
use fleece.State.Export.{eligible}
use fleece.State.Bounded.{Item, mark, collect, sort_loop, sorted_items}
use fleece.State.Bounded.Order.{All-sort_loop}

-- The slot `j` has an entry of the shared stream that is newer than `since`.
abbrev pub IsDue : ℕ → List FieldEntry → ℕ → Type 0
IsDue since fs j =
    (f : FieldEntry) × (get_elem? fs j ≡ some f) × (eligible shared_owner_id since f ≡ true)

-- The scan collects such slots only.
abbrev pub IsFound : ℕ → ℕ → List FieldEntry → Item → Type 0
IsFound since base fs x = (k : ℕ) × (x.index ≡ base + k) × IsDue since fs k

pub collect-IsFound :
    (since base : ℕ) (fs : List FieldEntry) → All (IsFound since base fs) (collect since base fs)
unfolding collect
collect-IsFound since base [] = tt
collect-IsFound since base (f ∷ fs) =
    let rest =
      All-map (IsFound since (base + 1) fs) (IsFound since base (f ∷ fs))
        (collect since (base + 1) fs) (λ x (k, e, due). (suc k, omega arith, due))
        (collect-IsFound since (base + 1) fs) in
    elim (Bool-cases (eligible shared_owner_id since f)) [
      | inl e ↦ rw e ((zero, omega arith, (f, refl, e)), rest)
      | inr e ↦ rw e rest
    ]

pub sorted_items-IsFound :
    (since : ℕ) (fs : List FieldEntry) → All (IsFound since 0 fs) (sorted_items since fs)
unfolding sorted_items
sorted_items-IsFound since fs =
    All-rev_append (IsFound since 0 fs) (sort_loop [] (collect since 0 fs)) []
      (All-sort_loop (IsFound since 0 fs) [] (collect since 0 fs) tt (collect-IsFound since 0 fs))
      tt

-- Marking an entry as exported leaves every slot due that is.
pub IsDue-mark :
    (since now : ℕ) (fs : List FieldEntry) (i j : ℕ)
    → IsDue since fs j
    → IsDue since (set fs i (mark now (get_or fs i zero_entry))) j
unfolding eligible in_stream
IsDue-mark since now [] i j d = d
IsDue-mark since now (f ∷ fs) zero zero (g, e, p) = (
  mark now f,
  refl,
  subst (λ h. eligible shared_owner_id since h ≡ true) (sym (some-injective f g e)) p,
)
IsDue-mark since now (f ∷ fs) zero (suc j) d = d
IsDue-mark since now (f ∷ fs) (suc i) zero d = d
IsDue-mark since now (f ∷ fs) (suc i) (suc j) d = IsDue-mark since now fs i j d
