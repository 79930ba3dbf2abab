-- ===== src/State/Slots/View.antt =====
-- The slots of src/state/fleece_state_manager.c as a map from (key, owner) to entries.
use fleece.Prelude.{
  inl, inr, Option-cases, ℕ, zero, suc, ◌≤◌, ◌<◌, ◌≡◌, refl, true, false, ◌&&◌, Option, none, some,
  List, [], ◌∷◌, ◌==◌, if◌then◌else◌, length, get_or, set, arith,
}
use fleece.State.{FieldEntry, zero_entry}
use fleece.State.Slots.{owns, find_slot_owned}

-- The first entry that find_slot_owned finds.
unfoldable pub lookup : List FieldEntry → ℕ → ℕ → Option FieldEntry
lookup [] key owner = none
lookup (f ∷ fs) key owner = if owns key owner f then some f else lookup fs key owner

-- The first `n` slots are used and the others are free.
abbrev pub Packed : ℕ → List FieldEntry → Type 0
Packed zero [] = Unit {0}
Packed zero (f ∷ fs) = (f.exists ≡ false) × Packed zero fs
Packed (suc n) [] = ⊥
Packed (suc n) (f ∷ fs) = (f.exists ≡ true) × Packed n fs

pub Packed-le : (n : ℕ) (fs : List FieldEntry) → Packed n fs → n ≤ length fs
Packed-le zero fs h = omega arith
Packed-le (suc n) [] h = absurd h
Packed-le (suc n) (f ∷ fs) h = omega (arith, Packed-le n fs h.1)

pub find-lookup-none :
    (fs : List FieldEntry) (k o : ℕ) → find_slot_owned fs k o ≡ none → lookup fs k o ≡ none
unfolding find_slot_owned lookup
find-lookup-none [] k o h = refl
find-lookup-none (f ∷ fs) k o h = ground (arith, find-lookup-none fs k o)

-- The slot that find_slot_owned returns holds the entry of the map.
pub find-lookup-some :
    (fs : List FieldEntry) (k o i : ℕ)
    → find_slot_owned fs k o ≡ some i
    → (lookup fs k o ≡ some (get_or fs i zero_entry))
      × (owns k o (get_or fs i zero_entry) ≡ true)
      × (i < length fs)
unfolding find_slot_owned lookup
find-lookup-some [] k o i h = cc
find-lookup-some (f ∷ fs) k o zero h = ground arith
find-lookup-some (f ∷ fs) k o (suc i) h = ground (arith, find-lookup-some fs k o i)

lookup_free : (fs : List FieldEntry) (k o : ℕ) → Packed 0 fs → lookup fs k o ≡ none
unfolding lookup
lookup_free [] k o h = refl
lookup_free (f ∷ fs) k o h = ground (arith, lookup_free fs k o h.1)

-- Writing an entry of the same key and owner over the one that was found.
pub lookup-set_found :
    (fs : List FieldEntry) (k o i : ℕ) (e : FieldEntry) (j p : ℕ)
    → find_slot_owned fs k o ≡ some i
    → owns k o e ≡ true
    → lookup (set fs i e) j p ≡ (if k == j && o == p then some e else lookup fs j p)
unfolding find_slot_owned lookup
lookup-set_found [] k o i e j p h he = cc
lookup-set_found (f ∷ fs) k o zero e j p h he = ground arith
lookup-set_found (f ∷ fs) k o (suc i) e j p h he = ground (arith, lookup-set_found fs k o i e j p)

-- Writing a new entry into the first free slot.
pub lookup-set_new :
    (fs : List FieldEntry) (n k o : ℕ) (e : FieldEntry) (j p : ℕ)
    → Packed n fs
    → n < length fs
    → lookup fs k o ≡ none
    → owns k o e ≡ true
    → lookup (set fs n e) j p ≡ (if k == j && o == p then some e else lookup fs j p)
unfolding lookup
lookup-set_new [] n k o e j p pk lt h he = absurd (omega arith)
lookup-set_new (f ∷ fs) zero k o e j p pk lt h he = ground (arith, lookup_free fs j p pk.1)
lookup-set_new (f ∷ fs) (suc n) k o e j p pk lt h he =
    ground (arith, lookup-set_new fs n k o e j p pk.1)

pub Packed-set_found :
    (n : ℕ) (fs : List FieldEntry) (i : ℕ) (e : FieldEntry)
    → Packed n fs
    → (get_or fs i zero_entry).exists ≡ true
    → e.exists ≡ true
    → Packed n (set fs i e)
Packed-set_found n [] i e pk h he = pk
Packed-set_found zero (f ∷ fs) zero e pk h he = cc (pk.0)
Packed-set_found zero (f ∷ fs) (suc i) e pk h he = (pk.0, Packed-set_found zero fs i e pk.1 h he)
Packed-set_found (suc n) (f ∷ fs) zero e pk h he = (he, pk.1)
Packed-set_found (suc n) (f ∷ fs) (suc i) e pk h he = (pk.0, Packed-set_found n fs i e pk.1 h he)

pub Packed-set_new :
    (n : ℕ) (fs : List FieldEntry) (e : FieldEntry)
    → Packed n fs
    → n < length fs
    → e.exists ≡ true
    → Packed (suc n) (set fs n e)
Packed-set_new n [] e pk lt he = absurd (omega arith)
Packed-set_new zero (f ∷ fs) e pk lt he = (he, pk.1)
Packed-set_new (suc n) (f ∷ fs) e pk lt he = (pk.0, Packed-set_new n fs e pk.1 (omega arith) he)

-- What find_slot_owned returns, and what the map has then.
pub data Found (fs : List FieldEntry) (k o : ℕ) : Type 0 where
  absent : find_slot_owned fs k o ≡ none → lookup fs k o ≡ none → Found fs k o
  present :
      (i : ℕ)
      → find_slot_owned fs k o ≡ some i
      → lookup fs k o ≡ some (get_or fs i zero_entry)
      → owns k o (get_or fs i zero_entry) ≡ true
      → i < length fs
      → Found fs k o

pub find_slot_owned-Found : (fs : List FieldEntry) (k o : ℕ) → Found fs k o
find_slot_owned-Found fs k o = elim (Option-cases (find_slot_owned fs k o)) [
  | inl e ↦ absent e (find-lookup-none fs k o e)
  | inr (i, e) ↦ let (l, w, b) = find-lookup-some fs k o i e in present i e l w b
]
