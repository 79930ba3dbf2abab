-- ===== src/State/Bounded/Counting.antt =====
-- The number of slots that the bounded exporter takes, and the number of entries in them.
use fleece.Prelude.{
  ℕ, zero, suc, ◌+◌, ◌≡◌, refl, ◌∙◌, ap, true, false, ◌&&◌, List, [], ◌∷◌, length, set, get_or, All,
  All-map, inl, inr, Bool-cases, arith,
}
use mathlib.Core.Path.{subst}
use mathlib.Core.Option.{some-injective}
use fleece.State.{StateManager, FieldEntry, zero_entry, shared_owner_id}
use fleece.State.Digest.{in_stream}
use fleece.State.Export.{eligible}
use fleece.State.Bounded.{
  Item, PackState, mark, collect, sort_loop, pack, full_for, take_item, packed_delta, sorted_items,
  is_taken, taken_entries,
}
use fleece.State.Bounded.Order.{item_of}
use fleece.State.Bounded.Found.{IsDue, IsFound, collect-IsFound, sorted_items-IsFound, IsDue-mark}
use fleece.State.Bounded.{sift, later, base_size}
use fleece.State.Bounded.Order.{All-sift}
use fleece.Prelude.{◌<◌, ◌==◌, rev_append}

All-both :
    {A : Type 0} (P Q R : A → Type 0) (xs : List A)
    → ((x : A) → P x → Q x → R x)
    → All P xs
    → All Q xs
    → All R xs
All-both P Q R [] f p q = tt
All-both P Q R (x ∷ xs) f p q = (f x p.0 q.0, All-both P Q R xs f p.1 q.1)

All-of : {A : Type 0} (P : A → Type 0) (xs : List A) → ((x : A) → P x) → All P xs
All-of P [] f = tt
All-of P (x ∷ xs) f = (f x, All-of P xs f)

-- Items of different slots.
abbrev Differs : Item → Item → Type 0
Differs x y = (x.index == y.index) ≡ false

Differs-sym : (x y : Item) → Differs x y → Differs y x
Differs-sym x y d = ground (arith, d)

abbrev IsDistinct : List Item → Type 0
IsDistinct [] = Unit {0}
IsDistinct (x ∷ xs) = All (Differs x) xs × IsDistinct xs

collect-IsDistinct : (since base : ℕ) (fs : List FieldEntry) → IsDistinct (collect since base fs)
unfolding collect
collect-IsDistinct since base [] = tt
collect-IsDistinct since base (f ∷ fs) = elim (Bool-cases (eligible shared_owner_id since f)) [
  | inr e ↦ rw e (collect-IsDistinct since (base + 1) fs)
  | inl e ↦ rw e (
    All-map (IsFound since (base + 1) fs) (Differs (item_of base f)) (collect since (base + 1) fs)
        (λ y (k, at, due). ground (arith, at)) (collect-IsFound since (base + 1) fs),
    collect-IsDistinct since (base + 1) fs,
  )
]

sift-IsDistinct :
    (key : Item) (xs : List Item) → All (Differs key) xs → IsDistinct xs → IsDistinct (sift key xs)
unfolding sift
sift-IsDistinct key [] a d = (tt, tt)
sift-IsDistinct key (x ∷ xs) a d = elim (Bool-cases (later x key)) [
  | inl e ↦
      rw e (All-sift (Differs x) key xs (Differs-sym key x a.0) d.0, sift-IsDistinct key xs a.1 d.1)
  | inr e ↦ rw e (a, d)
]

sort_loop-IsDistinct :
    (done xs : List Item)
    → IsDistinct done
    → IsDistinct xs
    → All (λ x. All (Differs x) done) xs
    → IsDistinct (sort_loop done xs)
unfolding sort_loop
sort_loop-IsDistinct done [] d e a = d
sort_loop-IsDistinct done (x ∷ xs) d e a =
    sort_loop-IsDistinct (sift x done) xs (sift-IsDistinct x done a.0 d) e.1 (
      All-both (Differs x) (λ y. All (Differs y) done) (λ y. All (Differs y) (sift x done)) xs
        (λ y p q. All-sift (Differs y) x done (Differs-sym x y p) q) e.0 a.1)

rev_append-IsDistinct :
    (xs ys : List Item)
    → IsDistinct xs
    → IsDistinct ys
    → All (λ x. All (Differs x) ys) xs
    → IsDistinct (rev_append xs ys)
unfolding rev_append
rev_append-IsDistinct [] ys d e a = e
rev_append-IsDistinct (x ∷ xs) ys d e a =
    rev_append-IsDistinct xs (x ∷ ys) d.1 (a.0, e)
      (All-both (Differs x) (λ y. All (Differs y) ys) (λ y. All (Differs y) (x ∷ ys)) xs
        (λ y p q. (Differs-sym x y p, q)) d.0 a.1)

sorted_items-IsDistinct : (since : ℕ) (fs : List FieldEntry) → IsDistinct (sorted_items since fs)
unfolding sorted_items
sorted_items-IsDistinct since fs =
    rev_append-IsDistinct (sort_loop [] (collect since 0 fs)) []
      (sort_loop-IsDistinct [] (collect since 0 fs) tt (collect-IsDistinct since 0 fs)
        (All-of (λ x. All (Differs x) []) (collect since 0 fs) (λ x. tt)))
      tt (All-of (λ x. All (Differs x) []) (sort_loop [] (collect since 0 fs)) (λ x. tt))

-- Marking an entry changes no entry's being written.
count_mark :
    (taken : List ℕ) (now base : ℕ) (fs : List FieldEntry) (i : ℕ)
    → length (taken_entries taken base (set fs i (mark now (get_or fs i zero_entry))))
      ≡ length (taken_entries taken base fs)
unfolding taken_entries
count_mark taken now base [] i = refl
count_mark taken now base (f ∷ fs) zero = elim (Bool-cases (f.exists && is_taken taken base)) [
  | inl e ↦ ground (arith, e)
  | inr e ↦ ground (arith, e)
]
count_mark taken now base (f ∷ fs) (suc i) = ground (arith, count_mark taken now (base + 1) fs i)

-- A slot before the scan counts for nothing.
count_passed :
    (j : ℕ) (taken : List ℕ) (base : ℕ) (fs : List FieldEntry)
    → j < base
    → length (taken_entries (j ∷ taken) base fs) ≡ length (taken_entries taken base fs)
unfolding taken_entries is_taken
count_passed j taken base [] lt = refl
count_passed j taken base (f ∷ fs) lt =
    ground (arith, count_passed j taken (base + 1) fs (omega arith))

count_taken :
    (since base k j : ℕ) (taken : List ℕ) (fs : List FieldEntry)
    → j ≡ base + k
    → is_taken taken j ≡ false
    → IsDue since fs k
    → length (taken_entries (j ∷ taken) base fs) ≡ suc (length (taken_entries taken base fs))
unfolding taken_entries is_taken eligible in_stream
count_taken since base k j taken [] at t (f, e, p) = cc
count_taken since base zero j taken (g ∷ fs) at t (f, e, p) =
    let exists : g.exists ≡ true = rw (some-injective g f e) (ground (arith, p)) in
    let here : j ≡ base = omega arith in
    let free : is_taken taken base ≡ false = subst (λ i. is_taken taken i ≡ false) here t in
    ground (arith, exists, here, free, count_passed j taken (base + 1) fs (omega arith))
count_taken since base (suc k) j taken (g ∷ fs) at t due =
    ground (arith, at, count_taken since (base + 1) k j taken fs (omega arith) t due)

count_nothing : (base : ℕ) (fs : List FieldEntry) → length (taken_entries [] base fs) ≡ 0
unfolding taken_entries is_taken
count_nothing base [] = refl
count_nothing base (f ∷ fs) = ground (arith, count_nothing (base + 1) fs)

-- As many entries are written as slots are taken.
abbrev pub IsExact : PackState → Type 0
IsExact s = length (taken_entries s.taken 0 s.fields) ≡ length s.taken

pack-IsExact :
    (room now since : ℕ) (s : PackState) (items : List Item)
    → IsExact s
    → All (λ x. is_taken s.taken x.index ≡ false) items
    → IsDistinct items
    → All (IsFound since 0 s.fields) items
    → IsExact (pack room now s items)
unfolding pack take_item is_taken
pack-IsExact room now since s [] e t d p = e
pack-IsExact room now since s (x ∷ xs) e t d p = elim (Bool-cases (full_for room s x)) [
  | inl h ↦ rw (h, pack) e
  | inr h ↦
      let (k, at, due) = p.0 in
      rw (h, pack)
        (pack-IsExact room now since (take_item now s x) xs
          (count_mark (x.index ∷ s.taken) now 0 s.fields x.index
            ∙ count_taken since 0 k x.index s.taken s.fields at t.0 due
            ∙ ap suc e)
          (All-both (Differs x) (λ y. is_taken s.taken y.index ≡ false)
            (λ y. is_taken (x.index ∷ s.taken) y.index ≡ false) xs (λ y q r. ground (arith, q, r))
            d.0 t.1)
          d.1
          (All-map (IsFound since 0 s.fields) (IsFound since 0 (take_item now s x).fields) xs
            (λ y (k, at, due). (k, at, IsDue-mark since now s.fields x.index k due)) p.1))
]

pub packed-IsExact : (m : StateManager) (since room : ℕ) → IsExact (packed_delta m since room)
unfolding packed_delta is_taken
packed-IsExact m since room =
    let s : PackState = record {
      fields = m.fields;
      body = base_size m.node_id;
      taken = [];
      max_ts = 0;
      leftover = [];
    } in
    pack-IsExact room m.local_timestamp since s (sorted_items since m.fields)
      (count_nothing 0 m.fields)
      (All-of (λ x. is_taken [] x.index ≡ false) (sorted_items since m.fields) (λ x. refl))
      (sorted_items-IsDistinct since m.fields) (sorted_items-IsFound since m.fields)
