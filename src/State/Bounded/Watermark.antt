-- ===== src/State/Bounded/Watermark.antt =====
-- What the watermark of a bounded frame promises to the receiver.
use fleece.Prelude.{
  ℕ, ◌≤◌, ◌<◌, ◌≡◌, true, some, List, [], ◌∷◌, if◌then◌else◌, ltb, All, All-map, Among, arith, ◌⊎◌,
  inl, inr, Bool-cases, get_elem?,
}
use fleece.State.{StateManager, FieldEntry, shared_owner_id, u64_max}
use fleece.State.Export.{eligible}
use fleece.State.Bounded.{
  Item, PackState, base_size, pack, full_for, take_item, min_ts, clamp, packed_delta,
  included_max_ts, is_taken, sorted_items,
}
use fleece.State.Bounded.Order.{Among-sorted_items, item_of, IsNewer, sorted_items-IsNewer}

min_ts-le : (xs : List Item) (least : ℕ) → min_ts xs least ≤ least
unfolding min_ts
min_ts-le [] least = omega arith
min_ts-le (x ∷ xs) least = ground (arith, min_ts-le xs (if ltb x.ts least then x.ts else least))

min_ts-le-Among : (x : Item) (xs : List Item) (least : ℕ) → Among x xs → min_ts xs least ≤ x.ts
unfolding min_ts
min_ts-le-Among x [] least a = absurd a
min_ts-le-Among x (y ∷ ys) least (inl e) =
    ground (arith, min_ts-le ys (if ltb y.ts least then y.ts else least))
min_ts-le-Among x (y ∷ ys) least (inr a) =
    min_ts-le-Among x ys (if ltb y.ts least then y.ts else least) a

min_ts-gt :
    (n : ℕ) (xs : List Item) (least : ℕ) → All (IsNewer n) xs → n < least → n < min_ts xs least
unfolding min_ts
min_ts-gt n [] least p h = h
min_ts-gt n (x ∷ xs) least p h =
    min_ts-gt n xs (if ltb x.ts least then x.ts else least) p.1 (ground arith)

clamp-lt : (least max_ts ts : ℕ) → 0 < least → least ≤ ts → ts < u64_max → clamp least max_ts < ts
unfolding clamp
clamp-lt least max_ts ts p q r = ground arith

-- What was taken stays taken.
taken-pack :
    (room now : ℕ) (s : PackState) (items : List Item) (i : ℕ)
    → is_taken s.taken i ≡ true
    → is_taken (pack room now s items).taken i ≡ true
unfolding pack take_item is_taken
taken-pack room now s [] i h = h
taken-pack room now s (x ∷ xs) i h = elim (Bool-cases (full_for room s x)) [
  | inl e ↦ rw (e, pack) h
  | inr e ↦ rw (e, pack) (taken-pack room now (take_item now s x) xs i (ground (arith, h)))
]

pack-splits :
    (room now : ℕ) (s : PackState) (items : List Item) (x : Item)
    → Among x items
    → (is_taken (pack room now s items).taken x.index ≡ true)
      ⊎ Among x (pack room now s items).leftover
unfolding pack take_item is_taken
pack-splits room now s [] x a = absurd a
pack-splits room now s (y ∷ ys) x (inl p) = elim (Bool-cases (full_for room s y)) [
  | inl e ↦ rw (e, pack) (inr (inl p))
  | inr e ↦
      rw (e, pack) (inl (taken-pack room now (take_item now s y) ys x.index (ground (arith, p))))
]
pack-splits room now s (y ∷ ys) x (inr p) = elim (Bool-cases (full_for room s y)) [
  | inl e ↦ rw (e, pack) (inr (inr p))
  | inr e ↦ rw (e, pack) (pack-splits room now (take_item now s y) ys x p)
]

leftover-IsNewer :
    (room now n : ℕ) (s : PackState) (items : List Item)
    → All (IsNewer n) s.leftover
    → All (IsNewer n) items
    → All (IsNewer n) (pack room now s items).leftover
unfolding pack take_item
leftover-IsNewer room now n s [] p q = p
leftover-IsNewer room now n s (y ∷ ys) p q = elim (Bool-cases (full_for room s y)) [
  | inl e ↦ rw (e, pack) q
  | inr e ↦ rw (e, pack) (leftover-IsNewer room now n (take_item now s y) ys tt q.1)
]

-- Every entry of the shared stream that is newer than `since` and stamped below UINT64_MAX is
-- taken into the bounded frame, or its timestamp lies above the watermark that is reported for the
-- frame.
pub watermark-IsSafe :
    (m : StateManager) (since room i : ℕ) (f : FieldEntry)
    → get_elem? m.fields i ≡ some f
    → eligible shared_owner_id since f ≡ true
    → f.timestamp < u64_max
    → (is_taken (packed_delta m since room).taken i ≡ true)
      ⊎ (included_max_ts m since room < f.timestamp)
unfolding packed_delta included_max_ts
watermark-IsSafe m since room i f e p h =
    let s = packed_delta m since room in
    let x = item_of i f in
    let above_0 =
      leftover-IsNewer room m.local_timestamp 0
        (record {
          fields = m.fields;
          body = base_size m.node_id;
          taken = [];
          max_ts = 0;
          leftover = [];
        })
        (sorted_items since m.fields) tt
        (All-map (IsNewer since) (IsNewer 0) (sorted_items since m.fields) (λ y q. omega arith)
          (sorted_items-IsNewer since m.fields)) in
    elim (pack-splits room m.local_timestamp _ (sorted_items since m.fields) x
      (Among-sorted_items since i m.fields f e p)) [
        | inl t ↦ inl t
        | inr a ↦ inr (
            clamp-lt (min_ts s.leftover u64_max) s.max_ts f.timestamp
              (min_ts-gt 0 s.leftover u64_max above_0 (omega arith))
              (min_ts-le-Among x s.leftover u64_max a) h)
      ]
