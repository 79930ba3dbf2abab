-- ===== src/State/Bounded.antt =====
-- fleece_state_manager_export_shared_delta_bounded: a frame packed with the least recently exported
-- records first, until its body would be longer than `cap` bytes. The first record is taken whatever its
-- size, and the three bytes before the body are not counted, so a frame can be longer than `cap`.
pub mod Order
pub mod Found
pub mod Counting
pub mod Watermark
pub mod Progress
use fleece.Prelude.{
  ℕ, zero, suc, ◌+◌, ◌-◌, Bool, true, false, not, ◌&&◌, ◌||◌, Option, none, some, List, [], ◌∷◌,
  ◌++◌, ◌==◌, if◌then◌else◌, ltb, leb, length, get_or, set, rev_append, ◌%◌, ◌^◌,
}
use fleece.Cbor.{uint_size, array_header_size}
use fleece.State.{StateManager, FieldEntry, zero_entry, shared_owner_id, u64_max}
use fleece.State.Digest.{compute_stream_digest, max_timestamp_for_owner}
use fleece.State.Export.{eligible, record_size, write_records, write_header}

-- eligible[e], eligible_export_ts[e], eligible_ts[e]
pub record Item : Type 0 where
  pub index : ℕ
  pub export_ts : ℕ
  pub ts : ℕ

-- The scan for eligible entries from the slot `i` on.
unfoldable pub collect : ℕ → ℕ → List FieldEntry → List Item
collect since i [] = []
collect since i (f ∷ fs) =
    let rest = collect since (i + 1) fs in
    if eligible shared_owner_id since f
    then record { index = i; export_ts = f.last_export_ts; ts = f.timestamp } ∷ rest
    else rest

-- The test of the inner loop: the element on the left is to come after the key.
unfoldable pub later : Item → Item → Bool
later x key = ltb key.export_ts x.export_ts || (x.export_ts == key.export_ts && ltb key.ts x.ts)

-- The inner loop, over the sorted part from its right end to its left.
unfoldable pub sift : Item → List Item → List Item
sift key [] = key ∷ []
sift key (x ∷ xs) = let rest = sift key xs in if later x key then x ∷ rest else key ∷ x ∷ xs

-- The outer loop; `done` is the sorted part, its right end first.
unfoldable pub sort_loop : List Item → List Item → List Item
sort_loop done [] = done
sort_loop done (x ∷ xs) = sort_loop (sift x done) xs

unfoldable pub sorted_items : ℕ → List FieldEntry → List Item
sorted_items since fields = rev_append (sort_loop [] (collect since 0 fields)) []

-- `body` before the first record: the hw, the digest and the count at their worst.
unfoldable pub base_size : ℕ → ℕ
base_size node_id = array_header_size 5 + uint_size node_id + uint_size shared_owner_id + 9 + 9 + 3

-- What the packing loop has: the slots, `body`, the slots that are taken, `max_ts`, and the items from
-- where it stopped.
pub record PackState : Type 0 where
  pub fields : List FieldEntry
  pub body : ℕ
  pub taken : List ℕ
  pub max_ts : ℕ
  pub leftover : List Item

abbrev max_of : ℕ → ℕ → ℕ
max_of max_ts ts = if ltb max_ts ts then ts else max_ts

-- The slot is marked as exported now.
abbrev pub mark : ℕ → FieldEntry → FieldEntry
mark now f = record f { last_export_ts = now }

unfoldable pub take_item : ℕ → PackState → Item → PackState
take_item now s item =
    let f = get_or s.fields item.index zero_entry in
    record {
      fields = set s.fields item.index (mark now f);
      body = s.body + record_size true f;
      taken = item.index ∷ s.taken;
      max_ts = max_of s.max_ts f.timestamp;
      leftover = [];
    }

abbrev pub any_taken : List ℕ → Bool
any_taken [] = false
any_taken (i ∷ is) = true

-- The packing loop stops at the first record that does not fit, unless it would be the only one.
unfoldable pub full_for : ℕ → PackState → Item → Bool
full_for cap s item =
    any_taken s.taken && ltb cap (s.body + record_size true (get_or s.fields item.index zero_entry))

unfoldable pub pack : ℕ → ℕ → PackState → List Item → PackState
pack cap now s [] = s
pack cap now s (item ∷ items) = elim (full_for cap s item) [
  | true ↦ record s { leftover = item ∷ items }
  | false ↦ pack cap now (take_item now s item) items
]

unfoldable pub min_ts : List Item → ℕ → ℕ
min_ts [] least = least
min_ts (x ∷ xs) least = min_ts xs (if ltb x.ts least then x.ts else least)

-- The watermark is held below the least timestamp that was left over; the subtraction is that of
-- uint64_t.
unfoldable pub clamp : ℕ → ℕ → ℕ
clamp least max_ts =
    let below = (least + u64_max) % 2 ^ 64 in
    if not (least == u64_max) && ltb below max_ts then below else max_ts

unfoldable pub packed_delta : StateManager → ℕ → ℕ → PackState
packed_delta m since cap =
    pack cap m.local_timestamp
      (record {
        fields = m.fields;
        body = base_size m.node_id;
        taken = [];
        max_ts = 0;
        leftover = [];
      })
      (sorted_items since m.fields)

-- *included_max_ts
unfoldable pub included_max_ts : StateManager → ℕ → ℕ → ℕ
included_max_ts m since cap =
    let s = packed_delta m since cap in clamp (min_ts s.leftover u64_max) s.max_ts

unfoldable pub is_taken : List ℕ → ℕ → Bool
is_taken [] i = false
is_taken (j ∷ js) i = let rest = is_taken js i in if j == i then true else rest

-- The entries that are taken, in the order of their slots.
unfoldable pub taken_entries : List ℕ → ℕ → List FieldEntry → List FieldEntry
taken_entries taken i [] = []
taken_entries taken i (f ∷ fs) =
    let rest = taken_entries taken (i + 1) fs in
    if f.exists && is_taken taken i then f ∷ rest else rest

unfoldable pub bounded_frame : StateManager → PackState → List ℕ
bounded_frame m s =
    let records = taken_entries s.taken 0 s.fields in
    write_header m.node_id shared_owner_id (max_timestamp_for_owner m shared_owner_id)
      (compute_stream_digest m shared_owner_id) (length s.taken)
    ++ write_records true records

-- The whole operation: the store with its marks, and the frame with the watermark.
unfoldable pub export_shared_delta_bounded :
    (ℕ → Bool) → StateManager → ℕ → ℕ → StateManager × Option (List ℕ × ℕ)
export_shared_delta_bounded alloc m since cap =
    let s = packed_delta m since cap in
    let m' = record m { fields = s.fields } in
    if alloc (3 + s.body)
    then (m', some (bounded_frame m' s, included_max_ts m since cap))
    else (m', none)

-- fleece_state_manager_count_new_shared
unfoldable pub count_eligible : ℕ → List FieldEntry → ℕ
count_eligible since [] = 0
count_eligible since (f ∷ fs) =
    let rest = count_eligible since fs in
    if eligible shared_owner_id since f then rest + 1 else rest

unfoldable pub count_new_shared : StateManager → ℕ → ℕ
count_new_shared m since = count_eligible since m.fields
