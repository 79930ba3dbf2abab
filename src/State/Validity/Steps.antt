-- ===== src/State/Validity/Steps.antt =====
-- The operations of State/Validity, one after the other.
use fleece.Prelude.{
  ℕ, ◌+◌, ◌^◌, ◌≤◌, ◌<◌, ◌≡◌, refl, Bool, not, ◌||◌, Option, none, some, List, [], ◌∷◌, ◌==◌,
  if◌then◌else◌, if-both, All, leb, length, get_or, arith, inl,
}
use mathlib.Core.Path.{subst}
use fleece.State.{StateManager, Code, ok, failed, zero_entry, shared_owner_id, tick}
use fleece.State.Hash.{hash_name}
use fleece.State.Slots.{find_slot_owned, Write, upsert_field}
use fleece.State.Peers.{touch_peer}
use fleece.State.Peers.Laws.{touch_frame}
use fleece.State.Merge.{
  Remote, acceptable, advance_clock, remote_write, keeps_incumbent, merge_named, merge_shared,
}
use fleece.State.Validity.{
  Operation, operate, operate_all, IsValid, remote_stamp, set_raw_op, remove_raw_op, set_named_op,
  remove_named_op, set_shared_op, remove_shared_op, compare_and_set_op, merge_named_op,
  merge_shared_op, tick_op,
}
use fleece.State.Validity.Moves.{Moves, IsValid-frame, stay, write-Moves}
use fleece.State.Validity.Locals.{
  set_raw_moves, set_named_moves, set_shared_moves, compare_and_set_moves, remove_shared_moves,
  remove_named_moves, remove_raw_moves,
}

clock-Moves :
    (m : StateManager) → IsValid m → (r : ℕ) → Moves m.local_timestamp r (advance_clock m r)
unfolding advance_clock
clock-Moves m v r = record {
  valid = IsValid-frame m (advance_clock m r) refl refl (ground arith) v;
  later = ground arith;
  bounded = ground arith;
}

touched-IsValid : (m : StateManager) (id : ℕ) → IsValid m → IsValid (touch_peer m id)
touched-IsValid m id v =
    IsValid-frame m (touch_peer m id) (touch_frame m id).0 (touch_frame m id).1
      (omega (arith, touch_frame m id)) v

module _ (alloc : ℕ → Bool) (m : StateManager) (v : IsValid m) (r : Remote) where
  abbrev MergesPair : StateManager × Code → Type 0
  MergesPair s = Moves m.local_timestamp r.timestamp s.0

  -- The split on an incumbent and on the test of its version.
  either :
      (o : Option ℕ) (keep : ℕ → Bool) (a b : StateManager × Code)
      → MergesPair a
      → MergesPair b
      → MergesPair (elim o [ some i ↦ if keep i then a else b | none ↦ b ])
  either none keep a b p q = q
  either (some i) keep a b p q = if-both MergesPair (keep i) a b p q

  remote_moves :
      (n : StateManager) (w : Write)
      → IsValid n
      → n.local_timestamp ≡ m.local_timestamp
      → w.timestamp ≡ r.timestamp
      → MergesPair (upsert_field alloc (advance_clock n r.timestamp) w)
  remote_moves n w vn e h =
      write-Moves m.local_timestamp r.timestamp alloc (advance_clock n r.timestamp) w
        (subst (λ t. Moves t r.timestamp (advance_clock n r.timestamp)) e
          (clock-Moves n vn r.timestamp))
        (unfold advance_clock in ground arith)

  clock_only :
      (n : StateManager)
      → IsValid n
      → n.local_timestamp ≡ m.local_timestamp
      → MergesPair (advance_clock n r.timestamp, ok)
  clock_only n vn e =
      subst (λ t. Moves t r.timestamp (advance_clock n r.timestamp)) e
        (clock-Moves n vn r.timestamp)

  unchanged : MergesPair (m, failed)
  unchanged = stay m.local_timestamp r.timestamp m refl v

  merge_shared_moves : MergesPair (merge_shared alloc m r)
  unfolding merge_shared remote_write
  merge_shared_moves =
      if-both MergesPair (not (acceptable r)) (m, failed) _ unchanged
        (either (find_slot_owned m.fields (hash_name r.name) shared_owner_id)
          (λ i. keeps_incumbent (get_or m.fields i zero_entry) r) _ _ (clock_only m v refl)
          (remote_moves m _ v refl refl))

  merge_named_moves : (owner : ℕ) → MergesPair (merge_named alloc m owner r)
  unfolding merge_named remote_write
  merge_named_moves owner =
      let n = touch_peer m owner in
      let vn = touched-IsValid m owner v in
      let e = (touch_frame m owner).2 in
      if-both MergesPair (not (acceptable r) || owner == m.node_id) (m, failed) _ unchanged
        (either (find_slot_owned m.fields (hash_name r.name) owner)
          (λ i. leb r.timestamp (get_or m.fields i zero_entry).timestamp) _ _ (clock_only n vn e)
          (remote_moves n _ vn e refl))

tick-Moves : (m : StateManager) → IsValid m → Moves m.local_timestamp 0 (tick m)
unfolding tick
tick-Moves m v = record {
  valid = IsValid-frame m (tick m) refl refl (omega arith) v;
  later = omega arith;
  bounded = inl (omega arith);
}

-- From a valid store whose clock has room for one more tick, every operation leads to a valid store;
-- its clock does not go back, and it stands at most one tick further or at the timestamp merged in.
pub operate-Moves :
    (alloc : ℕ → Bool) (m : StateManager) (op : Operation)
    → IsValid m
    → m.local_timestamp + 1 < 2 ^ 64
    → Moves m.local_timestamp (remote_stamp op) (operate alloc m op)
unfolding operate
operate-Moves alloc m (set_raw_op key bytes) v h = set_raw_moves alloc m v h key bytes
operate-Moves alloc m (remove_raw_op key) v h = remove_raw_moves alloc m v h key
operate-Moves alloc m (set_named_op name bytes) v h = set_named_moves alloc m v h name bytes
operate-Moves alloc m (remove_named_op name) v h = remove_named_moves alloc m v h name
operate-Moves alloc m (set_shared_op name bytes) v h = set_shared_moves alloc m v h name bytes
operate-Moves alloc m (remove_shared_op name) v h = remove_shared_moves alloc m v h name
operate-Moves alloc m (compare_and_set_op name expected bytes) v h =
    compare_and_set_moves alloc m v h name expected bytes
operate-Moves alloc m (merge_named_op owner r) v h = merge_named_moves alloc m v r owner
operate-Moves alloc m (merge_shared_op r) v h = merge_shared_moves alloc m v r
operate-Moves alloc m tick_op v h = tick-Moves m v

All-weaken :
    (ops : List Operation) (limit : ℕ)
    → All (λ op. remote_stamp op ≤ limit) ops
    → All (λ op. remote_stamp op ≤ limit + 1) ops
All-weaken [] limit h = tt
All-weaken (op ∷ ops) limit h = (omega arith, All-weaken ops limit h.1)

-- From a valid store, any sequence of local writes and removals, compare-and-sets, merges of remote
-- records and ticks leads to a valid one, if the clock and the merged timestamps start at most at
-- `limit` and the sequence is too short to take the clock from there to the end of its 64 bits.
-- Compaction is not one of these operations.
pub operate_all-IsValid :
    (alloc : ℕ → Bool) (m : StateManager) (ops : List Operation) (limit : ℕ)
    → IsValid m
    → m.local_timestamp ≤ limit
    → All (λ op. remote_stamp op ≤ limit) ops
    → limit + length ops < 2 ^ 64
    → IsValid (operate_all alloc m ops)
unfolding operate_all
operate_all-IsValid alloc m [] limit v h hs n = v
operate_all-IsValid alloc m (op ∷ ops) limit v h hs n =
    let mv = operate-Moves alloc m op v (omega arith) in
    operate_all-IsValid alloc (operate alloc m op) ops (limit + 1) mv.valid
      (omega (arith, mv.bounded)) (All-weaken ops limit hs.1) (omega arith)
