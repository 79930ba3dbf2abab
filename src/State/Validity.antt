-- ===== src/State/Validity.antt =====
-- Operations that change a store, and an invariant: the used slots stand in front of the free ones, and
-- no field is stamped later than the local clock. fleece_state_manager_compact is not among the
-- operations; it is in State/Compact.
pub mod Moves
pub mod Locals
pub mod Steps
pub mod Newest
use fleece.Prelude.{ℕ, ◌+◌, ◌≤◌, ◌<◌, ◌^◌, ◌≡◌, Bool, Option, none, some, List, [], ◌∷◌}
use fleece.State.{StateManager, tick}
use fleece.State.Slots.Writes.{IsPacked}
use fleece.State.Slots.Cells.{Cell, cell_at}
use fleece.State.Fields.{
  set_raw, remove_raw, set_named, remove_named, set_shared, remove_shared, set_shared_cas,
}
use fleece.State.Merge.{Remote, merge_named, merge_shared}

pub data Operation : Type 0 where
  set_raw_op : ℕ → List ℕ → Operation
  remove_raw_op : ℕ → Operation
  set_named_op : List ℕ → List ℕ → Operation
  remove_named_op : List ℕ → Operation
  set_shared_op : List ℕ → List ℕ → Operation
  remove_shared_op : List ℕ → Operation
  compare_and_set_op : List ℕ → Option (List ℕ) → List ℕ → Operation
  merge_named_op : ℕ → Remote → Operation
  merge_shared_op : Remote → Operation
  tick_op : Operation

unfoldable pub operate : (ℕ → Bool) → StateManager → Operation → StateManager
operate alloc m (set_raw_op key bytes) = (set_raw alloc m key bytes).0
operate alloc m (remove_raw_op key) = (remove_raw m key).0
operate alloc m (set_named_op name bytes) = (set_named alloc m name bytes).0
operate alloc m (remove_named_op name) = (remove_named m name).0
operate alloc m (set_shared_op name bytes) = (set_shared alloc m name bytes).0
operate alloc m (remove_shared_op name) = (remove_shared m name).0
operate alloc m (compare_and_set_op name expected bytes) =
    (set_shared_cas alloc m name expected bytes).0
operate alloc m (merge_named_op owner r) = (merge_named alloc m owner r).0
operate alloc m (merge_shared_op r) = (merge_shared alloc m r).0
operate alloc m tick_op = tick m

unfoldable pub operate_all : (ℕ → Bool) → StateManager → List Operation → StateManager
operate_all alloc m [] = m
operate_all alloc m (op ∷ ops) = operate_all alloc (operate alloc m op) ops

pub record IsValid (m : StateManager) : Type 0 where
  pub packed : IsPacked m
  pub clock : (j p : ℕ) (c : Cell) → cell_at m j p ≡ some c → c.timestamp ≤ m.local_timestamp

-- The timestamp that an operation brings in from elsewhere.
abbrev pub remote_stamp : Operation → ℕ
remote_stamp (merge_named_op owner r) = r.timestamp
remote_stamp (merge_shared_op r) = r.timestamp
remote_stamp _ = 0
