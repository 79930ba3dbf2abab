-- ===== src/State/Merge.antt =====
-- The last-write-wins merges of remote records.
pub mod Step
pub mod Winner
pub mod Convergence
use fleece.Prelude.{
  ℕ, Bool, true, false, not, ◌&&◌, ◌||◌, Option, none, some, List, [], ◌∷◌, ◌==◌, if◌then◌else◌,
  ltb, leb, get_or,
}
use fleece.State.{StateManager, FieldEntry, Code, ok, failed, zero_entry, shared_owner_id}
use fleece.State.Hash.{hash_name}
use fleece.State.Slots.{find_slot_owned, Write, upsert_field}
use fleece.State.Fields.{is_empty}
use fleece.State.Peers.{touch_peer}

-- One record of a gossip frame, the arguments of the merges.
pub record Remote : Type 0 where
  pub origin_node_id : ℕ
  pub name : List ℕ
  pub bytes : List ℕ
  pub timestamp : ℕ
  pub is_tombstone : Bool

-- The guards that both merges begin with; a NULL `data` is the empty list.
unfoldable pub acceptable : Remote → Bool
acceptable r = not (is_empty r.name) && (r.is_tombstone || not (is_empty r.bytes))

-- local = max(local, remote)
unfoldable pub advance_clock : StateManager → ℕ → StateManager
advance_clock m remote = record m {
  local_timestamp = if ltb remote m.local_timestamp then m.local_timestamp else remote;
}

-- What the merges pass to upsert_field.
unfoldable pub remote_write : ℕ → Remote → Write
remote_write owner r = record {
  key = hash_name r.name;
  owner_node_id = owner;
  origin_node_id = r.origin_node_id;
  name = some r.name;
  bytes = r.bytes;
  timestamp = r.timestamp;
  is_tombstone = r.is_tombstone;
}

-- fleece_state_manager_merge_named; the author of the record is its owner
unfoldable pub merge_named : (ℕ → Bool) → StateManager → ℕ → Remote → StateManager × Code
unfolding acceptable advance_clock remote_write
merge_named alloc m owner r =
    if not (acceptable r) || owner == m.node_id
    then (m, failed)
    else let m' = advance_clock (touch_peer m owner) r.timestamp in
      let write =
        upsert_field alloc m' (remote_write owner (record r { origin_node_id = owner })) in
      elim (find_slot_owned m.fields (hash_name r.name) owner) [
        | some i ↦
            if leb r.timestamp (get_or m.fields i zero_entry).timestamp then (m', ok) else write
        | none ↦ write
      ]

-- The incumbent keeps its slot: it is newer, or as new and of an author at least as high.
unfoldable pub keeps_incumbent : FieldEntry → Remote → Bool
keeps_incumbent f r =
    ltb r.timestamp f.timestamp
    || (f.timestamp == r.timestamp && leb r.origin_node_id f.origin_node_id)

-- fleece_state_manager_merge_shared
unfoldable pub merge_shared : (ℕ → Bool) → StateManager → Remote → StateManager × Code
unfolding acceptable advance_clock remote_write keeps_incumbent
merge_shared alloc m r =
    if not (acceptable r)
    then (m, failed)
    else let m' = advance_clock m r.timestamp in
      let write = upsert_field alloc m' (remote_write shared_owner_id r) in
      elim (find_slot_owned m.fields (hash_name r.name) shared_owner_id) [
        | some i ↦ if keeps_incumbent (get_or m.fields i zero_entry) r then (m', ok) else write
        | none ↦ write
      ]
