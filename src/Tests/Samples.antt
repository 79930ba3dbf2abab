-- ===== src/Tests/Samples.antt =====
-- The stores, entries and records that the tests share.
use fleece.Prelude.{ℕ, Bool, true, false, List, [], ◌∷◌}
use fleece.State.{FieldEntry, StateManager, zero_entry, zero_peer}
use fleece.State.Hash.{hash_name}
use fleece.State.Merge.{Remote}

-- An allocator that never fails.
abbrev pub always : ℕ → Bool
always n = true

abbrev pub pos_name : List ℕ
pos_name = b'p' ∷ b'o' ∷ b's' ∷ []

abbrev pub bat_name : List ℕ
bat_name = b'b' ∷ b'a' ∷ b't' ∷ []

abbrev pub two_bytes : List ℕ
two_bytes = 7 ∷ 8 ∷ []

-- A live shared field, and a field of the node 5.
abbrev pub pos_entry : FieldEntry
pos_entry = record {
  key = hash_name pos_name;
  bytes = 1 ∷ 2 ∷ [];
  timestamp = 6;
  node_id = 0;
  origin_node_id = 9;
  name = pos_name;
  exists = true;
  is_tombstone = false;
  last_export_ts = 0;
}

abbrev pub bat_entry : FieldEntry
bat_entry = record {
  key = hash_name bat_name;
  bytes = 3 ∷ [];
  timestamp = 4;
  node_id = 5;
  origin_node_id = 5;
  name = bat_name;
  exists = true;
  is_tombstone = false;
  last_export_ts = 0;
}

-- The store of the node 5, with two fields and two free slots.
abbrev pub small_store : StateManager
small_store = record {
  fields = pos_entry ∷ bat_entry ∷ zero_entry ∷ zero_entry ∷ [];
  field_count = 2;
  local_timestamp = 7;
  node_id = 5;
  current_tick = 3;
  last_write_tick = 2;
  peers_seen = record { node_id = 9; last_seen_tick = 1; exists = true } ∷ zero_peer ∷ [];
}

-- The empty store of the node 8.
abbrev pub empty_store : StateManager
empty_store = record {
  fields = zero_entry ∷ zero_entry ∷ zero_entry ∷ [];
  field_count = 0;
  local_timestamp = 0;
  node_id = 8;
  current_tick = 0;
  last_write_tick = 0;
  peers_seen = zero_peer ∷ [];
}

-- A value of `bat` that the node 9 wrote, and its later removal by the node 5.
abbrev pub bat_written : Remote
bat_written = record {
  origin_node_id = 9;
  name = bat_name;
  bytes = two_bytes;
  timestamp = 3;
  is_tombstone = false;
}

abbrev pub bat_removed : Remote
bat_removed = record {
  origin_node_id = 5;
  name = bat_name;
  bytes = [];
  timestamp = 4;
  is_tombstone = true;
}
