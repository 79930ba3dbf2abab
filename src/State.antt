-- ===== src/State.antt =====
-- src/state/fleece_state_manager.c: the replicated key-value store of one node. This file has its
-- state; the modules below have its operations and what is proved of them. A pointer to a buffer and
-- its size are one list of bytes, a NULL buffer is the empty list, and a C string is the list of its
-- bytes before the NUL. Every pointer that must not be NULL for an operation to do anything (the
-- manager, the output parameters) points to an object. `fleece_malloc` is a parameter: `alloc n`
-- says whether a request for `n` bytes succeeds.
pub mod Hash
pub mod Slots
pub mod Fields
pub mod Compact
pub mod Peers
pub mod Merge
pub mod Digest
pub mod Lists
pub mod Export
pub mod Bounded
pub mod Import
pub mod Repair
pub mod Validity
use fleece.Prelude.{
  ℕ, ◌+◌, ◌-◌, ◌%◌, ◌^◌, Bool, true, false, Option, none, some, List, [], ◌==◌, if◌then◌else◌,
  replicate, ltb,
}

-- FLEECE_SHARED_OWNER_ID
abbrev pub shared_owner_id : ℕ
shared_owner_id = 0

-- FLEECE_FIELD_NAME_MAX
abbrev pub field_name_max : ℕ
field_name_max = 64

-- FIELD_CAPACITY
abbrev pub default_capacity : ℕ
default_capacity = 128

-- FLEECE_MAX_TRACKED_PEERS
abbrev pub max_tracked_peers : ℕ
max_tracked_peers = 32

-- UINT64_MAX
abbrev pub u64_max : ℕ
u64_max = 0xffff_ffff_ffff_ffff

-- struct FieldEntry; `bytes` is `data` with its `size`.
pub record FieldEntry : Type 0 where
  pub key : ℕ
  pub bytes : List ℕ
  pub timestamp : ℕ
  pub node_id : ℕ
  pub origin_node_id : ℕ
  pub name : List ℕ
  pub exists : Bool
  pub is_tombstone : Bool
  pub last_export_ts : ℕ

-- A slot as `calloc` and `memset` leave it.
abbrev pub zero_entry : FieldEntry
zero_entry = record {
  key = 0;
  bytes = [];
  timestamp = 0;
  node_id = 0;
  origin_node_id = 0;
  name = [];
  exists = false;
  is_tombstone = false;
  last_export_ts = 0;
}

-- struct PeerSeen
pub record PeerSeen : Type 0 where
  pub node_id : ℕ
  pub last_seen_tick : ℕ
  pub exists : Bool

abbrev pub zero_peer : PeerSeen
zero_peer = record { node_id = 0; last_seen_tick = 0; exists = false }

-- struct FleeceStateManager; `field_capacity` is the length of `fields`.
pub record StateManager : Type 0 where
  pub fields : List FieldEntry
  pub field_count : ℕ
  pub local_timestamp : ℕ
  pub node_id : ℕ
  pub current_tick : ℕ
  pub last_write_tick : ℕ
  pub peers_seen : List PeerSeen

-- The `int` that the operations return: 0, -1, and the 1 of a failed compare-and-set.
pub data Code : Type 0 where
  ok failed conflict : Code

-- fleece_state_manager_create_with_node_id, where both allocations succeed
unfoldable pub create_with_node_id : ℕ → Option StateManager
create_with_node_id node_id =
    if node_id == shared_owner_id
    then none
    else some (record {
      fields = replicate default_capacity zero_entry;
      field_count = 0;
      local_timestamp = 0;
      node_id = node_id;
      current_tick = 0;
      last_write_tick = u64_max;
      peers_seen = replicate max_tracked_peers zero_peer;
    })

-- fleece_state_manager_create
unfoldable pub create : Option StateManager
create = create_with_node_id 0x1234_5678_9abc_def0

-- fleece_state_manager_tick
unfoldable pub tick : StateManager → StateManager
tick m = record m { current_tick = (m.current_tick + 1) % 2 ^ 64 }

-- fleece_state_manager_ticks_since_last_write
unfoldable pub ticks_since_last_write : StateManager → ℕ
ticks_since_last_write m =
    if m.last_write_tick == u64_max
    then u64_max
    else if ltb m.current_tick m.last_write_tick
    then 0
    else m.current_tick - m.last_write_tick
