-- ===== src/Runtime.antt =====
-- src/runtime/fleece_runtime.c: the part of the main loop that gossips and repairs. Each peer that was
-- heard has a resync target; a digest that differs arms it, and an armed target is sent an index
-- request. Scripts, the planner, signals and the process's threads are not modelled, nor is debug
-- output. A destination string is the list of its bytes.
pub mod Control
pub mod Queue
pub mod Loop
use fleece.Prelude.{
  ℕ, zero, suc, ◌+◌, ◌-◌, ◌/◌, ◌%◌, ◌^◌, Bool, true, false, not, ◌&&◌, Option, none, some, List, [],
  ◌∷◌, ◌++◌, ◌==◌, if◌then◌else◌, ltb, bytes_eq, set, get_or, take, replicate,
}
use mathlib.Core.Option
use fleece.State.{StateManager}
use fleece.Comms.{Comms}

-- FLEECE_MAX_RESYNC_TARGETS, FLEECE_MAX_PENDING_TX and FLEECE_MAX_FETCH_KEYS
abbrev pub max_resync_targets : ℕ
max_resync_targets = 32

abbrev pub max_pending_tx : ℕ
max_pending_tx = 16

abbrev pub max_fetch_keys : ℕ
max_fetch_keys = 64

-- struct PendingTx
pub record PendingTx : Type 0 where
  pub dest : List ℕ
  pub bytes : List ℕ
  pub ready_tick : ℕ
  pub used : Bool

-- struct ResyncTarget
pub record ResyncTarget : Type 0 where
  pub node_id : ℕ
  pub source : List ℕ
  pub last_heard_tick : ℕ
  pub need_shared : Bool
  pub awaiting_index : Bool
  pub last_index_req_tick : ℕ
  pub exists : Bool

abbrev pub no_target : ResyncTarget
no_target = record {
  node_id = 0;
  source = [];
  last_heard_tick = 0;
  need_shared = false;
  awaiting_index = false;
  last_index_req_tick = 0;
  exists = false;
}

-- struct FleeceRuntime
pub record Runtime : Type 0 where
  pub state_manager : StateManager
  pub comms : Comms
  pub shared_gossip_watermark : ℕ
  pub gossip_tick_count : ℕ
  pub pending_tx : List PendingTx
  pub pending_tx_dropped : ℕ
  pub resync_targets : List ResyncTarget

-- "mesh"
abbrev pub mesh : List ℕ
mesh = b'm' ∷ b'e' ∷ b's' ∷ b'h' ∷ []

abbrev pub hex_digit : ℕ → ℕ
hex_digit d = if ltb d 10 then b'0' + d else b'a' + (d - 10)

-- The `n` low hexadecimal digits of `v`: "%016llx" for `n` = 16.
unfoldable pub hex_digits : ℕ → ℕ → List ℕ
hex_digits zero v = []
hex_digits (suc n) v = hex_digit (v / 16 ^ n % 16) ∷ hex_digits n v

-- "node:%016llx"
unfoldable pub node_address : ℕ → List ℕ
node_address id = (b'n' ∷ b'o' ∷ b'd' ∷ b'e' ∷ b':' ∷ []) ++ hex_digits 16 id

-- unicast_dest_for
unfoldable pub unicast_dest_for : ℕ → Option (List ℕ)
unicast_dest_for origin = if origin == 0 then none else some (node_address origin)

-- The destination of a peer, or "mesh" for an unknown one.
unfoldable pub source_for : ℕ → List ℕ
source_for id = if id == 0 then mesh else node_address id

-- The first loop of resync_target_for_id.
unfoldable pub find_target : List ResyncTarget → ℕ → List ℕ → Option ℕ
find_target [] id source = none
find_target (t ∷ ts) id source =
    let rest = find_target ts id source in
    if t.exists && (t.node_id == id && bytes_eq t.source source)
    then some 0
    else Option.map suc rest

-- The second loop.
unfoldable pub free_target : List ResyncTarget → Option ℕ
free_target [] = none
free_target (t ∷ ts) =
    let rest = free_target ts in if not t.exists then some 0 else Option.map suc rest

-- resync_target_for_id: the index of the target that the pointer designates
unfoldable pub resync_target_for_id : Runtime → ℕ → Runtime × Option ℕ
resync_target_for_id r id = elim (find_target r.resync_targets id (source_for id)) [
  | some i ↦ (r, some i)
  | none ↦ elim (free_target r.resync_targets) [
    | none ↦ (r, none)
    | some i ↦ (
      record r {
        resync_targets = set r.resync_targets i (record {
          node_id = id;
          source = source_for id;
          last_heard_tick = r.gossip_tick_count;
          need_shared = false;
          awaiting_index = false;
          last_index_req_tick = 0;
          exists = true;
        });
      },
      some i,
    )
  ]
]

-- A change of the target that resync_target_for_id finds, if there is one.
unfoldable pub on_target : Runtime × Option ℕ → (ResyncTarget → ResyncTarget) → Runtime
on_target (r, none) change = r
on_target (r, some i) change = record r {
  resync_targets = set r.resync_targets i (change (get_or r.resync_targets i no_target));
}

-- What fleece_runtime_note_behind_from and import_and_track do to the sender's target.
unfoldable pub heard : ℕ → Bool → ResyncTarget → ResyncTarget
heard now behind t = record t {
  last_heard_tick = now;
  need_shared = if behind then true else if not t.awaiting_index then false else t.need_shared;
}

-- fleece_runtime_note_behind_from
unfoldable pub note_behind_from : Runtime → Bool → ℕ → Runtime
note_behind_from r behind sender =
    on_target (resync_target_for_id r sender) (heard r.gossip_tick_count behind)
