-- ===== src/State/Peers.antt =====
-- Peer liveness: touch_peer, ticks_since_seen and list_heard_peers.
pub mod Laws
use fleece.Prelude.{
  ℕ, zero, suc, ◌+◌, ◌-◌, ◌%◌, ◌^◌, Bool, true, false, not, ◌&&◌, ◌||◌, Option, none, some, List,
  [], ◌∷◌, ◌++◌, ◌==◌, if◌then◌else◌, leb, length,
}
use mathlib.Core.Option
use fleece.State.{StateManager, PeerSeen, shared_owner_id, u64_max}

abbrev is_peer : ℕ → PeerSeen → Bool
is_peer id p = p.exists && p.node_id == id

-- The first loop of touch_peer: the entry of a known peer is refreshed.
unfoldable pub refresh : ℕ → ℕ → List PeerSeen → Option (List PeerSeen)
refresh id now [] = none
refresh id now (p ∷ ps) =
    let rest = refresh id now ps in
    if is_peer id p then some (record p { last_seen_tick = now } ∷ ps) else Option.map (◌∷◌ p) rest

-- The second loop: a free entry is claimed; a full table is left alone.
unfoldable pub claim : ℕ → ℕ → List PeerSeen → List PeerSeen
claim id now [] = []
claim id now (p ∷ ps) =
    let rest = claim id now ps in
    if p.exists then p ∷ rest else record { node_id = id; last_seen_tick = now; exists = true } ∷ ps

unfoldable pub seen_now : ℕ → ℕ → List PeerSeen → List PeerSeen
unfolding refresh claim
seen_now id now ps = Option.get_or (refresh id now ps) (claim id now ps)

-- touch_peer
unfoldable pub touch_peer : StateManager → ℕ → StateManager
unfolding seen_now
touch_peer m id =
    if id == m.node_id || id == shared_owner_id
    then m
    else record m { peers_seen = seen_now id m.current_tick m.peers_seen }

-- The loop of ticks_since_seen; the subtraction is that of uint64_t.
unfoldable pub since_seen : ℕ → ℕ → List PeerSeen → ℕ
since_seen id now [] = u64_max
since_seen id now (p ∷ ps) =
    if is_peer id p then (now + 2 ^ 64 - p.last_seen_tick) % 2 ^ 64 else since_seen id now ps

-- fleece_state_manager_ticks_since_seen
unfoldable pub ticks_since_seen : StateManager → ℕ → ℕ
unfolding since_seen
ticks_since_seen m id = since_seen id m.current_tick m.peers_seen

-- The loop of list_heard_peers, with the ids listed so far.
unfoldable pub heard_loop : StateManager → ℕ → List PeerSeen → List ℕ → List ℕ
heard_loop m max_nodes [] out = out
heard_loop m max_nodes (p ∷ ps) out = heard_loop m max_nodes ps (
    if leb max_nodes (length out)
      || (not p.exists || (p.node_id == m.node_id || p.node_id == shared_owner_id))
    then out
    else out ++ (p.node_id ∷ []))

-- fleece_state_manager_list_heard_peers
unfoldable pub list_heard_peers : StateManager → ℕ → List ℕ
unfolding heard_loop
list_heard_peers m max_nodes = heard_loop m max_nodes m.peers_seen []
