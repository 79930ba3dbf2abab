-- ===== src/Runtime/Control.antt =====
-- Control frames and gossip frames that arrive, and the control frames that are sent.
pub mod Bounds
use fleece.Prelude.{
  ℕ, zero, suc, ◌+◌, ◌*◌, ◌-◌, ◌%◌, ◌^◌, Bool, true, false, not, ◌&&◌, ◌||◌, Option, none, some,
  List, [], ◌∷◌, ◌++◌, ◌==◌, if◌then◌else◌, ltb, leb, length, drop,
}
use fleece.Prelude.Maybe.{◌>>=◌, ◌>>◌, require}
use mathlib.Core.Option
use fleece.Cbor.{write_uint, write_array_header}
use fleece.State.{StateManager}
use fleece.State.Import.{expect, import_impl, Report}
use fleece.State.Repair.{control_magic, export_shared_index, export_shared_by_hash, shared_at_least}
use fleece.Comms.{send, no_bytes}
use fleece.Runtime.{
  Runtime, ResyncTarget, max_fetch_keys, max_resync_targets, mesh, unicast_dest_for,
  resync_target_for_id, on_target, heard,
}
use fleece.Runtime.Queue.{enqueue_tx}

-- FLEECE_RESYNC_TAG_INDEX_REQ, FLEECE_RESYNC_TAG_INDEX_REPLY and FLEECE_RESYNC_TAG_VALUE_REQ
abbrev pub index_req : ℕ
index_req = 0

abbrev pub index_reply : ℕ
index_reply = 1

abbrev pub value_req : ℕ
value_req = 2

unfoldable pub write_uints : List ℕ → List ℕ
write_uints [] = []
write_uints (h ∷ hs) = write_uint h ++ write_uints hs

-- The frame that send_control_ex composes.
unfoldable pub control_frame : StateManager → ℕ → List ℕ → List ℕ
control_frame m tag hashes =
    control_magic
    ++ write_array_header 3
    ++ write_uint tag
    ++ write_uint m.node_id
    ++ write_array_header (length hashes)
    ++ write_uints hashes

-- send_control_ex
unfoldable pub send_control_ex : (ℕ → Bool) → Runtime → List ℕ → ℕ → List ℕ → Bool → Runtime
send_control_ex alloc r target tag hashes defer =
    let frame = control_frame r.state_manager tag hashes in
    if defer
    then enqueue_tx alloc r target frame
    else record r { comms = (send r.comms target frame).0 }

-- The loop of request_missing_keys over the pairs of a hash and a timestamp; `room` is what is free
-- in `wanted`.
unfoldable pub wanted_keys : StateManager → ℕ → List (ℕ × ℕ) → List ℕ
wanted_keys m zero pairs = []
wanted_keys m (suc room) [] = []
wanted_keys m (suc room) (p ∷ ps) =
    let with_it = p.0 ∷ wanted_keys m room ps in
    let without = wanted_keys m (suc room) ps in
    if ltb 0xffff_ffff p.0 || shared_at_least m p.0 p.1 then without else with_it

unfoldable pub address_or : List ℕ → ℕ → List ℕ
address_or other origin = Option.get_or (unicast_dest_for origin) other

abbrev pub disarm : ResyncTarget → ResyncTarget
disarm t = record t { need_shared = false }

-- request_missing_keys
unfoldable pub request_missing_keys : (ℕ → Bool) → Runtime → ℕ → List (ℕ × ℕ) → Runtime
request_missing_keys alloc r origin pairs =
    let wanted = wanted_keys r.state_manager max_fetch_keys pairs in
    if no_bytes wanted
    then on_target (resync_target_for_id r origin) disarm
    else send_control_ex alloc r (address_or mesh origin) value_req wanted true

-- The loop that reads the hashes of a value request: at most `room` that fit 32 bits.
unfoldable pub read_hashes : ℕ → ℕ → List ℕ → Option (List ℕ)
read_hashes zero room bs = some []
read_hashes (suc n) zero bs = some []
read_hashes (suc n) (suc room) bs = elim (expect 0 bs) [
  | none ↦ none
  | some (value, rest) ↦
      if leb value 0xffff_ffff
      then Option.map (◌∷◌ value) (read_hashes n room rest)
      else read_hashes n (suc room) rest
]

-- One [hash, timestamp] of an index reply.
unfoldable pub read_pair : List ℕ → Option ((ℕ × ℕ) × List ℕ)
read_pair bs = do
  (arity, r0) ← expect 4 bs
  require (arity == 2)
  (hash, r1) ← expect 0 r0
  (timestamp, r2) ← expect 0 r1
  some ((hash, timestamp), r2)

-- The loop that reads an index reply: at most `room` pairs.
unfoldable pub read_pairs : ℕ → ℕ → List ℕ → Option (List (ℕ × ℕ))
read_pairs zero room bs = some []
read_pairs (suc n) zero bs = some []
read_pairs (suc n) (suc room) bs = elim (read_pair bs) [
  | none ↦ none
  | some (p, rest) ↦ Option.map (◌∷◌ p) (read_pairs n room rest)
]

-- The items in front of those that depend on the tag.
pub record ControlHeader : Type 0 where
  pub tag : ℕ
  pub origin : ℕ
  pub items : ℕ
  pub rest : List ℕ

unfoldable pub read_control_header : List ℕ → Option ControlHeader
read_control_header frame = do
  (arity, r0) ← expect 4 (drop 3 frame)
  require (arity == 3)
  (tag, r1) ← expect 0 r0
  (origin, r2) ← expect 0 r1
  (items, r3) ← expect 4 r2
  some (record { tag = tag; origin = origin; items = items; rest = r3 })

-- A reply is queued if it could be composed.
unfoldable pub reply : (ℕ → Bool) → Runtime → List ℕ → Option (List ℕ) → Runtime
reply alloc r dest none = r
reply alloc r dest (some frame) = enqueue_tx alloc r dest frame

unfoldable pub serve_values : (ℕ → Bool) → Runtime → List ℕ → Option (List ℕ) → Runtime
serve_values alloc r dest none = r
serve_values alloc r dest (some []) = r
serve_values alloc r dest (some (h ∷ hs)) =
    reply alloc r dest (export_shared_by_hash alloc r.state_manager (h ∷ hs))

abbrev pub close_round : ResyncTarget → ResyncTarget
close_round t = record t { awaiting_index = false }

unfoldable pub take_index : (ℕ → Bool) → Runtime → ℕ → Option (List (ℕ × ℕ)) → Runtime
take_index alloc r origin none = r
take_index alloc r origin (some pairs) =
    request_missing_keys alloc (on_target (resync_target_for_id r origin) close_round) origin pairs

unfoldable pub handle_control : (ℕ → Bool) → Runtime → List ℕ → ControlHeader → Runtime
handle_control alloc r reply_source h =
    let dest = address_or reply_source h.origin in
    if h.tag == index_req
    then reply alloc r dest (export_shared_index alloc r.state_manager)
    else if h.tag == value_req
    then serve_values alloc r dest (read_hashes h.items max_fetch_keys h.rest)
    else if h.tag == index_reply
    then take_index alloc r h.origin (read_pairs h.items (max_resync_targets * 4) h.rest)
    else r

-- handle_fx_frame
unfoldable pub handle_fx_frame : (ℕ → Bool) → Runtime → List ℕ → List ℕ → Runtime
handle_fx_frame alloc r frame reply_source = elim (read_control_header frame) [
  | none ↦ r
  | some h ↦ handle_control alloc r reply_source h
]

-- What import_and_track does after the import.
unfoldable pub track : Runtime → Option Report → Runtime
track r none = r
track r (some report) =
    on_target (resync_target_for_id r report.sender)
      (heard r.gossip_tick_count report.behind_shared)

-- import_and_track
unfoldable pub import_and_track : (ℕ → Bool) → Runtime → List ℕ → Runtime
import_and_track alloc r frame =
    let (m, report) = import_impl alloc r.state_manager frame in
    track (record r { state_manager = m }) report

unfoldable pub is_control : List ℕ → Bool
is_control (a ∷ b ∷ v ∷ _) = a == b'F' && b == b'X'
is_control _ = false

unfoldable pub is_current : List ℕ → Bool
is_current (a ∷ b ∷ v ∷ _) = v == 2
is_current _ = false

-- runtime_gossip_receive
unfoldable pub runtime_gossip_receive : (ℕ → Bool) → Runtime → List ℕ → List ℕ → Runtime
runtime_gossip_receive alloc r source frame =
    if no_bytes frame
    then r
    else if is_control frame
    then (if is_current frame then handle_fx_frame alloc r frame source else r)
    else import_and_track alloc r frame

-- fleece_runtime_on_control_frame
unfoldable pub on_control_frame : (ℕ → Bool) → Runtime → List ℕ → Runtime
on_control_frame alloc r frame =
    if is_control frame && is_current frame then handle_fx_frame alloc r frame mesh else r

-- fleece_runtime_on_gossip_frame
unfoldable pub on_gossip_frame : (ℕ → Bool) → Runtime → List ℕ → Runtime
on_gossip_frame alloc r frame = if no_bytes frame then r else import_and_track alloc r frame
