-- ===== src/Runtime/Loop.antt =====
-- The gossip phase of the main loop: the delta or the beacon of a tick, then the repair requests.
pub mod Repairs
use fleece.Prelude.{
  ℕ, zero, suc, ◌+◌, ◌-◌, ◌%◌, ◌^◌, Bool, true, false, not, ◌&&◌, ◌||◌, Option, none, some, List,
  [], ◌∷◌, ◌==◌, if◌then◌else◌, ltb, leb, length, get_or, set,
}
use fleece.State.{StateManager, ticks_since_last_write, u64_max}
use fleece.State.Bounded.{count_new_shared, export_shared_delta_bounded}
use fleece.Comms.{send}
use fleece.Runtime.{Runtime, ResyncTarget, no_target, max_resync_targets}
use fleece.Runtime.Queue.{flush_pending_tx}
use fleece.Runtime.Control.{send_control_ex, index_req}

-- FLEECE_RESYNC_PROBE_TICKS, RETRY_TICKS, QUIESCE_TICKS and STARTS_PER_TICK
abbrev pub probe_ticks : ℕ
probe_ticks = 100

abbrev pub retry_ticks : ℕ
retry_ticks = 8

abbrev pub quiesce_ticks : ℕ
quiesce_ticks = 5

abbrev pub starts_per_tick : ℕ
starts_per_tick = 2

-- FLEECE_GOSSIP_FRAME_BYTES
abbrev pub gossip_frame_bytes : ℕ
gossip_frame_bytes = 320

-- uint64_t a - b
abbrev pub sub64 : ℕ → ℕ → ℕ
sub64 a b = (a + 2 ^ 64 - b) % 2 ^ 64

-- The conditions under which a target is sent an index request for a gap.
unfoldable pub may_start : StateManager → ℕ → ℕ → ResyncTarget → Bool
may_start m now starts t =
    t.need_shared
    && (leb quiesce_ticks (ticks_since_last_write m)
        && (ltb starts starts_per_tick
            && (not t.awaiting_index || leb retry_ticks (sub64 now t.last_index_req_tick))))

unfoldable pub probe_due : ℕ → ResyncTarget → Bool
probe_due now t = leb probe_ticks (sub64 now t.last_heard_tick)

unfoldable pub start : (ℕ → Bool) → Runtime × ℕ → ℕ → Runtime × ℕ
start alloc (r, starts) i =
    let t = get_or r.resync_targets i no_target in
    let asked = send_control_ex alloc r t.source index_req [] false in
    let now = r.gossip_tick_count in
    if may_start r.state_manager now starts t
    then (
      record asked {
        resync_targets =
            set r.resync_targets i (record t { awaiting_index = true; last_index_req_tick = now });
      },
      starts + 1,
    )
    else (r, starts)

unfoldable pub probe : (ℕ → Bool) → Runtime × ℕ → ℕ → Runtime × ℕ
probe alloc (r, starts) i =
    let t = get_or r.resync_targets i no_target in
    let asked = send_control_ex alloc r t.source index_req [] false in
    let now = r.gossip_tick_count in
    if probe_due now t
    then (
      record asked {
        resync_targets =
            set r.resync_targets i (record t { awaiting_index = true; last_heard_tick = now });
      },
      starts,
    )
    else (r, starts)

-- The body of the loop of runtime_send_resync_requests for the target `i`.
unfoldable pub request_step : (ℕ → Bool) → Runtime × ℕ → ℕ → Runtime × ℕ
request_step alloc s i =
    if (get_or s.0.resync_targets i no_target).exists then probe alloc (start alloc s i) i else s

-- The loop from the target `i` on, with the targets that are left.
unfoldable pub request_loop : (ℕ → Bool) → ℕ → ℕ → Runtime × ℕ → Runtime × ℕ
request_loop alloc zero i s = s
request_loop alloc (suc n) i s = request_loop alloc n (i + 1) (request_step alloc s i)

-- runtime_send_resync_requests
unfoldable pub send_resync_requests : (ℕ → Bool) → Runtime → Runtime
send_resync_requests alloc r = (request_loop alloc max_resync_targets 0 (flush_pending_tx r, 0)).0

-- "broadcast"
abbrev pub broadcast : List ℕ
broadcast = b'b' ∷ b'r' ∷ b'o' ∷ b'a' ∷ b'd' ∷ b'c' ∷ b'a' ∷ b's' ∷ b't' ∷ []

-- A frame that was exported is sent; the watermark follows if the frame carries a delta.
unfoldable pub transmit : Runtime → Bool → StateManager × Option (List ℕ × ℕ) → Runtime
transmit r delta (m, none) = record r { state_manager = m }
transmit r delta (m, some (frame, included)) = record r {
  state_manager = m;
  comms = (send r.comms broadcast frame).0;
  shared_gossip_watermark = if delta then included else r.shared_gossip_watermark;
}

unfoldable pub gossip_due : ℕ → Runtime → Bool
gossip_due gossip_every r = r.gossip_tick_count % gossip_every == 0

unfoldable pub beacon_due : ℕ → Runtime → Bool
beacon_due beacon_every r =
    (r.gossip_tick_count + r.state_manager.node_id % 2 ^ 32) % 2 ^ 32 % beacon_every == 0

unfoldable pub gossip : (ℕ → Bool) → ℕ → ℕ → Runtime → Runtime
gossip alloc gossip_every beacon_every r =
    let m = r.state_manager in
    let since = r.shared_gossip_watermark in
    if gossip_due gossip_every r && ltb 0 (count_new_shared m since)
    then transmit r true (export_shared_delta_bounded alloc m since gossip_frame_bytes)
    else if beacon_due beacon_every r
    then transmit r false (export_shared_delta_bounded alloc m u64_max 0)
    else r

-- Phase 3 of fleece_runtime_start: what a tick does between the scripts and the output.
unfoldable pub gossip_phase : (ℕ → Bool) → ℕ → ℕ → Runtime → Runtime
gossip_phase alloc gossip_every beacon_every r =
    let r' = send_resync_requests alloc (gossip alloc gossip_every beacon_every r) in
    record r' { gossip_tick_count = (r'.gossip_tick_count + 1) % 2 ^ 32 }

-- fleece_runtime_set_gossip_cadence: the cadence of both, `none` where the code returns -1
unfoldable pub set_gossip_cadence : ℕ → ℕ → Option (ℕ × ℕ)
set_gossip_cadence gossip_every beacon_every =
    if gossip_every == 0 || beacon_every == 0 then none else some (gossip_every, beacon_every)
