-- ===== src/Runtime/Queue.antt =====
-- The queue of deferred frames: enqueue_tx and flush_pending_tx.
pub mod Laws
use fleece.Prelude.{
  ℕ, ◌+◌, ◌-◌, ◌%◌, ◌^◌, Bool, true, false, not, ◌&&◌, ◌||◌, Option, none, some, List, [], ◌∷◌,
  if◌then◌else◌, ltb, length, take,
}
use mathlib.Core.Option
use fleece.Comms.{Comms, send}
use fleece.Runtime.{Runtime, PendingTx}

-- The slot that enqueue_tx fills: the frame is held until the next tick.
unfoldable pub queued : ℕ → List ℕ → List ℕ → PendingTx
queued now dest bytes = record {
  dest = take 47 dest;
  bytes = bytes;
  ready_tick = (now + 1) % 2 ^ 32;
  used = true;
}

-- The slots with a frame in the first free one, if there is one.
unfoldable pub place : PendingTx → List PendingTx → Option (List PendingTx)
place tx [] = none
place tx (t ∷ ts) =
    let rest = place tx ts in if t.used then Option.map (◌∷◌ t) rest else some (tx ∷ ts)

-- enqueue_tx
unfoldable pub enqueue_tx : (ℕ → Bool) → Runtime → List ℕ → List ℕ → Runtime
enqueue_tx alloc r dest bytes = elim (place (queued r.gossip_tick_count dest bytes) r.pending_tx) [
  | none ↦ record r { pending_tx_dropped = (r.pending_tx_dropped + 1) % 2 ^ 32 }
  | some slots ↦ if alloc (length bytes) then record r { pending_tx = slots } else r
]

-- The test of flush_pending_tx.
unfoldable pub is_due : ℕ → PendingTx → Bool
is_due now t = t.used && not (ltb now t.ready_tick)

-- The loop of flush_pending_tx: the slots and the packets interface after it.
unfoldable pub flush_loop : ℕ → List PendingTx → Comms → List PendingTx × Comms
flush_loop now [] comms = ([], comms)
flush_loop now (t ∷ ts) comms =
    let sent = flush_loop now ts (send comms t.dest t.bytes).0 in
    let held = flush_loop now ts comms in
    if is_due now t
    then (record t { bytes = []; used = false } ∷ sent.0, sent.1)
    else (t ∷ held.0, held.1)

-- flush_pending_tx
unfoldable pub flush_pending_tx : Runtime → Runtime
flush_pending_tx r =
    let (slots, comms) = flush_loop r.gossip_tick_count r.pending_tx r.comms in
    record r { pending_tx = slots; comms = comms }
