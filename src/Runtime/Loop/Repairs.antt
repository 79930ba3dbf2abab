-- ===== src/Runtime/Loop/Repairs.antt =====
-- When runtime_send_resync_requests holds back.
use fleece.Prelude.{
  ℕ, zero, suc, ◌+◌, ◌≡◌, ◌<◌, refl, ap, Bool, false, ◌&&◌, List, [], ◌∷◌, get_or, All, arith, inl,
  inr, Bool-cases,
}
use fleece.State.{ticks_since_last_write}
use fleece.Runtime.{Runtime, ResyncTarget, no_target, max_resync_targets}
use fleece.Runtime.Queue.{flush_pending_tx}
use fleece.Runtime.Loop.{
  may_start, probe_due, start, probe, request_step, request_loop, send_resync_requests,
  quiesce_ticks,
}

All-get_or :
    (P : ResyncTarget → Type 0) (ts : List ResyncTarget) (i : ℕ)
    → P no_target
    → All P ts
    → P (get_or ts i no_target)
All-get_or P [] i d p = d
All-get_or P (t ∷ ts) zero d p = p.0
All-get_or P (t ∷ ts) (suc i) d p = All-get_or P ts i d p.1

-- The peer was heard or probed lately.
abbrev pub IsFresh : ℕ → ResyncTarget → Type 0
IsFresh now t = (t.exists && probe_due now t) ≡ false

module _ (alloc : ℕ → Bool) (r : Runtime)
    (busy : ticks_since_last_write r.state_manager < quiesce_ticks)
    (fresh : All (IsFresh r.gossip_tick_count) r.resync_targets) where
  request_step-busy : (k i : ℕ) → request_step alloc (r, k) i ≡ (r, k)
  unfolding request_step start probe may_start
  request_step-busy k i =
      let t = get_or r.resync_targets i no_target in
      let f = All-get_or (IsFresh r.gossip_tick_count) r.resync_targets i refl fresh in
      elim (Bool-cases t.exists) [
        | inr e ↦ rw e refl
        | inl e ↦
            let closed : may_start r.state_manager r.gossip_tick_count k t ≡ false =
              ground (arith, busy) in
            let late : probe_due r.gossip_tick_count t ≡ false = ground (arith, f) in
            rw e (rw (closed) (rw (late) refl))
      ]

  request_loop-busy : (n i k : ℕ) → request_loop alloc n i (r, k) ≡ (r, k)
  unfolding request_loop
  request_loop-busy zero i k = refl
  request_loop-busy (suc n) i k = rw (request_step-busy k i) (request_loop-busy n (i + 1) k)

-- While the node's last local write of a shared field is less than five ticks old and every peer was
-- heard or probed within the probe interval, the repair pass of a tick sends no request and changes no
-- target: it only flushes the queue. This includes the targets with a round in flight.
pub send_resync_requests-busy :
    (alloc : ℕ → Bool) (r : Runtime)
    → ticks_since_last_write r.state_manager < quiesce_ticks
    → All (IsFresh r.gossip_tick_count) r.resync_targets
    → send_resync_requests alloc r ≡ flush_pending_tx r
unfolding send_resync_requests flush_pending_tx
send_resync_requests-busy alloc r busy fresh =
    ap (λ s. s.0) (request_loop-busy alloc (flush_pending_tx r) busy fresh max_resync_targets 0 0)
