-- ===== src/Runtime/Queue/Laws.antt =====
-- The queue of deferred frames in the tick that queues a frame.
use fleece.Prelude.{
  ℕ, ◌+◌, ◌^◌, ◌≡◌, ◌<◌, refl, Bool, false, some, List, [], ◌∷◌, length, arith, inl, inr,
  Bool-cases, Option-cases,
}
use fleece.Comms.{Comms, send}
use fleece.Runtime.{Runtime, PendingTx}
use fleece.Runtime.Queue.{queued, place, enqueue_tx, is_due, flush_loop, flush_pending_tx}

place-held :
    (now : ℕ) (tx : PendingTx) (ts qs : List PendingTx) (c : Comms)
    → is_due now tx ≡ false
    → place tx ts ≡ some qs
    → (flush_loop now qs c).1 ≡ (flush_loop now ts c).1
unfolding place flush_loop
place-held now tx [] qs c h e = cc
place-held now tx (t ∷ ts) qs c h e = elim (Bool-cases t.used) [
  | inr u ↦
      let q : tx ∷ ts ≡ qs = ground arith in
      let idle : is_due now t ≡ false = unfold is_due in ground arith in
      rw (← q) (rw (h, idle, flush_loop) refl)
  | inl u ↦ elim (Option-cases (place tx ts)) [
    | inl n ↦ absurd (ground arith)
    | inr (rest, n) ↦
        let q : t ∷ rest ≡ qs = ground arith in
        rw (← q) (elim (Bool-cases (is_due now t)) [
          | inl d ↦ rw (d, flush_loop) (place-held now tx ts rest (send c t.dest t.bytes).0 h n)
          | inr d ↦ rw (d, flush_loop) (place-held now tx ts rest c h n)
        ])
  ]
]

-- A frame that is queued in a tick below UINT32_MAX is not transmitted in that tick: flushing the
-- queue leaves the packet interface as it would without the frame.
pub flush_pending_tx-enqueue_tx :
    (alloc : ℕ → Bool) (r : Runtime) (dest bytes : List ℕ)
    → r.gossip_tick_count + 1 < 2 ^ 32
    → (flush_pending_tx (enqueue_tx alloc r dest bytes)).comms ≡ (flush_pending_tx r).comms
unfolding flush_pending_tx enqueue_tx
flush_pending_tx-enqueue_tx alloc r dest bytes h =
    let tx = queued r.gossip_tick_count dest bytes in
    let early : is_due r.gossip_tick_count tx ≡ false = unfold is_due queued in ground arith in
    elim (Option-cases (place tx r.pending_tx)) [
      | inl n ↦ rw (n, enqueue_tx) refl
      | inr (qs, n) ↦ elim (Bool-cases (alloc (length bytes))) [
        | inl a ↦
            rw (n, a, enqueue_tx)
              (place-held r.gossip_tick_count tx r.pending_tx qs r.comms early n)
        | inr a ↦ rw (n, a, enqueue_tx) refl
      ]
    ]
