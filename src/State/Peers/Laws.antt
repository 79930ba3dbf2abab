-- ===== src/State/Peers/Laws.antt =====
-- Peer liveness: what the tracking table answers after a frame was heard.
use fleece.Prelude.{
  ℕ, ◌≡◌, refl, Bool, true, false, not, ◌||◌, none, some, List, [], ◌∷◌, ◌==◌, if◌then◌else◌, arith,
  inl, inr, Option-cases, Bool-cases, ◌⊎◌, ◌≢◌,
}
use mathlib.Core.Path.{subst}
use fleece.State.{StateManager, PeerSeen, shared_owner_id}
use fleece.State.Peers.{refresh, claim, is_peer, seen_now, touch_peer, since_seen, ticks_since_seen}

-- Only the table of peers changes.
pub touch_frame :
    (m : StateManager) (id : ℕ)
    → ((touch_peer m id).fields ≡ m.fields)
      × ((touch_peer m id).field_count ≡ m.field_count)
      × ((touch_peer m id).local_timestamp ≡ m.local_timestamp)
      × ((touch_peer m id).node_id ≡ m.node_id)
      × ((touch_peer m id).current_tick ≡ m.current_tick)
unfolding touch_peer
touch_frame m id = ground arith

-- Some entry of the table is free or is already that of the peer.
unfoldable pub has_place : ℕ → List PeerSeen → Bool
has_place id [] = false
has_place id (p ∷ ps) = not p.exists || (p.node_id == id || has_place id ps)

module _ (id now : ℕ) where
  -- A known peer is refreshed; an unknown one takes a free entry.
  refresh_or_claim :
      (ps : List PeerSeen)
      → ((qs : List PeerSeen) × (refresh id now ps ≡ some qs) × (since_seen id now qs ≡ 0))
        ⊎ ((refresh id now ps ≡ none)
            × (has_place id ps ≡ true → since_seen id now (claim id now ps) ≡ 0))
  unfolding refresh claim since_seen has_place
  refresh_or_claim [] = inr (refl, λ h. cc)
  refresh_or_claim (p ∷ ps) = elim (Bool-cases (is_peer id p)) [
    | inl known ↦ inl (record p { last_seen_tick = now } ∷ ps, rw known, ground arith)
    | inr other ↦ elim (refresh_or_claim ps) [
      | inl (qs, e, z) ↦ inl (p ∷ qs, rw (other, e), rw other z)
      | inr (e, z) ↦ inr (rw (other, e), λ h. ground (arith, z))
    ]
  ]

  seen_now-zero :
      (ps : List PeerSeen) → has_place id ps ≡ true → since_seen id now (seen_now id now ps) ≡ 0
  unfolding seen_now
  seen_now-zero ps h = elim (refresh_or_claim ps) [
    | inl (qs, e, z) ↦ rw e z
    | inr (e, z) ↦ rw e (z h)
  ]

  -- Other peers keep their entries.
  refresh-other :
      (ps qs : List PeerSeen) (k u : ℕ)
      → refresh id now ps ≡ some qs
      → id ≢ k
      → since_seen k u qs ≡ since_seen k u ps
  unfolding refresh since_seen
  refresh-other [] qs k u e h = cc
  refresh-other (p ∷ ps) qs k u e h = elim (Option-cases (refresh id now ps)) [
    | inl n ↦ ground (arith, n)
    | inr (rest, r) ↦ ground (arith, r, refresh-other ps rest k u r h)
  ]

  claim-other :
      (ps : List PeerSeen) (k u : ℕ) → id ≢ k → since_seen k u (claim id now ps) ≡ since_seen k u ps
  unfolding claim since_seen
  claim-other [] k u h = refl
  claim-other (p ∷ ps) k u h = ground (arith, claim-other ps k u h)

seen_now-other :
    (id now : ℕ) (ps : List PeerSeen) (k u : ℕ)
    → id ≢ k
    → since_seen k u (seen_now id now ps) ≡ since_seen k u ps
unfolding seen_now
seen_now-other id now ps k u h = elim (Option-cases (refresh id now ps)) [
  | inl e ↦ rw e (claim-other id now ps k u h)
  | inr (qs, e) ↦ rw e (refresh-other id now ps qs k u e h)
]

seen_now_at :
    (id now : ℕ) (ps : List PeerSeen) (k : ℕ)
    → has_place id ps ≡ true
    → since_seen k now (seen_now id now ps) ≡ (if id == k then 0 else since_seen k now ps)
seen_now_at id now ps k h = elim (Bool-cases (id == k)) [
  | inl e ↦ rw e (
      subst (λ j. since_seen j now (seen_now id now ps) ≡ 0) (ground arith)
        (seen_now-zero id now ps h))
  | inr e ↦ rw e (seen_now-other id now ps k now (λ same. ground arith))
]

-- Hearing from a peer other than the node itself and the shared namespace makes it seen zero ticks
-- ago, if the table has a free entry or one of that peer; for every other id nothing changes.
pub ticks_since_seen-touch_peer :
    (m : StateManager) (id k : ℕ)
    → id ≢ m.node_id
    → id ≢ shared_owner_id
    → has_place id m.peers_seen ≡ true
    → ticks_since_seen (touch_peer m id) k ≡ (if id == k then 0 else ticks_since_seen m k)
unfolding touch_peer ticks_since_seen
ticks_since_seen-touch_peer m id k n s h =
    ground (arith, seen_now_at id m.current_tick m.peers_seen k h)
