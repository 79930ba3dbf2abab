-- ===== src/Planner/Visited/Probing.antt =====
-- How the probing of visited_add ends: at a slot with the key, at a free slot, or nowhere.
use fleece.Prelude.{
  ℕ, zero, suc, ◌+◌, ◌<◌, ◌≡◌, refl, List, Bool, true, false, arith, length, get_or, set,
  Bool-cases, if◌then◌else◌, inl, inr, ◌==◌,
}
use fleece.Planner.Visited.{
  VisitedSet, VisitedEntry, free_slot, probe_at, same_key, probe_loop, visited_add, fnv1a64,
}
use mathlib.Core.Path.{subst}

-- The slot at an index, and the one that a probe looks at.
unfoldable pub slot : VisitedSet → ℕ → VisitedEntry
slot s i = get_or s.slots i free_slot

unfoldable pub probed_slot : VisitedSet → ℕ → ℕ → VisitedEntry
unfolding slot
probed_slot s h q = slot s (probe_at (length s.slots) h q)

-- The set with `key` in the slot of a probe.
unfoldable pub stored : VisitedSet → ℕ → List ℕ → ℕ → VisitedSet
stored s h key q = record {
  slots = set s.slots (probe_at (length s.slots) h q) (record { hash = h; key = key; used = true });
  count = s.count + 1;
}

module _ (s : VisitedSet) (h : ℕ) (key : List ℕ) where
  -- The loop goes past a probe where another key stands.
  unfoldable pub IsPassed : ℕ → Type 0
  unfolding probed_slot
  IsPassed q = ((probed_slot s h q).used ≡ true) × (same_key h key (probed_slot s h q) ≡ false)

  pub data Ending (r : VisitedSet × Bool) : Type 0 where
    hit :
        (q : ℕ)
        → (probed_slot s h q).used ≡ true
        → same_key h key (probed_slot s h q) ≡ true
        → r ≡ (s, false)
        → Ending r
    insert :
        (q : ℕ)
        → q < length s.slots
        → (probed_slot s h q).used ≡ false
        → ((k : ℕ) → k < q → IsPassed k)
        → r ≡ (stored s h key q, true)
        → Ending r
    full : ((k : ℕ) → k < length s.slots → IsPassed k) → r ≡ (s, false) → Ending r

  IsPassed-suc :
      (q : ℕ) → ((k : ℕ) → k < q → IsPassed k) → IsPassed q → (k : ℕ) → k < suc q → IsPassed k
  IsPassed-suc q below here k lt = elim (Bool-cases (k == q)) [
    | inl e ↦ subst IsPassed (ground arith) here
    | inr e ↦ below k (ground arith)
  ]

  module _ (n q : ℕ) where
    probe_free :
        (probed_slot s h q).used ≡ false → probe_loop (suc n) q s h key ≡ (stored s h key q, true)
    unfolding probe_loop probed_slot slot stored
    probe_free u = rw (u, probe_loop) refl

    probe_taken :
        (probed_slot s h q).used ≡ true
        → probe_loop (suc n) q s h key ≡ (
            if same_key h key (probed_slot s h q) then (s, false) else probe_loop n (suc q) s h key)
    unfolding probe_loop probed_slot slot
    probe_taken u = rw (u, probe_loop) refl

  probe_loop-Ending :
      (n q : ℕ)
      → q + n ≡ length s.slots
      → ((k : ℕ) → k < q → IsPassed k)
      → Ending (probe_loop n q s h key)
  unfolding IsPassed
  probe_loop-Ending zero q e below =
      full (λ k lt. below k (omega arith)) (unfold probe_loop in refl)
  probe_loop-Ending (suc n) q e below = elim (Bool-cases (probed_slot s h q).used) [
    | inr u ↦ insert q (omega arith) u below (probe_free n q u)
    | inl u ↦ elim (Bool-cases (same_key h key (probed_slot s h q))) [
      | inl m ↦ hit q u m (rw (probe_taken n q u, m) refl)
      | inr m ↦
          rw (probe_taken n q u, m)
            (probe_loop-Ending n (suc q) (omega arith) (IsPassed-suc q below (u, m)))
    ]
  ]

  -- What visited_add comes to.
  pub visited_add-Ending : h ≡ fnv1a64 key → Ending (visited_add s key)
  unfolding visited_add
  visited_add-Ending e =
      subst (λ x. Ending (probe_loop (length s.slots) 0 s x key)) e
        (probe_loop-Ending (length s.slots) 0 (omega arith) (λ k lt. absurd (omega arith)))
