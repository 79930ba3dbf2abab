-- ===== src/Planner/Visited/Fresh.antt =====
-- The table of visited states against the set of the keys in it.
use fleece.Prelude.{
  ℕ, zero, suc, ◌<◌, ◌≡◌, ◌⊎◌, refl, sym, ◌∙◌, ap, List, true, false, arith, length, length-set,
  get_or-set_self, get_or-set_other, Bool-cases, inl, inr, ◌==◌, ==_iff,
}
use mathlib.Core.Path.{subst}
use mathlib.Core.Bool.{true≢false}
use native.Mathlib.Nat.{mod-lt, zero-lt-suc}
use fleece.Planner.Visited.{VisitedSet, VisitedEntry, probe_at, wrap, fnv1a64}
use fleece.Planner.Visited.Probing.{slot, probed_slot, stored, IsPassed}

-- The key stands in a slot that is in use.
abbrev pub Seen : List ℕ → VisitedSet → Type 0
Seen key s = (i : ℕ) × ((slot s i).used ≡ true) × ((slot s i).key ≡ key)

-- Probing for `key` comes to slot `i` past slots that are all in use.
unfoldable pub IsProbed : VisitedSet → List ℕ → ℕ → Type 0
IsProbed s key i =
    (p : ℕ) × (p < length s.slots)
    × (probe_at (length s.slots) (fnv1a64 key) p ≡ i)
    × ((q : ℕ) → q < p → (probed_slot s (fnv1a64 key) q).used ≡ true)

abbrev IsPlaced : VisitedSet → VisitedEntry → ℕ → Type 0
IsPlaced s e i = (e.hash ≡ fnv1a64 e.key) × IsProbed s e.key i

-- Every slot in use has the hash of its key and is where the probing for that key comes to.
unfoldable pub IsTable : VisitedSet → Type 0
IsTable s = (i : ℕ) → (slot s i).used ≡ true → IsPlaced s (slot s i) i

wrap-lt : (x n : ℕ) → 0 < n → wrap x n < n
unfolding wrap
wrap-lt x zero h = h
wrap-lt x (suc n) h = mod-lt x (zero-lt-suc n)

probe_at-lt : (n h q : ℕ) → 0 < n → probe_at n h q < n
unfolding probe_at
probe_at-lt n h q pos = wrap-lt _ n pos

module _ (s : VisitedSet) (key : List ℕ) (q : ℕ) (lt : q < length s.slots) where
  -- The slot that is written, and the others.
  slot-stored_self :
      slot (stored s (fnv1a64 key) key q) (probe_at (length s.slots) (fnv1a64 key) q)
      ≡ record { hash = fnv1a64 key; key = key; used = true }
  unfolding slot stored
  slot-stored_self =
      get_or-set_self s.slots _ _ _ (probe_at-lt (length s.slots) (fnv1a64 key) q (omega arith))

  slot-stored_other :
      (i : ℕ)
      → (probe_at (length s.slots) (fnv1a64 key) q == i) ≡ false
      → slot (stored s (fnv1a64 key) key q) i ≡ slot s i
  unfolding slot stored
  slot-stored_other i other = get_or-set_other s.slots _ i _ _ other

  slot-stored_used :
      (i : ℕ) → (slot s i).used ≡ true → (slot (stored s (fnv1a64 key) key q) i).used ≡ true
  slot-stored_used i u = elim (Bool-cases (probe_at (length s.slots) (fnv1a64 key) q == i)) [
    | inl e ↦
        subst (λ j. (slot (stored s (fnv1a64 key) key q) j).used ≡ true) ((==_iff _ _).0 e)
          (ap (λ (x : VisitedEntry). x.used) slot-stored_self)
    | inr e ↦ ap (λ (x : VisitedEntry). x.used) (slot-stored_other i e) ∙ u
  ]

  length-stored : length (stored s (fnv1a64 key) key q).slots ≡ length s.slots
  unfolding stored
  length-stored = length-set s.slots _ _

  stored-IsProbed :
      (j : List ℕ) (i : ℕ) → IsProbed s j i → IsProbed (stored s (fnv1a64 key) key q) j i
  unfolding IsProbed probed_slot
  stored-IsProbed j i (p, below, here, past) =
      rw length-stored (p, below, here, λ k k_lt. slot-stored_used _ (past k k_lt))

  pub stored-IsTable :
      IsTable s
      → ((k : ℕ) → k < q → IsPassed s (fnv1a64 key) key k)
      → IsTable (stored s (fnv1a64 key) key q)
  unfolding IsTable IsPassed
  stored-IsTable table past i u =
      let s' = stored s (fnv1a64 key) key q in
      let at = probe_at (length s.slots) (fnv1a64 key) q in
      elim (Bool-cases (at == i)) [
        | inl e ↦
            subst (λ j. IsPlaced s' (slot s' j) j) ((==_iff at i).0 e)
              (subst (λ x. IsPlaced s' x at) (sym slot-stored_self)
                (
                  refl,
                  stored-IsProbed key at
                      (unfold IsProbed in (q, lt, refl, λ k k_lt. (past k k_lt).0)),
                ))
        | inr e ↦
            let same = slot-stored_other i e in
            let placed = table i (ap (λ (x : VisitedEntry). x.used) (sym same) ∙ u) in
            subst (λ x. IsPlaced s' x i) (sym same)
              (placed.0, stored-IsProbed (slot s i).key i placed.1)
      ]

  pub stored-Seen : (j : List ℕ) → Seen j (stored s (fnv1a64 key) key q) → (j ≡ key) ⊎ Seen j s
  stored-Seen j (i, u, k) = elim (Bool-cases (probe_at (length s.slots) (fnv1a64 key) q == i)) [
    | inl e ↦ inl (
        sym k
        ∙ ap (λ x. (slot (stored s (fnv1a64 key) key q) x).key) (sym ((==_iff _ i).0 e))
        ∙ ap (λ (x : VisitedEntry). x.key) slot-stored_self)
    | inr e ↦
        let same = sym (slot-stored_other i e) in
        inr
          (i, ap (λ (x : VisitedEntry). x.used) same ∙ u, ap (λ (x : VisitedEntry). x.key) same ∙ k)
  ]

  pub Seen-stored_self : Seen key (stored s (fnv1a64 key) key q)
  Seen-stored_self = (
    probe_at (length s.slots) (fnv1a64 key) q,
    ap (λ (x : VisitedEntry). x.used) slot-stored_self,
    ap (λ (x : VisitedEntry). x.key) slot-stored_self,
  )

  -- The slot that is written was free.
  pub Seen-stored :
      (probed_slot s (fnv1a64 key) q).used ≡ false
      → (j : List ℕ) → Seen j s
      → Seen j (stored s (fnv1a64 key) key q)
  unfolding probed_slot
  Seen-stored free j (i, u, k) =
      elim (Bool-cases (probe_at (length s.slots) (fnv1a64 key) q == i)) [
        | inl e ↦
            absurd (true≢false (sym u ∙ ap (λ x. (slot s x).used) (sym ((==_iff _ i).0 e)) ∙ free))
        | inr e ↦
            let same = slot-stored_other i e in
            (
              i,
              ap (λ (x : VisitedEntry). x.used) same ∙ u,
              ap (λ (x : VisitedEntry). x.key) same ∙ k,
            )
      ]
