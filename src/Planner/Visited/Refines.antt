-- ===== src/Planner/Visited/Refines.antt =====
-- visited_add as the insertion into a set of keys.
use fleece.Prelude.{
  ℕ, ◌<◌, ◌≡◌, ◌⊎◌, ◌↔◌, refl, sym, ◌∙◌, ap, List, true, false, arith, length, replicate,
  bytes_eq→eq, bytes_eq_self, inl, inr, ◌==◌, zero, suc, Bool-cases, ltb, ltb→lt, ==_iff, get_or,
}
use mathlib.Core.Path.{subst}
use mathlib.Core.Bool.{true≢false}
use fleece.Planner.Visited.{
  VisitedSet, VisitedEntry, free_slot, same_key, visited_add, visited_init, fnv1a64,
}
use fleece.Planner.Visited.Probing.{
  slot, probed_slot, stored, IsPassed, hit, insert, full, visited_add-Ending,
}
use fleece.Planner.Visited.Fresh.{
  Seen, IsProbed, IsTable, stored-IsTable, stored-Seen, Seen-stored_self, Seen-stored,
}

same_key_self :
    (key : List ℕ) (e : VisitedEntry)
    → e.hash ≡ fnv1a64 key
    → e.key ≡ key
    → same_key (fnv1a64 key) key e ≡ true
unfolding same_key
same_key_self key e h k = rw (h, k) (ground (arith, bytes_eq_self key))

same_key→eq : (h : ℕ) (key : List ℕ) (e : VisitedEntry) → same_key h key e ≡ true → e.key ≡ key
unfolding same_key
same_key→eq h key e m = bytes_eq→eq e.key key (ground arith)

-- A key that is in the table stops its own probing, so the probing goes past it nowhere.
Seen-IsPassed :
    (s : VisitedSet) (key : List ℕ) (q : ℕ)
    → IsTable s
    → (Seen key s)
    → (probed_slot s (fnv1a64 key) q).used ≡ false
    → ((k : ℕ) → k < q → IsPassed s (fnv1a64 key) key k)
    → ⊥
unfolding IsTable IsProbed IsPassed probed_slot
Seen-IsPassed s key q table (i, u, e) free past =
    let h = fnv1a64 key in
    let (p, below, here, past') = subst (λ x. IsProbed s x i) e (table i u).1 in
    let hash = (table i u).0 ∙ ap fnv1a64 e in
    elim (Bool-cases (ltb q p)) [
      | inl c ↦ true≢false (sym (past' q (ltb→lt _ _ c)) ∙ free)
      | inr c ↦ elim (Bool-cases (p == q)) [
        | inl d ↦ true≢false (
            sym u
            ∙ ap (λ x. (slot s x).used) (sym here)
            ∙ ap (λ x. (probed_slot s h x).used) ((==_iff p q).0 d)
            ∙ free)
        | inr d ↦ true≢false (
            sym (same_key_self key (slot s i) hash e)
            ∙ ap (λ x. same_key h key (slot s x)) (sym here)
            ∙ (past p (ground arith)).1)
      ]
    ]

-- Every slot that the probing for the key comes to is in use.
abbrev pub IsFull : VisitedSet → List ℕ → Type 0
IsFull s key = (k : ℕ) → k < length s.slots → (probed_slot s (fnv1a64 key) k).used ≡ true

module _ (s s' : VisitedSet) (key : List ℕ) where
  -- Where every key stands where its probing comes to, and `visited_add` says that the key is new, the
  -- key was not in the set, and now exactly it and the keys that were in the set are.
  pub visited_add-Seen :
      (j : List ℕ)
      → IsTable s
      → visited_add s key ≡ (s', true)
      → (¬ Seen key s) × (Seen j s' ↔ ((j ≡ key) ⊎ Seen j s))
  visited_add-Seen j table e = elim (visited_add-Ending s (fnv1a64 key) key refl) [
    | hit q u m r ↦ absurd (true≢false (ap (λ x. x.1) (sym e ∙ r)))
    | full past r ↦ absurd (true≢false (ap (λ x. x.1) (sym e ∙ r)))
    | insert q lt free past r ↦
        subst (λ t. (¬ Seen key s) × (Seen j t ↔ ((j ≡ key) ⊎ Seen j s)))
          (ap (λ x. x.0) (sym r ∙ e))
          (
            λ seen. Seen-IsPassed s key q table seen free past,
            (
              stored-Seen s key q lt j,
              λ c. elim c [
                | inl same ↦
                    subst (λ x. Seen x (stored s (fnv1a64 key) key q)) (sym same)
                      (Seen-stored_self s key q lt)
                | inr seen ↦ Seen-stored s key q lt free j seen
              ],
            ),
          )
  ]

  -- Where `visited_add` says that the key is not new, the set is unchanged, and the key is in it or
  -- its probing finds every slot in use.
  pub visited_add_refused : visited_add s key ≡ (s', false) → (s' ≡ s) × (Seen key s ⊎ IsFull s key)
  unfolding IsPassed
  visited_add_refused e = elim (visited_add-Ending s (fnv1a64 key) key refl) [
    | hit q u m r ↦ (ap (λ x. x.0) (sym e ∙ r), inl (_, u, same_key→eq _ key _ m))
    | full past r ↦ (ap (λ x. x.0) (sym e ∙ r), inr (λ k lt. (past k lt).0))
    | insert q lt free past r ↦ absurd (true≢false (ap (λ x. x.1) (sym r ∙ e)))
  ]

-- visited_add keeps every key where its probing comes to.
pub visited_add-IsTable :
    (s : VisitedSet) (key : List ℕ) → IsTable s → IsTable (visited_add s key).0
visited_add-IsTable s key table = elim (visited_add-Ending s (fnv1a64 key) key refl) [
  | hit q u m r ↦ rw r table
  | full past r ↦ rw r table
  | insert q lt free past r ↦ rw r (stored-IsTable s key q lt table past)
]

get_or-replicate : (n i : ℕ) → get_or (replicate n free_slot) i free_slot ≡ free_slot
get_or-replicate zero i = refl
get_or-replicate (suc n) zero = refl
get_or-replicate (suc n) (suc i) = get_or-replicate n i

pub visited_init-IsTable : (max_nodes : ℕ) → IsTable (visited_init max_nodes)
unfolding IsTable visited_init slot
visited_init-IsTable max_nodes i u =
    absurd (true≢false (sym u ∙ ap (λ (x : VisitedEntry). x.used) (get_or-replicate _ i)))
