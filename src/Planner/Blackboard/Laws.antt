-- ===== src/Planner/Blackboard/Laws.antt =====
-- What the blackboard's operations do to the fields that a reader finds.
use fleece.Prelude.{
  ℕ, suc, ◌≡◌, refl, sym, ◌∙◌, ap, List, [], ◌∷◌, ◌++◌, Bool, true, false, Option, none, some,
  arith, length, length-append, set, get_elem?, bytes_eq, bytes_eq→eq, bytes_eq_self, leb, inl, inr,
  Bool-cases, Option-cases, if◌then◌else◌,
}
use fleece.Prelude.Maybe.{◌>>=◌}
use mathlib.Core.List.{append_assoc}
use mathlib.Core.Option.{some-injective, none-ne-some}
use mathlib.Core.Bool.{true≢false}
use fleece.Planner.{name_max}
use fleece.Planner.Blackboard.{GoapField, Blackboard, index_from, bb_index, bb_get, bb_set}

-- The first field of a name, without an index.
unfoldable pub find_bytes : Blackboard → List ℕ → Option (List ℕ)
find_bytes [] name = none
find_bytes (f ∷ fs) name =
    let rest = find_bytes fs name in if bytes_eq f.name name then some f.bytes else rest

-- A blackboard with the first field of a name replaced, or a new one at its end.
unfoldable pub put_field : Blackboard → GoapField → Blackboard
put_field [] new = new ∷ []
put_field (f ∷ fs) new =
    let rest = put_field fs new in if bytes_eq f.name new.name then new ∷ fs else f ∷ rest

at_end :
    {A : Type 0} (xs : List A) (y : A) (ys : List A) → get_elem? (xs ++ y ∷ ys) (length xs) ≡ some y
at_end [] y ys = refl
at_end (x ∷ xs) y ys = at_end xs y ys

set_at_end :
    {A : Type 0} (xs : List A) (y z : A) (ys : List A)
    → set (xs ++ y ∷ ys) (length xs) z ≡ xs ++ z ∷ ys
set_at_end [] y z ys = refl
set_at_end (x ∷ xs) y z ys = ap (◌∷◌ x) (set_at_end xs y z ys)

-- The same list with the first field moved to the part that has been searched.
searched :
    (pre : Blackboard) (f : GoapField) (fs : Blackboard) → (pre ++ f ∷ []) ++ fs ≡ pre ++ f ∷ fs
searched pre f fs = append_assoc pre (f ∷ []) fs

length-searched : (pre : Blackboard) (f : GoapField) → length (pre ++ f ∷ []) ≡ suc (length pre)
length-searched pre f = omega (arith, length-append pre (f ∷ []))

module _ (name : List ℕ) where
  read_from :
      (i : ℕ) (pre fs : Blackboard)
      → length pre ≡ i
      → (index_from i fs name >>= λ idx. get_elem? (pre ++ fs) idx >>= λ f. some f.bytes)
        ≡ find_bytes fs name
  unfolding index_from find_bytes
  read_from i pre [] e = refl
  read_from i pre (f ∷ fs) e = elim (Bool-cases (bytes_eq f.name name)) [
    | inl h ↦ rw (h, sym e, at_end pre f fs) refl
    | inr h ↦ rw h (
        ap (λ l. index_from (suc i) fs name >>= λ idx. get_elem? l idx >>= λ f'. some f'.bytes)
          (sym (searched pre f fs))
        ∙ read_from (suc i) (pre ++ f ∷ []) fs (length-searched pre f ∙ ap suc e))
  ]

  bb_get_lem : (bb : Blackboard) → bb_get bb name ≡ find_bytes bb name
  unfolding bb_get bb_index
  bb_get_lem bb = read_from 0 [] bb refl

index_from_hit :
    (i : ℕ) (f : GoapField) (fs : Blackboard) (name : List ℕ)
    → bytes_eq f.name name ≡ true
    → index_from i (f ∷ fs) name ≡ some i
unfolding index_from
index_from_hit i f fs name h = rw h refl

index_from_miss :
    (i : ℕ) (f : GoapField) (fs : Blackboard) (name : List ℕ)
    → bytes_eq f.name name ≡ false
    → index_from i (f ∷ fs) name ≡ index_from (suc i) fs name
unfolding index_from
index_from_miss i f fs name h = rw h refl

module _ (new : GoapField) where
  -- Writing at the index that the search found.
  set-index_from :
      (i k : ℕ) (pre fs : Blackboard)
      → length pre ≡ i
      → index_from i fs new.name ≡ some k
      → set (pre ++ fs) k new ≡ pre ++ put_field fs new
  unfolding put_field
  set-index_from i k pre [] e h = absurd (none-ne-some k (unfold index_from in h))
  set-index_from i k pre (f ∷ fs) e h = elim (Bool-cases (bytes_eq f.name new.name)) [
    | inl q ↦
        let at = some-injective i k (sym (index_from_hit i f fs new.name q) ∙ h) in
        rw q (ap (λ j. set (pre ++ f ∷ fs) j new) (sym at ∙ sym e) ∙ set_at_end pre f new fs)
    | inr q ↦ rw q (
        ap (λ l. set l k new) (sym (searched pre f fs))
        ∙ set-index_from (suc i) k (pre ++ f ∷ []) fs (length-searched pre f ∙ ap suc e)
            (sym (index_from_miss i f fs new.name q) ∙ h)
        ∙ searched pre f (put_field fs new))
  ]

  -- Where the search found nothing, the field goes to the end.
  append-put_field :
      (i : ℕ) (fs : Blackboard)
      → index_from i fs new.name ≡ none
      → fs ++ new ∷ [] ≡ put_field fs new
  unfolding put_field
  append-put_field i [] h = refl
  append-put_field i (f ∷ fs) h = elim (Bool-cases (bytes_eq f.name new.name)) [
    | inl q ↦ absurd (none-ne-some i (sym h ∙ index_from_hit i f fs new.name q))
    | inr q ↦
        rw q
          (ap (◌∷◌ f) (append-put_field (suc i) fs (sym (index_from_miss i f fs new.name q) ∙ h)))
  ]

  find_bytes-put_field :
      (fs : Blackboard) (j : List ℕ)
      → find_bytes (put_field fs new) j
        ≡ (if bytes_eq new.name j then some new.bytes else find_bytes fs j)
  unfolding find_bytes put_field
  find_bytes-put_field [] j = refl
  find_bytes-put_field (f ∷ fs) j = elim (Bool-cases (bytes_eq f.name new.name)) [
    | inl q ↦ elim (Bool-cases (bytes_eq new.name j)) [
      | inl r ↦ rw (q, r) refl
      | inr r ↦
          let miss : bytes_eq f.name j ≡ false =
            ap (λ n. bytes_eq n j) (bytes_eq→eq f.name new.name q) ∙ r in
          rw (q, r, miss) refl
    ]
    | inr q ↦ elim (Bool-cases (bytes_eq f.name j)) [
      | inl r ↦
          let other : bytes_eq new.name j ≡ false = apart f.name new.name j q r in
          rw (q, r, other) refl
      | inr r ↦ rw (q, r) (find_bytes-put_field fs j)
    ]
  ]
    where
      apart : (a b c : List ℕ) → bytes_eq a b ≡ false → bytes_eq a c ≡ true → bytes_eq b c ≡ false
      apart a b c ab ac = elim (Bool-cases (bytes_eq b c)) [
        | inl bc ↦ absurd (
            true≢false (
              sym (bytes_eq_self a)
              ∙ ap (bytes_eq a) (bytes_eq→eq a c ac ∙ sym (bytes_eq→eq b c bc))
              ∙ ab))
        | inr bc ↦ bc
      ]

bb_set-put_field :
    (bb bb' : Blackboard) (name bytes : List ℕ) (is_shared : Bool)
    → bb_set bb name bytes is_shared ≡ some bb'
    → bb' ≡ put_field bb (record { name = name; bytes = bytes; is_shared = is_shared })
unfolding bb_set bb_index
bb_set-put_field bb bb' name [] is_shared e = cc
bb_set-put_field bb bb' name (b ∷ bytes) is_shared e =
    let new : GoapField = record { name = name; bytes = b ∷ bytes; is_shared = is_shared } in
    elim (Option-cases (index_from 0 bb name)) [
      | inr (k, h) ↦
          some-injective bb' _ (sym e ∙ rw (h, bb_set) refl) ∙ set-index_from new 0 k [] bb refl h
      | inl h ↦ elim (Bool-cases (leb name_max (length name))) [
        | inl long ↦ absurd (none-ne-some bb' (sym (rw (h, bb_set) (rw long refl)) ∙ e))
        | inr short ↦
            some-injective bb' _ (sym e ∙ rw (h, bb_set) (rw short refl))
            ∙ append-put_field new 0 bb h
      ]
    ]

-- After a field has been set in either namespace, its name reads back its bytes, also where a field of
-- the other namespace had that name, and every other name reads what it read before.
pub bb_get-bb_set :
    (bb bb' : Blackboard) (name bytes j : List ℕ) (is_shared : Bool)
    → bb_set bb name bytes is_shared ≡ some bb'
    → bb_get bb' j ≡ (if bytes_eq name j then some bytes else bb_get bb j)
bb_get-bb_set bb bb' name bytes j is_shared e =
    let new : GoapField = record { name = name; bytes = bytes; is_shared = is_shared } in
    bb_get_lem j bb'
    ∙ ap (λ b. find_bytes b j) (bb_set-put_field bb bb' name bytes is_shared e)
    ∙ find_bytes-put_field new bb j
    ∙ ap (λ o. if bytes_eq name j then some bytes else o) (sym (bb_get_lem j bb))
