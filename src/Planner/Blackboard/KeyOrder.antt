-- ===== src/Planner/Blackboard/KeyOrder.antt =====
-- The key of a state and the order of its fields.
use fleece.Prelude.{
  ℕ, ◌≡◌, refl, sym, ◌∙◌, ap, List, [], ◌∷◌, Bool, true, false, All, rev_append, bytes_eq,
  bytes_eq_self, inl, inr, arith, Bool-cases, if◌then◌else◌,
}
use mathlib.Core.List.{Permᴰ}
use fleece.Planner.Sorting.{sift_key, insertion_loop, insertion_sort}
use fleece.Planner.Blackboard.{GoapField, Blackboard, str_gt, name_after, make_state_key, key_parts}

str_gt_asymm : (a b : List ℕ) → str_gt a b ≡ true → str_gt b a ≡ false
unfolding str_gt
str_gt_asymm [] [] h = cc
str_gt_asymm [] (y ∷ ys) h = cc
str_gt_asymm (x ∷ xs) [] h = refl
str_gt_asymm (x ∷ xs) (y ∷ ys) h = ground (arith, str_gt_asymm xs ys)

str_gt_trans : (a b c : List ℕ) → str_gt a b ≡ true → str_gt b c ≡ true → str_gt a c ≡ true
unfolding str_gt
str_gt_trans [] b c p q = cc
str_gt_trans (x ∷ xs) [] c p q = cc
str_gt_trans (x ∷ xs) (y ∷ ys) [] p q = refl
str_gt_trans (x ∷ xs) (y ∷ ys) (z ∷ zs) p q = ground (arith, str_gt_trans xs ys zs)

-- Two names of which neither comes after the other are equal.
str_gt_total : (a b : List ℕ) → str_gt a b ≡ false → str_gt b a ≡ false → a ≡ b
unfolding str_gt
str_gt_total [] [] p q = refl
str_gt_total [] (y ∷ ys) p q = cc
str_gt_total (x ∷ xs) [] p q = cc
str_gt_total (x ∷ xs) (y ∷ ys) p q = ground (arith, str_gt_total xs ys)

module _ {A : Type 0} (after : A → A → Bool) (key x : A) (prefix : List A) where
  sift_key_past :
      after x key ≡ true → sift_key after key (x ∷ prefix) ≡ x ∷ sift_key after key prefix
  unfolding sift_key
  sift_key_past h = rw h refl

  sift_key_stop : after x key ≡ false → sift_key after key (x ∷ prefix) ≡ key ∷ x ∷ prefix
  unfolding sift_key
  sift_key_stop h = rw h refl

-- Two keys of which one comes after the other can be inserted in either order.
module _ {A : Type 0} (after : A → A → Bool)
    (trans : (x y z : A) → after x y ≡ true → after y z ≡ true → after x z ≡ true) (f g : A)
    (above : after g f ≡ true) (below : after f g ≡ false) where
  sift_key_comm :
      (prefix : List A)
      → sift_key after g (sift_key after f prefix) ≡ sift_key after f (sift_key after g prefix)
  sift_key_comm [] = unfold sift_key in rw (above, below) refl
  sift_key_comm (x ∷ prefix) = elim (Bool-cases (after x g)) [
    | inl p ↦
        let q : after x f ≡ true = trans x g f p above in
        ap (sift_key after g) (sift_key_past after f x prefix q)
        ∙ sift_key_past after g x (sift_key after f prefix) p
        ∙ ap (◌∷◌ x) (sift_key_comm prefix)
        ∙ sym (
            ap (sift_key after f) (sift_key_past after g x prefix p)
            ∙ sift_key_past after f x (sift_key after g prefix) q)
    | inr p ↦
        let inserted =
          ap (sift_key after f) (sift_key_stop after g x prefix p)
          ∙ sift_key_past after f g (x ∷ prefix) above in
        elim (Bool-cases (after x f)) [
          | inl q ↦
              ap (sift_key after g) (sift_key_past after f x prefix q)
              ∙ sift_key_stop after g x (sift_key after f prefix) p
              ∙ sym (inserted ∙ ap (◌∷◌ g) (sift_key_past after f x prefix q))
          | inr q ↦
              ap (sift_key after g) (sift_key_stop after f x prefix q)
              ∙ sift_key_stop after g f (x ∷ prefix) below
              ∙ sym (inserted ∙ ap (◌∷◌ g) (sift_key_stop after f x prefix q))
        ]
  ]

-- The only field of each name, given by a function of the name.
abbrev IsNamed : (List ℕ → GoapField) → Blackboard → Type 0
IsNamed named bb = All (λ (f : GoapField). named f.name ≡ f) bb

IsNamed-Perm :
    (named : List ℕ → GoapField) (fs gs : Blackboard)
    → Permᴰ fs gs
    → IsNamed named fs
    → IsNamed named gs
IsNamed-Perm named [] [] Permᴰ.nil n = tt
IsNamed-Perm named (f ∷ fs) (g ∷ gs) (Permᴰ.cons e p) n =
    (ap (λ (x : GoapField). named x.name) (sym e) ∙ n.0 ∙ e, IsNamed-Perm named fs gs p n.1)
IsNamed-Perm named (f ∷ g ∷ fs) (g' ∷ f' ∷ gs) (Permᴰ.swap e d) n =
    let (a, (b, c)) = n in
    (
      ap (λ (x : GoapField). named x.name) (sym d) ∙ b ∙ d,
      (ap (λ (x : GoapField). named x.name) (sym e) ∙ a ∙ e, c),
    )
IsNamed-Perm named fs gs (Permᴰ.trans {l₂} p q) n =
    IsNamed-Perm named l₂ gs q (IsNamed-Perm named fs l₂ p n)

-- Two fields, one of each name: they can be inserted in either order.
sift_key-swap :
    (named : List ℕ → GoapField) (f g : GoapField) (prefix : Blackboard)
    → named f.name ≡ f
    → named g.name ≡ g
    → sift_key name_after g (sift_key name_after f prefix)
      ≡ sift_key name_after f (sift_key name_after g prefix)
unfolding name_after
sift_key-swap named f g prefix nf ng = elim (Bool-cases (str_gt g.name f.name)) [
  | inl p ↦ sift_key_comm name_after after_trans f g p (str_gt_asymm g.name f.name p) prefix
  | inr p ↦ elim (Bool-cases (str_gt f.name g.name)) [
    | inl q ↦ sym (sift_key_comm name_after after_trans g f q p prefix)
    | inr q ↦
        let same : f ≡ g = sym nf ∙ ap named (str_gt_total f.name g.name q p) ∙ ng in
        ap (λ x. sift_key name_after g (sift_key name_after x prefix)) same
        ∙ ap (λ x. sift_key name_after x (sift_key name_after g prefix)) (sym same)
  ]
]
  where
    after_trans :
        (x y z : GoapField) → name_after x y ≡ true → name_after y z ≡ true → name_after x z ≡ true
    after_trans x y z p q = str_gt_trans x.name y.name z.name p q

insertion_loop-Perm :
    (named : List ℕ → GoapField) (prefix fs gs : Blackboard)
    → Permᴰ fs gs
    → IsNamed named fs
    → insertion_loop name_after prefix fs ≡ insertion_loop name_after prefix gs
unfolding insertion_loop
insertion_loop-Perm named prefix [] [] Permᴰ.nil n = refl
insertion_loop-Perm named prefix (f ∷ fs) (g ∷ gs) (Permᴰ.cons e p) n =
    ap (λ x. insertion_loop name_after (sift_key name_after x prefix) fs) e
    ∙ insertion_loop-Perm named (sift_key name_after g prefix) fs gs p n.1
insertion_loop-Perm named prefix (f ∷ g ∷ fs) (g' ∷ f' ∷ gs) (Permᴰ.swap e d) n =
    let (a, (b, c)) = n in
    ap (λ l. insertion_loop name_after l fs) (sift_key-swap named f g prefix a b)
    ∙ ap (λ y. insertion_loop name_after (sift_key name_after f (sift_key name_after y prefix)) fs)
        d
    ∙ ap (λ x. insertion_loop name_after (sift_key name_after x (sift_key name_after g' prefix)) fs)
        e
insertion_loop-Perm named prefix fs gs (Permᴰ.trans {l₂} p q) n =
    insertion_loop-Perm named prefix fs l₂ p n
    ∙ insertion_loop-Perm named prefix l₂ gs q (IsNamed-Perm named fs l₂ p n)

-- No two fields have the same name.
unfoldable pub IsDistinct : Blackboard → Type 0
IsDistinct [] = Unit
IsDistinct (f ∷ fs) = All (λ (g : GoapField). bytes_eq f.name g.name ≡ false) fs × IsDistinct fs

-- The field of a name.
named_in : Blackboard → List ℕ → GoapField
named_in [] n = record { name = []; bytes = []; is_shared = false }
named_in (f ∷ fs) n = let rest = named_in fs n in if bytes_eq f.name n then f else rest

IsNamed-below :
    (f : GoapField) (fs gs : Blackboard)
    → All (λ (g : GoapField). bytes_eq f.name g.name ≡ false) gs
    → IsNamed (named_in fs) gs
    → IsNamed (named_in (f ∷ fs)) gs
unfolding named_in
IsNamed-below f fs [] d n = tt
IsNamed-below f fs (g ∷ gs) d n = (rw d.0 n.0, IsNamed-below f fs gs d.1 n.1)

IsDistinct-IsNamed : (fs : Blackboard) → IsDistinct fs → IsNamed (named_in fs) fs
unfolding IsDistinct named_in
IsDistinct-IsNamed [] d = tt
IsDistinct-IsNamed (f ∷ fs) d =
    (rw (bytes_eq_self f.name) refl, IsNamed-below f fs fs d.0 (IsDistinct-IsNamed fs d.1))

-- Two blackboards with the same fields in any order, no two of the same name, have the same key: the
-- search takes them for one state.
pub make_state_key-Perm :
    (fs gs : Blackboard) → IsDistinct fs → Permᴰ fs gs → make_state_key fs ≡ make_state_key gs
unfolding make_state_key insertion_sort
make_state_key-Perm fs gs d p =
    ap (λ l. key_parts (rev_append l []))
      (insertion_loop-Perm (named_in fs) [] fs gs p (IsDistinct-IsNamed fs d))
