-- ===== src/Planner/Sorting/Sorted.antt =====
-- The insertion sort on lists that are in order, and the order of what it returns.
use fleece.Prelude.{List, [], ◌∷◌, ◌++◌, Bool, false, ◌≡◌, refl, ◌∙◌, ap, rev_append}
use mathlib.Core.List.{append-nil}
use fleece.Planner.Sorting.{sift_key, insertion_loop, insertion_sort}

module _ {A : Type 0} where
  pub rev_append-rev_append :
      (xs ys zs : List A) → rev_append (rev_append xs ys) zs ≡ rev_append ys (xs ++ zs)
  unfolding rev_append
  rev_append-rev_append [] ys zs = refl
  rev_append-rev_append (x ∷ xs) ys zs = rev_append-rev_append xs (x ∷ ys) zs

module _ {A : Type 0} (after : A → A → Bool) where
  -- No element comes after the next one, the first not after `x` itself.
  abbrev pub Follows : A → List A → Type 0
  Follows x [] = Unit
  Follows x (y ∷ ys) = (after x y ≡ false) × Follows y ys

  abbrev pub IsInOrder : List A → Type 0
  IsInOrder [] = Unit
  IsInOrder (x ∷ xs) = Follows x xs

  insertion_loop-Follows :
      (x : A) (prefix xs : List A)
      → Follows x xs
      → insertion_loop after (x ∷ prefix) xs ≡ rev_append xs (x ∷ prefix)
  unfolding insertion_loop sift_key rev_append
  insertion_loop-Follows x prefix [] f = refl
  insertion_loop-Follows x prefix (y ∷ ys) (f, fs) =
      rw f (insertion_loop-Follows y (x ∷ prefix) ys fs)

  -- A list in order stays as it is.
  pub insertion_sort-IsInOrder : (xs : List A) → IsInOrder xs → insertion_sort after xs ≡ xs
  unfolding insertion_sort insertion_loop sift_key rev_append
  insertion_sort-IsInOrder [] f = refl
  insertion_sort-IsInOrder (x ∷ xs) f =
      ap (λ l. rev_append l []) (insertion_loop-Follows x [] xs f)
      ∙ rev_append-rev_append xs (x ∷ []) []
      ∙ ap (◌∷◌ x) (append-nil xs)
