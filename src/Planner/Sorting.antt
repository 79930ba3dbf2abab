-- ===== src/Planner/Sorting.antt =====
-- The insertion sort that the planner writes out three times: for the fields of a state key, the
-- points of a curve and the ranked goals. The sorted prefix is kept last element first, and
-- `after x key` is the loop's condition to move `x` one place up.
pub mod Sorted
use fleece.Prelude.{List, [], ◌∷◌, Bool, true, false, if◌then◌else◌, rev_append}

module _ {A : Type 0} (after : A → A → Bool) where
  -- while (j >= 0 && after(a[j], key)) { a[j + 1] = a[j]; j--; } a[j + 1] = key;
  unfoldable pub sift_key : A → List A → List A
  sift_key key [] = key ∷ []
  sift_key key (x ∷ prefix) =
      let rest = sift_key key prefix in if after x key then x ∷ rest else key ∷ x ∷ prefix

  unfoldable pub insertion_loop : List A → List A → List A
  unfolding sift_key
  insertion_loop prefix [] = prefix
  insertion_loop prefix (key ∷ xs) = insertion_loop (sift_key key prefix) xs

  unfoldable pub insertion_sort : List A → List A
  unfolding insertion_loop rev_append
  insertion_sort xs = rev_append (insertion_loop [] xs) []
