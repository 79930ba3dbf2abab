-- ===== src/Planner/Wire/Sizes.antt =====
-- The size that fleece_goap_serialize allocates against the bytes that it writes.
use fleece.Prelude.{ℕ, ◌+◌, ◌≡◌, List, [], ◌∷◌, arith, length, length-append}
use fleece.Cbor.{text_size, array_header_size, num_size, write_array_header, write_text, write_num}
use fleece.Cbor.Sizes.{length-write_array_header, length-write_text}
use fleece.Cbor.Numbers.{length-write_num}
use fleece.Planner.{FleeceGoap, GoapAction, GoapGoal, GoapPoint, GoapUtility, GoapMission}
use fleece.Planner.Wire.{
  sum_of, texts_size, action_size, goal_size, point_size, utility_size, mission_size,
  serialize_body_size, put_array, put_text, put_num, put_all, put_table, put_action, put_goal,
  put_point, put_utility, put_mission, serialize_body, serialize,
}

length-put_array : (n : ℕ) (k : List ℕ) → length (put_array n k) ≡ array_header_size n + length k
unfolding put_array
length-put_array n k =
    omega (arith, length-append (write_array_header n) k, length-write_array_header n)

length-put_text : (s k : List ℕ) → length (put_text s k) ≡ text_size (length s) + length k
unfolding put_text
length-put_text s k = omega (arith, length-append (write_text s) k, length-write_text s)

length-put_num : (v : ℕ) (k : List ℕ) → length (put_num v k) ≡ num_size v + length k
unfolding put_num
length-put_num v k = omega (arith, length-append (write_num v) k, length-write_num v)

module _ {A : Type 0} (put : A → List ℕ → List ℕ) (size : A → ℕ)
    (each : (x : A) (k : List ℕ) → length (put x k) ≡ size x + length k) where
  length-put_all :
      (xs : List A) (k : List ℕ) → length (put_all put xs k) ≡ sum_of size xs + length k
  unfolding put_all sum_of
  length-put_all [] k = omega arith
  length-put_all (x ∷ xs) k = omega (arith, each x (put_all put xs k), length-put_all xs k)

length-put_texts :
    (ss : List (List ℕ)) (k : List ℕ)
    → length (put_all put_text ss k) ≡ sum_of (λ s. text_size (length s)) ss + length k
length-put_texts ss k = length-put_all put_text (λ s. text_size (length s)) length-put_text ss k

ruleset wire_lengths = (length-put_array, length-put_text, length-put_num, length-put_texts)

length-put_action :
    (a : GoapAction) (k : List ℕ) → length (put_action a k) ≡ action_size a + length k
unfolding put_action action_size put_table texts_size
length-put_action a k = simp wire_lengths (omega arith)

length-put_goal : (g : GoapGoal) (k : List ℕ) → length (put_goal g k) ≡ goal_size g + length k
unfolding put_goal goal_size
length-put_goal g k = simp wire_lengths (omega arith)

length-put_point : (p : GoapPoint) (k : List ℕ) → length (put_point p k) ≡ point_size p + length k
unfolding put_point point_size
length-put_point p k = simp wire_lengths (omega arith)

length-put_points :
    (ps : List GoapPoint) (k : List ℕ)
    → length (put_all put_point ps k) ≡ sum_of point_size ps + length k
length-put_points ps k = length-put_all put_point point_size length-put_point ps k

length-put_utility :
    (u : GoapUtility) (k : List ℕ) → length (put_utility u k) ≡ utility_size u + length k
unfolding put_utility utility_size put_table
length-put_utility u k = simp (wire_lengths, length-put_points) (omega arith)

length-put_mission :
    (m : GoapMission) (k : List ℕ) → length (put_mission m k) ≡ mission_size m + length k
unfolding put_mission mission_size put_table texts_size
length-put_mission m k = simp wire_lengths (omega arith)

length-serialize_body :
    (g : FleeceGoap) (k : List ℕ) → length (serialize_body g k) ≡ serialize_body_size g + length k
unfolding serialize_body serialize_body_size put_table
length-serialize_body g k =
    simp
      (
        wire_lengths,
        length-put_all put_action action_size length-put_action,
        length-put_all put_goal goal_size length-put_goal,
        length-put_all put_utility utility_size length-put_utility,
        length-put_all put_mission mission_size length-put_mission,
      )
      (omega arith)

-- Serializing writes exactly the bytes that it has allocated: the prefix's three and the measured
-- body.
pub length-serialize : (g : FleeceGoap) → length (serialize g) ≡ 3 + serialize_body_size g
unfolding serialize
length-serialize g = omega (arith, length-serialize_body g [])
