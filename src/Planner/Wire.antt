-- ===== src/Planner/Wire.antt =====
-- The plan blob of src/planner/fleece_planner.c: 'F', 'P', the version and a CBOR body. A writer puts
-- its bytes in front of those that come after it, and a reader returns what it leaves. Allocations
-- are taken to succeed.
pub mod Decode
pub mod Loading
pub mod Sizes
pub mod Reading
pub mod RoundTrip
use fleece.Prelude.{
  c_string, ℕ, zero, suc, ◌+◌, ◌-◌, List, [], ◌∷◌, ◌++◌, Bool, true, false, ◌&&◌, Option, none,
  some, length, ltb, leb, ◌==◌, if◌then◌else◌, take, drop,
}
use fleece.Prelude.Maybe.{◌>>=◌, ◌>>◌, require}
use fleece.Cbor.{
  text_size, array_header_size, num_size, write_array_header, write_text, write_num, read_head,
  read_num, bounds_ok,
}
use fleece.Planner.{FleeceGoap, GoapAction, GoapGoal, GoapPoint, GoapUtility, GoapMission, name_max}
use fleece.Planner.Tables.{reset, add_action, add_goal, add_utility, add_mission}

-- The sum of a size over a table.
unfoldable pub sum_of : {A : Type 0} → (A → ℕ) → List A → ℕ
sum_of size [] = 0
sum_of size (x ∷ xs) = size x + sum_of size xs

unfoldable pub texts_size : List (List ℕ) → ℕ
unfolding sum_of
texts_size ss = array_header_size (length ss) + sum_of (λ s. text_size (length s)) ss

-- serialize_body_size, table by table
unfoldable pub action_size : GoapAction → ℕ
unfolding texts_size
action_size a =
    array_header_size 8
    + text_size (length a.id)
    + text_size (length a.name)
    + text_size (length a.cost)
    + text_size (length a.dest)
    + num_size a.dur
    + text_size (length a.exec)
    + texts_size a.pre
    + texts_size a.eff

unfoldable pub goal_size : GoapGoal → ℕ
goal_size g =
    array_header_size 5
    + text_size (length g.id)
    + text_size (length g.name)
    + text_size (length g.expr)
    + num_size g.priority
    + text_size (length g.curve_id)

unfoldable pub point_size : GoapPoint → ℕ
point_size p = array_header_size 2 + num_size p.x + num_size p.y

unfoldable pub utility_size : GoapUtility → ℕ
unfolding point_size sum_of
utility_size u =
    array_header_size 7
    + text_size (length u.id)
    + text_size (length u.name)
    + text_size (length u.dim)
    + num_size u.x_min
    + num_size u.x_max
    + array_header_size (length u.points)
    + sum_of point_size u.points

unfoldable pub mission_size : GoapMission → ℕ
unfolding texts_size
mission_size m =
    array_header_size 4
    + text_size (length m.id)
    + text_size (length m.name)
    + texts_size m.goal_ids
    + text_size (length m.note)

unfoldable pub serialize_body_size : FleeceGoap → ℕ
unfolding action_size goal_size utility_size mission_size sum_of
serialize_body_size g =
    array_header_size 5
    + text_size (length g.name)
    + array_header_size (length g.actions)
    + sum_of action_size g.actions
    + array_header_size (length g.goals)
    + sum_of goal_size g.goals
    + array_header_size (length g.utilities)
    + sum_of utility_size g.utilities
    + array_header_size (length g.missions)
    + sum_of mission_size g.missions

-- The writers of the items, in front of `k`; put_text is write_text.
unfoldable pub put_array : ℕ → List ℕ → List ℕ
put_array n k = write_array_header n ++ k

unfoldable pub put_text : List ℕ → List ℕ → List ℕ
put_text s k = write_text s ++ k

unfoldable pub put_num : ℕ → List ℕ → List ℕ
put_num v k = write_num v ++ k

unfoldable pub put_all : {A : Type 0} → (A → List ℕ → List ℕ) → List A → List ℕ → List ℕ
put_all put [] k = k
put_all put (x ∷ xs) k = put x (put_all put xs k)

-- A count and a table.
unfoldable pub put_table : {A : Type 0} → (A → List ℕ → List ℕ) → List A → List ℕ → List ℕ
unfolding put_array put_all
put_table put xs k = put_array (length xs) (put_all put xs k)

-- serialize_body, table by table
unfoldable pub put_action : GoapAction → List ℕ → List ℕ
unfolding put_table put_text put_num put_array
put_action a k = put_array 8 (
    put_text a.id (
      put_text a.name (
        put_text a.cost (
          put_text a.dest (
            put_num a.dur
              (put_text a.exec (put_table put_text a.pre (put_table put_text a.eff k))))))))

unfoldable pub put_goal : GoapGoal → List ℕ → List ℕ
unfolding put_text put_num put_array
put_goal g k =
    put_array 5 (
      put_text g.id
        (put_text g.name (put_text g.expr (put_num g.priority (put_text g.curve_id k)))))

unfoldable pub put_point : GoapPoint → List ℕ → List ℕ
unfolding put_num put_array
put_point p k = put_array 2 (put_num p.x (put_num p.y k))

unfoldable pub put_utility : GoapUtility → List ℕ → List ℕ
unfolding put_table put_text put_num put_array put_point
put_utility u k = put_array 7 (
    put_text u.id (
      put_text u.name
        (put_text u.dim (put_num u.x_min (put_num u.x_max (put_table put_point u.points k))))))

unfoldable pub put_mission : GoapMission → List ℕ → List ℕ
unfolding put_table put_text put_array
put_mission m k =
    put_array 4
      (put_text m.id (put_text m.name (put_table put_text m.goal_ids (put_text m.note k))))

unfoldable pub serialize_body : FleeceGoap → List ℕ → List ℕ
unfolding put_table put_text put_array put_action put_goal put_utility put_mission
serialize_body g k = put_array 5 (
    put_text g.name (
      put_table put_action g.actions (
        put_table put_goal g.goals
          (put_table put_utility g.utilities (put_table put_mission g.missions k)))))

-- fleece_goap_serialize
unfoldable pub serialize : FleeceGoap → List ℕ
unfolding serialize_body
serialize g = 70 ∷ 80 ∷ 2 ∷ serialize_body g []
