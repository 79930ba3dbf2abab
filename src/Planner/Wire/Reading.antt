-- ===== src/Planner/Wire/Reading.antt =====
-- The readers of a plan blob on what its writers put.
use fleece.Prelude.{
  c_string, ℕ, ◌<◌, ◌^◌, ◌≡◌, refl, ◌∙◌, ap, List, [], ◌∷◌, ◌++◌, map, true, Option, some, arith,
  length, length-append, All, take-length-append, drop-length-append,
}
use mathlib.Core.List.{append_assoc}
use fleece.Cbor.{write_text, write_head, read_num, bounds_ok}
use fleece.Cbor.RoundTrip.{bounds_ok_iff, read_head-write_head, read_head-write_array_header}
use fleece.Cbor.Numbers.{carried, read_num-carried}
use fleece.Planner.{GoapAction, GoapGoal, GoapPoint, GoapUtility, GoapMission}
use fleece.Planner.Wire.{
  put_array, put_text, put_num, put_all, put_table, put_action, put_goal, put_point, put_utility,
  put_mission,
}
use fleece.Planner.Wire.Decode.{
  read_text_upto, read_text_dyn, read_array, expect_items, read_all, read_table, read_action,
  read_goal, read_point, read_utility, read_mission,
}

-- A C string with a 32-bit length.
abbrev pub IsText : List ℕ → Type 0
IsText s = (c_string s ≡ s) × (length s < 2 ^ 32)

pub read_array-put_array :
    (n : ℕ) (k : List ℕ) → n < 2 ^ 32 → read_array (put_array n k) ≡ some (n, k)
unfolding read_array put_array
read_array-put_array n k h = rw (read_head-write_array_header n k (omega arith)) refl

pub expect_items-put_array :
    (n : ℕ) (k : List ℕ) → n < 2 ^ 32 → expect_items n (put_array n k) ≡ some k
unfolding expect_items
expect_items-put_array n k h = rw (read_array-put_array n k h) (ground arith)

in_bounds : (s k : List ℕ) → bounds_ok 0 (length s) (length (s ++ k)) ≡ true
in_bounds s k = (bounds_ok_iff 0 (length s) (length (s ++ k))).1 (omega (arith, length-append s k))

pub read_text_upto-put_text :
    (most : ℕ → ℕ) (s k : List ℕ)
    → most (length s) ≡ length s
    → IsText s
    → read_text_upto most (put_text s k) ≡ some (s, k)
unfolding read_text_upto put_text write_text
read_text_upto-put_text most s k all (text, fits) =
    rw
      (
        append_assoc (write_head 3 (length s)) s k,
        read_head-write_head 3 (length s) (s ++ k) (omega arith) (omega arith),
        in_bounds s k,
        all,
        take-length-append s k,
        drop-length-append s k,
        text,
      )
      refl

read_text_dyn-put_text : (s k : List ℕ) → IsText s → read_text_dyn (put_text s k) ≡ some (s, k)
unfolding read_text_dyn
read_text_dyn-put_text s k text = read_text_upto-put_text (λ value. value) s k refl text

read_num-put_num : (v : ℕ) (k : List ℕ) → v < 2 ^ 64 → read_num (put_num v k) ≡ some (carried v, k)
unfolding put_num
read_num-put_num v k h = read_num-carried v k h

module _ {A : Type 0} (put : A → List ℕ → List ℕ) (read : List ℕ → Option (A × List ℕ))
    (P : A → Type 0) (received : A → A)
    (each : (x : A) (k : List ℕ) → P x → read (put x k) ≡ some (received x, k)) where
  read_all-put_all :
      (xs : List A) (k : List ℕ)
      → All P xs
      → read_all read (length xs) (put_all put xs k) ≡ some (map received xs, k)
  unfolding read_all put_all
  read_all-put_all [] k p = refl
  read_all-put_all (x ∷ xs) k (p, ps) =
      rw (each x (put_all put xs k) p, read_all-put_all xs k ps) refl

  read_table-put_table :
      (xs : List A) (k : List ℕ)
      → All P xs
      → length xs < 2 ^ 32
      → read_table read (put_table put xs k) ≡ some (map received xs, k)
  unfolding read_table put_table
  read_table-put_table xs k ps fits =
      rw (read_array-put_array (length xs) (put_all put xs k) fits, read_all-put_all xs k ps) refl

map_same : (ss : List (List ℕ)) → map (λ s. s) ss ≡ ss
map_same [] = refl
map_same (s ∷ ss) = ap (◌∷◌ s) (map_same ss)

-- A table of texts.
abbrev pub IsTexts : List (List ℕ) → Type 0
IsTexts ss = All IsText ss × (length ss < 2 ^ 32)

read_texts-put_texts :
    (ss : List (List ℕ)) (k : List ℕ)
    → IsTexts ss
    → read_table read_text_dyn (put_table put_text ss k) ≡ some (ss, k)
read_texts-put_texts ss k (texts, fits) =
    read_table-put_table put_text read_text_dyn IsText (λ s. s) read_text_dyn-put_text ss k texts
      fits
    ∙ ap (λ t. some (t, k)) (map_same ss)

-- What an entry of each table becomes on the way: its numbers are carried.
unfoldable pub received_action : GoapAction → GoapAction
received_action a = record a { dur = carried a.dur }

unfoldable pub received_goal : GoapGoal → GoapGoal
received_goal g = record g { priority = carried g.priority }

unfoldable pub received_point : GoapPoint → GoapPoint
received_point p = record { x = carried p.x; y = carried p.y }

unfoldable pub received_utility : GoapUtility → GoapUtility
received_utility u = record u {
  x_min = carried u.x_min;
  x_max = carried u.x_max;
  points = map received_point u.points;
}

-- Entries whose strings, counts and numbers have the widths of the source.
pub record IsAction (a : GoapAction) : Type 0 where
  pub id : IsText a.id
  pub name : IsText a.name
  pub cost : IsText a.cost
  pub exec : IsText a.exec
  pub dest : IsText a.dest
  pub dur : a.dur < 2 ^ 64
  pub pre : IsTexts a.pre
  pub eff : IsTexts a.eff

pub record IsGoal (g : GoapGoal) : Type 0 where
  pub id : IsText g.id
  pub name : IsText g.name
  pub expr : IsText g.expr
  pub priority : g.priority < 2 ^ 64
  pub curve_id : IsText g.curve_id

abbrev pub IsPoint : GoapPoint → Type 0
IsPoint p = (p.x < 2 ^ 64) × (p.y < 2 ^ 64)

pub record IsUtility (u : GoapUtility) : Type 0 where
  pub id : IsText u.id
  pub name : IsText u.name
  pub dim : IsText u.dim
  pub x_min : u.x_min < 2 ^ 64
  pub x_max : u.x_max < 2 ^ 64
  pub points : All IsPoint u.points
  pub count : length u.points < 2 ^ 32

pub record IsMission (m : GoapMission) : Type 0 where
  pub id : IsText m.id
  pub name : IsText m.name
  pub goal_ids : IsTexts m.goal_ids
  pub note : IsText m.note

pub read_action-put_action :
    (a : GoapAction) (k : List ℕ)
    → IsAction a
    → read_action (put_action a k) ≡ some (received_action a, k)
unfolding read_action put_action received_action
read_action-put_action a k p =
    rw
      (
        expect_items-put_array 8 _ (omega arith),
        read_text_dyn-put_text a.id _ p.id,
        read_text_dyn-put_text a.name _ p.name,
        read_text_dyn-put_text a.cost _ p.cost,
        read_text_dyn-put_text a.dest _ p.dest,
        read_num-put_num a.dur _ p.dur,
        read_text_dyn-put_text a.exec _ p.exec,
        read_texts-put_texts a.pre _ p.pre,
        read_texts-put_texts a.eff k p.eff,
      )
      refl

pub read_goal-put_goal :
    (g : GoapGoal) (k : List ℕ) → IsGoal g → read_goal (put_goal g k) ≡ some (received_goal g, k)
unfolding read_goal put_goal received_goal
read_goal-put_goal g k p =
    rw
      (
        expect_items-put_array 5 _ (omega arith),
        read_text_dyn-put_text g.id _ p.id,
        read_text_dyn-put_text g.name _ p.name,
        read_text_dyn-put_text g.expr _ p.expr,
        read_num-put_num g.priority _ p.priority,
        read_text_dyn-put_text g.curve_id k p.curve_id,
      )
      refl

read_point-put_point :
    (p : GoapPoint) (k : List ℕ)
    → IsPoint p
    → read_point (put_point p k) ≡ some (received_point p, k)
unfolding read_point put_point received_point
read_point-put_point p k (x, y) =
    rw
      (expect_items-put_array 2 _ (omega arith), read_num-put_num p.x _ x, read_num-put_num p.y k y)
      refl

pub read_utility-put_utility :
    (u : GoapUtility) (k : List ℕ)
    → IsUtility u
    → read_utility (put_utility u k) ≡ some (received_utility u, k)
unfolding read_utility put_utility received_utility
read_utility-put_utility u k p =
    rw
      (
        expect_items-put_array 7 _ (omega arith),
        read_text_dyn-put_text u.id _ p.id,
        read_text_dyn-put_text u.name _ p.name,
        read_text_dyn-put_text u.dim _ p.dim,
        read_num-put_num u.x_min _ p.x_min,
        read_num-put_num u.x_max _ p.x_max,
        read_table-put_table put_point read_point IsPoint received_point read_point-put_point
            u.points k p.points p.count,
      )
      refl

pub read_mission-put_mission :
    (m : GoapMission) (k : List ℕ) → IsMission m → read_mission (put_mission m k) ≡ some (m, k)
unfolding read_mission put_mission
read_mission-put_mission m k p =
    rw
      (
        expect_items-put_array 4 _ (omega arith),
        read_text_dyn-put_text m.id _ p.id,
        read_text_dyn-put_text m.name _ p.name,
        read_texts-put_texts m.goal_ids _ p.goal_ids,
        read_text_dyn-put_text m.note k p.note,
      )
      refl
