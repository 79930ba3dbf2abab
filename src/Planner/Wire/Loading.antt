-- ===== src/Planner/Wire/Loading.antt =====
-- The loading of each table of a plan blob, from what its writer put.
use fleece.Prelude.{
  ℕ, ◌<◌, ◌^◌, ◌≡◌, refl, sym, ◌∙◌, ap, List, [], ◌∷◌, ◌++◌, map, Option, some, length, All,
}
use mathlib.Core.List.{append_assoc, append-nil}
use fleece.Cbor.Numbers.{dbl_lt-carried}
use fleece.Planner.{FleeceGoap, GoapAction, GoapGoal, GoapPoint, GoapUtility, GoapMission}
use fleece.Planner.Sorting.Sorted.{Follows, IsInOrder, insertion_sort-IsInOrder}
use fleece.Planner.Tables.{point_after, sorted_curve}
use fleece.Planner.Tables.Laws.{
  HasRoom, HasGoalRoom, HasUtilityRoom, HasMissionRoom, add_action-some, add_goal-some,
  add_utility-some, add_mission-some,
}
use fleece.Planner.Wire.{put_all, put_table, put_action, put_goal, put_utility, put_mission}
use fleece.Planner.Wire.Decode.{
  read_array, read_action, read_goal, read_utility, read_mission, load_items, load_table,
  register_action, register_goal, register_utility, register_mission,
}
use fleece.Planner.Wire.Reading.{
  IsAction, IsGoal, IsUtility, IsMission, received_action, received_goal, received_point,
  received_utility, read_array-put_array, read_action-put_action, read_goal-put_goal,
  read_utility-put_utility, read_mission-put_mission,
}

load_table-some :
    {A : Type 0} (read : List ℕ → Option (A × List ℕ)) (add : FleeceGoap → A → Option FleeceGoap)
    (g : FleeceGoap) (bs : List ℕ) (n : ℕ) (rest : List ℕ)
    → read_array bs ≡ some (n, rest)
    → load_table read add (g, some bs) ≡ load_items read add n g rest
unfolding load_table
load_table-some read add g bs n rest e = rw (e, load_table) refl

-- One table: where reading undoes writing and registering appends, the loop loads the entries.
module _ {A : Type 0} (put : A → List ℕ → List ℕ) (read : List ℕ → Option (A × List ℕ))
    (add : FleeceGoap → A → Option FleeceGoap) (received : A → A) (P : A → Type 0)
    (reads : (x : A) (k : List ℕ) → P x → read (put x k) ≡ some (received x, k))
    (with_table : FleeceGoap → List A → FleeceGoap)
    (adds : (g : FleeceGoap) (done : List A) (x : A)
      → P x
      → add (with_table g done) (received x) ≡ some (with_table g (done ++ received x ∷ []))) where
  load_items-put_all :
      (g : FleeceGoap) (done xs : List A) (k : List ℕ)
      → All P xs
      → load_items read add (length xs) (with_table g done) (put_all put xs k)
        ≡ (with_table g (done ++ map received xs), some k)
  unfolding load_items put_all
  load_items-put_all g done [] k p = ap (λ t. (with_table g t, some k)) (sym (append-nil done))
  load_items-put_all g done (x ∷ xs) k (p, ps) =
      rw (reads x (put_all put xs k) p, adds g done x p)
        (load_items-put_all g (done ++ received x ∷ []) xs k ps
          ∙ ap (λ t. (with_table g t, some k))
              (append_assoc done (received x ∷ []) (map received xs)))

  load_table-put_table :
      (g : FleeceGoap) (xs : List A) (k : List ℕ)
      → All P xs
      → length xs < 2 ^ 32
      → load_table read add (with_table g [], some (put_table put xs k))
        ≡ (with_table g (map received xs), some k)
  unfolding put_table
  load_table-put_table g xs k ps fits =
      load_table-some read add (with_table g []) _ (length xs) (put_all put xs k)
        (read_array-put_array (length xs) (put_all put xs k) fits)
      ∙ load_items-put_all g [] xs k ps

pub load_actions :
    (g : FleeceGoap) (xs : List GoapAction) (k : List ℕ)
    → All (λ x. IsAction x × HasRoom x) xs
    → length xs < 2 ^ 32
    → load_table read_action register_action
        (record g { actions = [] }, some (put_table put_action xs k))
      ≡ (record g { actions = map received_action xs }, some k)
unfolding received_action
load_actions g xs k ps fits =
    load_table-put_table put_action read_action register_action received_action
      (λ x. IsAction x × HasRoom x) (λ x rest p. read_action-put_action x rest p.0)
      (λ g' done. record g' { actions = done })
      (λ g' done x p. add_action-some (record g' { actions = done }) (received_action x) p.1) g xs k
      ps fits

pub load_goals :
    (g : FleeceGoap) (xs : List GoapGoal) (k : List ℕ)
    → All (λ x. IsGoal x × HasGoalRoom x) xs
    → length xs < 2 ^ 32
    → load_table read_goal register_goal (record g { goals = [] }, some (put_table put_goal xs k))
      ≡ (record g { goals = map received_goal xs }, some k)
unfolding received_goal
load_goals g xs k ps fits =
    load_table-put_table put_goal read_goal register_goal received_goal
      (λ x. IsGoal x × HasGoalRoom x) (λ x rest p. read_goal-put_goal x rest p.0)
      (λ g' done. record g' { goals = done })
      (λ g' done x p. add_goal-some (record g' { goals = done }) (received_goal x) p.1) g xs k ps
      fits

-- Carried points are in order where the points are.
Follows-received :
    (p : GoapPoint) (ps : List GoapPoint)
    → Follows point_after p ps
    → Follows point_after (received_point p) (map received_point ps)
unfolding point_after received_point
Follows-received p [] f = tt
Follows-received p (q ∷ ps) (f, fs) = (dbl_lt-carried q.x p.x ∙ f, Follows-received q ps fs)

IsInOrder-received :
    (ps : List GoapPoint) → IsInOrder point_after ps → IsInOrder point_after (map received_point ps)
IsInOrder-received [] f = tt
IsInOrder-received (p ∷ ps) f = Follows-received p ps f

-- A curve as registration leaves it: its points are in order.
abbrev pub IsCurve : GoapUtility → Type 0
IsCurve u = IsUtility u × HasUtilityRoom u × IsInOrder point_after u.points

sorted_curve-received :
    (u : GoapUtility)
    → IsInOrder point_after u.points
    → sorted_curve (received_utility u) ≡ received_utility u
unfolding sorted_curve received_utility
sorted_curve-received u f =
    ap (λ ps. record (received_utility u) { points = ps })
      (insertion_sort-IsInOrder point_after (map received_point u.points)
        (IsInOrder-received u.points f))

pub load_utilities :
    (g : FleeceGoap) (xs : List GoapUtility) (k : List ℕ)
    → All IsCurve xs
    → length xs < 2 ^ 32
    → load_table read_utility register_utility
        (record g { utilities = [] }, some (put_table put_utility xs k))
      ≡ (record g { utilities = map received_utility xs }, some k)
load_utilities g xs k ps fits =
    load_table-put_table put_utility read_utility register_utility received_utility IsCurve
      (λ x rest p. read_utility-put_utility x rest p.0) (λ g' done. record g' { utilities = done })
      (λ g' done x p.
        add_utility-some (record g' { utilities = done }) (received_utility x)
          (unfold received_utility in p.1)
        ∙ ap (λ u. some (record g' { utilities = done ++ u ∷ [] })) (sorted_curve-received x p.2))
      g xs k ps fits

map_same : (xs : List GoapMission) → map (λ x. x) xs ≡ xs
map_same [] = refl
map_same (x ∷ xs) = ap (◌∷◌ x) (map_same xs)

pub load_missions :
    (g : FleeceGoap) (xs : List GoapMission) (k : List ℕ)
    → All (λ x. IsMission x × HasMissionRoom x) xs
    → length xs < 2 ^ 32
    → load_table read_mission register_mission
        (record g { missions = [] }, some (put_table put_mission xs k))
      ≡ (record g { missions = xs }, some k)
load_missions g xs k ps fits =
    load_table-put_table put_mission read_mission register_mission (λ x. x)
      (λ x. IsMission x × HasMissionRoom x) (λ x rest p. read_mission-put_mission x rest p.0)
      (λ g' done. record g' { missions = done })
      (λ g' done x p. add_mission-some (record g' { missions = done }) x p.1) g xs k ps fits
    ∙ ap (λ ms. (record g { missions = ms }, some k)) (map_same xs)
