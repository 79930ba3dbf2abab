-- ===== src/Planner/Wire/RoundTrip.antt =====
-- fleece_goap_deserialize on what fleece_goap_serialize writes.
use fleece.Prelude.{
  ℕ, ◌-◌, ◌<◌, ◌^◌, ◌≡◌, refl, ◌∙◌, ap, List, [], ◌∷◌, map, true, some, arith, length, All,
  if◌then◌else◌, ltb,
}
use fleece.Planner.{FleeceGoap, name_max}
use fleece.Planner.Tables.{reset}
use fleece.Planner.Tables.Laws.{HasRoom, HasGoalRoom, HasMissionRoom}
use fleece.Planner.Wire.{
  put_text, put_table, put_action, put_goal, put_utility, put_mission, serialize_body, serialize,
}
use fleece.Planner.Wire.Decode.{
  Load, expect_items, read_text, read_action, read_goal, read_utility, read_mission, load_table,
  register_action, register_goal, register_utility, register_mission, load_name, load_body, loaded,
  blob_body, deserialize,
}
use fleece.Planner.Wire.Reading.{
  IsText, IsAction, IsGoal, IsMission, received_action, received_goal, received_utility,
  expect_items-put_array, read_text_upto-put_text,
}
use fleece.Planner.Wire.Loading.{IsCurve, load_actions, load_goals, load_utilities, load_missions}

-- A planner as registration leaves it, with strings, counts and numbers of the source's widths.
pub record IsStored (g : FleeceGoap) : Type 0 where
  pub name : IsText g.name × (length g.name < name_max)
  pub actions : All (λ x. IsAction x × HasRoom x) g.actions × (length g.actions < 2 ^ 32)
  pub goals : All (λ x. IsGoal x × HasGoalRoom x) g.goals × (length g.goals < 2 ^ 32)
  pub utilities : All IsCurve g.utilities × (length g.utilities < 2 ^ 32)
  pub missions : All (λ x. IsMission x × HasMissionRoom x) g.missions × (length g.missions < 2 ^ 32)

-- What a planner has loaded: the tables of the one that serialized them, with its own budgets.
unfoldable pub loaded_planner : FleeceGoap → FleeceGoap → FleeceGoap
loaded_planner own sent = record own {
  name = sent.name;
  actions = map received_action sent.actions;
  goals = map received_goal sent.goals;
  utilities = map received_utility sent.utilities;
  missions = sent.missions;
}

load_name-put_text :
    (g : FleeceGoap) (s k : List ℕ)
    → IsText s
    → length s < name_max
    → load_name g (put_text s k) ≡ (record g { name = s }, some k)
unfolding load_name read_text
load_name-put_text g s k text fits =
    rw
      (
        read_text_upto-put_text (λ value. if ltb value (name_max - 1) then value else name_max - 1)
            s k (ground arith) text,
        load_name,
      )
      refl

load_body-serialize_body :
    (own sent : FleeceGoap) (k : List ℕ)
    → IsStored sent
    → load_body (reset own) (
        put_text sent.name (
          put_table put_action sent.actions (
            put_table put_goal sent.goals
              (put_table put_utility sent.utilities (put_table put_mission sent.missions k)))))
      ≡ (loaded_planner own sent, some k)
unfolding load_body reset loaded_planner
load_body-serialize_body own sent k stored =
    let with_missions : Load → Load = load_table read_mission register_mission in
    let with_utilities : Load → Load =
      λ l. with_missions (load_table read_utility register_utility l) in
    let with_goals : Load → Load = λ l. with_utilities (load_table read_goal register_goal l) in
    let g0 : FleeceGoap = record (reset own) { name = sent.name } in
    let g1 : FleeceGoap = record g0 { actions = map received_action sent.actions } in
    let g2 : FleeceGoap = record g1 { goals = map received_goal sent.goals } in
    let g3 : FleeceGoap = record g2 { utilities = map received_utility sent.utilities } in
    let k3 = put_table put_mission sent.missions k in
    let k2 = put_table put_utility sent.utilities k3 in
    let k1 = put_table put_goal sent.goals k2 in
    let k0 = put_table put_action sent.actions k1 in
    ap (λ l. with_goals (load_table read_action register_action l))
      (load_name-put_text (reset own) sent.name k0 stored.name.0 stored.name.1)
    ∙ ap with_goals (load_actions g0 sent.actions k1 stored.actions.0 stored.actions.1)
    ∙ ap with_utilities (load_goals g1 sent.goals k2 stored.goals.0 stored.goals.1)
    ∙ ap with_missions (load_utilities g2 sent.utilities k3 stored.utilities.0 stored.utilities.1)
    ∙ load_missions g3 sent.missions k stored.missions.0 stored.missions.1

deserialize_body :
    (g : FleeceGoap) (body rest : List ℕ)
    → expect_items 5 body ≡ some rest
    → deserialize g (70 ∷ 80 ∷ 2 ∷ body) ≡ loaded (load_body (reset g) rest)
unfolding deserialize blob_body
deserialize_body g body rest e = rw (e, deserialize) refl

-- A planner that loads the blob of another one, whose tables are as registration leaves them, ends
-- with that one's name and tables, their numbers carried, and with its own budgets.
pub deserialize-serialize :
    (own sent : FleeceGoap)
    → IsStored sent
    → deserialize own (serialize sent) ≡ (loaded_planner own sent, true)
unfolding serialize serialize_body loaded
deserialize-serialize own sent stored =
    deserialize_body own _ _ (expect_items-put_array 5 _ (omega arith))
    ∙ ap loaded (load_body-serialize_body own sent [] stored)
