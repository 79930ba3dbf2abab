-- ===== src/Planner/Tables/Laws.antt =====
-- What registration accepts, and what it leaves in the tables.
use fleece.Prelude.{
  ℕ, ◌≤◌, ◌<◌, ◌≡◌, ◌⊎◌, refl, List, [], ◌∷◌, ◌++◌, none, some, arith, length, leb, inl, inr,
  Bool-cases, Option-cases, Option,
}
use fleece.Planner.{
  FleeceGoap, GoapActionDef, GoapAction, GoapGoal, GoapUtility, GoapMission, name_max, source_max,
  note_max,
}
use fleece.Planner.Tables.{
  copied, copy_str, add_action, add_goal, add_utility, add_mission, sorted_curve, action_def,
  goal_def, utility_def, mission_def,
}

-- What is copied of a string that may be NULL.
unfoldable pub text_of : Option (List ℕ) → List ℕ
text_of none = []
text_of (some s) = s

copied-some : (n : ℕ) (s : Option (List ℕ)) → length (text_of s) < n → copied n s ≡ some (text_of s)
unfolding copied copy_str text_of
copied-some n none h = refl
copied-some n (some s) h = ground arith

copied-none : (n : ℕ) (s : Option (List ℕ)) → 0 < n → n ≤ length (text_of s) → copied n s ≡ none
unfolding copied copy_str text_of
copied-none n none pos h = absurd (omega arith)
copied-none n (some s) pos h = ground arith

room_cases : (n : ℕ) (s : Option (List ℕ)) → (length (text_of s) < n) ⊎ (n ≤ length (text_of s))
room_cases n s = elim (Bool-cases (leb n (length (text_of s)))) [
  | inl e ↦ inr (ground arith)
  | inr e ↦ inl (ground arith)
]

-- The strings of an entry fit their fields, the NUL included.
abbrev pub HasRoom : GoapAction → Type 0
HasRoom a =
    (length a.id < name_max)
    × (length a.name < name_max)
    × (length a.cost < source_max)
    × (length a.exec < source_max)
    × (length a.dest < name_max)

abbrev pub HasGoalRoom : GoapGoal → Type 0
HasGoalRoom g =
    (length g.id < name_max)
    × (length g.name < name_max)
    × (length g.expr < source_max)
    × (length g.curve_id < name_max)

abbrev pub HasUtilityRoom : GoapUtility → Type 0
HasUtilityRoom u = (length u.id < name_max) × (length u.name < name_max) × (length u.dim < name_max)

abbrev pub HasMissionRoom : GoapMission → Type 0
HasMissionRoom m =
    (length m.id < name_max) × (length m.name < name_max) × (length m.note < note_max)

-- The entry that a definition asks for.
unfoldable pub action_of : GoapActionDef → GoapAction
action_of d = record {
  id = text_of d.id;
  name = text_of d.name;
  cost = text_of d.cost;
  exec = text_of d.exec;
  dest = text_of d.dest;
  dur = d.dur;
  pre = d.pre;
  eff = d.eff;
}

module _ (g : FleeceGoap) where
  pub add_action-some :
      (a : GoapAction)
      → HasRoom a
      → add_action g (action_def a) ≡ some (record g { actions = g.actions ++ a ∷ [] })
  unfolding add_action text_of
  add_action-some a (p0, p1, p2, p3, p4) =
      rw
        (
          copied-some _ (some a.id) p0,
          copied-some _ (some a.name) p1,
          copied-some _ (some a.cost) p2,
          copied-some _ (some a.exec) p3,
          copied-some _ (some a.dest) p4,
        )
        refl

  pub add_goal-some :
      (x : GoapGoal)
      → HasGoalRoom x
      → add_goal g (goal_def x) ≡ some (record g { goals = g.goals ++ x ∷ [] })
  unfolding add_goal text_of
  add_goal-some x (p0, p1, p2, p3) =
      rw
        (
          copied-some _ (some x.id) p0,
          copied-some _ (some x.name) p1,
          copied-some _ (some x.expr) p2,
          copied-some _ (some x.curve_id) p3,
        )
        refl

  pub add_utility-some :
      (u : GoapUtility)
      → HasUtilityRoom u
      → add_utility g (utility_def u)
        ≡ some (record g { utilities = g.utilities ++ sorted_curve u ∷ [] })
  unfolding add_utility text_of
  add_utility-some u (p0, p1, p2) =
      rw
        (
          copied-some _ (some u.id) p0,
          copied-some _ (some u.name) p1,
          copied-some _ (some u.dim) p2,
        )
        refl

  pub add_mission-some :
      (m : GoapMission)
      → HasMissionRoom m
      → add_mission g (mission_def m) ≡ some (record g { missions = g.missions ++ m ∷ [] })
  unfolding add_mission text_of
  add_mission-some m (p0, p1, p2) =
      rw
        (
          copied-some _ (some m.id) p0,
          copied-some _ (some m.name) p1,
          copied-some _ (some m.note) p2,
        )
        refl

  -- Registering an action either appends the entry that its definition asks for to the table, the id
  -- not being NULL and the five strings all shorter than their fields, or fails and gives no planner,
  -- the id being NULL or one of the strings too long; a NULL string other than the id counts as empty.
  pub add_action_cases :
      (d : GoapActionDef)
      → ((add_action g d ≡ some (record g { actions = g.actions ++ action_of d ∷ [] }))
          × (¬ (d.id ≡ none))
          × HasRoom (action_of d))
        ⊎ ((add_action g d ≡ none) × ((d.id ≡ none) ⊎ (¬ HasRoom (action_of d))))
  unfolding add_action action_of
  add_action_cases d = elim (Option-cases d.id) [
    | inl e ↦ inr (rw e refl, inl e)
    | inr (id, e) ↦ rw e (elim (room_cases name_max (some id)) [
      | inr q ↦
          inr (rw (copied-none _ (some id) (omega arith) q) refl, inr (λ r. omega (arith, r.0)))
      | inl p0 ↦ rw (copied-some _ (some id) p0) (elim (room_cases name_max d.name) [
        | inr q ↦
            inr (rw (copied-none _ d.name (omega arith) q) refl, inr (λ r. omega (arith, r.1)))
        | inl p1 ↦ rw (copied-some _ d.name p1) (elim (room_cases source_max d.cost) [
          | inr q ↦
              inr (rw (copied-none _ d.cost (omega arith) q) refl, inr (λ r. omega (arith, r.2)))
          | inl p2 ↦ rw (copied-some _ d.cost p2) (elim (room_cases source_max d.exec) [
            | inr q ↦
                inr (rw (copied-none _ d.exec (omega arith) q) refl, inr (λ r. omega (arith, r.3)))
            | inl p3 ↦ rw (copied-some _ d.exec p3) (elim (room_cases name_max d.dest) [
              | inr q ↦
                  inr
                    (rw (copied-none _ d.dest (omega arith) q) refl, inr (λ r. omega (arith, r.4)))
              | inl p4 ↦ rw (copied-some _ d.dest p4) (inl (refl, (λ h. cc), (p0, p1, p2, p3, p4)))
            ])
          ])
        ])
      ])
    ])
  ]
