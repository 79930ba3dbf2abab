-- ===== src/Planner/Wire/Decode.antt =====
-- fleece_goap_deserialize of src/planner/fleece_planner.c: the readers of a plan blob, and the loading
-- of the tables. A reader returns the bytes that it leaves.
use fleece.Prelude.{
  c_string, ℕ, zero, suc, ◌-◌, List, [], ◌∷◌, Bool, true, false, ◌&&◌, Option, none, some, length,
  ltb, ◌==◌, if◌then◌else◌, take, drop,
}
use fleece.Prelude.Maybe.{◌>>=◌}
use fleece.Cbor.{read_head, read_num, bounds_ok}
use fleece.Planner.{FleeceGoap, GoapAction, GoapGoal, GoapPoint, GoapUtility, GoapMission, name_max}
use fleece.Planner.Tables.{
  reset, add_action, add_goal, add_utility, add_mission, action_def, goal_def, utility_def,
  mission_def,
}

-- A text item of which `most` bytes are kept, up to the first NUL; the bounds are those of the bytes
-- that are left.
unfoldable pub read_text_upto : (ℕ → ℕ) → List ℕ → Option (List ℕ × List ℕ)
read_text_upto most bs = read_head bs >>= λ (major, value, rest).
    if major == 3 && bounds_ok 0 value (length rest)
    then some (c_string (take (most value) rest), drop value rest)
    else none

-- read_text, into a buffer of `out_max` bytes
unfoldable pub read_text : ℕ → List ℕ → Option (List ℕ × List ℕ)
unfolding read_text_upto
read_text out_max bs =
    read_text_upto (λ value. if ltb value (out_max - 1) then value else out_max - 1) bs

-- read_text_dyn
unfoldable pub read_text_dyn : List ℕ → Option (List ℕ × List ℕ)
unfolding read_text_upto
read_text_dyn bs = read_text_upto (λ value. value) bs

-- fleece_cbor_read_head(...) || major != 4
unfoldable pub read_array : List ℕ → Option (ℕ × List ℕ)
read_array bs =
    read_head bs >>= λ (major, value, rest). if major == 4 then some (value, rest) else none

-- ... || value != n
unfoldable pub expect_items : ℕ → List ℕ → Option (List ℕ)
unfolding read_array
expect_items n bs = read_array bs >>= λ (value, rest). if value == n then some rest else none

-- `n` items one after the other
unfoldable pub read_all :
    {A : Type 0} → (List ℕ → Option (A × List ℕ)) → ℕ → List ℕ → Option (List A × List ℕ)
read_all read zero bs = some ([], bs)
read_all read (suc n) bs =
    read bs >>= λ (x, rest). read_all read n rest >>= λ (xs, rest'). some (x ∷ xs, rest')

-- A count and as many items.
unfoldable pub read_table :
    {A : Type 0} → (List ℕ → Option (A × List ℕ)) → List ℕ → Option (List A × List ℕ)
unfolding read_array read_all
read_table read bs = read_array bs >>= λ (n, rest). read_all read n rest

-- One action, goal, point, curve or mission of fleece_goap_deserialize.
unfoldable pub read_action : List ℕ → Option (GoapAction × List ℕ)
unfolding expect_items read_text_dyn read_table
read_action bs = expect_items 8 bs >>= λ r0. read_text_dyn r0 >>= λ (id, r1).
    read_text_dyn r1 >>= λ (name, r2). read_text_dyn r2 >>= λ (cost, r3).
    read_text_dyn r3 >>= λ (dest, r4). read_num r4 >>= λ (dur, r5).
    read_text_dyn r5 >>= λ (exec, r6). read_table read_text_dyn r6 >>= λ (pre, r7).
    read_table read_text_dyn r7 >>= λ (eff, r8). some (
      record {
        id = id;
        name = name;
        cost = cost;
        exec = exec;
        dest = dest;
        dur = dur;
        pre = pre;
        eff = eff;
      },
      r8,
    )

unfoldable pub read_goal : List ℕ → Option (GoapGoal × List ℕ)
unfolding expect_items read_text_dyn
read_goal bs = expect_items 5 bs >>= λ r0. read_text_dyn r0 >>= λ (id, r1).
    read_text_dyn r1 >>= λ (name, r2). read_text_dyn r2 >>= λ (expr, r3).
    read_num r3 >>= λ (priority, r4). read_text_dyn r4 >>= λ (curve_id, r5).
    some
      (record { id = id; name = name; expr = expr; priority = priority; curve_id = curve_id }, r5)

unfoldable pub read_point : List ℕ → Option (GoapPoint × List ℕ)
unfolding expect_items
read_point bs = expect_items 2 bs >>= λ r0.
    read_num r0 >>= λ (x, r1). read_num r1 >>= λ (y, r2). some (record { x = x; y = y }, r2)

unfoldable pub read_utility : List ℕ → Option (GoapUtility × List ℕ)
unfolding expect_items read_text_dyn read_table read_point
read_utility bs = expect_items 7 bs >>= λ r0. read_text_dyn r0 >>= λ (id, r1).
    read_text_dyn r1 >>= λ (name, r2). read_text_dyn r2 >>= λ (dim, r3).
    read_num r3 >>= λ (x_min, r4). read_num r4 >>= λ (x_max, r5).
    read_table read_point r5 >>= λ (points, r6).
    some (
      record { id = id; name = name; dim = dim; x_min = x_min; x_max = x_max; points = points },
      r6,
    )

unfoldable pub read_mission : List ℕ → Option (GoapMission × List ℕ)
unfolding expect_items read_text_dyn read_table
read_mission bs = expect_items 4 bs >>= λ r0. read_text_dyn r0 >>= λ (id, r1).
    read_text_dyn r1 >>= λ (name, r2). read_table read_text_dyn r2 >>= λ (goal_ids, r3).
    read_text_dyn r3 >>= λ (note, r4).
    some (record { id = id; name = name; goal_ids = goal_ids; note = note }, r4)

-- Where the decoding stands: the planner so far, and the bytes left or a failure.
abbrev pub Load : Type 0
Load = FleeceGoap × Option (List ℕ)

-- The loop over one table: it reads an item, registers it, and stops at the first failure.
unfoldable pub load_items :
    {A : Type 0}
    → (List ℕ → Option (A × List ℕ))
    → (FleeceGoap → A → Option FleeceGoap)
    → ℕ
    → FleeceGoap
    → List ℕ
    → Load
load_items read add zero g bs = (g, some bs)
load_items read add (suc n) g bs = elim (read bs) [
  | none ↦ (g, none)
  | some (x, rest) ↦ elim (add g x) [ none ↦ (g, none) | some g' ↦ load_items read add n g' rest ]
]

-- A table after what has been decoded before it.
unfoldable pub load_table :
    {A : Type 0}
    → (List ℕ → Option (A × List ℕ))
    → (FleeceGoap → A → Option FleeceGoap)
    → Load
    → Load
unfolding load_items read_array
load_table read add (g, none) = (g, none)
load_table read add (g, some bs) = elim (read_array bs) [
  | none ↦ (g, none)
  | some (n, rest) ↦ load_items read add n g rest
]

-- The registration of an entry that has been read.
abbrev pub register_action : FleeceGoap → GoapAction → Option FleeceGoap
register_action g a = add_action g (action_def a)

abbrev pub register_goal : FleeceGoap → GoapGoal → Option FleeceGoap
register_goal g x = add_goal g (goal_def x)

abbrev pub register_utility : FleeceGoap → GoapUtility → Option FleeceGoap
register_utility g u = add_utility g (utility_def u)

abbrev pub register_mission : FleeceGoap → GoapMission → Option FleeceGoap
register_mission g m = add_mission g (mission_def m)

-- The name, which is kept cut to its field.
unfoldable pub load_name : FleeceGoap → List ℕ → Load
unfolding read_text
load_name g bs = elim (read_text name_max bs) [
  | none ↦ (g, none)
  | some (name, rest) ↦ (record g { name = name }, some rest)
]

unfoldable pub load_body : FleeceGoap → List ℕ → Load
unfolding load_name load_table
load_body g bs =
    let l0 = load_name g bs in
    let l1 = load_table read_action register_action l0 in
    let l2 = load_table read_goal register_goal l1 in
    let l3 = load_table read_utility register_utility l2 in
    load_table read_mission register_mission l3

-- Whether a decoding has come to its end.
unfoldable pub loaded : Load → FleeceGoap × Bool
loaded (g, none) = (g, false)
loaded (g, some bs) = (g, true)

-- What follows the prefix, where the blob has it.
unfoldable pub blob_body : List ℕ → Option (List ℕ)
blob_body (m0 ∷ m1 ∷ version ∷ body) =
    if m0 == 70 && m1 == 80 && version == 2 then some body else none
blob_body _ = none

-- fleece_goap_deserialize: a blob with another prefix or another first head leaves the planner as it
-- was; after that its tables are cleared first.
unfoldable pub deserialize : FleeceGoap → List ℕ → FleeceGoap × Bool
unfolding blob_body expect_items load_body loaded
deserialize g blob = elim (blob_body blob >>= λ body. expect_items 5 body) [
  | none ↦ (g, false)
  | some rest ↦ loaded (load_body (reset g) rest)
]
