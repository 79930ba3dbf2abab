-- ===== src/Planner/Blackboard.antt =====
-- The blackboard of src/planner/fleece_planner.c and the key of a search state. Allocations are
-- taken to succeed.
pub mod Laws
pub mod KeyOrder
use fleece.Prelude.{
  ℕ, zero, suc, ◌+◌, List, [], ◌∷◌, ◌++◌, Bool, true, false, Option, none, some, length, set,
  get_elem?, bytes_eq, leb, if◌then◌else◌,
}
use Prim.Native.Nat.{compare, Ordering}
use fleece.Prelude.Maybe.{◌>>=◌}
use fleece.Planner.{name_max}
use fleece.Planner.Sorting.{insertion_sort}

-- FleeceGoapField: `size` is the length of `bytes`.
pub record GoapField : Type 0 where
  pub name : List ℕ
  pub bytes : List ℕ
  pub is_shared : Bool

-- FleeceGoapBlackboard: `count` is the length of the list.
abbrev pub Blackboard : Type 0
Blackboard = List GoapField

-- fleece_goap_bb_index, counted from `i`; UINT32_MAX is `none`
unfoldable pub index_from : ℕ → Blackboard → List ℕ → Option ℕ
index_from i [] name = none
index_from i (f ∷ fs) name =
    let rest = index_from (suc i) fs name in if bytes_eq f.name name then some i else rest

unfoldable pub bb_index : Blackboard → List ℕ → Option ℕ
unfolding index_from
bb_index bb name = index_from 0 bb name

-- fleece_goap_bb_get
unfoldable pub bb_get : Blackboard → List ℕ → Option (List ℕ)
unfolding bb_index
bb_get bb name = bb_index bb name >>= λ idx. get_elem? bb idx >>= λ f. some f.bytes

-- fleece_goap_bb_set: `none` is -1, which leaves the blackboard as it was.
unfoldable pub bb_set : Blackboard → List ℕ → List ℕ → Bool → Option Blackboard
unfolding bb_index
bb_set bb name [] is_shared = none
bb_set bb name (b ∷ bs) is_shared =
    let field_of : GoapField = record { name = name; bytes = b ∷ bs; is_shared = is_shared } in
    elim (bb_index bb name) [
      | none ↦ if leb name_max (length name) then none else some (bb ++ field_of ∷ [])
      | some idx ↦ some (set bb idx field_of)
    ]

-- for (uint32_t i = idx; i + 1 < bb->count; i++) bb->fields[i] = bb->fields[i + 1];
unfoldable pub remove_at : ℕ → Blackboard → Blackboard
remove_at i [] = []
remove_at zero (f ∷ fs) = fs
remove_at (suc i) (f ∷ fs) = f ∷ remove_at i fs

-- fleece_goap_bb_delete
unfoldable pub bb_delete : Blackboard → List ℕ → Blackboard
unfolding bb_index remove_at
bb_delete bb name = elim (bb_index bb name) [ none ↦ bb | some idx ↦ remove_at idx bb ]

-- fleece_goap_bb_clone, onto the fields that have been copied so far
unfoldable pub clone_onto : Blackboard → Blackboard → Option Blackboard
unfolding bb_set
clone_onto dst [] = some dst
clone_onto dst (f ∷ fs) = bb_set dst f.name f.bytes f.is_shared >>= λ dst'. clone_onto dst' fs

unfoldable pub bb_clone : Blackboard → Option Blackboard
unfolding clone_onto
bb_clone src = clone_onto [] src

-- strcmp(a, b) > 0
unfoldable pub str_gt : List ℕ → List ℕ → Bool
str_gt [] bs = false
str_gt (c ∷ cs) [] = true
str_gt (c ∷ cs) (b ∷ bs) =
    let rest = str_gt cs bs in
    elim (compare c b) [ Ordering.lt ↦ false | Ordering.eq ↦ rest | Ordering.gt ↦ true ]

unfoldable pub name_after : GoapField → GoapField → Bool
unfolding str_gt
name_after f key = str_gt f.name key.name

-- One field of a state key: `s:` or `w:`, the name, 0x1f and the data.
unfoldable pub key_part : GoapField → List ℕ
key_part f = (if f.is_shared then 119 else 115) ∷ 58 ∷ f.name ++ 0x1f ∷ f.bytes

unfoldable pub key_parts : Blackboard → List ℕ
unfolding key_part
key_parts [] = []
key_parts (f ∷ fs) = key_part f ++ key_parts fs

-- make_state_key
unfoldable pub make_state_key : Blackboard → List ℕ
unfolding key_parts name_after insertion_sort
make_state_key bb = key_parts (insertion_sort name_after bb)
