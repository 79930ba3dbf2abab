-- ===== src/State/Lists.antt =====
-- fleece_state_manager_list_nodes and list_fields.
use fleece.Prelude.{
  ℕ, ◌-◌, Bool, false, not, ◌||◌, List, [], ◌∷◌, ◌++◌, ◌==◌, if◌then◌else◌, leb, length, take,
}
use fleece.State.{StateManager, FieldEntry, shared_owner_id, field_name_max}
use fleece.State.Digest.{live_in_stream}

unfoldable pub listed : List ℕ → ℕ → Bool
listed [] id = false
listed (x ∷ xs) id = x == id || listed xs id

-- The loop of list_nodes, with the ids listed so far.
unfoldable pub nodes_loop : ℕ → List FieldEntry → List ℕ → List ℕ
nodes_loop max_nodes [] out = out
nodes_loop max_nodes (f ∷ fs) out = nodes_loop max_nodes fs (
    if leb max_nodes (length out)
      || (not f.exists
          || (f.is_tombstone || (f.node_id == shared_owner_id || listed out f.node_id)))
    then out
    else out ++ (f.node_id ∷ []))

-- fleece_state_manager_list_nodes
unfoldable pub list_nodes : StateManager → ℕ → List ℕ
list_nodes m max_nodes = nodes_loop max_nodes m.fields []

unfoldable pub fields_loop : ℕ → ℕ → List FieldEntry → List (List ℕ) → List (List ℕ)
fields_loop owner max_names [] out = out
fields_loop owner max_names (f ∷ fs) out = fields_loop owner max_names fs (
    if leb max_names (length out) || not (live_in_stream owner f)
    then out
    else out ++ (take (field_name_max - 1) f.name ∷ []))

-- fleece_state_manager_list_fields
unfoldable pub list_fields : StateManager → ℕ → ℕ → List (List ℕ)
list_fields m owner max_names = fields_loop owner max_names m.fields []
