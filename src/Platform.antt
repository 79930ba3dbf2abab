-- ===== src/Platform.antt =====
-- src/platform/fleece_platform.c: the registry of functions that scripts can call by name. A function
-- and its user data are one handler, of a type that the registry knows nothing of; a C string is the
-- list of its bytes before the NUL.
pub mod Laws
use fleece.Prelude.{
  ℕ, zero, suc, ◌+◌, ◌-◌, Bool, true, false, not, ◌&&◌, ◌||◌, Option, none, some, List, [], ◌∷◌,
  ◌++◌, if◌then◌else◌, leb, length, get_or, set, take, replicate, bytes_eq,
}
use mathlib.Core.Option
use fleece.State.{Code, ok, failed}
use fleece.State.Fields.{is_empty}

-- FLEECE_PLATFORM_FUNCTION_NAME_MAX and FLEECE_PLATFORM_MAX_FUNCTIONS
abbrev pub function_name_max : ℕ
function_name_max = 32

abbrev pub max_functions : ℕ
max_functions = 32

-- One element of `functions`; the handler is NULL where none was registered or it was removed.
pub record Function (H : Type 0) : Type 0 where
  pub name : List ℕ
  pub handler : Option H
  pub exists : Bool

module _ {H : Type 0} where
  abbrev pub free_function : Function H
  free_function = record { name = []; handler = none; exists = false }

  -- fleece_platform_create, where the allocation succeeds
  unfoldable pub create_platform : List (Function H)
  create_platform = replicate max_functions free_function

  -- find_slot
  unfoldable pub find_function : List (Function H) → List ℕ → Option ℕ
  find_function [] name = none
  find_function (f ∷ fs) name =
      let rest = find_function fs name in
      if f.exists && bytes_eq f.name name then some 0 else Option.map suc rest

  -- The loop of fleece_platform_register: the first free element.
  unfoldable pub free_index : List (Function H) → Option ℕ
  free_index [] = none
  free_index (f ∷ fs) =
      let rest = free_index fs in if not f.exists then some 0 else Option.map suc rest

  unfoldable pub function_index : List (Function H) → List ℕ → Option ℕ
  function_index fs name = elim (find_function fs name) [ some i ↦ some i | none ↦ free_index fs ]

  -- fleece_platform_register
  unfoldable pub register : List (Function H) → List ℕ → H → List (Function H) × Code
  register fs name handler = if is_empty name then (fs, failed) else elim (function_index fs name) [
    | none ↦ (fs, failed)
    | some i ↦ (
      set fs i (record {
        name = take (function_name_max - 1) name;
        handler = some handler;
        exists = true;
      }),
      ok,
    )
  ]

  -- fleece_platform_unregister
  unfoldable pub unregister : List (Function H) → List ℕ → List (Function H) × Code
  unregister fs name = elim (find_function fs name) [
    | none ↦ (fs, failed)
    | some i ↦
        (set fs i (record (get_or fs i free_function) { handler = none; exists = false }), ok)
  ]

  -- fleece_platform_has_function
  unfoldable pub has_function : List (Function H) → List ℕ → Bool
  has_function fs name = elim (find_function fs name) [ none ↦ false | some i ↦ true ]

  -- The function that fleece_platform_call calls; what it does is up to the host.
  unfoldable pub resolve : List (Function H) → List ℕ → Option H
  resolve fs name = elim (find_function fs name) [
    | none ↦ none
    | some i ↦ (get_or fs i free_function).handler
  ]

  -- The loop of fleece_platform_list_functions, with the names listed so far.
  unfoldable pub functions_loop : ℕ → List (Function H) → List (List ℕ) → List (List ℕ)
  functions_loop max_names [] out = out
  functions_loop max_names (f ∷ fs) out = functions_loop max_names fs (
      if leb max_names (length out) || not f.exists
      then out
      else out ++ (take (function_name_max - 1) f.name ∷ []))

  -- fleece_platform_list_functions
  unfoldable pub list_functions : List (Function H) → ℕ → List (List ℕ)
  list_functions fs max_names = functions_loop max_names fs []
