-- ===== src/Platform/Laws.antt =====
-- The registry of src/platform/fleece_platform.c as a map from names to handlers.
use fleece.Prelude.{
  ℕ, zero, suc, ◌-◌, ◌≡◌, ◌<◌, refl, true, false, ◌&&◌, Option, none, some, List, [], ◌∷◌,
  if◌then◌else◌, length, set, take_of_length-le, bytes_eq, bytes_eq→eq, arith, inl, inr,
  Option-cases, Bool-cases,
}
use mathlib.Core.Path.{subst, ◌∙◌}
use fleece.State.{ok}
use fleece.Platform.{
  Function, function_name_max, find_function, free_index, function_index, register, resolve,
}

module _ {H : Type 0} where
  -- The handler of the first element of that name.
  unfoldable handler_at : List (Function H) → List ℕ → Option H
  handler_at [] name = none
  handler_at (f ∷ fs) name =
      let rest = handler_at fs name in if f.exists && bytes_eq f.name name then f.handler else rest

  resolve_lem : (fs : List (Function H)) (name : List ℕ) → resolve fs name ≡ handler_at fs name
  unfolding resolve find_function handler_at
  resolve_lem [] name = refl
  resolve_lem (f ∷ fs) name = elim (Bool-cases (f.exists && bytes_eq f.name name)) [
    | inl e ↦ ground arith
    | inr e ↦ elim (Option-cases (find_function fs name)) [
      | inl n ↦ ground (arith, resolve_lem fs name)
      | inr (i, n) ↦ ground (arith, resolve_lem fs name)
    ]
  ]

  module _ (name : List ℕ) (handler : H) where
    abbrev entry : Function H
    entry = record { name = name; handler = some handler; exists = true }

    -- An element of the name matches another name as the name itself does.
    matches_as :
        (f : Function H) (other : List ℕ)
        → bytes_eq f.name name ≡ true
        → bytes_eq f.name other ≡ bytes_eq name other
    matches_as f other e = rw (bytes_eq→eq f.name name e) refl

    differs_from :
        (f : Function H) (other : List ℕ)
        → bytes_eq f.name name ≡ false
        → bytes_eq name other ≡ true
        → bytes_eq f.name other ≡ false
    differs_from f other e q = subst (λ n. bytes_eq f.name n ≡ false) (bytes_eq→eq name other q) e

    handler_at-replaced :
        (fs : List (Function H)) (i : ℕ) (other : List ℕ)
        → find_function fs name ≡ some i
        → handler_at (set fs i entry) other
          ≡ (if bytes_eq name other then some handler else handler_at fs other)
    unfolding find_function handler_at
    handler_at-replaced [] i other h = cc
    handler_at-replaced (f ∷ fs) zero other h = ground (arith, matches_as f other)
    handler_at-replaced (f ∷ fs) (suc i) other h =
        ground (arith, differs_from f other, handler_at-replaced fs i other)

    handler_at-added :
        (fs : List (Function H)) (i : ℕ) (other : List ℕ)
        → find_function fs name ≡ none
        → free_index fs ≡ some i
        → handler_at (set fs i entry) other
          ≡ (if bytes_eq name other then some handler else handler_at fs other)
    unfolding find_function handler_at free_index
    handler_at-added [] i other h e = cc
    handler_at-added (f ∷ fs) zero other h e = ground arith
    handler_at-added (f ∷ fs) (suc i) other h e =
        ground (arith, differs_from f other, handler_at-added fs i other)

  -- Where fleece_platform_register accepts a name of less than 32 bytes, calls of that name get the
  -- handler, and calls of every other name what they got before.
  pub resolve-register :
      (fs : List (Function H)) (name : List ℕ) (handler : H) (other : List ℕ)
      → length name < function_name_max
      → (register fs name handler).1 ≡ ok
      → resolve (register fs name handler).0 other
        ≡ (if bytes_eq name other then some handler else resolve fs other)
  unfolding register function_index
  resolve-register fs [] handler other lt h = cc
  resolve-register fs (c ∷ cs) handler other lt h =
      let whole = take_of_length-le (function_name_max - 1) (c ∷ cs) (omega arith) in
      rw (resolve_lem fs other) (elim (Option-cases (find_function fs (c ∷ cs))) [
        | inr (i, e) ↦
            rw (e, register)
              (rw (whole) (
                resolve_lem (set fs i (entry (c ∷ cs) handler)) other
                ∙ handler_at-replaced (c ∷ cs) handler fs i other e))
        | inl n ↦ elim (Option-cases (free_index fs)) [
          | inl e ↦ absurd (ground arith)
          | inr (i, e) ↦
              rw (n, e, register)
                (rw (whole) (
                  resolve_lem (set fs i (entry (c ∷ cs) handler)) other
                  ∙ handler_at-added (c ∷ cs) handler fs i other n e))
        ]
      ])
