-- ===== src/Core/JsonDepth.antt =====
-- `validate_json_depth` of actenon/core/json.py: a loop over a stack.
pub mod Bound
mod Tests
use actenon_kernel.Prelude.{
  Bool, List, Option, [], false, if◌then◌else◌, ltb, none, some, suc, true, zero, ℕ, ◌+◌, ◌∷◌,
}
use actenon_kernel.Json.{Fields, Items, Json, arr, cons, end, field, nil, obj}

abbrev pub Stack : Type 0
Stack = List (Json × ℕ)

-- `stack.extend(...)` over the children in their order: the last one is on top
abbrev pub extend_items : Items → ℕ → Stack → Stack
extend_items nil depth stack = stack
extend_items (cons x xs) depth stack = extend_items xs depth ((x, depth) ∷ stack)

abbrev pub extend_values : Fields → ℕ → Stack → Stack
extend_values end depth stack = stack
extend_values (field k x xs) depth stack = extend_values xs depth ((x, depth) ∷ stack)

abbrev pub extend : Json → ℕ → Stack → Stack
extend (arr xs) depth stack = extend_items xs depth stack
extend (obj xs) depth stack = extend_values xs depth stack
extend _ depth stack = stack

-- The while loop: whether it ends without an error. None is a loop that runs out of rounds.
unfoldable pub validate_loop : ℕ → ℕ → Stack → Option Bool
validate_loop rounds max_depth [] = some true
validate_loop zero max_depth ((item, depth) ∷ stack) = none
validate_loop (suc rounds) max_depth ((item, depth) ∷ stack) =
    let rest = validate_loop rounds max_depth (extend item (suc depth) stack) in
    if ltb max_depth depth then some false else rest

-- the values in a document, itself included
unfoldable mutual
  pub size : Json → ℕ
  size (arr xs) = suc (size_items xs)
  size (obj xs) = suc (size_fields xs)
  size _ = 1

  pub size_items : Items → ℕ
  size_items nil = 0
  size_items (cons x xs) = size x + size_items xs

  pub size_fields : Fields → ℕ
  size_fields end = 0
  size_fields (field k x xs) = size x + size_fields xs

-- Whether `validate_json_depth(value, max_depth=max_depth)` returns: with a limit of 0 it raises
-- ValueError, and a document that is too deep raises JSONNestingDepthError.
unfoldable pub validate_json_depth : ℕ → Json → Option Bool
unfolding validate_loop
validate_json_depth zero value = some false
validate_json_depth (suc n) value = validate_loop (size value) (suc n) ((value, 1) ∷ [])
