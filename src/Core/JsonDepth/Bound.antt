-- ===== src/Core/JsonDepth/Bound.antt =====
-- The loop of `validate_json_depth` (actenon/core/json.py), and nesting depth by recursion.
use actenon_kernel.Prelude.{
  Bool, Bool-cases, [], all, ap, arith, if◌then◌else◌, inl, inr, leb, ltb, nat_eq, not, refl, some,
  string_eq, suc, zero, ℕ, ◌&&◌, ◌+◌, ◌==◌, ◌∙◌, ◌∷◌, ◌≡◌, ◌≤◌,
}
use actenon_kernel.Json.{
  Fields, Items, Json, arr, bool, cons, end, field, float, int, nil, null, obj, str,
}
use actenon_kernel.Core.JsonDepth.{
  Stack, extend, extend_items, extend_values, size, size_fields, size_items, validate_json_depth,
  validate_loop,
}

-- the nesting depth: 1 for a scalar, and one more than the deepest child for the others
abbrev pub larger : ℕ → ℕ → ℕ
larger a b = if ltb a b then b else a

unfoldable mutual
  pub depth_of : Json → ℕ
  depth_of (arr xs) = suc (depth_items xs)
  depth_of (obj xs) = suc (depth_fields xs)
  depth_of _ = 1

  pub depth_items : Items → ℕ
  depth_items nil = 0
  depth_items (cons x xs) = larger (depth_of x) (depth_items xs)

  pub depth_fields : Fields → ℕ
  depth_fields end = 0
  depth_fields (field k x xs) = larger (depth_of x) (depth_fields xs)

-- an entry of the stack whose value stays within the limit
abbrev fits : ℕ → Json × ℕ → Bool
fits max_depth (x, depth) = leb (depth + depth_of x) (suc max_depth)

total : Stack → ℕ
total [] = 0
total ((x, depth) ∷ stack) = size x + total stack

total-extend_items :
    (xs : Items) (depth : ℕ) (stack : Stack)
    → total (extend_items xs depth stack) ≡ size_items xs + total stack
unfolding total size
total-extend_items nil depth stack = omega arith
total-extend_items (cons x xs) depth stack =
    omega (arith, total-extend_items xs depth ((x, depth) ∷ stack))

total-extend_values :
    (xs : Fields) (depth : ℕ) (stack : Stack)
    → total (extend_values xs depth stack) ≡ size_fields xs + total stack
unfolding total size
total-extend_values end depth stack = omega arith
total-extend_values (field k x xs) depth stack =
    omega (arith, total-extend_values xs depth ((x, depth) ∷ stack))

total-extend :
    (x : Json) (depth : ℕ) (stack : Stack)
    → suc (total (extend x depth stack)) ≡ size x + total stack
unfolding size
total-extend (arr xs) depth stack = omega (arith, total-extend_items xs depth stack)
total-extend (obj xs) depth stack = omega (arith, total-extend_values xs depth stack)
total-extend null depth stack = omega arith
total-extend (bool b) depth stack = omega arith
total-extend (int n) depth stack = omega arith
total-extend (float s) depth stack = omega arith
total-extend (str s) depth stack = omega arith

-- the deeper of two children
fits_larger :
    (depth a b limit : ℕ) (rest : Bool)
    → (leb (depth + b) limit && (leb (depth + a) limit && rest))
      ≡ (leb (depth + larger a b) limit && rest)
fits_larger depth a b limit rest = ground arith

fits_scalar :
    (depth limit : ℕ) (rest : Bool) → depth ≤ limit → rest ≡ (leb (depth + 1) (suc limit) && rest)
fits_scalar depth limit rest h = ground arith

fits_nothing :
    (depth limit : ℕ) (rest : Bool) → depth ≤ limit → rest ≡ (leb (depth + 0) limit && rest)
fits_nothing depth limit rest h = ground arith

fits_deeper :
    (depth a limit : ℕ) (rest : Bool)
    → (leb (suc depth + a) limit && rest) ≡ (leb (depth + suc a) limit && rest)
fits_deeper depth a limit rest = ground arith

module _ (max_depth : ℕ) where
  fits-items :
      (xs : Items) (depth : ℕ) (stack : Stack)
      → depth ≤ suc max_depth
      → all (fits max_depth) (extend_items xs depth stack)
        ≡ (leb (depth + depth_items xs) (suc max_depth) && all (fits max_depth) stack)
  unfolding depth_of
  fits-items nil depth stack h = fits_nothing depth (suc max_depth) (all (fits max_depth) stack) h
  fits-items (cons x xs) depth stack h =
      fits-items xs depth ((x, depth) ∷ stack) h
      ∙ fits_larger depth (depth_of x) (depth_items xs) (suc max_depth) (all (fits max_depth) stack)

  fits-values :
      (xs : Fields) (depth : ℕ) (stack : Stack)
      → depth ≤ suc max_depth
      → all (fits max_depth) (extend_values xs depth stack)
        ≡ (leb (depth + depth_fields xs) (suc max_depth) && all (fits max_depth) stack)
  unfolding depth_of
  fits-values end depth stack h = fits_nothing depth (suc max_depth) (all (fits max_depth) stack) h
  fits-values (field k x xs) depth stack h =
      fits-values xs depth ((x, depth) ∷ stack) h
      ∙ fits_larger depth (depth_of x) (depth_fields xs) (suc max_depth)
          (all (fits max_depth) stack)

  fits-extend :
      (x : Json) (depth : ℕ) (stack : Stack)
      → depth ≤ max_depth
      → all (fits max_depth) (extend x (suc depth) stack)
        ≡ (fits max_depth (x, depth) && all (fits max_depth) stack)
  unfolding depth_of
  fits-extend (arr xs) depth stack h =
      fits-items xs (suc depth) stack (omega arith)
      ∙ fits_deeper depth (depth_items xs) (suc max_depth) (all (fits max_depth) stack)
  fits-extend (obj xs) depth stack h =
      fits-values xs (suc depth) stack (omega arith)
      ∙ fits_deeper depth (depth_fields xs) (suc max_depth) (all (fits max_depth) stack)
  fits-extend null depth stack h = fits_scalar depth max_depth (all (fits max_depth) stack) h
  fits-extend (bool b) depth stack h = fits_scalar depth max_depth (all (fits max_depth) stack) h
  fits-extend (int n) depth stack h = fits_scalar depth max_depth (all (fits max_depth) stack) h
  fits-extend (float s) depth stack h = fits_scalar depth max_depth (all (fits max_depth) stack) h
  fits-extend (str s) depth stack h = fits_scalar depth max_depth (all (fits max_depth) stack) h

positive_depth : (x : Json) → 1 ≤ depth_of x
unfolding depth_of
positive_depth (arr xs) = omega arith
positive_depth (obj xs) = omega arith
positive_depth null = omega arith
positive_depth (bool b) = omega arith
positive_depth (int n) = omega arith
positive_depth (float s) = omega arith
positive_depth (str s) = omega arith

validate_loop_lem :
    (rounds max_depth : ℕ) (stack : Stack)
    → total stack ≤ rounds
    → validate_loop rounds max_depth stack ≡ some (all (fits max_depth) stack)
unfolding validate_loop total
validate_loop_lem rounds max_depth [] h = refl
validate_loop_lem zero max_depth ((x, depth) ∷ stack) h = ground (arith, total-extend x depth stack)
validate_loop_lem (suc rounds) max_depth ((x, depth) ∷ stack) h =
    elim (Bool-cases (ltb max_depth depth)) [
      | inl deep ↦ rw deep (ground (arith, positive_depth x))
      | inr within ↦ rw within (
          validate_loop_lem rounds max_depth (extend x (suc depth) stack)
            (omega (arith, total-extend x (suc depth) stack))
          ∙ ap some (fits-extend max_depth x depth stack (ground arith)))
    ]

-- The stack loop of `validate_json_depth` ends within as many rounds as the document has values,
-- and returns exactly when the limit is positive and the nesting depth, defined by recursion, is at
-- most the limit.
pub validate_json_depth_lem :
    (max_depth : ℕ) (value : Json)
    → validate_json_depth max_depth value
      ≡ some (not (max_depth == 0) && leb (depth_of value) max_depth)
unfolding validate_json_depth total
validate_json_depth_lem zero value = refl
validate_json_depth_lem (suc n) value =
    validate_loop_lem (size value) (suc n) ((value, 1) ∷ []) (omega arith) ∙ ground arith
