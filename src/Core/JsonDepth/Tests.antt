-- ===== src/Core/JsonDepth/Tests.antt =====
-- A document of three levels, and the theorem at it.
use actenon_kernel.Prelude.{[], false, leb, map, refl, some, true, ◌∷◌, ◌≡◌}
use actenon_kernel.Json.{Json, arr, bool, cons, end, field, int, nil, null, obj, pos}
use actenon_kernel.Core.JsonDepth.{size, validate_json_depth}
use actenon_kernel.Core.JsonDepth.Bound.{depth_of, validate_json_depth_lem}

abbrev document : Json
document = obj (field "a" (arr (cons (int (pos 1)) (cons null nil))) (field "b" (bool true) end))

limits :
    map (λ n. validate_json_depth n document) (0 ∷ 2 ∷ 3 ∷ [])
    ≡ some false ∷ some false ∷ some true ∷ []
unfolding validate_json_depth size
limits = refl

validate_json_depth_lem_example : validate_json_depth 2 document ≡ some (leb (depth_of document) 2)
validate_json_depth_lem_example = validate_json_depth_lem 2 document
