-- ===== src/Prelude/Sorting.antt =====
-- `sorted(set(texts))`: Python orders texts by their code points.
use Prim.Native.Nat.{Ordering}
use Prim.Native.String.{String, compare}
use mathlib.Core.List.{List, [], ◌∷◌}

abbrev insert_text : String → List String → List String
insert_text s [] = s ∷ []
insert_text s (t ∷ ts) = elim (compare s t) [
  | Ordering.lt ↦ s ∷ t ∷ ts
  | Ordering.eq ↦ t ∷ ts
  | Ordering.gt ↦ t ∷ insert_text s ts
]

abbrev pub sorted_set : List String → List String
sorted_set [] = []
sorted_set (s ∷ ss) = insert_text s (sorted_set ss)
