-- ===== src/Dict.antt =====
-- Python's `dict` with text keys, in insertion order.
use actenon_kernel.Prelude.{
  List, Option, String, [], arith, eq_iff, if◌then◌else◌, nat_eq, none, refl, some, string_eq, ◌==◌,
  ◌∷◌, ◌≡◌,
}

abbrev pub Dict {ℓ} : Type ℓ → Type ℓ
Dict V = List (String × V)

module _ {ℓ} {V : Type ℓ} where
  -- `d.get(key)`
  abbrev pub lookup : String → Dict V → Option V
  lookup key [] = none
  lookup key ((k, v) ∷ d) = if k == key then some v else lookup key d

  -- `d[key] = value`
  abbrev pub insert : String → V → Dict V → Dict V
  insert key value [] = (key, value) ∷ []
  insert key value ((k, v) ∷ d) = if k == key then (key, value) ∷ d else (k, v) ∷ insert key value d

  pub lookup-insert :
      (key other : String) (value : V) (d : Dict V)
      → lookup other (insert key value d) ≡ (if key == other then some value else lookup other d)
  lookup-insert key other value [] = refl
  lookup-insert key other value ((k, v) ∷ d) =
      ground
        (arith, eq_iff k key, eq_iff k other, eq_iff key other, lookup-insert key other value d)
