-- ===== src/Sql/Defs.antt =====
-- The statements, and the invariant of a primary key.
use actenon_kernel.Prelude.{
  Bool, List, Option, String, [], if◌then◌else◌, is_some, nat_eq, none, some, string_eq, suc, ℕ,
  ◌++◌, ◌==◌, ◌∷◌, ◌≡◌,
}

module _ {R : Type 0} (key : R → String) where
  -- `SELECT … WHERE key = ?`
  abbrev pub select : String → List R → Option R
  select k [] = none
  select k (r ∷ rs) = if key r == k then some r else select k rs

  -- `INSERT … ON CONFLICT (key) DO NOTHING`
  unfoldable pub insert_or_ignore : R → List R → List R
  insert_or_ignore r rs = if is_some (select (key r) rs) then rs else rs ++ r ∷ []

  -- no two rows share a key
  abbrev pub IsKeyed : List R → Type 0
  IsKeyed [] = Unit
  IsKeyed (r ∷ rs) = (select (key r) rs ≡ none) × IsKeyed rs

module _ {R : Type 0} where
  -- `UPDATE … SET f WHERE p`
  unfoldable pub update_where : (R → Bool) → (R → R) → List R → List R
  update_where p f [] = []
  update_where p f (r ∷ rs) = (if p r then f r else r) ∷ update_where p f rs

  -- `DELETE … WHERE p`
  unfoldable pub delete_where : (R → Bool) → List R → List R
  delete_where p [] = []
  delete_where p (r ∷ rs) = let rest = delete_where p rs in if p r then rest else r ∷ rest

  -- `cursor.rowcount` after such an `UPDATE`
  unfoldable pub rowcount : (R → Bool) → List R → ℕ
  rowcount p [] = 0
  rowcount p (r ∷ rs) = if p r then suc (rowcount p rs) else rowcount p rs

  -- what `select` finds after an update, and after a deletion
  abbrev pub updated : (R → Bool) → (R → R) → Option R → Option R
  updated p f none = none
  updated p f (some r) = some (if p r then f r else r)

  abbrev pub undeleted : (R → Bool) → Option R → Option R
  undeleted p none = none
  undeleted p (some r) = if p r then none else some r

  abbrev pub matches : (R → Bool) → Option R → ℕ
  matches p none = 0
  matches p (some r) = if p r then 1 else 0
