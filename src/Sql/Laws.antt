-- ===== src/Sql/Laws.antt =====
-- Each statement, seen through the row that a key selects.
use actenon_kernel.Prelude.{
  Bool, List, String, [], arith, eq_iff, if◌then◌else◌, is_some, nat_eq, none, refl, some,
  string_eq, true, ◌++◌, ◌==◌, ◌∷◌, ◌≡◌,
}
use actenon_kernel.Sql.Defs.{
  IsKeyed, delete_where, insert_or_ignore, matches, rowcount, select, undeleted, update_where,
  updated,
}

module _ {R : Type 0} (key : R → String) where
  pub select-key : (k : String) (rs : List R) (r : R) → select key k rs ≡ some r → key r ≡ k
  select-key k [] r h = cc
  select-key k (x ∷ rs) r h = ground (arith, eq_iff (key x) k, select-key k rs r)

  module _ (p : R → Bool) (f : R → R) (same : (r : R) → key (f r) ≡ key r) where
    pub select-update_where :
        (k : String) (rs : List R)
        → select key k (update_where p f rs) ≡ updated p f (select key k rs)
    unfolding update_where
    select-update_where k [] = refl
    select-update_where k (r ∷ rs) = ground (arith, same r, select-update_where k rs)

    pub update_where-IsKeyed : (rs : List R) → IsKeyed key rs → IsKeyed key (update_where p f rs)
    unfolding update_where
    update_where-IsKeyed [] h = tt
    update_where-IsKeyed (r ∷ rs) h =
        ground (arith, same r, select-update_where (key r) rs, update_where-IsKeyed rs h.1)

  module _ (p : R → Bool) where
    select-delete_where-none :
        (k : String) (rs : List R)
        → select key k rs ≡ none
        → select key k (delete_where p rs) ≡ none
    unfolding delete_where
    select-delete_where-none k [] h = refl
    select-delete_where-none k (r ∷ rs) h = ground (arith, select-delete_where-none k rs)

    pub select-delete_where :
        (k : String) (rs : List R)
        → IsKeyed key rs
        → select key k (delete_where p rs) ≡ undeleted p (select key k rs)
    unfolding delete_where
    select-delete_where k [] h = refl
    select-delete_where k (r ∷ rs) h =
        ground
          (arith, eq_iff (key r) k, select-delete_where k rs h.1, select-delete_where-none k rs)

    pub delete_where-IsKeyed : (rs : List R) → IsKeyed key rs → IsKeyed key (delete_where p rs)
    unfolding delete_where
    delete_where-IsKeyed [] h = tt
    delete_where-IsKeyed (r ∷ rs) h =
        ground (arith, select-delete_where-none (key r) rs, delete_where-IsKeyed rs h.1)

    rowcount_absent :
        (k : String) (rs : List R)
        → ((r : R) → p r ≡ true → key r ≡ k)
        → select key k rs ≡ none
        → rowcount p rs ≡ 0
    unfolding rowcount
    rowcount_absent k [] at h = refl
    rowcount_absent k (r ∷ rs) at h =
        ground (arith, at r, eq_iff (key r) k, rowcount_absent k rs at)

    -- A statement whose condition fixes the key touches the selected row and no other.
    pub rowcount-eq-matches :
        (k : String) (rs : List R)
        → ((r : R) → p r ≡ true → key r ≡ k)
        → IsKeyed key rs
        → rowcount p rs ≡ matches p (select key k rs)
    unfolding rowcount
    rowcount-eq-matches k [] at h = refl
    rowcount-eq-matches k (r ∷ rs) at h =
        ground
          (arith, at r, eq_iff (key r) k, rowcount-eq-matches k rs at h.1, rowcount_absent k rs at)

  select-append_new :
      (k : String) (r : R) (rs : List R)
      → select key (key r) rs ≡ none
      → select key k (rs ++ r ∷ []) ≡ (if key r == k then some r else select key k rs)
  select-append_new k r [] h = refl
  select-append_new k r (x ∷ rs) h =
      ground (
        arith,
        eq_iff (key r) k,
        eq_iff (key x) k,
        eq_iff (key x) (key r),
        select-append_new k r rs,
      )

  pub select-insert_or_ignore :
      (k : String) (r : R) (rs : List R)
      → select key k (insert_or_ignore key r rs) ≡ (
          if is_some (select key (key r) rs)
          then select key k rs
          else if key r == k
          then some r
          else select key k rs)
  unfolding insert_or_ignore
  select-insert_or_ignore k r rs = ground (arith, select-append_new k r rs)

  append_new-IsKeyed :
      (r : R) (rs : List R)
      → select key (key r) rs ≡ none
      → IsKeyed key rs
      → IsKeyed key (rs ++ r ∷ [])
  append_new-IsKeyed r [] h keyed = (refl, tt)
  append_new-IsKeyed r (x ∷ rs) h keyed = ground (
    arith,
    eq_iff (key x) (key r),
    eq_iff (key r) (key x),
    select-append_new (key x) r rs,
    append_new-IsKeyed r rs,
  )

  pub insert_or_ignore-IsKeyed :
      (r : R) (rs : List R) → IsKeyed key rs → IsKeyed key (insert_or_ignore key r rs)
  unfolding insert_or_ignore
  insert_or_ignore-IsKeyed r rs h = ground (arith, append_new-IsKeyed r rs)
