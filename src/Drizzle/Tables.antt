-- ===== src/Drizzle/Tables.antt =====
-- The documented behaviour of a table with a unique key, and what follows for the rows of a
-- table. `clash` says of two rows that they have the same key.
use noddde.Base.{
  ℕ, suc, ◌+◌, ◌≡◌, refl, ap, ◌∙◌, List, [], ◌∷◌, ◌++◌, map, none, some, Bool, true, false, ◌&&◌,
  leb, keep, length, arith, if◌then◌else◌, subst,
}
use noddde.Drizzle.{DbError, DriverResult, Table}

module _ {R : Type 0} where
  abbrev pub any : (R → Bool) → List R → Bool
  any p [] = false
  any p (r ∷ rs) = if p r then true else any p rs

  -- Some row of an insert has the key of a row that is there, or of one before it.
  abbrev pub clashes : (R → R → Bool) → List R → List R → Bool
  clashes clash old [] = false
  clashes clash old (r ∷ rs) = if any (clash r) old then true else clashes clash (old ++ r ∷ []) rs

  abbrev pub insert_row : (R → ℕ) → R → List R → List R
  insert_row by r [] = r ∷ []
  insert_row by r (x ∷ xs) = if leb (by r) (by x) then r ∷ x ∷ xs else x ∷ insert_row by r xs

  abbrev pub sort_rows : (R → ℕ) → List R → List R
  sort_rows by [] = []
  sort_rows by (r ∷ rs) = insert_row by r (sort_rows by rs)

  abbrev pub change : (R → R) → (R → Bool) → R → R
  change f p r = if p r then f r else r

-- `rows` are the rows in the order of their inserts. `driver` is the shape in which the driver
-- reports how many rows an update changed.
pub record IsTable {D R : Type 0} (clash : R → R → Bool) (is_unique : DbError → Bool)
    (driver : ℕ → DriverResult) (t : Table D R) : Type 0 where
  pub rows : D → List R
  pub inserts :
      (new : List R) (d : D)
      → clashes clash (rows d) new ≡ false
      → ((t.insert new d).0 ≡ none) × (rows (t.insert new d).1 ≡ rows d ++ new)
  pub refuses :
      (new : List R) (d : D)
      → clashes clash (rows d) new ≡ true
      → (e : DbError) × ((t.insert new d).0 ≡ some e)
        × (is_unique e ≡ true)
        × (rows (t.insert new d).1 ≡ rows d)
  pub selects :
      (p : R → Bool) (by : R → ℕ) (d : D) → t.select p (some by) d ≡ sort_rows by (keep p (rows d))
  -- without an order, one row or none is what the code relies on
  pub finds_none : (p : R → Bool) (d : D) → keep p (rows d) ≡ [] → t.select p none d ≡ []
  pub finds_one :
      (p : R → Bool) (r : R) (d : D) → keep p (rows d) ≡ r ∷ [] → t.select p none d ≡ r ∷ []
  pub updates :
      (f : R → R) (p : R → Bool) (d : D)
      → ((t.update f p d).0 ≡ driver (length (keep p (rows d))))
        × (rows (t.update f p d).1 ≡ map (change f p) (rows d))
  pub deletes :
      (p : R → Bool) (d : D)
      → rows (t.delete p d) ≡ keep (λ r. if p r then false else true) (rows d)

module _ {R : Type 0} where
  pub keep-append : (p : R → Bool) (xs ys : List R) → keep p (xs ++ ys) ≡ keep p xs ++ keep p ys
  keep-append p [] ys = refl
  keep-append p (x ∷ xs) ys = ground (arith, keep-append p xs ys)

  pub keep-and :
      (p q : R → Bool) (rows : List R) → keep (λ r. p r && q r) rows ≡ keep q (keep p rows)
  keep-and p q [] = refl
  keep-and p q (r ∷ rows) = ground (arith, keep-and p q rows)

  -- The rows have consecutive numbers, from `n` on.
  abbrev pub IsNumbered : (R → ℕ) → ℕ → List R → Type 0
  IsNumbered by n [] = Unit
  IsNumbered by n (r ∷ rs) = (by r ≡ n) × IsNumbered by (suc n) rs

  pub append-IsNumbered :
      (by : R → ℕ) (n : ℕ) (xs ys : List R)
      → IsNumbered by n xs
      → IsNumbered by (n + length xs) ys
      → IsNumbered by n (xs ++ ys)
  append-IsNumbered by n [] ys h h' = subst (λ k. IsNumbered by k ys) (omega arith) h'
  append-IsNumbered by n (x ∷ xs) ys h h' = (
    h.0,
    append-IsNumbered by (suc n) xs ys h.1 (subst (λ k. IsNumbered by k ys) (omega arith) h'),
  )

  insert_row-IsNumbered :
      (by : R → ℕ) (n : ℕ) (r : R) (rs : List R)
      → by r ≡ n
      → IsNumbered by (suc n) rs
      → insert_row by r rs ≡ r ∷ rs
  insert_row-IsNumbered by n r [] e h = refl
  insert_row-IsNumbered by n r (x ∷ xs) e h = ground (arith, e, h.0)

  pub sort_rows-IsNumbered :
      (by : R → ℕ) (n : ℕ) (rs : List R) → IsNumbered by n rs → sort_rows by rs ≡ rs
  sort_rows-IsNumbered by n [] h = refl
  sort_rows-IsNumbered by n (r ∷ rs) h =
      ap (insert_row by r) (sort_rows-IsNumbered by (suc n) rs h.1)
      ∙ insert_row-IsNumbered by n r rs h.0 h.1
