-- ===== src/Drizzle/ListTable.antt =====
-- A table that is the list of its rows, with the behaviour that is documented of a table: the runs
-- of the stores use it.
use noddde.Base.{
  ℕ, ◌≡◌, refl, Option, none, some, List, ◌++◌, Bool, true, false, arith, if◌then◌else◌, map, keep,
  length,
}
use noddde.Drizzle.{DbError, DriverResult, Table}
use noddde.Drizzle.Tables.{IsTable, clashes, sort_rows, change}

abbrev pub duplicate : DbError
duplicate = record { code = some "23505"; errno = none; message = "duplicate key value" }

-- `refusal` is the error of an insert that clashes.
module _ {R : Type 0} (refusal : DbError) (clash : R → R → Bool) (driver : ℕ → DriverResult) where
  unfoldable pub insert_if : Bool → List R → List R → Option DbError × List R
  insert_if true new rows = (some refusal, rows)
  insert_if false new rows = (none, rows ++ new)

  select_by : (R → Bool) → Option (R → ℕ) → List R → List R
  select_by p none rows = keep p rows
  select_by p (some by) rows = sort_rows by (keep p rows)

  unfoldable pub list_table : Table (List R) R
  unfolding insert_if select_by
  list_table = record {
    insert = λ new rows. insert_if (clashes clash rows new) new rows;
    select = select_by;
    update = λ f p rows. (driver (length (keep p rows)), map (change f p) rows);
    delete = λ p. keep (λ r. if p r then false else true);
  }

  pub insert_if-free :
      (taken : Bool) (new rows : List R)
      → taken ≡ false
      → ((insert_if taken new rows).0 ≡ none) × ((insert_if taken new rows).1 ≡ rows ++ new)
  unfolding insert_if
  insert_if-free taken new rows e = (ground (arith, e), ground (arith, e))

  pub insert_if-taken :
      (taken : Bool) (new rows : List R)
      → taken ≡ true
      → ((insert_if taken new rows).0 ≡ some refusal) × ((insert_if taken new rows).1 ≡ rows)
  unfolding insert_if
  insert_if-taken taken new rows e = (ground (arith, e), ground (arith, e))

  unfoldable pub list_table-IsTable :
      (is_unique : DbError → Bool)
      → is_unique refusal ≡ true
      → IsTable clash is_unique driver list_table
  unfolding list_table select_by
  list_table-IsTable is_unique told = record {
    rows = λ rows. rows;
    inserts = λ new d free. insert_if-free (clashes clash d new) new d free;
    refuses = λ new d taken.
        let (failed, same) = insert_if-taken (clashes clash d new) new d taken in
        (refusal, failed, told, same);
    selects = λ p by d. refl;
    finds_none = λ p d h. h;
    finds_one = λ p r d h. h;
    updates = λ f p d. (refl, refl);
    deletes = λ p d. refl;
  }
