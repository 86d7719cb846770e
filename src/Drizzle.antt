-- ===== src/Drizzle.antt =====
-- packages/adapters/drizzle/src: what the stores over drizzle-orm share. A table is the parameter
-- `Table` over the database `D`; a statement other than an insert is taken to succeed. A JSON
-- value, and what a driver gives for a column, is a `J`.
pub mod Events
pub mod States
pub mod OutboxTable
pub mod Transaction
pub mod Tables
pub mod Streams
pub mod Refinement
pub mod Reading
pub mod Versions
pub mod ListTable
pub mod Races
pub mod Drivers
mod Tests
use noddde.Base.{
  ℕ, String, List, [], ◌∷◌, Option, none, some, Bool, true, false, ◌||◌, is_some, or_default, eqb,
  ◌==◌, if◌then◌else◌,
}
use text.Mathlib.Text.{starts_with}
use noddde.Result.{Result, ok, err, thrown}
use noddde.Event.{Metadata}

-- what the drivers throw
pub record DbError : Type 0 where
  pub code : Option String
  pub errno : Option ℕ
  pub message : String

-- what the drivers answer to an update
pub record DriverResult : Type 0 where
  pub rows_affected : Option ℕ
  pub changes : Option ℕ
  pub row_count : Option ℕ
  pub count : Option ℕ
  pub affected_rows : Option ℕ
  pub first_affected_rows : Option ℕ

pub record Table (D R : Type 0) : Type 0 where
  pub insert : List R → D → Option DbError × D
  -- `where` and `orderBy(asc(...))`
  pub select : (R → Bool) → Option (R → ℕ) → D → List R
  pub update : (R → R) → (R → Bool) → D → DriverResult × D
  pub delete : (R → Bool) → D → D

-- `JSON`, `typeof value === "string"` and the clock. Metadata that is absent stands as `null`.
pub record Runtime (J : Type 0) : Type 0 where
  pub stringify : J → String
  pub parse : String → Result J
  pub of_string : String → J
  pub as_string : J → Option String
  pub of_metadata : Option Metadata → J
  pub to_metadata : J → Option Metadata
  pub date_of : String → ℕ
  pub now : ℕ

has_code : DbError → String → Bool
has_code error code = elim error.code [ none ↦ false | some c ↦ c == code ]

is_sqlite_constraint : DbError → Bool
is_sqlite_constraint error = elim error.code [
  | none ↦ false
  | some c ↦ starts_with c "SQLITE_CONSTRAINT"
]

-- `matches` is the regular expression of the last line.
unfoldable pub is_unique_violation : (String → Bool) → DbError → Bool
unfolding has_code is_sqlite_constraint
is_unique_violation matches error =
    if has_code error "23505"
    then true
    else if has_code error "ER_DUP_ENTRY" || elim error.errno [ none ↦ false | some n ↦ eqb n 1062 ]
    then true
    else if is_sqlite_constraint error
    then true
    else matches error.message

-- `a ?? b`
abbrev pub or_else {ℓ} : {A : Type ℓ} → Option A → Option A → Option A
or_else none b = b
or_else (some a) b = some a

unfoldable pub get_rows_affected : DriverResult → ℕ
get_rows_affected r =
    or_default
      (or_else r.rows_affected (
        or_else r.changes
          (or_else r.row_count (or_else r.count (or_else r.affected_rows r.first_affected_rows)))))
      0

-- an insert whose error is not caught
unfoldable pub settle_uncaught : {D : Type 0} → Option DbError × D → Result (Unit {0}) × D
settle_uncaught (none, d) = (ok tt, d)
settle_uncaught (some error, d) = (err (thrown error.message), d)

module _ {J : Type 0} (runtime : Runtime J) where
  -- `nativeJson ? value : JSON.stringify(value)`
  unfoldable pub serialize : Bool → J → J
  serialize native_json value =
      if native_json then value else runtime.of_string (runtime.stringify value)

  -- `typeof column === "string" ? JSON.parse(column) : column`
  unfoldable pub deserialize : J → Result J
  deserialize column = elim (runtime.as_string column) [
    | none ↦ ok column
    | some text ↦ runtime.parse text
  ]
