-- ===== src/Prisma/Tests.antt =====
-- The properties of the stores over Prisma at concrete inputs. A table is the list of its rows.
use noddde.Base.{ℕ, String, ◌≡◌, refl, none, some, List, [], ◌∷◌, true, arith}
use Prim.Native.String.{◌++◌ as join}
use noddde.Result.{ok, err, version_conflict}
use noddde.Drizzle.{DbError, DriverResult, Table, Runtime}
use noddde.Drizzle.States.{StateRow}
use noddde.Drizzle.Tables.{IsTable}
use noddde.Drizzle.Versions.{same_key}
use noddde.Drizzle.ListTable.{list_table, list_table-IsTable}
use noddde.Prisma.{is_p2002, save_state, save_saga}
use noddde.Prisma.Agreement.{guarded_save, Current, next, saves-agree, save_saga-one_wins}

abbrev driver : ℕ → DriverResult
driver n = record {
  rows_affected = none;
  changes = none;
  row_count = none;
  count = some n;
  affected_rows = none;
  first_affected_rows = none;
}

abbrev count : DriverResult → ℕ
count answer = elim answer.count [ none ↦ 0 | some n ↦ n ]

abbrev runtime : Runtime String
runtime = record {
  stringify = λ s. join "'" s;
  parse = λ s. ok s;
  of_string = λ s. s;
  as_string = some;
  of_metadata = λ m. "";
  to_metadata = λ s. none;
  date_of = λ s. 0;
  now = 0;
}

-- what the client throws for a key that is taken
abbrev refusal : DbError
refusal = record { code = some "P2002"; errno = none; message = "Unique constraint failed" }

told : is_p2002 refusal ≡ true
unfolding is_p2002
told = refl

abbrev table : Table (List (StateRow String)) (StateRow String)
table = list_table refusal same_key driver

abbrev saga : StateRow String
saga = record { name = "Order"; id = "o1"; state = "'paid"; version = 3 }

abbrev sagas : List (StateRow String)
sagas = saga ∷ []

table-IsTable : IsTable same_key is_p2002 driver table
table-IsTable = list_table-IsTable refusal same_key driver is_p2002 told

saves-agree_test :
    (save_state runtime count table "Order" "o1" "shipped" 3 sagas
      ≡ guarded_save runtime runtime driver count table table-IsTable "Order" "o1" "shipped" 3
          sagas)
    × (save_saga runtime count table "Order" "o1" "shipped" 3 sagas
        ≡ guarded_save runtime runtime driver count table table-IsTable "Order" "o1" "shipped" 3
            sagas)
saves-agree_test =
    saves-agree runtime runtime driver count table table-IsTable "Order" "o1" "shipped" 3 sagas

sagas-Current :
    Current runtime runtime driver count table table-IsTable sagas "Order" "o1" (some saga)
unfolding table-IsTable list_table-IsTable
sagas-Current = refl

save_saga-one_wins_example :
    (let (r1, d1) = save_saga runtime count table "Order" "o1" "shipped" 3 sagas in
      let (r2, d2) = save_saga runtime count table "Order" "o1" "refunded" 3 d1 in
      (r1 ≡ ok tt)
      × ((r2 ≡ err (version_conflict "Order" "o1" 3))
          × Current runtime runtime driver count table table-IsTable d2 "Order" "o1" (
              some (
                next runtime runtime driver count table table-IsTable "Order" "o1" "shipped"
                  (some saga)))))
save_saga-one_wins_example =
    save_saga-one_wins runtime runtime driver count table table-IsTable sagas "Order" "o1" "shipped"
      "refunded" (some saga) refl refl sagas-Current (ground arith, tt)
