-- ===== src/Typeorm/Tests.antt =====
-- Runs of the stores over TypeORM, and the properties at concrete inputs. A table is the list of its
-- rows.
use noddde.Base.{
  ℕ, String, ◌≡◌, refl, ap, ◌∙◌, Option, none, some, List, [], ◌∷◌, ◌++◌, Bool, true, false, arith,
  ◌==◌, eq_refl, map, keep,
}
use Prim.Native.String.{◌++◌ as join}
use noddde.Result.{ok, err, version_conflict}
use noddde.Event.{Metadata}
use noddde.Outbox.{OutboxEntry}
use noddde.Drizzle.{DbError, DriverResult, Table, Runtime}
use noddde.Drizzle.States.{StateRow, of_key}
use noddde.Drizzle.Tables.{IsTable, change}
use noddde.Drizzle.ListTable.{duplicate, list_table, list_table-IsTable}
use noddde.Drizzle.Versions.{same_key}
use noddde.Typeorm.{
  QueryError, is_unique_violation, has_unique_violation_code, save_saga, write_saga, find_saga,
  mark_published_by_event_ids,
}
use noddde.Typeorm.Races.{
  Replaces, HasSaga, written, typeorm_save, Current, next, save_saga-lost_update,
  save_state-one_wins,
}
use noddde.Typeorm.Marking.{mark_published_by_event_ids-rows}

abbrev never : String → Bool
never message = false

-- a `QueryFailedError` with the message of the driver's error
abbrev wrap : DbError → QueryError
wrap e = record {
  outer = record { code = none; errno = e.errno; number = none; message = some e.message };
  driver_error =
      some (record { code = e.code; errno = e.errno; number = none; message = some e.message });
}

abbrev is_violation : DbError → Bool
is_violation e = is_unique_violation never (wrap e)

told : is_violation duplicate ≡ true
unfolding is_unique_violation has_unique_violation_code
told = refl

sql_server_key :
    is_unique_violation never (record {
      outer = record { code = none; errno = none; number = some 2627; message = none };
      driver_error = none;
    })
    ≡ true
unfolding is_unique_violation has_unique_violation_code
sql_server_key = refl

-- without a text on the outside, the message of the driver's error decides
inner_message :
    is_unique_violation
      (λ m. m == "duplicate key")
      (record {
        outer = record { code = none; errno = none; number = none; message = none };
        driver_error =
            some
              (record { code = none; errno = none; number = none; message = some "duplicate key" });
      })
    ≡ true
unfolding is_unique_violation has_unique_violation_code
inner_message = refl

-- the raw answer of node-postgres, of which TypeORM makes `affected`
abbrev driver : ℕ → DriverResult
driver n = record {
  rows_affected = none;
  changes = none;
  row_count = some n;
  count = none;
  affected_rows = none;
  first_affected_rows = none;
}

abbrev count : DriverResult → ℕ
count answer = elim answer.row_count [ none ↦ 0 | some n ↦ n ]

abbrev runtime : Runtime String
runtime = record {
  stringify = λ s. join "'" s;
  parse = λ s. ok s;
  of_string = λ s. s;
  as_string = some;
  of_metadata = λ m. "";
  to_metadata = λ s. none;
  date_of = λ s. 0;
  now = 0;
}

abbrev table : Table (List (StateRow String)) (StateRow String)
table = list_table duplicate same_key driver

table-IsTable : IsTable same_key is_violation driver table
table-IsTable = list_table-IsTable duplicate same_key driver is_violation told

-- `save` for a row whose key is there
abbrev replace : StateRow String → List (StateRow String) → Option DbError × List (StateRow String)
replace r rows = (none, map (change (λ x. r) (of_key r.name r.id)) rows)

keep-replace :
    (r : StateRow String) (rows : List (StateRow String))
    → keep (of_key r.name r.id) (map (change (λ x. r) (of_key r.name r.id)) rows)
      ≡ map (λ x. r) (keep (of_key r.name r.id) rows)
keep-replace r [] = refl
keep-replace r (x ∷ rows) = ground (arith, keep-replace r rows, eq_refl r.name, eq_refl r.id)

replace-Replaces : Replaces runtime never is_violation driver table table-IsTable replace
unfolding table-IsTable list_table-IsTable
replace-Replaces r old rows h = (refl, keep-replace r rows ∙ ap (map (λ x. r)) h)

abbrev saga : StateRow String
saga = record { name = "Order"; id = "o1"; state = "'paid"; version = 3 }

abbrev sagas : List (StateRow String)
sagas = saga ∷ []

saga-HasSaga :
    HasSaga runtime never is_violation driver table table-IsTable replace sagas "Order" "o1" saga
unfolding table-IsTable list_table-IsTable
saga-HasSaga = (refl, (refl, refl))

save_saga-lost_update_example :
    (let found = find_saga runtime never table replace "Order" "o1" sagas in
      let (r1, d1) = save_saga runtime never table replace "Order" "o1" "shipped" 3 sagas in
      let (r2, d2) = write_saga runtime never table replace found "Order" "o1" "refunded" 3 d1 in
      (r1 ≡ ok tt)
      × ((r2 ≡ ok tt)
          × (keep (of_key "Order" "o1") (table-IsTable.rows d2)
              ≡ written runtime never is_violation driver table table-IsTable replace "refunded"
                  saga
                ∷ [])))
save_saga-lost_update_example =
    save_saga-lost_update runtime never is_violation driver table table-IsTable replace sagas
      "Order" "o1" "shipped" "refunded" saga replace-Replaces saga-HasSaga

sagas-Current :
    Current runtime runtime is_violation driver count table table-IsTable sagas "Order" "o1"
      (some saga)
unfolding table-IsTable list_table-IsTable
sagas-Current = refl

save_state-one_wins_example :
    (let save = typeorm_save runtime runtime is_violation driver count table table-IsTable in
      let (r1, d1) = save "Order" "o1" "shipped" 3 sagas in
      let (r2, d2) = save "Order" "o1" "refunded" 3 d1 in
      (r1 ≡ ok tt)
      × ((r2 ≡ err (version_conflict "Order" "o1" 3))
          × Current runtime runtime is_violation driver count table table-IsTable d2 "Order" "o1" (
              some (
                next runtime runtime is_violation driver count table table-IsTable "Order" "o1"
                  "shipped"
                  (some saga)))))
save_state-one_wins_example =
    save_state-one_wins runtime runtime is_violation driver count table table-IsTable sagas "Order"
      "o1" "shipped" "refunded" (some saga) refl refl sagas-Current (ground arith, tt)

abbrev metadata : String → Metadata
metadata id = record {
  event_id = id;
  timestamp = "";
  correlation_id = "";
  causation_id = "";
  user_id = none;
  version = none;
  aggregate_name = none;
  aggregate_id = none;
  sequence_number = none;
  traceparent = none;
  tracestate = none;
}

abbrev entry : String → String → ℕ → OutboxEntry String
entry id event_id created_at = record {
  id = id;
  event = record { name = "Paid"; payload = ""; metadata = some (metadata event_id) };
  aggregate_name = none;
  aggregate_id = none;
  created_at = created_at;
  published_at = none;
}

abbrev outbox : Table (List (OutboxEntry String)) (OutboxEntry String)
outbox = list_table duplicate (λ x y. x.id == y.id) driver

outbox-IsTable : IsTable (λ x y. x.id == y.id) is_violation driver outbox
outbox-IsTable = list_table-IsTable duplicate (λ x y. x.id == y.id) driver is_violation told

abbrev append_all :
    List (OutboxEntry String)
    → List (OutboxEntry String)
    → Option DbError × List (OutboxEntry String)
append_all es d = (none, d ++ es)

abbrev waiting : List (OutboxEntry String)
waiting = entry "a" "e1" 2 ∷ entry "b" "e2" 1 ∷ []

mark_published_by_event_ids-rows_example :
    outbox-IsTable.rows (mark_published_by_event_ids outbox append_all 9 ("e2" ∷ []) waiting)
    ≡ entry "a" "e1" 2 ∷ record (entry "b" "e2" 1) { published_at = some 9 } ∷ []
unfolding outbox-IsTable list_table-IsTable
mark_published_by_event_ids-rows_example =
    mark_published_by_event_ids-rows (λ x y. x.id == y.id) is_violation driver outbox outbox-IsTable
      append_all 9 ("e2" ∷ []) waiting (((refl, refl), tt), (tt, tt)) (ground arith)
