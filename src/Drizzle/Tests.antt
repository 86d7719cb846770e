-- ===== src/Drizzle/Tests.antt =====
-- Runs of the stores over drizzle-orm, and the properties at concrete inputs. A table is the list
-- of its rows; a JSON value is a text or an object that is known by its text.
use noddde.Base.{
  keep, ℕ, suc, String, ◌≡◌, refl, Option, none, some, List, [], ◌∷◌, ◌++◌, Bool, true, false,
  arith, ◌==◌, if◌then◌else◌,
}
use Prim.Native.String.{◌++◌ as join}
use noddde.Result.{Result, Error, ok, err, thrown, version_conflict}
use noddde.Event.{Event, Metadata}
use noddde.UnitOfWork.{Op, UnitOfWork, run_operations}
use noddde.Drizzle.{DriverResult, Table, Runtime, is_unique_violation, get_rows_affected, serialize}
use noddde.Drizzle.Events.{EventRow, deserialize_all, load_after_version}
use noddde.Drizzle.Drivers.{postgres_js, save_saga-postgres_js}
use noddde.Drizzle.States.{
  of_key, save_saga, StateRow, saga_rows_affected, is_saga_violation, load_versioned,
}
use noddde.Drizzle.Tables.{IsTable}
use noddde.Drizzle.ListTable.{duplicate, list_table, list_table-IsTable}
use noddde.Drizzle.Streams.{same_version, IsJson}
use noddde.Drizzle.Refinement.{
  EventStreams, Holds, saved, extended, new_rows, save-refines, save_ahead,
}
use noddde.Drizzle.Reading.{load_after_version-drop}
use noddde.Drizzle.Versions.{
  same_key, IsCurrent, saved_as, save_versioned-decides, load-save_versioned,
}
use noddde.Drizzle.Transaction.{
  Driver, commit_transaction, commit_with_sql_statements, IsConnection, IsAtomic, commit-IsAtomic,
}

-- node-postgres reports `rowCount`, postgres-js `count`
abbrev node_postgres : ℕ → DriverResult
node_postgres n = record {
  rows_affected = none;
  changes = none;
  row_count = some n;
  count = none;
  affected_rows = none;
  first_affected_rows = none;
}

data Json : Type 0 where
  str : String → Json
  meta : Option Metadata → Json
  num : ℕ → Json

stringify_json : Json → String
stringify_json (str s) = join "'" s
stringify_json (meta m) = "null"
stringify_json (num n) = "1"

abbrev parse_json : String → Result Json
parse_json t =
    if t == "null"
    then ok (meta none)
    else if t == "1"
    then ok (num 1)
    else err (thrown "SyntaxError")

text_of : Json → Option String
text_of (str s) = some s
text_of (meta m) = none
text_of (num n) = none

metadata_of : Json → Option Metadata
metadata_of (str s) = none
metadata_of (meta m) = m
metadata_of (num n) = none

unfoldable runtime : Runtime Json
unfolding text_of metadata_of stringify_json
runtime = record {
  stringify = stringify_json;
  parse = parse_json;
  of_string = str;
  as_string = text_of;
  of_metadata = meta;
  to_metadata = metadata_of;
  date_of = λ t. 5;
  now = 9;
}

runtime-IsJson : IsJson runtime
unfolding runtime text_of metadata_of
runtime-IsJson = record { reads_text = λ s. refl; reads_metadata = λ m. refl }

abbrev opened : Event Json
opened = record { name = "Opened"; payload = num 1; metadata = none }

abbrev never : String → Bool
never message = false

abbrev events_table : Table (List (EventRow Json)) (EventRow Json)
events_table = list_table duplicate same_version node_postgres

told : is_unique_violation never duplicate ≡ true
unfolding is_unique_violation
told = refl

events_table-IsTable : IsTable same_version (is_unique_violation never) node_postgres events_table
events_table-IsTable =
    list_table-IsTable duplicate same_version node_postgres (is_unique_violation never) told

abbrev nothing : EventStreams Json
nothing name id = []

abbrev HoldsHere : List (EventRow Json) → EventStreams Json → Type 0
HoldsHere = Holds runtime runtime-IsJson false never node_postgres events_table events_table-IsTable

empty-Holds : HoldsHere [] nothing
unfolding events_table-IsTable list_table-IsTable deserialize_all
empty-Holds name id = (tt, refl)

abbrev one_account : List (EventRow Json)
one_account =
    (saved runtime runtime-IsJson false never node_postgres events_table events_table-IsTable
      "Account" "1" (opened ∷ []) 0 []).1

abbrev one_stream : EventStreams Json
one_stream = extended nothing "Account" "1" (opened ∷ [])

one_account-Holds : HoldsHere one_account one_stream
unfolding runtime stringify_json
one_account-Holds =
    (save-refines runtime runtime-IsJson false never node_postgres events_table events_table-IsTable
      [] nothing "Account" "1" (opened ∷ []) 0 empty-Holds ((refl, refl), tt) (omega arith)).1

-- a second writer that expects the version before
save-refines_example :
    (let (r, d) =
        saved runtime runtime-IsJson false never node_postgres events_table events_table-IsTable
          "Account" "1"
          (opened ∷ [])
          0
          one_account in
      (r ≡ err (version_conflict "Account" "1" 0)) × HoldsHere d one_stream)
unfolding runtime stringify_json
save-refines_example =
    save-refines runtime runtime-IsJson false never node_postgres events_table events_table-IsTable
      one_account one_stream "Account" "1" (opened ∷ []) 0 one_account-Holds ((refl, refl), tt)
      (omega arith)

load_after_version-drop_test :
    load_after_version runtime false never events_table "Account" "1" 0 one_account
    ≡ ok (opened ∷ [])
load_after_version-drop_test =
    load_after_version-drop runtime runtime-IsJson false never node_postgres events_table
      events_table-IsTable one_account one_stream "Account" "1" 0 one_account-Holds

save_ahead_test :
    (let (r, d) =
        saved runtime runtime-IsJson false never node_postgres events_table events_table-IsTable
          "Account" "1"
          (opened ∷ [])
          7
          one_account in
      (r ≡ ok tt)
      × (events_table-IsTable.rows d
          ≡ events_table-IsTable.rows one_account
            ++ new_rows runtime runtime-IsJson false never node_postgres events_table
                events_table-IsTable "Account" "1" 7
                (opened ∷ [])))
save_ahead_test =
    save_ahead runtime runtime-IsJson false never node_postgres events_table events_table-IsTable
      one_account one_stream "Account" "1" opened [] 7 one_account-Holds (omega arith)

abbrev states_table : (ℕ → DriverResult) → Table (List (StateRow Json)) (StateRow Json)
states_table driver = list_table duplicate same_key driver

states_table-IsTable :
    (driver : ℕ → DriverResult)
    → IsTable same_key (is_unique_violation never) driver (states_table driver)
states_table-IsTable driver =
    list_table-IsTable duplicate same_key driver (is_unique_violation never) told

sagas_told : is_saga_violation duplicate ≡ true
unfolding is_saga_violation
sagas_told = refl

sagas_table-IsTable :
    (driver : ℕ → DriverResult) → IsTable same_key is_saga_violation driver (states_table driver)
sagas_table-IsTable driver =
    list_table-IsTable duplicate same_key driver is_saga_violation sagas_told

abbrev order : StateRow Json
order = record { name = "Order"; id = "1"; state = str "1"; version = 2 }

order-IsCurrent :
    IsCurrent runtime false node_postgres
      (is_unique_violation never)
      get_rows_affected
      (states_table node_postgres)
      (states_table-IsTable node_postgres)
      (order ∷ [])
      "Order"
      "1"
      (some order)
unfolding states_table-IsTable list_table-IsTable
order-IsCurrent = refl

save_versioned-decides_example :
    (let (r, d) =
        saved_as runtime false node_postgres
          (is_unique_violation never)
          get_rows_affected
          (states_table node_postgres)
          (states_table-IsTable node_postgres)
          "Order"
          "1"
          (num 1)
          1
          (order ∷ []) in
      (r ≡ err (version_conflict "Order" "1" 1))
      × ((states_table-IsTable node_postgres).rows d
          ≡ (states_table-IsTable node_postgres).rows (order ∷ [])))
unfolding get_rows_affected
save_versioned-decides_example =
    save_versioned-decides runtime false node_postgres (is_unique_violation never) get_rows_affected
      (states_table node_postgres) (states_table-IsTable node_postgres) (order ∷ []) "Order" "1"
      (num 1) (some order) 1 refl refl order-IsCurrent (omega arith, tt)

load-save_versioned_test :
    load_versioned runtime false
      (states_table node_postgres)
      "Order"
      "1"
      (saved_as runtime false node_postgres
        (is_unique_violation never)
        get_rows_affected
        (states_table node_postgres)
        (states_table-IsTable node_postgres)
        "Order"
        "1"
        (num 1)
        2
        (order ∷ [])).1
    ≡ ok (some (record { state = num 1; version = 3 }))
unfolding get_rows_affected runtime stringify_json
load-save_versioned_test =
    load-save_versioned runtime false node_postgres (is_unique_violation never) get_rows_affected
      (states_table node_postgres) (states_table-IsTable node_postgres) runtime-IsJson (order ∷ [])
      "Order" "1" (num 1) (some order) refl refl refl order-IsCurrent (omega arith, tt)

order_saga-IsCurrent :
    IsCurrent runtime false postgres_js is_saga_violation saga_rows_affected
      (states_table postgres_js)
      (sagas_table-IsTable postgres_js)
      (order ∷ [])
      "Order"
      "1"
      (some order)
unfolding sagas_table-IsTable list_table-IsTable
order_saga-IsCurrent = refl

-- a saga over postgres-js
save_saga-postgres_js_example :
    (let (r, d') =
        save_saga runtime false (states_table postgres_js) "Order" "1" (num 1) 2 (order ∷ []) in
      (r ≡ err (version_conflict "Order" "1" 2))
      × (keep (of_key "Order" "1") ((sagas_table-IsTable postgres_js).rows d')
          ≡ record order { state = serialize runtime false (num 1); version = 3 } ∷ []))
save_saga-postgres_js_example =
    save_saga-postgres_js runtime false (states_table postgres_js) (sagas_table-IsTable postgres_js)
      (order ∷ []) "Order" "1" (num 1) order order_saga-IsCurrent (omega arith)

-- A connection: the contents that are durable, and those of an open transaction.
abbrev Connection : Type 0
Connection = ℕ × Option ℕ

begin_on : Op Connection
begin_on (n, none) = (ok tt, (n, some n))
begin_on (n, some m) = (err (thrown "within a transaction"), (n, some m))

commit_on : Op Connection
commit_on (n, none) = (err (thrown "no transaction is active"), (n, none))
commit_on (n, some m) = (ok tt, (m, none))

rollback_on : Op Connection
rollback_on (n, none) = (err (thrown "no transaction is active"), (n, none))
rollback_on (n, some m) = (ok tt, (n, none))

abbrev sqlite : Driver Connection
sqlite = record {
  is_sync_sqlite = true;
  begin = begin_on;
  commit = commit_on;
  rollback = rollback_on;
  transaction = λ body. body;
}

begins_lem :
    (d : Connection)
    → (begin_on d).0 ≡ ok tt
    → ((begin_on d).1.0 ≡ d.0) × ((begin_on d).1.1 ≡ some d.0)
unfolding begin_on
begins_lem (n, none) h = (refl, refl)
begins_lem (n, some m) h = absurd (ground (arith, h))

begin_fails_lem :
    (d : Connection) (e : Error)
    → (begin_on d).0 ≡ err e
    → ((begin_on d).1.0 ≡ d.0) × ((begin_on d).1.1 ≡ d.1)
unfolding begin_on
begin_fails_lem (n, none) e h = absurd (ground (arith, h))
begin_fails_lem (n, some m) e h = (refl, refl)

commits_lem :
    (d : Connection) (c : ℕ)
    → d.1 ≡ some c
    → (commit_on d).0 ≡ ok tt
    → ((commit_on d).1.0 ≡ c) × ((commit_on d).1.1 ≡ none)
unfolding commit_on
commits_lem (n, none) c live h = absurd (ground (arith, h))
commits_lem (n, some m) c live h = (ground (arith, live), refl)

commit_fails_lem : (d : Connection) (e : Error) → (commit_on d).0 ≡ err e → (commit_on d).1.0 ≡ d.0
unfolding commit_on
commit_fails_lem (n, none) e h = refl
commit_fails_lem (n, some m) e h = absurd (ground (arith, h))

rolls_back_lem : (d : Connection) → ((rollback_on d).1.0 ≡ d.0) × ((rollback_on d).1.1 ≡ none)
unfolding rollback_on
rolls_back_lem (n, none) = (refl, refl)
rolls_back_lem (n, some m) = (refl, refl)

sqlite-IsConnection : IsConnection sqlite (λ d. d.0) (λ d. d.1)
unfolding begin_on commit_on rollback_on
sqlite-IsConnection = record {
  begins = begins_lem;
  begin_fails = begin_fails_lem;
  commits = commits_lem;
  commit_fails = commit_fails_lem;
  rolls_back = rolls_back_lem;
}

abbrev adding : Op Connection
adding (n, m) = (ok tt, (n, (elim m [ none ↦ none | some k ↦ some (suc k) ])))

abbrev failing_statement : Op Connection
failing_statement (n, m) = (err (thrown "boom"), (n, m))

abbrev counting : UnitOfWork Connection ℕ
counting = record {
  operations = adding ∷ failing_statement ∷ [];
  pending_events = 4 ∷ [];
  completed = false;
}

commit-IsAtomic_example :
    IsAtomic sqlite (λ d. d.0) (λ d. d.1) sqlite-IsConnection counting (7, none)
commit-IsAtomic_example =
    commit-IsAtomic sqlite (λ d. d.0) (λ d. d.1) sqlite-IsConnection counting (7, none) refl refl
      refl
      ((λ d c live. (refl, (suc c, ground (arith, live)))), ((λ d c live. (refl, (c, live))), tt))

rolled_back_run : (commit_transaction sqlite counting (7, none)).2 ≡ (7, none)
unfolding commit_transaction commit_with_sql_statements run_operations begin_on rollback_on
rolled_back_run = refl
