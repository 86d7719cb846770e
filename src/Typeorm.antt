-- ===== src/Typeorm.antt =====
-- packages/adapters/typeorm/src: persistence.ts and errors.ts. A repository is the parameter
-- `Table`; `save` of an entity with a given primary key, which TypeORM turns into an insert or an
-- update, is the parameter `save_row`. What TypeORM makes of an error and of a driver's answer are
-- the parameters `wrap` and `affected`. Statements other than an insert are taken to succeed, and
-- the entities to be registered.
pub mod Races
pub mod Marking
mod Tests
use noddde.Base.{
  ℕ, ◌+◌, ◌-◌, String, List, [], ◌∷◌, Option, none, some, Bool, true, false, ◌&&◌, ◌||◌, not, ltb,
  eqb, ◌==◌, is_some, or_default, map, take, keep, if◌then◌else◌,
}
use text.Mathlib.Text.{starts_with}
use noddde.Result.{Result, ok, err, thrown, concurrency_conflict, version_conflict}
use noddde.Event.{Event, Metadata}
use noddde.UnitOfWork.{Op}
use noddde.Persistence.{Snapshot}
use noddde.Outbox.{OutboxEntry, event_id_of, contains, is_unpublished}
use noddde.Drizzle.{DbError, DriverResult, Table, Runtime, settle_uncaught}
use noddde.Drizzle.Events.{settle_insert}
use noddde.Drizzle.States.{StateRow, Versioned, of_key, of_version}
use noddde.TextRows.{TextRow, text_rows, read_rows, read_state, in_stream, is_after}

-- What the code reads of an object that was thrown: `number` is that of SQL Server, and `message` is
-- none where it is no text.
pub record NativeError : Type 0 where
  pub code : Option String
  pub errno : Option ℕ
  pub number : Option ℕ
  pub message : Option String

-- a `QueryFailedError` and its `driverError`
pub record QueryError : Type 0 where
  pub outer : NativeError
  pub driver_error : Option NativeError

has : {A : Type 0} → (A → Bool) → Option A → Bool
has test none = false
has test (some a) = test a

unfoldable pub has_unique_violation_code : NativeError → Bool
unfolding has
has_unique_violation_code e =
    has (λ c. c == "23505") e.code
    || (has (λ c. c == "ER_DUP_ENTRY") e.code || has (λ n. eqb n 1062) e.errno)
    || has (λ c. starts_with c "SQLITE_CONSTRAINT") e.code
    || has (λ n. eqb n 2627 || eqb n 2601) e.number

driver_message : Option NativeError → String
driver_message none = ""
driver_message (some e) = or_default e.message ""

-- `matches` is the regular expression of the last line.
unfoldable pub is_unique_violation : (String → Bool) → QueryError → Bool
unfolding has driver_message
is_unique_violation matches e =
    if has_unique_violation_code e.outer
    then true
    else if has has_unique_violation_code e.driver_error
    then true
    else matches (or_default e.outer.message (driver_message e.driver_error))

module _ {J D : Type 0} (runtime : Runtime J) (is_violation : DbError → Bool)
    (events_table : Table D TextRow) where
  -- The entities have no id, so that `repo.save` inserts them.
  unfoldable pub save_events : String → String → List (Event J) → ℕ → Op D
  unfolding settle_insert
  save_events name id [] expected d = (ok tt, d)
  save_events name id (e ∷ events) expected d =
      settle_insert is_violation name id expected
        (events_table.insert (text_rows runtime name id expected 0 (e ∷ events)) d)

  unfoldable pub load_events : String → String → D → Result (List (Event J))
  load_events name id d =
      read_rows runtime (events_table.select (in_stream name id) (some (λ r. r.sequence_number)) d)

  unfoldable pub load_events_after : String → String → ℕ → D → Result (List (Event J))
  load_events_after name id after d =
      read_rows runtime
        (events_table.select (is_after name id after) (some (λ r. r.sequence_number)) d)

-- `result.affected === 0`: an answer without a count is no conflict.
settle_affected : {D : Type 0} → String → String → ℕ → Option ℕ → D → Result (Unit {0}) × D
settle_affected name id expected none d = (ok tt, d)
settle_affected name id expected (some n) d =
    (if eqb n 0 then err (version_conflict name id expected) else ok tt, d)

module _ {J D : Type 0} (runtime : Runtime J) (is_violation : DbError → Bool)
    (table : Table D (StateRow String)) where
  unfoldable pub save_state : (DriverResult → Option ℕ) → String → String → J → ℕ → Op D
  unfolding settle_affected settle_insert
  save_state affected name id state expected d =
      let serialized = runtime.stringify state in
      if eqb expected 0
      then settle_insert is_violation name id expected
          (table.insert (record { name = name; id = id; state = serialized; version = 1 } ∷ []) d)
      else let (answer, d') =
          table.update (λ r. record r { state = serialized; version = expected + 1 })
            (of_version name id expected) d in
        settle_affected name id expected (affected answer) d'

  -- `load` of the aggregates, of the sagas and of the snapshots
  unfoldable pub load_state : String → String → D → Result (Option (Versioned J))
  load_state name id d = read_state runtime (table.select (of_key name id) none d)

module _ {J D : Type 0} (runtime : Runtime J) (matches : String → Bool)
    (table : Table D (StateRow String)) (save_row : StateRow String → D → Option DbError × D) where
  -- the catch of the sagas' `save`
  settle_saga : String → String → ℕ → Option DbError × D → Result (Unit {0}) × D
  settle_saga name id expected (none, d) = (ok tt, d)
  settle_saga name id expected (some e, d) =
      (err (if matches e.message then version_conflict name id expected else thrown e.message), d)

  -- `save` of a saga behind its read, which gave `existing`
  unfoldable pub write_saga : List (StateRow String) → String → String → J → ℕ → Op D
  unfolding settle_saga
  write_saga [] name id state expected d =
      if eqb expected 0
      then settle_saga name id expected (
          save_row (record { name = name; id = id; state = runtime.stringify state; version = 1 })
            d)
      else (err (concurrency_conflict name id expected 0), d)
  write_saga (row ∷ rows) name id state expected d =
      if eqb row.version expected
      then settle_saga name id expected
          (save_row (record row { state = runtime.stringify state; version = expected + 1 }) d)
      else (err (concurrency_conflict name id expected row.version), d)

  unfoldable pub find_saga : String → String → D → List (StateRow String)
  find_saga name id d = table.select (of_key name id) none d

  unfoldable pub save_saga : String → String → J → ℕ → Op D
  save_saga name id state expected d = write_saga (find_saga name id d) name id state expected d

  -- `save` of a snapshot behind its read
  write_snapshot : List (StateRow String) → String → String → Snapshot J → Op D
  write_snapshot [] name id snapshot d = settle_uncaught (
      save_row
        (record {
          name = name;
          id = id;
          state = runtime.stringify snapshot.state;
          version = snapshot.version;
        })
        d)
  write_snapshot (row ∷ rows) name id snapshot d = settle_uncaught (
      save_row (record row { state = runtime.stringify snapshot.state; version = snapshot.version })
        d)

  unfoldable pub save_snapshot : String → String → Snapshot J → Op D
  unfolding write_snapshot settle_uncaught
  save_snapshot name id snapshot d =
      write_snapshot (table.select (of_key name id) none d) name id snapshot d

-- A row of the outbox stands for its entry: the event for its text, a time for its column.
module _ {P D : Type 0} (outbox : Table D (OutboxEntry P))
    (save_rows : List (OutboxEntry P) → D → Option DbError × D) (now : ℕ) where
  unfoldable pub save_entries : List (OutboxEntry P) → Op D
  unfolding settle_uncaught
  save_entries [] d = (ok tt, d)
  save_entries (e ∷ es) d = settle_uncaught (save_rows (e ∷ es) d)

  unfoldable pub load_unpublished : ℕ → D → List (OutboxEntry P)
  load_unpublished batch_size d =
      take batch_size (outbox.select is_unpublished (some (λ e. e.created_at)) d)

  unfoldable pub publish_entry : OutboxEntry P → OutboxEntry P
  publish_entry e = record e { published_at = some now }

  unfoldable pub mark_published : List String → D → D
  mark_published [] d = d
  mark_published (id ∷ ids) d = (outbox.update publish_entry (λ e. contains (id ∷ ids) e.id) d).1

  -- `e.event?.metadata?.eventId && eventIdSet.has(...)`, where an empty id is none
  unfoldable pub is_named : List String → OutboxEntry P → Bool
  unfolding has
  is_named event_ids e =
      has (λ id. not (id == "") && contains event_ids id) (event_id_of e.event.metadata)

  unfoldable pub mark_published_by_event_ids : List String → D → D
  mark_published_by_event_ids [] d = d
  mark_published_by_event_ids (id ∷ ids) d =
      mark_published (map (λ e. e.id) (keep (is_named (id ∷ ids)) (load_unpublished 10000 d))) d

  is_deleted : Option ℕ → OutboxEntry P → Bool
  is_deleted none e = not (is_unpublished e)
  is_deleted (some older_than) e = not (is_unpublished e) && ltb e.created_at older_than

  unfoldable pub delete_published : Option ℕ → D → D
  unfolding is_deleted
  delete_published older_than d = outbox.delete (is_deleted older_than) d
