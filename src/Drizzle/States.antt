-- ===== src/Drizzle/States.antt =====
-- The state-stored aggregates, the sagas and the snapshots of
-- packages/adapters/drizzle/src/persistence.ts: one row for a name and an id. A saga has its own
-- test for a unique violation and its own reading of the driver's answer.
use noddde.Base.{
  ℕ, ◌+◌, String, List, [], ◌∷◌, Option, none, some, Bool, ◌&&◌, ◌||◌, eqb, ◌==◌, is_some,
  or_default, if◌then◌else◌,
}
use text.Mathlib.Text.{find?}
use noddde.Result.{Result, ok, err, version_conflict, ◌>>=◌}
use noddde.UnitOfWork.{Op}
use noddde.Persistence.{Snapshot}
use noddde.Drizzle.{
  DbError, DriverResult, Table, Runtime, is_unique_violation, get_rows_affected, or_else, serialize,
  deserialize, settle_uncaught,
}
use noddde.Drizzle.Events.{settle_insert}

pub record StateRow (J : Type 0) : Type 0 where
  pub name : String
  pub id : String
  pub state : J
  pub version : ℕ

pub record Versioned (J : Type 0) : Type 0 where
  pub state : J
  pub version : ℕ

abbrev pub of_key : {J : Type 0} → String → String → StateRow J → Bool
of_key name id row = (row.name == name) && (row.id == id)

abbrev pub of_version : {J : Type 0} → String → String → ℕ → StateRow J → Bool
of_version name id version row = of_key name id row && eqb row.version version

-- `message.includes(part)`
includes : String → String → Bool
includes message part = is_some (find? message part)

unfoldable pub is_saga_violation : DbError → Bool
unfolding includes
is_saga_violation error =
    includes error.message "UNIQUE constraint failed"
    || includes error.message "unique constraint"
    || includes error.message "Duplicate entry"
    || includes error.message "duplicate key"

unfoldable pub saga_rows_affected : DriverResult → ℕ
saga_rows_affected r =
    or_default
      (or_else r.rows_affected
        (or_else r.changes (or_else r.row_count (or_else r.affected_rows r.first_affected_rows))))
      0

-- an update that changed no row is a conflict
unfoldable pub settle_update :
    {D : Type 0}
    → (DriverResult → ℕ)
    → String
    → String
    → ℕ
    → DriverResult × D
    → Result (Unit {0}) × D
settle_update affected name id expected (result, d) =
    (if eqb (affected result) 0 then err (version_conflict name id expected) else ok tt, d)

module _ {J D : Type 0} (runtime : Runtime J) (native_json : Bool)
    (table : Table D (StateRow J)) where
  -- `save` of the aggregates and of the sagas, on the two tests in which they differ
  unfoldable pub save_versioned :
      (DbError → Bool) → (DriverResult → ℕ) → String → String → J → ℕ → Op D
  unfolding settle_update
  save_versioned is_conflict affected name id state expected d =
      let column = serialize runtime native_json state in
      if eqb expected 0
      then settle_insert is_conflict name id expected
          (table.insert (record { name = name; id = id; state = column; version = 1 } ∷ []) d)
      else settle_update affected name id expected (
          table.update (λ r. record r { state = column; version = expected + 1 })
            (of_version name id expected) d)

  unfoldable pub save_state : (String → Bool) → String → String → J → ℕ → Op D
  save_state matches = save_versioned (is_unique_violation matches) get_rows_affected

  unfoldable pub save_saga : String → String → J → ℕ → Op D
  save_saga = save_versioned is_saga_violation saga_rows_affected

  versioned_of : List (StateRow J) → Result (Option (Versioned J))
  versioned_of [] = ok none
  versioned_of (row ∷ rows) = do
    state ← deserialize runtime row.state
    ok (some (record { state = state; version = row.version }))

  -- `load` of the aggregates, of the sagas and of the snapshots
  unfoldable pub load_versioned : String → String → D → Result (Option (Versioned J))
  unfolding versioned_of
  load_versioned name id d = versioned_of (table.select (of_key name id) none d)

  -- A state that is a text is stored as it is, where the others become JSON.
  snapshot_column : J → J
  snapshot_column state =
      if native_json
      then state
      else if is_some (runtime.as_string state)
      then state
      else serialize runtime native_json state

  save_existing : List (StateRow J) → String → String → Snapshot J → Op D
  save_existing [] name id snapshot d = settle_uncaught (
      table.insert
        (record {
          name = name;
          id = id;
          state = snapshot_column snapshot.state;
          version = snapshot.version;
        }
          ∷ [])
        d)
  save_existing (row ∷ rows) name id snapshot d = (
    ok tt,
    (table.update
        (λ r. record r { state = snapshot_column snapshot.state; version = snapshot.version })
        (of_key name id) d).1,
  )

  unfoldable pub save_snapshot : String → String → Snapshot J → Op D
  unfolding snapshot_column save_existing settle_uncaught
  save_snapshot name id snapshot d =
      save_existing (table.select (of_key name id) none d) name id snapshot d
