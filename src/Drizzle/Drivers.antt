-- ===== src/Drizzle/Drivers.antt =====
-- The saga store of packages/adapters/drizzle/src/persistence.ts over drizzle-orm/postgres-js.
use noddde.Base.{ℕ, ◌+◌, ◌<◌, String, ◌≡◌, refl, none, some, Bool, keep, [], ◌∷◌}
use noddde.Result.{err, version_conflict}
use noddde.Drizzle.{DriverResult, Table, Runtime, serialize}
use noddde.Drizzle.States.{StateRow, of_key, is_saga_violation, saga_rows_affected, save_saga}
use noddde.Drizzle.Tables.{IsTable}
use noddde.Drizzle.Versions.{same_key, unread_count-conflict}

-- postgres-js reports how many rows an update changed as `count`, and in no other field
abbrev pub postgres_js : ℕ → DriverResult
postgres_js n = record {
  rows_affected = none;
  changes = none;
  row_count = none;
  count = some n;
  affected_rows = none;
  first_affected_rows = none;
}

module _ {J D : Type 0} (runtime : Runtime J) (native_json : Bool) (table : Table D (StateRow J))
    (laws : IsTable same_key is_saga_violation postgres_js table) where
  -- Over postgres-js, a save of a stored saga that expects the version of its row rejects with a
  -- conflict, although it has changed the row to the new state and the next version.
  pub save_saga-postgres_js :
      (d : D) (name id : String) (state : J) (row : StateRow J)
      → keep (of_key name id) (laws.rows d) ≡ row ∷ []
      → 0 < row.version
      → (let (r, d') = save_saga runtime native_json table name id state row.version d in
          (r ≡ err (version_conflict name id row.version))
          × (keep (of_key name id) (laws.rows d')
              ≡ record {
                name = row.name;
                id = row.id;
                state = serialize runtime native_json state;
                version = row.version + 1;
              }
                ∷ []))
  unfolding save_saga saga_rows_affected
  save_saga-postgres_js d name id state row h pos =
      unread_count-conflict runtime native_json postgres_js is_saga_violation saga_rows_affected
        table laws d name id state row refl h pos
