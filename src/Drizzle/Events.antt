-- ===== src/Drizzle/Events.antt =====
-- The event store of packages/adapters/drizzle/src/persistence.ts, of which a table of rows is
-- the only state.
use noddde.Base.{
  ℕ, ◌+◌, String, List, [], ◌∷◌, Option, none, some, Bool, ◌&&◌, ltb, ◌==◌, if◌then◌else◌,
}
use noddde.Result.{Result, ok, err, thrown, version_conflict, ◌>>=◌}
use noddde.Event.{Event, Metadata}
use noddde.UnitOfWork.{Op}
use noddde.Drizzle.{DbError, Table, Runtime, is_unique_violation, serialize, deserialize}

pub record EventRow (J : Type 0) : Type 0 where
  pub aggregate_name : String
  pub aggregate_id : String
  pub sequence_number : ℕ
  pub event_name : String
  pub payload : J
  pub metadata : J
  pub created_at : ℕ

-- The catch around an insert.
unfoldable pub settle_insert :
    {D : Type 0}
    → (DbError → Bool)
    → String
    → String
    → ℕ
    → Option DbError × D
    → Result (Unit {0}) × D
settle_insert is_conflict name id expected (none, d) = (ok tt, d)
settle_insert is_conflict name id expected (some error, d) =
    (err (if is_conflict error then version_conflict name id expected else thrown error.message), d)

module _ {J : Type 0} (runtime : Runtime J) where
  -- `event.metadata?.timestamp ? new Date(event.metadata.timestamp) : new Date()`
  unfoldable pub created_at_of : Option Metadata → ℕ
  created_at_of none = runtime.now
  created_at_of (some m) = if m.timestamp == "" then runtime.now else runtime.date_of m.timestamp

module _ {J : Type 0} (runtime : Runtime J) (native_json : Bool) where
  unfoldable pub to_row : String → String → ℕ → Event J → EventRow J
  unfolding created_at_of
  to_row name id sequence_number event = record {
    aggregate_name = name;
    aggregate_id = id;
    sequence_number = sequence_number;
    event_name = event.name;
    payload = serialize runtime native_json event.payload;
    metadata = serialize runtime native_json (runtime.of_metadata event.metadata);
    created_at = created_at_of runtime event.metadata;
  }

  -- the rows of the events from an index on
  unfoldable pub to_rows : String → String → ℕ → ℕ → List (Event J) → List (EventRow J)
  to_rows name id expected index [] = []
  to_rows name id expected index (event ∷ events) =
      to_row name id (expected + index + 1) event ∷ to_rows name id expected (index + 1) events

  unfoldable pub deserialize_event : EventRow J → Result (Event J)
  deserialize_event row = do
    payload ← deserialize runtime row.payload
    metadata ← deserialize runtime row.metadata
    ok (record {
      name = row.event_name;
      payload = payload;
      metadata = runtime.to_metadata metadata;
    })

  -- `rows.map(deserializeEvent)`
  unfoldable pub deserialize_all : List (EventRow J) → Result (List (Event J))
  deserialize_all [] = ok []
  deserialize_all (row ∷ rows) = do
    event ← deserialize_event row
    events ← deserialize_all rows
    ok (event ∷ events)

abbrev pub of_stream : {J : Type 0} → String → String → EventRow J → Bool
of_stream name id row = (row.aggregate_name == name) && (row.aggregate_id == id)

module _ {J D : Type 0} (runtime : Runtime J) (native_json : Bool) (matches : String → Bool)
    (events_table : Table D (EventRow J)) where
  unfoldable pub save : String → String → List (Event J) → ℕ → Op D
  unfolding settle_insert
  save name id [] expected d = (ok tt, d)
  save name id (e ∷ events) expected d =
      settle_insert (is_unique_violation matches) name id expected
        (events_table.insert (to_rows runtime native_json name id expected 0 (e ∷ events)) d)

  unfoldable pub load : String → String → D → Result (List (Event J))
  load name id d =
      deserialize_all runtime native_json
        (events_table.select (of_stream name id) (some (λ r. r.sequence_number)) d)

  unfoldable pub load_after_version : String → String → ℕ → D → Result (List (Event J))
  load_after_version name id after d = deserialize_all runtime native_json (
      events_table.select (λ r. of_stream name id r && ltb after r.sequence_number)
        (some (λ r. r.sequence_number)) d)
