-- ===== src/TextRows.antt =====
-- What the stores of packages/adapters/typeorm/src/persistence.ts and
-- packages/adapters/prisma/src/persistence.ts write alike: columns of JSON text, and metadata that
-- is `null` when there is none. `Runtime` is that of the stores over drizzle-orm.
pub mod Laws
use noddde.Base.{
  ℕ, ◌+◌, String, List, [], ◌∷◌, Option, none, some, Bool, ◌&&◌, ltb, ◌==◌, if◌then◌else◌,
}
use noddde.Result.{Result, ok, err, ◌>>=◌}
use noddde.Event.{Event, Metadata}
use noddde.Drizzle.{Runtime}
use noddde.Drizzle.Events.{created_at_of}
use noddde.Drizzle.States.{StateRow, Versioned}

pub record TextRow : Type 0 where
  pub aggregate_name : String
  pub aggregate_id : String
  pub sequence_number : ℕ
  pub event_name : String
  pub payload : String
  pub metadata : Option String
  pub created_at : ℕ

abbrev pub in_stream : String → String → TextRow → Bool
in_stream name id row = (row.aggregate_name == name) && (row.aggregate_id == id)

abbrev pub is_after : String → String → ℕ → TextRow → Bool
is_after name id after row = in_stream name id row && ltb after row.sequence_number

module _ {J : Type 0} (runtime : Runtime J) where
  -- `event.metadata ? JSON.stringify(event.metadata) : null`
  metadata_column : Option Metadata → Option String
  metadata_column none = none
  metadata_column (some m) = some (runtime.stringify (runtime.of_metadata (some m)))

  unfoldable pub text_row : String → String → ℕ → Event J → TextRow
  unfolding metadata_column created_at_of
  text_row name id sequence_number event = record {
    aggregate_name = name;
    aggregate_id = id;
    sequence_number = sequence_number;
    event_name = event.name;
    payload = runtime.stringify event.payload;
    metadata = metadata_column event.metadata;
    created_at = created_at_of runtime event.metadata;
  }

  -- `events.map((event, index) => ...)`, from an index on
  unfoldable pub text_rows : String → String → ℕ → ℕ → List (Event J) → List TextRow
  text_rows name id expected index [] = []
  text_rows name id expected index (event ∷ events) =
      text_row name id (expected + index + 1) event ∷ text_rows name id expected (index + 1) events

  read_metadata : Option String → Result (Option Metadata)
  read_metadata none = ok none
  read_metadata (some text) =
      if text == ""
      then ok none
      else runtime.parse text >>= (λ value. ok (runtime.to_metadata value))

  unfoldable pub read_row : TextRow → Result (Event J)
  unfolding read_metadata
  read_row row = do
    payload ← runtime.parse row.payload
    metadata ← read_metadata row.metadata
    ok (record { name = row.event_name; payload = payload; metadata = metadata })

  -- `rows.map((row) => ...)`
  unfoldable pub read_rows : List TextRow → Result (List (Event J))
  read_rows [] = ok []
  read_rows (row ∷ rows) = do event ← read_row row; events ← read_rows rows; ok (event ∷ events)

  -- `if (!row) return null`, then the state of the row and its version
  unfoldable pub read_state : List (StateRow String) → Result (Option (Versioned J))
  read_state [] = ok none
  read_state (row ∷ rows) = do
    state ← runtime.parse row.state
    ok (some (record { state = state; version = row.version }))
