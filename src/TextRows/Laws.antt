-- ===== src/TextRows/Laws.antt =====
-- Events that are written as rows of text are read back as they were.
use noddde.Base.{ℕ, ◌+◌, String, ◌≡◌, refl, List, [], ◌∷◌, Option, none, some, false, ◌==◌, All}
use noddde.Result.{ok}
use noddde.Event.{Event, Metadata}
use noddde.Drizzle.{Runtime}
use noddde.TextRows.{text_row, text_rows, metadata_column, read_metadata, read_row, read_rows}

-- What is documented of `JSON` for values that it keeps: parsing undoes printing, and no value
-- is printed as an empty text.
pub record IsPrinted {J : Type 0} (runtime : Runtime J) (value : J) : Type 0 where
  pub parses : runtime.parse (runtime.stringify value) ≡ ok value
  pub not_empty : (runtime.stringify value == "") ≡ false

module _ {J : Type 0} (runtime : Runtime J) where
  -- the payload of an event and its metadata are kept by JSON
  abbrev pub IsKept : Event J → Type 0
  IsKept event =
      IsPrinted runtime event.payload
      × (IsPrinted runtime (runtime.of_metadata event.metadata)
          × (runtime.to_metadata (runtime.of_metadata event.metadata) ≡ event.metadata))

  read_metadata-metadata_column :
      (m : Option Metadata)
      → IsPrinted runtime (runtime.of_metadata m)
      → runtime.to_metadata (runtime.of_metadata m) ≡ m
      → read_metadata runtime (metadata_column runtime m) ≡ ok m
  unfolding read_metadata metadata_column
  read_metadata-metadata_column none printed back = refl
  read_metadata-metadata_column (some m) printed back =
      rw (printed.not_empty, printed.parses, back) refl

  read_row-text_row :
      (name id : String) (n : ℕ) (event : Event J)
      → IsKept event
      → read_row runtime (text_row runtime name id n event) ≡ ok event
  unfolding read_row text_row
  read_row-text_row name id n event kept =
      let read = read_metadata-metadata_column event.metadata kept.1.0 kept.1.1 in
      rw (kept.0.parses, read) refl

  -- Events that JSON keeps are read back from the rows that a save writes of them, in their order.
  pub read_rows-text_rows :
      (name id : String) (expected index : ℕ) (events : List (Event J))
      → All IsKept events
      → read_rows runtime (text_rows runtime name id expected index events) ≡ ok events
  unfolding read_rows text_rows
  read_rows-text_rows name id expected index [] kept = refl
  read_rows-text_rows name id expected index (event ∷ events) kept =
      let first = read_row-text_row name id (expected + index + 1) event kept.0 in
      let rest = read_rows-text_rows name id expected (index + 1) events kept.1 in
      rw (first, rest) refl
