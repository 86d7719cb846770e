-- ===== src/Prisma.antt =====
-- packages/adapters/prisma/src/persistence.ts. A delegate of the client is the parameter `Table`:
-- `createMany` and `create` are `insert`, `findMany` and `findUnique` are `select`, `updateMany` is
-- `update`, whose answer has the `count` that the parameter reads. Statements other than an insert
-- are taken to succeed.
pub mod Agreement
mod Tests
use noddde.Base.{
  ℕ, ◌+◌, String, List, [], ◌∷◌, Option, none, some, Bool, true, false, ◌&&◌, not, ltb, eqb, ◌==◌,
  map, take, if◌then◌else◌,
}
use noddde.Result.{Result, ok, err, thrown, version_conflict}
use noddde.Event.{Event}
use noddde.UnitOfWork.{Op}
use noddde.Persistence.{Snapshot}
use noddde.Outbox.{OutboxEntry, event_id_of, contains, is_unpublished}
use noddde.Drizzle.{DbError, DriverResult, Table, Runtime, settle_uncaught}
use noddde.Drizzle.States.{StateRow, Versioned, of_key, of_version}
use noddde.Drizzle.OutboxTable.{OutboxRow}
use noddde.TextRows.{TextRow, text_rows, read_rows, read_state, in_stream, is_after}

-- `error instanceof Error && "code" in error && error.code === "P2002"`
unfoldable pub is_p2002 : DbError → Bool
is_p2002 error = elim error.code [ none ↦ false | some c ↦ c == "P2002" ]

-- the catch around a `create`
unfoldable pub settle_create :
    {D : Type 0} → String → String → ℕ → Option DbError × D → Result (Unit {0}) × D
settle_create name id expected (none, d) = (ok tt, d)
settle_create name id expected (some error, d) =
    (err (if is_p2002 error then version_conflict name id expected else thrown error.message), d)

module _ {J D : Type 0} (runtime : Runtime J) (events_table : Table D TextRow) where
  unfoldable pub save_events : String → String → List (Event J) → ℕ → Op D
  unfolding settle_create
  save_events name id [] expected d = (ok tt, d)
  save_events name id (e ∷ events) expected d =
      settle_create name id expected
        (events_table.insert (text_rows runtime name id expected 0 (e ∷ events)) d)

  unfoldable pub load_events : String → String → D → Result (List (Event J))
  load_events name id d =
      read_rows runtime (events_table.select (in_stream name id) (some (λ r. r.sequence_number)) d)

  unfoldable pub load_events_after : String → String → ℕ → D → Result (List (Event J))
  load_events_after name id after d =
      read_rows runtime
        (events_table.select (is_after name id after) (some (λ r. r.sequence_number)) d)

module _ {J D : Type 0} (runtime : Runtime J) (count : DriverResult → ℕ)
    (table : Table D (StateRow String)) where
  unfoldable pub save_state : String → String → J → ℕ → Op D
  unfolding settle_create
  save_state name id state expected d =
      let serialized = runtime.stringify state in
      if eqb expected 0
      then settle_create name id 0
          (table.insert (record { name = name; id = id; state = serialized; version = 1 } ∷ []) d)
      else let (answer, d') =
          table.update (λ r. record r { state = serialized; version = expected + 1 })
            (of_version name id expected) d in
        (if eqb (count answer) 0 then err (version_conflict name id expected) else ok tt, d')

  unfoldable pub load_state : String → String → D → Result (Option (Versioned J))
  load_state name id d = read_state runtime (table.select (of_key name id) none d)

  unfoldable pub save_saga : String → String → J → ℕ → Op D
  unfolding settle_create
  save_saga name id state expected d =
      let serialized = runtime.stringify state in
      if eqb expected 0
      then settle_create name id 0
          (table.insert (record { name = name; id = id; state = serialized; version = 1 } ∷ []) d)
      else let (answer, d') =
          table.update (λ r. record r { state = serialized; version = expected + 1 })
            (of_version name id expected) d in
        (if eqb (count answer) 0 then err (version_conflict name id expected) else ok tt, d')

  unfoldable pub load_saga : String → String → D → Result (Option (Versioned J))
  load_saga name id d = read_state runtime (table.select (of_key name id) none d)

  unfoldable pub load_snapshot : String → String → D → Result (Option (Versioned J))
  load_snapshot name id d = read_state runtime (table.select (of_key name id) none d)

  save_existing : List (StateRow String) → String → String → Snapshot J → Op D
  save_existing [] name id snapshot d = settle_uncaught (
      table.insert
        (record {
          name = name;
          id = id;
          state = runtime.stringify snapshot.state;
          version = snapshot.version;
        }
          ∷ [])
        d)
  save_existing (row ∷ rows) name id snapshot d = (
    ok tt,
    (table.update
        (λ r. record r { state = runtime.stringify snapshot.state; version = snapshot.version })
        (of_key name id) d).1,
  )

  unfoldable pub save_snapshot : String → String → Snapshot J → Op D
  unfolding save_existing settle_uncaught
  save_snapshot name id snapshot d =
      save_existing (table.select (of_key name id) none d) name id snapshot d

-- A row of the outbox holds its entry, the event for its text, and the id of the event.
module _ {P D : Type 0} (outbox : Table D (OutboxRow P)) (now : ℕ) where
  outbox_row : OutboxEntry P → OutboxRow P
  outbox_row e = record { entry = e; event_id = event_id_of e.event.metadata }

  unfoldable pub save_entries : List (OutboxEntry P) → Op D
  unfolding settle_uncaught outbox_row
  save_entries [] d = (ok tt, d)
  save_entries (e ∷ es) d = settle_uncaught (outbox.insert (map outbox_row (e ∷ es)) d)

  unfoldable pub load_unpublished : ℕ → D → List (OutboxEntry P)
  load_unpublished batch_size d =
      map (λ r. r.entry)
        (take batch_size
          (outbox.select (λ r. is_unpublished r.entry) (some (λ r. r.entry.created_at)) d))

  unfoldable pub publish_row : OutboxRow P → OutboxRow P
  publish_row r = record r { entry = record r.entry { published_at = some now } }

  unfoldable pub mark_published : List String → D → D
  mark_published [] d = d
  mark_published (id ∷ ids) d =
      (outbox.update publish_row (λ r. contains (id ∷ ids) r.entry.id) d).1

  -- `eventId: { in: eventIds }, publishedAt: null`
  unfoldable pub is_marked : List String → OutboxRow P → Bool
  is_marked event_ids r =
      elim r.event_id [ none ↦ false | some id ↦ contains event_ids id ] && is_unpublished r.entry

  unfoldable pub mark_published_by_event_ids : List String → D → D
  mark_published_by_event_ids [] d = d
  mark_published_by_event_ids (id ∷ ids) d = (outbox.update publish_row (is_marked (id ∷ ids)) d).1

  is_deleted : Option ℕ → OutboxRow P → Bool
  is_deleted older_than r =
      not (is_unpublished r.entry)
      && elim older_than [ none ↦ true | some t ↦ ltb r.entry.created_at t ]

  unfoldable pub delete_published : Option ℕ → D → D
  unfolding is_deleted
  delete_published older_than d = outbox.delete (is_deleted older_than) d
