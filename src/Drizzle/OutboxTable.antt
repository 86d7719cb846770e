-- ===== src/Drizzle/OutboxTable.antt =====
-- The outbox of packages/adapters/drizzle/src/persistence.ts. A timestamp stands for its text,
-- which sorts as it does, and the column of an event for the event. A time is read back as the time
-- that was written, which holds where the local time is UTC: the text that is written names no zone,
-- and `new Date` reads it as local time.
use noddde.Base.{
  ℕ, String, List, [], ◌∷◌, Option, none, some, Bool, true, false, ◌&&◌, not, ltb, map, take,
}
use noddde.Result.{ok}
use noddde.UnitOfWork.{Op}
use noddde.Outbox.{OutboxEntry, event_id_of, contains, is_unpublished}
use noddde.Drizzle.{Table, settle_uncaught}

pub record OutboxRow (P : Type 0) : Type 0 where
  pub entry : OutboxEntry P
  pub event_id : Option String

module _ {P D : Type 0} (outbox : Table D (OutboxRow P)) (now : ℕ) where
  outbox_row : OutboxEntry P → OutboxRow P
  outbox_row e = record { entry = e; event_id = event_id_of e.event.metadata }

  unfoldable pub save_entries : List (OutboxEntry P) → Op D
  unfolding settle_uncaught outbox_row
  save_entries [] d = (ok tt, d)
  save_entries (e ∷ es) d = settle_uncaught (outbox.insert (map outbox_row (e ∷ es)) d)

  -- `limit(batchSize)`, where no entry that was published is selected
  unfoldable pub load_unpublished_rows : ℕ → D → List (OutboxEntry P)
  load_unpublished_rows batch_size d =
      map (λ r. r.entry)
        (take batch_size
          (outbox.select (λ r. is_unpublished r.entry) (some (λ r. r.entry.created_at)) d))

  publish_row : OutboxRow P → OutboxRow P
  publish_row r = record r { entry = record r.entry { published_at = some now } }

  unfoldable pub mark_rows : List String → D → D
  unfolding publish_row
  mark_rows [] d = d
  mark_rows (id ∷ ids) d = (outbox.update publish_row (λ r. contains (id ∷ ids) r.entry.id) d).1

  is_marked : List String → OutboxRow P → Bool
  is_marked event_ids r =
      elim r.event_id [ none ↦ false | some id ↦ contains event_ids id ] && is_unpublished r.entry

  unfoldable pub mark_rows_by_event_ids : List String → D → D
  unfolding publish_row is_marked
  mark_rows_by_event_ids [] d = d
  mark_rows_by_event_ids (id ∷ ids) d = (outbox.update publish_row (is_marked (id ∷ ids)) d).1

  is_deleted : Option ℕ → OutboxRow P → Bool
  is_deleted older_than r =
      not (is_unpublished r.entry)
      && elim older_than [ none ↦ true | some t ↦ ltb r.entry.created_at t ]

  unfoldable pub delete_rows : Option ℕ → D → D
  unfolding is_deleted
  delete_rows older_than d = outbox.delete (is_deleted older_than) d
