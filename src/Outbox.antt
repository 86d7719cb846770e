-- ===== src/Outbox.antt =====
-- packages/engine/src/implementations/in-memory-outbox-store.ts. The clock is an argument. The
-- sort of the runtime is stable, so insertion gives its result.
pub mod Loading
pub mod Marking
mod Tests
use noddde.Base.{
  ℕ, String, List, [], ◌∷◌, Option, none, some, Bool, true, false, ltb, leb, ◌==◌, keep, take,
  if◌then◌else◌,
}
use noddde.Event.{Event, Metadata}
use noddde.Map.{Map, get, set, delete_if, update_all, values}

pub record OutboxEntry (P : Type 0) : Type 0 where
  pub id : String
  pub event : Event P
  pub aggregate_name : Option String
  pub aggregate_id : Option String
  pub created_at : ℕ
  pub published_at : Option ℕ

abbrev pub OutboxStore : Type 0 → Type 0
OutboxStore P = Map (OutboxEntry P)

-- `entry.event.metadata?.eventId`
abbrev pub event_id_of : Option Metadata → Option String
event_id_of none = none
event_id_of (some m) = some m.event_id

abbrev pub contains : List String → String → Bool
contains [] a = false
contains (x ∷ xs) a = if x == a then true else contains xs a

abbrev pub is_unpublished : {P : Type 0} → OutboxEntry P → Bool
is_unpublished e = elim e.published_at [ none ↦ true | some t ↦ false ]

has_event_id : List String → Option String → Bool
has_event_id ids none = false
has_event_id ids (some id) = contains ids id

module _ {P : Type 0} where
  unfoldable pub save : OutboxStore P → List (OutboxEntry P) → OutboxStore P
  save store [] = store
  save store (entry ∷ entries) = save (set store entry.id entry) entries

  -- `sort((a, b) => a.createdAt - b.createdAt)`
  unfoldable pub insert_entry : OutboxEntry P → List (OutboxEntry P) → List (OutboxEntry P)
  insert_entry e [] = e ∷ []
  insert_entry e (x ∷ xs) =
      if leb e.created_at x.created_at then e ∷ x ∷ xs else x ∷ insert_entry e xs

  unfoldable pub sort_entries : List (OutboxEntry P) → List (OutboxEntry P)
  sort_entries [] = []
  sort_entries (e ∷ es) = insert_entry e (sort_entries es)

  unfoldable pub load_unpublished : OutboxStore P → ℕ → List (OutboxEntry P)
  load_unpublished store batch_size =
      take batch_size (sort_entries (keep is_unpublished (values store)))

  mark_found : OutboxStore P → ℕ → String → Option (OutboxEntry P) → OutboxStore P
  mark_found store now id none = store
  mark_found store now id (some e) =
      if is_unpublished e then set store id (record e { published_at = some now }) else store

  unfoldable pub mark_published : OutboxStore P → List String → ℕ → OutboxStore P
  unfolding mark_found
  mark_published store [] now = store
  mark_published store (id ∷ ids) now =
      mark_published (mark_found store now id (get store id)) ids now

  mark_by : List String → ℕ → OutboxEntry P → OutboxEntry P
  unfolding has_event_id
  mark_by ids now e =
      if is_unpublished e
      then if has_event_id ids (event_id_of e.event.metadata)
        then record e { published_at = some now }
        else e
      else e

  unfoldable pub mark_published_by_event_ids : OutboxStore P → List String → ℕ → OutboxStore P
  unfolding mark_by
  mark_published_by_event_ids store event_ids now = update_all (mark_by event_ids now) store

  is_deletable : Option ℕ → OutboxEntry P → Bool
  is_deletable older_than e =
      if is_unpublished e
      then false
      else elim older_than [ none ↦ true | some t ↦ ltb e.created_at t ]

  unfoldable pub delete_published : OutboxStore P → Option ℕ → OutboxStore P
  unfolding is_deletable
  delete_published store older_than = delete_if (is_deletable older_than) store
