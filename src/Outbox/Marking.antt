-- ===== src/Outbox/Marking.antt =====
-- What the outbox holds after its writes.
use noddde.Base.{
  ℕ, ◌+◌, String, ◌≡◌, List, [], ◌∷◌, Option, none, some, Bool, false, ◌&&◌, arith, ltb, eq_iff,
  ◌==◌, keep, length, if◌then◌else◌, Option-cases, inl, inr,
}
use noddde.Map.{get, set, values}
use noddde.Map.Laws.{IsMap, get-set, get-delete_if, get-update_all}
use noddde.Outbox.{
  OutboxEntry, OutboxStore, event_id_of, contains, is_unpublished, mark_published,
  mark_published_by_event_ids, delete_published,
}

module _ {P : Type 0} where
  abbrev pub event_in : List String → OutboxEntry P → Bool
  event_in ids e = elim (event_id_of e.event.metadata) [ none ↦ false | some id ↦ contains ids id ]

  -- Marking by event ids sets the time of exactly the unpublished entries whose event is named;
  -- every other entry, the published ones with their old time among them, is as it was.
  pub get-mark_published_by_event_ids :
      (store : OutboxStore P) (ids : List String) (now : ℕ) (key : String)
      → get (mark_published_by_event_ids store ids now) key ≡ elim (get store key) [
        | none ↦ none
        | some e ↦
            if is_unpublished e && event_in ids e
            then some (record e { published_at = some now })
            else some e
      ]
  unfolding mark_published_by_event_ids
  get-mark_published_by_event_ids store ids now key = rw get-update_all (ground arith)

  -- An entry is deleted exactly if it is published and older than the limit, where one is given:
  -- no unpublished entry is lost.
  pub get-delete_published :
      (store : OutboxStore P) (older_than : Option ℕ) (key : String)
      → IsMap store
      → get (delete_published store older_than) key ≡ elim (get store key) [
        | none ↦ none
        | some e ↦ if is_unpublished e then some e else elim older_than [
          | none ↦ none
          | some t ↦ if ltb e.created_at t then none else some e
        ]
      ]
  unfolding delete_published
  get-delete_published store older_than key h = rw (get-delete_if _ store key h) (ground arith)

  -- How many entries wait.
  abbrev pub pending : OutboxStore P → ℕ
  pending store = length (keep is_unpublished (values store))

  pending-set :
      (store : OutboxStore P) (id : String) (e : OutboxEntry P) (now : ℕ)
      → get store id ≡ some e
      → e.published_at ≡ none
      → pending (set store id (record e { published_at = some now })) + 1 ≡ pending store
  unfolding get set values
  pending-set [] id e now h u = ground arith
  pending-set ((k, x) ∷ store) id e now h u =
      ground (arith, pending-set store id e now, eq_iff k id)

  pub pending-mark_published :
      (store : OutboxStore P) (e : OutboxEntry P) (now : ℕ)
      → get store e.id ≡ some e
      → e.published_at ≡ none
      → pending (mark_published store (e.id ∷ []) now) + 1 ≡ pending store
  unfolding mark_published
  pending-mark_published store e now h u = ground (arith, h, pending-set store e.id e now h u)

  pub get-mark_published :
      (store : OutboxStore P) (id key : String) (now : ℕ)
      → get (mark_published store (id ∷ []) now) key ≡ (
          if id == key
          then elim (get store key) [
            | none ↦ none
            | some e ↦
                if is_unpublished e then some (record e { published_at = some now }) else some e
          ]
          else get store key)
  unfolding mark_published
  get-mark_published store id key now = elim (Option-cases (get store id)) [
    | inl e ↦ rw (e, mark_published) (ground (arith, e, eq_iff id key))
    | inr (found, e) ↦
        rw (e, mark_published)
          (ground (
            arith,
            e,
            eq_iff id key,
            get-set store id key (record found { published_at = some now }),
          ))
  ]
