-- ===== src/Outbox/Tests.antt =====
-- Runs of the outbox, and the properties at concrete inputs.
use mathlib.Core.List.{Perm}
use noddde.Base.{
  ℕ, String, ◌≡◌, refl, Option, none, some, List, [], ◌∷◌, ◌&&◌, ltb, keep, take, if◌then◌else◌,
}
use noddde.Event.{Metadata}
use noddde.Map.{get, values}
use noddde.Outbox.{
  OutboxEntry, OutboxStore, is_unpublished, load_unpublished, mark_published_by_event_ids,
  delete_published, insert_entry, sort_entries,
}
use noddde.Outbox.Loading.{IsSorted, load_unpublished-oldest}
use noddde.Outbox.Marking.{event_in, get-mark_published_by_event_ids, get-delete_published}

abbrev with_id : String → Metadata
with_id id = record {
  event_id = id;
  timestamp = "t";
  correlation_id = "c";
  causation_id = "d";
  user_id = none;
  version = none;
  aggregate_name = none;
  aggregate_id = none;
  sequence_number = none;
  traceparent = none;
  tracestate = none;
}

abbrev entry : String → ℕ → Option ℕ → OutboxEntry ℕ
entry id created published = record {
  id = id;
  event = record { name = "Deposited"; payload = created; metadata = some (with_id id) };
  aggregate_name = some "Account";
  aggregate_id = some "1";
  created_at = created;
  published_at = published;
}

abbrev store : OutboxStore ℕ
store = ("a", entry "a" 30 none) ∷ ("b", entry "b" 10 (some 12)) ∷ ("c", entry "c" 20 none) ∷ []

oldest_first_test : load_unpublished store 1 ≡ entry "c" 20 none ∷ []
unfolding load_unpublished sort_entries insert_entry values
oldest_first_test = refl

load_unpublished-oldest_test :
    (es : List (OutboxEntry ℕ)) × Perm (keep is_unpublished (values store)) es
    × IsSorted es
    × (load_unpublished store 2 ≡ take 2 es)
load_unpublished-oldest_test = load_unpublished-oldest store 2

get-mark_published_by_event_ids_test :
    get (mark_published_by_event_ids store ("c" ∷ "b" ∷ []) 99) "c" ≡ elim (get store "c") [
      | none ↦ none
      | some e ↦
          if is_unpublished e && event_in ("c" ∷ "b" ∷ []) e
          then some (record e { published_at = some 99 })
          else some e
    ]
get-mark_published_by_event_ids_test = get-mark_published_by_event_ids store ("c" ∷ "b" ∷ []) 99 "c"

abbrev limit : Option ℕ
limit = some 15

get-delete_published_test : get (delete_published store limit) "b" ≡ elim (get store "b") [
  | none ↦ none
  | some e ↦
      if is_unpublished e
      then some e
      else elim limit [ none ↦ none | some t ↦ if ltb e.created_at t then none else some e ]
]
unfolding get
get-delete_published_test = get-delete_published store limit "b" (refl, (refl, (refl, tt)))
