-- ===== src/Wiring/Tests.antt =====
-- A run of the callback behind a decision, and its property at a concrete input. The world is an
-- in-memory view store, in which the outbox has a view of its own.
use noddde.Base.{ℕ, String, ◌≡◌, refl, List, [], ◌∷◌, none, some, true, false}
use noddde.Result.{ok, err, thrown, no_view_id}
use noddde.Event.{Event, Metadata}
use noddde.Map.{get, set}
use noddde.UnitOfWork.{Op, after, UnitOfWork, enlist, run_operations}
use noddde.Outbox.{OutboxEntry}
use noddde.Projection.{ViewStore, view, save_view, load_view}
use noddde.Wiring.{
  ViewHandler, WiredProjection, update_view, default_id, augment_on, resolve_projection,
  check_projections, enlist_views, enlist_events, on_events_produced, outbox_entries,
}
use noddde.Wiring.Produced.{apply_views, write_outbox, then_run, on_events_produced-runs}
use noddde.Wiring.Views.{memory_views}

abbrev metadata : Metadata
metadata = record {
  event_id = "e1";
  timestamp = "";
  correlation_id = "";
  causation_id = "";
  user_id = none;
  version = none;
  aggregate_name = some "Account";
  aggregate_id = some "a1";
  sequence_number = none;
  traceparent = none;
  tracestate = none;
}

abbrev opened : Event String
opened = record { name = "Opened"; payload = "opened"; metadata = some metadata }

abbrev without_metadata : Event String
without_metadata = record opened { metadata = none }

abbrev handler : ViewHandler String String
handler = record { id = none; reduce = λ event current. ok (view event.payload) }

abbrev projection : WiredProjection (ViewStore String) String String
projection = record {
  name = "Accounts";
  strong = true;
  on = ("Opened", handler) ∷ [];
  initial_view = none;
  views = some memory_views;
}

abbrev projections : List (WiredProjection (ViewStore String) String String)
projections = resolve_projection projection ∷ []

abbrev save_entries : List (OutboxEntry String) → Op (ViewStore String)
save_entries [] w = (ok tt, w)
save_entries (e ∷ es) w = (ok tt, save_view w e.id e.event.name)

abbrev new_id : ℕ → String
new_id n = "outbox"

abbrev empty : UnitOfWork (ViewStore String) (Event String)
empty = record { operations = []; pending_events = []; completed = false }

abbrev update : Op (ViewStore String)
update w = update_view memory_views none (record handler { id = some default_id }) opened "a1" w

abbrev write : Op (ViewStore String)
write = save_entries (outbox_entries new_id 7 0 (opened ∷ []))

abbrev produced : UnitOfWork (ViewStore String) (Event String)
produced = record { operations = update ∷ write ∷ []; pending_events = []; completed = false }

enlisted :
    on_events_produced new_id 7 projections (some save_entries) (opened ∷ []) empty ≡ ok produced
unfolding on_events_produced enlist_views enlist_events resolve_projection augment_on get enlist
    default_id
enlisted = refl

on_events_produced-runs_example :
    run_operations produced.operations []
    ≡ after (run_operations empty.operations []) (λ _.
      then_run
        (apply_views projections (opened ∷ []))
        (write_outbox new_id 7 (some save_entries) (opened ∷ [])))
on_events_produced-runs_example =
    on_events_produced-runs new_id 7 projections (some save_entries) (opened ∷ []) empty produced []
      enlisted

written :
    run_operations produced.operations [] ≡ (ok tt, ("a1", "opened") ∷ ("outbox", "Opened") ∷ [])
unfolding run_operations update_view save_view load_view get set outbox_entries
written = refl

no_metadata :
    on_events_produced new_id 7 projections (some save_entries) (without_metadata ∷ []) empty
    ≡ err (no_view_id "Opened")
unfolding on_events_produced enlist_views enlist_events resolve_projection augment_on get default_id
no_metadata = refl

unwired : check_projections (record projection { views = none } ∷ []) ≡ err (thrown "Accounts")
unfolding check_projections
unwired = refl
