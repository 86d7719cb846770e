-- ===== src/Wiring.antt =====
-- The parts of `init` in packages/engine/src/domain.ts that decide what happens to events: the
-- handlers of projections with their default ids, the check that they have view stores, and the
-- callbacks `onEventsProduced` and `onEventsDispatched`. A view
-- store is a parameter, and so are the ids of outbox entries and the clock.
pub mod Expected
pub mod Produced
pub mod Views
mod Tests
use noddde.Base.{ℕ, suc, String, List, [], ◌∷◌, Option, none, some, Bool, is_some, if◌then◌else◌}
use noddde.Result.{Result, ok, err, thrown, no_view_id, ◌>>=◌}
use noddde.Event.{Event, Metadata}
use noddde.Map.{Map, get}
use noddde.UnitOfWork.{Action, Op, after, UnitOfWork, enlist}
use noddde.Outbox.{OutboxEntry}
use noddde.Projection.{Reduced, view, deletion}
use noddde.Scoped.{event_ids}

-- what `factory.getForContext(uow.context)` gives
pub record ScopedViews (W V : Type 0) : Type 0 where
  pub load : String → Action W (Option V)
  pub save : String → V → Op W
  pub delete : String → Op W

pub record ViewHandler (V P : Type 0) : Type 0 where
  pub id : Option (Event P → Result String)
  pub reduce : Event P → Option V → Result (Reduced V)

pub record WiredProjection (W V P : Type 0) : Type 0 where
  pub name : String
  pub strong : Bool
  pub on : Map (ViewHandler V P)
  pub initial_view : Option V
  pub views : Option (ScopedViews W V)

module _ {P : Type 0} where
  -- the extractor of a handler that has none
  unfoldable pub default_id : Event P → Result String
  default_id event = elim event.metadata [
    | none ↦ err (no_view_id event.name)
    | some m ↦ elim m.aggregate_id [ none ↦ err (no_view_id event.name) | some id ↦ ok id ]
  ]

module _ {V P : Type 0} where
  augment_handler : ViewHandler V P → ViewHandler V P
  augment_handler h = elim h.id [ none ↦ record h { id = some default_id } | some id ↦ h ]

  unfoldable pub augment_on : Map (ViewHandler V P) → Map (ViewHandler V P)
  unfolding augment_handler
  augment_on [] = []
  augment_on ((name, h) ∷ handlers) = (name, augment_handler h) ∷ augment_on handlers

module _ {W V P : Type 0} where
  -- A projection without a view store keeps its handlers.
  unfoldable pub resolve_projection : WiredProjection W V P → WiredProjection W V P
  resolve_projection p = elim p.views [ none ↦ p | some views ↦ record p { on = augment_on p.on } ]

  -- A strong projection without a view store stops the wiring, with an error that is known by its name.
  unfoldable pub check_projections : List (WiredProjection W V P) → Result (Unit {0})
  check_projections [] = ok tt
  check_projections (p ∷ projections) =
      let rest = check_projections projections in
      if is_some p.views then rest else if p.strong then err (thrown p.name) else rest

module _ {W V : Type 0} where
  -- delete or save
  write_scoped : ScopedViews W V → String → Reduced V → Op W
  write_scoped views id (view v) = views.save id v
  write_scoped views id deletion = views.delete id

-- `(await scoped.load(viewId)) ?? projection.initialView`
or_initial : {V : Type 0} → Option V → Option V → Option V
or_initial none initial = initial
or_initial (some v) initial = some v

module _ {W V P : Type 0} where
  -- the thunk that is enlisted for an event
  unfoldable pub update_view :
      ScopedViews W V → Option V → ViewHandler V P → Event P → String → Op W
  unfolding write_scoped or_initial
  update_view views initial h event id w = after (views.load id w) (λ current w.
      after (h.reduce event (or_initial current initial), w)
        (λ reduced. write_scoped views id reduced))

module _ {W V P : Type 0} where
  enlist_update :
      ScopedViews W V
      → Option V
      → ViewHandler V P
      → Option (Event P → Result String)
      → Event P
      → UnitOfWork W (Event P)
      → Result (UnitOfWork W (Event P))
  enlist_update views initial h none event u = ok u
  enlist_update views initial h (some id_of) event u = do
    id ← id_of event
    enlist u (update_view views initial h event id)

  enlist_handler :
      ScopedViews W V
      → Option V
      → Option (ViewHandler V P)
      → Event P
      → UnitOfWork W (Event P)
      → Result (UnitOfWork W (Event P))
  enlist_handler views initial none event u = ok u
  enlist_handler views initial (some h) event u = enlist_update views initial h h.id event u

  -- the inner loop of `onEventsProduced`
  unfoldable pub enlist_events :
      ScopedViews W V
      → WiredProjection W V P
      → List (Event P)
      → UnitOfWork W (Event P)
      → Result (UnitOfWork W (Event P))
  unfolding enlist_handler enlist_update
  enlist_events views p [] u = ok u
  enlist_events views p (event ∷ events) u = do
    u' ← enlist_handler views p.initial_view (get p.on event.name) event u
    enlist_events views p events u'

  enlist_projection :
      Option (ScopedViews W V)
      → WiredProjection W V P
      → List (Event P)
      → UnitOfWork W (Event P)
      → Result (UnitOfWork W (Event P))
  enlist_projection none p events u = ok u
  enlist_projection (some views) p events u =
      if p.strong then enlist_events views p events u else ok u

  -- the loop over `strongProjections`, those that are strong and have a view store
  unfoldable pub enlist_views :
      List (WiredProjection W V P)
      → List (Event P)
      → UnitOfWork W (Event P)
      → Result (UnitOfWork W (Event P))
  unfolding enlist_projection
  enlist_views [] events u = ok u
  enlist_views (p ∷ projections) events u = do
    u' ← enlist_projection p.views p events u
    enlist_views projections events u'

aggregate_name_of : Option Metadata → Option String
aggregate_name_of none = none
aggregate_name_of (some m) = m.aggregate_name

aggregate_id_of : Option Metadata → Option String
aggregate_id_of none = none
aggregate_id_of (some m) = m.aggregate_id

module _ {P : Type 0} (new_id : ℕ → String) (now : ℕ) where
  -- `events.map((event) => ({ id: uuidv7(), … }))`, from an index on
  unfoldable pub outbox_entries : ℕ → List (Event P) → List (OutboxEntry P)
  unfolding aggregate_name_of aggregate_id_of
  outbox_entries index [] = []
  outbox_entries index (event ∷ events) =
      record {
        id = new_id index;
        event = event;
        aggregate_name = aggregate_name_of event.metadata;
        aggregate_id = aggregate_id_of event.metadata;
        created_at = now;
        published_at = none;
      }
      ∷ outbox_entries (suc index) events

module _ {W P : Type 0} (new_id : ℕ → String) (now : ℕ) where
  enlist_outbox :
      Option (List (OutboxEntry P) → Op W)
      → List (Event P)
      → UnitOfWork W (Event P)
      → Result (UnitOfWork W (Event P))
  enlist_outbox none events u = ok u
  enlist_outbox (some save) [] u = ok u
  enlist_outbox (some save) (event ∷ events) u =
      enlist u (save (outbox_entries new_id now 0 (event ∷ events)))

module _ {W V P : Type 0} (new_id : ℕ → String) (now : ℕ) where
  unfoldable pub on_events_produced :
      List (WiredProjection W V P)
      → Option (List (OutboxEntry P) → Op W)
      → List (Event P)
      → UnitOfWork W (Event P)
      → Result (UnitOfWork W (Event P))
  unfolding enlist_outbox
  on_events_produced projections outbox events u = do
    u' ← enlist_views projections events u
    enlist_outbox new_id now outbox events u'

mark_dispatched : {W : Type 0} → (List String → Op W) → List String → Op W
mark_dispatched mark [] w = (ok tt, w)
mark_dispatched mark (id ∷ ids) w = mark (id ∷ ids) w

unfoldable pub on_events_dispatched : {W P : Type 0} → (List String → Op W) → List (Event P) → Op W
unfolding mark_dispatched
on_events_dispatched mark events = mark_dispatched mark (event_ids events)
