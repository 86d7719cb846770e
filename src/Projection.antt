-- ===== src/Projection.antt =====
-- packages/engine/src/implementations/in-memory-view-store.ts, the live projection handler and the
-- checks of `rebuildProjection` in packages/engine/src/domain.ts, and
-- packages/engine/src/projection-rebuild.ts. The bus is the in-memory one, reducers are functions
-- of the application that may throw, and the clock and log lines are left out.
pub mod Laws
mod Tests
use Prim.Native.Nat.{◌%◌}
use noddde.Base.{
  ℕ, zero, suc, String, List, [], ◌∷◌, Option, none, some, Bool, true, false, not, ◌==◌, eqb, keep,
  or_default, if◌then◌else◌,
}
use noddde.Result.{
  thrown, Result, ok, err, domain_shutdown, projection_not_found, strong_rebuild,
  missing_view_store, no_event_reader, not_truncatable, bad_progress_interval, no_view_id, ◌>>=◌,
  ◌>>◌,
}
use noddde.Event.{Event, Metadata}
use noddde.Map.{Map, get, set, delete, values}
use noddde.Upcaster.{UpcasterMap, upcast_event}
use noddde.Bus.{Handler, EventBus, on, off}

abbrev pub ViewStore : Type 0 → Type 0
ViewStore V = Map V

module _ {V : Type 0} where
  unfoldable pub save_view : ViewStore V → String → V → ViewStore V
  save_view store id view = set store id view

  unfoldable pub load_view : ViewStore V → String → Option V
  load_view store id = get store id

  unfoldable pub delete_view : ViewStore V → String → ViewStore V
  delete_view store id = delete store id

  unfoldable pub truncate : ViewStore V → ViewStore V
  truncate store = []

  unfoldable pub find_views : (V → Bool) → ViewStore V → List V
  find_views predicate store = keep predicate (values store)

-- What a reducer returns: a view, or the `DeleteView` sentinel.
pub data Reduced (V : Type 0) : Type 0 where
  view : V → Reduced V
  deletion : Reduced V

pub record ProjectionHandler (V P : Type 0) : Type 0 where
  pub id : Event P → Option String
  pub reduce : Event P → Option V → Result (Reduced V)

pub record Projection (V P : Type 0) : Type 0 where
  pub on : Map (ProjectionHandler V P)
  pub initial_view : Option V

pub record Counts : Type 0 where
  pub events_read : ℕ
  pub events_applied : ℕ
  pub views_deleted : ℕ

module _ {V : Type 0} where
  or_initial : Option V → Option V → Option V
  or_initial (some v) initial = some v
  or_initial none initial = initial

  -- delete or save
  unfoldable pub write_view : Reduced V → String → ViewStore V → ViewStore V
  write_view (view v) id store = save_view store id v
  write_view deletion id store = delete_view store id

  write_reduced : Result (Reduced V) → String → ViewStore V → Result (Unit {0}) × ViewStore V
  write_reduced (ok r) id store = (ok tt, write_view r id store)
  write_reduced (err e) id store = (err e, store)

  count_write : Reduced V → Counts → Counts
  count_write (view v) c = record c { events_applied = suc c.events_applied }
  count_write deletion c = record c {
    events_applied = suc c.events_applied;
    views_deleted = suc c.views_deleted;
  }

aggregate_of : Option Metadata → Option String
aggregate_of none = none
aggregate_of (some m) = m.aggregate_name

module _ {P : Type 0} where
  -- an empty name is no name
  upcasters_for : Map (UpcasterMap P) → Option String → Option (UpcasterMap P)
  upcasters_for upcasters none = none
  upcasters_for upcasters (some name) = if name == "" then none else get upcasters name

  upcast_with : Option (UpcasterMap P) → Event P → Result (Event P)
  upcast_with none event = ok event
  upcast_with (some u) event = upcast_event event u

  unfoldable pub upcast_for : Map (UpcasterMap P) → Event P → Result (Event P)
  unfolding aggregate_of upcasters_for upcast_with
  upcast_for upcasters event =
      upcast_with (upcasters_for upcasters (aggregate_of event.metadata)) event

module _ {V P : Type 0} where
  -- load, reduce
  unfoldable pub reduce_at :
      Projection V P → ProjectionHandler V P → Event P → String → ViewStore V → Result (Reduced V)
  unfolding or_initial
  reduce_at p h event id store = h.reduce event (or_initial (load_view store id) p.initial_view)

  -- The handler that a subscription runs; a missing id is the text of `undefined`. `h.id` is an
  -- extractor that the projection gives: the default one, which throws, is `default_id` of Wiring.
  unfoldable pub handle_live :
      Projection V P
      → ProjectionHandler V P
      → Event P
      → ViewStore V
      → Result (Unit {0}) × ViewStore V
  unfolding write_reduced
  handle_live p h event store =
      let id = or_default (h.id event) "undefined" in
      write_reduced (reduce_at p h event id store) id store

module _ {V P : Type 0} (p : Projection V P) (upcasters : Map (UpcasterMap P)) (interval : ℕ)
    (on_progress : ℕ → Result (Unit {0})) where
  report : Counts → Result Counts
  report c =
      if eqb (c.events_applied % interval) 0 then on_progress c.events_applied >> ok c else ok c

  written : Result (Reduced V) → String → Counts → ViewStore V → Result Counts × ViewStore V
  unfolding count_write report
  written (err e) id c store = (err e, store)
  written (ok r) id c store = (report (count_write r c), write_view r id store)

  apply_at :
      Option String
      → ProjectionHandler V P
      → Event P
      → Counts
      → ViewStore V
      → Result Counts × ViewStore V
  apply_at none h event c store = (err (no_view_id event.name), store)
  apply_at (some id) h event c store = written (reduce_at p h event id store) id c store

  apply_event :
      Option (ProjectionHandler V P) → Event P → Counts → ViewStore V → Result Counts × ViewStore V
  apply_event none event c store = (ok c, store)
  apply_event (some h) event c store = apply_at (h.id event) h event c store

  replay_upcast : Result (Event P) → Counts → ViewStore V → Result Counts × ViewStore V
  replay_upcast (err e) c store = (err e, store)
  replay_upcast (ok event) c store = apply_event (get p.on event.name) event c store

  -- the loop over what the reader yields, which ends at the first error
  unfoldable pub replay_views : List (Event P) → Counts → ViewStore V → Result Counts × ViewStore V
  unfolding replay_upcast apply_event apply_at written
  replay_views [] c store = (ok c, store)
  replay_views (event ∷ events) c store =
      let (r, store') =
        replay_upcast (upcast_for upcasters event) (record c { events_read = suc c.events_read })
          store in
      elim r [ err e ↦ (err e, store') | ok c' ↦ replay_views events c' store' ]

abbrev pub zero_counts : Counts
zero_counts = record { events_read = 0; events_applied = 0; views_deleted = 0 }

abbrev pub Subscriptions : Type 0 → Type 0 → Type 0
Subscriptions W E = List (String × Handler W E)

module _ {W E : Type 0} where
  unfoldable pub detach : Subscriptions W E → EventBus W E → EventBus W E
  detach [] bus = bus
  detach ((name, h) ∷ subs) bus = detach subs (off bus name h)

  unfoldable pub attach : Subscriptions W E → EventBus W E → EventBus W E
  attach [] bus = bus
  attach ((name, h) ∷ subs) bus = attach subs (on bus name h)

-- `rebuildProjectionImpl`: the `finally` block attaches after a success and after an error.
unfoldable pub rebuild :
    {V P W E : Type 0}
    → Projection V P
    → Map (UpcasterMap P)
    → ℕ
    → (ℕ → Result (Unit {0}))
    → List (Event P)
    → Subscriptions W E
    → ViewStore V
    → EventBus W E
    → Result Counts × ViewStore V × EventBus W E
rebuild p upcasters interval on_progress log subs store bus =
    let detached = detach subs bus in
    let (r, store') =
      replay_views p upcasters interval on_progress log zero_counts (truncate store) in
    (r, store', attach subs detached)

-- What `rebuildProjection` finds before it begins.
pub record RebuildRequest : Type 0 where
  pub shutting_down : Bool
  pub initialized : Bool
  pub registered : Bool
  pub strong : Bool
  pub has_factory : Bool
  pub has_reader : Bool
  pub truncatable : Bool
  pub progress_interval : Option ℕ

-- a given interval is a natural number here
interval_of : Option ℕ → Result ℕ
interval_of none = ok 1000
interval_of (some zero) = err bad_progress_interval
interval_of (some (suc n)) = ok (suc n)

unfoldable pub validate_rebuild : String → RebuildRequest → Result ℕ
unfolding interval_of
validate_rebuild name q =
    if q.shutting_down
    then err domain_shutdown
    else if not q.initialized
    then err (thrown "Domain not initialized. Call init() before rebuildProjection().")
    else if not q.registered
    then err (projection_not_found name)
    else if q.strong
    then err (strong_rebuild name)
    else if not q.has_factory
    then err (missing_view_store name)
    else if not q.has_reader
    then err no_event_reader
    else if not q.truncatable
    then err (not_truncatable name)
    else interval_of q.progress_interval
