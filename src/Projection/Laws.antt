-- ===== src/Projection/Laws.antt =====
-- A rebuild gives the views that the live handlers would have given.
use noddde.Base.{
  ℕ, suc, ◌+◌, String, ◌≡◌, refl, ap, List, [], ◌∷◌, Option, none, some, arith, All, length,
  Option-cases, inl, inr,
}
use noddde.Result.{Result, ok}
use noddde.Event.{Event}
use noddde.Map.{Map, get}
use noddde.Upcaster.{UpcasterMap}
use noddde.Bus.{EventBus}
use noddde.Projection.{
  view, deletion, or_initial, ViewStore, Projection, ProjectionHandler, Reduced, Counts,
  zero_counts, reduce_at, write_view, handle_live, upcast_for, load_view, report, count_write,
  written, apply_at, apply_event, replay_upcast, replay_views, Subscriptions, rebuild, truncate,
}

module _ {V P : Type 0} (p : Projection V P) where
  abbrev live_step : Option (ProjectionHandler V P) → Event P → ViewStore V → ViewStore V
  live_step none event store = store
  live_step (some h) event store = (handle_live p h event store).1

  -- The live handler of each event, on one event after the other.
  abbrev pub run_live : List (Event P) → ViewStore V → ViewStore V
  run_live [] store = store
  run_live (event ∷ events) store = run_live events (live_step (get p.on event.name) event store)

module _ {V P : Type 0} (p : Projection V P) (upcasters : Map (UpcasterMap P)) where
  -- The handler has an id for the event and its reducer does not throw on it.
  abbrev pub Reduces : ProjectionHandler V P → Event P → Type 0
  Reduces h event =
      (id : String) × (h.id event ≡ some id)
      × ((v : Option V) → (r : Reduced V) × (h.reduce event v ≡ ok r))

  -- The event has the current schema version, and its handler, if it has one, reduces it.
  abbrev pub IsReplayable : Event P → Type 0
  IsReplayable event =
      (upcast_for upcasters event ≡ ok event)
      × ((h : ProjectionHandler V P) → get p.on event.name ≡ some h → Reduces h event)

  module _ (interval : ℕ) (on_progress : ℕ → Result (Unit {0}))
      (quiet : (n : ℕ) → on_progress n ≡ ok tt) where
    report-ok : (c : Counts) → report p upcasters interval on_progress c ≡ ok c
    unfolding report
    report-ok c = ground (arith, quiet c.events_applied)

    unfoldable Counted : Counts → Result Counts × ViewStore V → ViewStore V → Type 0
    Counted c x store = (c' : Counts) × (x ≡ (ok c', store)) × (c'.events_read ≡ c.events_read)

    read-count_write : (r : Reduced V) (c : Counts) → (count_write r c).events_read ≡ c.events_read
    unfolding count_write
    read-count_write (view v) c = refl
    read-count_write deletion c = refl

    written-Counted :
        (r : Reduced V) (id : String) (c : Counts) (store : ViewStore V)
        → Counted c
            (written p upcasters interval on_progress (ok r) id c store)
            (write_view r id store)
    unfolding written count_write Counted
    written-Counted r id c store = (
      count_write r c,
      ap (λ x. (x, write_view r id store)) (report-ok (count_write r c)),
      read-count_write r c,
    )

    handled :
        (h : ProjectionHandler V P) (event : Event P) (c : Counts) (store : ViewStore V)
        → Reduces h event
        → Counted c
            (apply_event p upcasters interval on_progress (some h) event c store)
            (handle_live p h event store).1
    unfolding apply_event apply_at handle_live reduce_at
    handled h event c store (id, at, reduces) =
        let (r, e) = reduces (or_initial (load_view store id) p.initial_view) in
        rw (at, apply_at, e) (written-Counted r id c store)

    stepped :
        (event : Event P) (c : Counts) (store : ViewStore V)
        → IsReplayable event
        → Counted c
            (replay_upcast p upcasters interval on_progress (upcast_for upcasters event) c store)
            (live_step p (get p.on event.name) event store)
    unfolding replay_upcast apply_event Counted
    stepped event c store (current, reduces) = elim (Option-cases (get p.on event.name)) [
      | inl e ↦ rw (current, replay_upcast, e) (c, refl, refl)
      | inr (h, e) ↦ rw (current, replay_upcast, e) (handled h event c store (reduces h e))
    ]

    replay_views-live :
        (events : List (Event P)) (c : Counts) (store : ViewStore V)
        → All IsReplayable events
        → (c' : Counts) × (replay_views p upcasters interval on_progress events c store
            ≡ (ok c', run_live p events store))
          × (c'.events_read ≡ c.events_read + length events)
    unfolding replay_views Counted
    replay_views-live [] c store h = (c, refl, omega arith)
    replay_views-live (event ∷ events) c store h =
        let c1 = record c { events_read = suc c.events_read } in
        let (c2, step, read) = stepped event c1 store h.0 in
        let (c3, rest, count) =
          replay_views-live events c2 (live_step p (get p.on event.name) event store) h.1 in
        let outcome = ap (λ (x : Result Counts × ViewStore V). x.0) step in
        let left = ap (λ (x : Result Counts × ViewStore V). x.1) step in
        (c3, rw (outcome, left, replay_views) rest, omega (arith, read, count))

    -- A rebuild with a progress callback that does not fail, whose log holds events of the current
    -- version that the reducers accept, reads every one of them, and leaves the views that the live
    -- handlers make of the log from nothing, whatever views were stored before.
    pub rebuild-live :
        {W E : Type 0} (log : List (Event P)) (subs : Subscriptions W E) (store : ViewStore V)
        (bus : EventBus W E)
        → All IsReplayable log
        → (c : Counts) × ((rebuild p upcasters interval on_progress log subs store bus).0 ≡ ok c)
          × ((rebuild p upcasters interval on_progress log subs store bus).1 ≡ run_live p log [])
          × (c.events_read ≡ length log)
    unfolding rebuild truncate
    rebuild-live log subs store bus h =
        let (c, e, count) = replay_views-live log zero_counts [] h in
        (
          c,
          ap (λ (x : Result Counts × ViewStore V). x.0) e,
          ap (λ (x : Result Counts × ViewStore V). x.1) e,
          omega (arith, count),
        )
