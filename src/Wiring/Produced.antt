-- ===== src/Wiring/Produced.antt =====
-- What the operations that `onEventsProduced` enlists do when the unit of work runs them.
use noddde.Base.{
  ℕ, String, ◌≡◌, refl, sym, ap, ◌∙◌, List, [], ◌∷◌, Option, none, some, arith, if◌then◌else◌,
  Bool-cases, inl, inr, subst,
}
use noddde.Result.{Result, bind-ok, ok-injective, ok, err}
use noddde.Event.{Event}
use noddde.Map.{get}
use noddde.UnitOfWork.{Op, after, UnitOfWork, enlist, run_operations}
use noddde.UnitOfWork.Laws.{run_operations-append, enlist-ok}
use noddde.Outbox.{OutboxEntry}
use noddde.Wiring.Expected.{
  expected_update, update_view-expected, expected_entries, outbox_entries-expected,
}
use noddde.Wiring.{
  ScopedViews, ViewHandler, WiredProjection, update_view, enlist_update, enlist_handler,
  enlist_events, enlist_projection, enlist_views, outbox_entries, enlist_outbox, on_events_produced,
}

module _ {W : Type 0} where
  abbrev pub nothing : Op W
  nothing w = (ok tt, w)

  abbrev pub then_run : Op W → Op W → Op W
  then_run first second w = after (first w) (λ _. second)

  after-nothing : (r : Result (Unit {0}) × W) → after r (λ _. nothing) ≡ r
  after-nothing (ok a, w) = refl
  after-nothing (err e, w) = refl

  after-then_run :
      (r : Result (Unit {0}) × W) (first second : Op W)
      → after (after r (λ _. first)) (λ _. second) ≡ after r (λ _. then_run first second)
  after-then_run (ok a, w) first second = refl
  after-then_run (err e, w) first second = refl

  one-run : (op : Op W) (w : W) → run_operations (op ∷ []) w ≡ op w
  unfolding run_operations
  one-run op w = after-nothing (op w)

module _ {W E : Type 0} where
  -- the operations of `u'` are those of `u` with `op` behind them
  abbrev pub Adds : UnitOfWork W E → UnitOfWork W E → Op W → Type 0
  Adds u u' op =
      (w : W) → run_operations u'.operations w ≡ after (run_operations u.operations w) (λ _. op)

  same-Adds : (u u' : UnitOfWork W E) → ok u ≡ ok u' → Adds u u' nothing
  same-Adds u u' e w =
      ap (λ v. run_operations v.operations w) (sym (ok-injective u u' e))
      ∙ sym (after-nothing (run_operations u.operations w))

  then-Adds :
      (u v u' : UnitOfWork W E) (first second : Op W)
      → Adds u v first
      → Adds v u' second
      → Adds u u' (then_run first second)
  then-Adds u v u' first second h h' w =
      h' w
      ∙ ap (λ r. after r (λ _. second)) (h w)
      ∙ after-then_run (run_operations u.operations w) first second

  enlist-Adds : (u u' : UnitOfWork W E) (op : Op W) → enlist u op ≡ ok u' → Adds u u' op
  enlist-Adds u u' op done w =
      ap (λ ops. run_operations ops w) (enlist-ok u u' op done)
      ∙ run_operations-append u.operations (op ∷ []) w
      ∙ ap (λ (f : Op W). after (run_operations u.operations w) (λ _. f)) (λ i w. one-run op w i)

  eq-Adds :
      (u u' : UnitOfWork W E) (op op' : Op W)
      → ((w : W) → op w ≡ op' w)
      → Adds u u' op
      → Adds u u' op'
  eq-Adds u u' op op' same h w =
      h w ∙ ap (λ (f : Op W). after (run_operations u.operations w) (λ _. f)) (λ i w. same w i)

module _ {W V P : Type 0} where
  -- one event for one projection: no handler or no id does nothing
  abbrev pub apply_id :
      ScopedViews W V
      → Option V
      → ViewHandler V P
      → Event P
      → Option (Event P → Result String)
      → Op W
  apply_id views initial h event none w = (ok tt, w)
  apply_id views initial h event (some id_of) w =
      after (id_of event, w) (λ id. expected_update views initial h event id)

  abbrev pub apply_handler : ScopedViews W V → Option V → Option (ViewHandler V P) → Event P → Op W
  apply_handler views initial none event w = (ok tt, w)
  apply_handler views initial (some h) event w = apply_id views initial h event h.id w

  abbrev pub apply_events : ScopedViews W V → WiredProjection W V P → List (Event P) → Op W
  apply_events views p [] = nothing
  apply_events views p (event ∷ events) =
      then_run (apply_handler views p.initial_view (get p.on event.name) event)
        (apply_events views p events)

  abbrev pub apply_projection :
      Option (ScopedViews W V) → WiredProjection W V P → List (Event P) → Op W
  apply_projection none p events = nothing
  apply_projection (some views) p events = if p.strong then apply_events views p events else nothing

  -- every event for every strong projection, in their order
  abbrev pub apply_views : List (WiredProjection W V P) → List (Event P) → Op W
  apply_views [] events = nothing
  apply_views (p ∷ projections) events =
      then_run (apply_projection p.views p events) (apply_views projections events)

  id-Adds :
      (views : ScopedViews W V) (initial : Option V) (h : ViewHandler V P)
      (id : Option (Event P → Result String)) (event : Event P) (u u' : UnitOfWork W (Event P))
      → enlist_update views initial h id event u ≡ ok u'
      → Adds u u' (apply_id views initial h event id)
  unfolding enlist_update
  id-Adds views initial h none event u u' done = same-Adds u u' done
  id-Adds views initial h (some id_of) event u u' done =
      let (id, (known, added)) =
        bind-ok (id_of event) (λ id. enlist u (update_view views initial h event id)) u' done in
      subst
        (λ (r : Result String).
          Adds u u' (λ w. after (r, w) (λ id. expected_update views initial h event id)))
        (sym known)
        (eq-Adds u u' (update_view views initial h event id)
          (expected_update views initial h event id) (update_view-expected views initial h event id)
          (enlist-Adds u u' (update_view views initial h event id) added))

  handler-Adds :
      (views : ScopedViews W V) (initial : Option V) (h : Option (ViewHandler V P))
      (event : Event P) (u u' : UnitOfWork W (Event P))
      → enlist_handler views initial h event u ≡ ok u'
      → Adds u u' (apply_handler views initial h event)
  unfolding enlist_handler
  handler-Adds views initial none event u u' done = same-Adds u u' done
  handler-Adds views initial (some h) event u u' done = id-Adds views initial h h.id event u u' done

  events-Adds :
      (views : ScopedViews W V) (p : WiredProjection W V P) (events : List (Event P))
      (u u' : UnitOfWork W (Event P))
      → enlist_events views p events u ≡ ok u'
      → Adds u u' (apply_events views p events)
  unfolding enlist_events
  events-Adds views p [] u u' done = same-Adds u u' done
  events-Adds views p (event ∷ events) u u' done =
      let h = get p.on event.name in
      let (v, (first, rest)) =
        bind-ok (enlist_handler views p.initial_view h event u) (enlist_events views p events) u'
          done in
      then-Adds u v u' (apply_handler views p.initial_view h event) (apply_events views p events)
        (handler-Adds views p.initial_view h event u v first) (events-Adds views p events v u' rest)

  projection-Adds :
      (views : Option (ScopedViews W V)) (p : WiredProjection W V P) (events : List (Event P))
      (u u' : UnitOfWork W (Event P))
      → enlist_projection views p events u ≡ ok u'
      → Adds u u' (apply_projection views p events)
  unfolding enlist_projection
  projection-Adds none p events u u' done = same-Adds u u' done
  projection-Adds (some views) p events u u' done = elim (Bool-cases p.strong) [
    | inl strong ↦
        subst (λ b. Adds u u' (if b then apply_events views p events else nothing)) (sym strong)
          (events-Adds views p events u u' (ground (arith, done, strong)))
    | inr eventual ↦
        subst (λ b. Adds u u' (if b then apply_events views p events else nothing)) (sym eventual)
          (same-Adds u u' (ground (arith, done, eventual)))
  ]

  views-Adds :
      (projections : List (WiredProjection W V P)) (events : List (Event P))
      (u u' : UnitOfWork W (Event P))
      → enlist_views projections events u ≡ ok u'
      → Adds u u' (apply_views projections events)
  unfolding enlist_views
  views-Adds [] events u u' done = same-Adds u u' done
  views-Adds (p ∷ projections) events u u' done =
      let (v, (first, rest)) =
        bind-ok (enlist_projection p.views p events u) (enlist_views projections events) u' done in
      then-Adds u v u' (apply_projection p.views p events) (apply_views projections events)
        (projection-Adds p.views p events u v first) (views-Adds projections events v u' rest)

module _ {W P : Type 0} (new_id : ℕ → String) (now : ℕ) where
  -- an entry for every event, if there is an outbox
  abbrev pub write_outbox : Option (List (OutboxEntry P) → Op W) → List (Event P) → Op W
  write_outbox none events = nothing
  write_outbox (some save) [] = nothing
  write_outbox (some save) (event ∷ events) = save (expected_entries new_id now 0 (event ∷ events))

  outbox-Adds :
      (outbox : Option (List (OutboxEntry P) → Op W)) (events : List (Event P))
      (u u' : UnitOfWork W (Event P))
      → enlist_outbox new_id now outbox events u ≡ ok u'
      → Adds u u' (write_outbox outbox events)
  unfolding enlist_outbox
  outbox-Adds none events u u' done = same-Adds u u' done
  outbox-Adds (some save) [] u u' done = same-Adds u u' done
  outbox-Adds (some save) (event ∷ events) u u' done =
      subst (λ entries. Adds u u' (save entries))
        (outbox_entries-expected new_id now 0 (event ∷ events))
        (enlist-Adds u u' (save (outbox_entries new_id now 0 (event ∷ events))) done)

module _ {W V P : Type 0} (new_id : ℕ → String) (now : ℕ) where
  -- When the callback behind a decision enlists without an error, running the unit of work does what
  -- it did before; then, for every strong projection that has a view store and a handler of the
  -- event, it loads the view, reduces the event from it or else from the initial view, and saves or
  -- deletes what comes out, event by event; and then it saves one unpublished outbox entry for each
  -- event, under a fresh id and with the aggregate of its metadata. The first error ends it.
  pub on_events_produced-runs :
      (projections : List (WiredProjection W V P)) (outbox : Option (List (OutboxEntry P) → Op W))
      (events : List (Event P)) (u u' : UnitOfWork W (Event P)) (w : W)
      → on_events_produced new_id now projections outbox events u ≡ ok u'
      → run_operations u'.operations w
        ≡ after
            (run_operations u.operations w)
            (λ _. then_run (apply_views projections events) (write_outbox new_id now outbox events))
  unfolding on_events_produced
  on_events_produced-runs projections outbox events u u' w done =
      let (v, (first, rest)) =
        bind-ok (enlist_views projections events u) (enlist_outbox new_id now outbox events) u'
          done in
      then-Adds u v u' (apply_views projections events) (write_outbox new_id now outbox events)
        (views-Adds projections events u v first) (outbox-Adds new_id now outbox events v u' rest) w
