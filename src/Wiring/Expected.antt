-- ===== src/Wiring/Expected.antt =====
-- What an event that was produced is expected to do to a view and to the outbox, written out apart
-- from the code, and that the operations of the wiring do it.
use noddde.Base.{ℕ, suc, String, ◌≡◌, refl, ap, List, [], ◌∷◌, Option, none, some}
use noddde.Result.{Result, ok, err}
use noddde.Event.{Event}
use noddde.UnitOfWork.{Op, after}
use noddde.Outbox.{OutboxEntry}
use noddde.Projection.{Reduced, view, deletion}
use noddde.Wiring.{
  ScopedViews, ViewHandler, write_scoped, or_initial, update_view, aggregate_name_of,
  aggregate_id_of, outbox_entries,
}

module _ {W V : Type 0} where
  -- What a reduced event does to the store, with the error of the reducer handed on.
  abbrev pub write_reduced : ScopedViews W V → String → Result (Reduced V) → Op W
  write_reduced views id (err e) w = (err e, w)
  write_reduced views id (ok (view v)) w = views.save id v w
  write_reduced views id (ok deletion) w = views.delete id w

  write-reduced :
      (views : ScopedViews W V) (id : String) (r : Result (Reduced V)) (w : W)
      → after (r, w) (λ reduced. write_scoped views id reduced) ≡ write_reduced views id r w
  unfolding write_scoped
  write-reduced views id (err e) w = refl
  write-reduced views id (ok (view v)) w = refl
  write-reduced views id (ok deletion) w = refl

module _ {W V P : Type 0} where
  -- A view that is not there is reduced from the initial one.
  abbrev pub reduce_loaded :
      ScopedViews W V
      → Option V
      → ViewHandler V P
      → Event P
      → String
      → Result (Option V) × W
      → Result (Unit {0}) × W
  reduce_loaded views initial h event id (err e, w) = (err e, w)
  reduce_loaded views initial h event id (ok none, w) =
      write_reduced views id (h.reduce event initial) w
  reduce_loaded views initial h event id (ok (some v), w) =
      write_reduced views id (h.reduce event (some v)) w

  -- what becomes of the view of an event
  abbrev pub expected_update :
      ScopedViews W V → Option V → ViewHandler V P → Event P → String → Op W
  expected_update views initial h event id w =
      reduce_loaded views initial h event id (views.load id w)

  update-loaded :
      (views : ScopedViews W V) (initial : Option V) (h : ViewHandler V P) (event : Event P)
      (id : String) (r : Result (Option V) × W)
      → after r (λ current w.
        after
          (h.reduce event (or_initial current initial), w)
          (λ reduced. write_scoped views id reduced))
        ≡ reduce_loaded views initial h event id r
  unfolding or_initial
  update-loaded views initial h event id (err e, w) = refl
  update-loaded views initial h event id (ok none, w) =
      write-reduced views id (h.reduce event initial) w
  update-loaded views initial h event id (ok (some v), w) =
      write-reduced views id (h.reduce event (some v)) w

  pub update_view-expected :
      (views : ScopedViews W V) (initial : Option V) (h : ViewHandler V P) (event : Event P)
      (id : String) (w : W)
      → update_view views initial h event id w ≡ expected_update views initial h event id w
  unfolding update_view
  update_view-expected views initial h event id w =
      update-loaded views initial h event id (views.load id w)

module _ {P : Type 0} (new_id : ℕ → String) (now : ℕ) where
  -- The name and the id in the entry are those of the event's metadata.
  abbrev pub expected_entry : ℕ → Event P → OutboxEntry P
  expected_entry index event = record {
    id = new_id index;
    event = event;
    aggregate_name = elim event.metadata [ none ↦ none | some m ↦ m.aggregate_name ];
    aggregate_id = elim event.metadata [ none ↦ none | some m ↦ m.aggregate_id ];
    created_at = now;
    published_at = none;
  }

  abbrev pub expected_entries : ℕ → List (Event P) → List (OutboxEntry P)
  expected_entries index [] = []
  expected_entries index (event ∷ events) =
      expected_entry index event ∷ expected_entries (suc index) events

  pub outbox_entries-expected :
      (index : ℕ) (events : List (Event P))
      → outbox_entries new_id now index events ≡ expected_entries index events
  unfolding outbox_entries aggregate_name_of aggregate_id_of
  outbox_entries-expected index [] = refl
  outbox_entries-expected index (event ∷ events) =
      let rest = outbox_entries-expected (suc index) events in
      elim event.metadata [
        | none ↦ ap (λ entries. expected_entry index event ∷ entries) rest
        | some m ↦ ap (λ entries. expected_entry index event ∷ entries) rest
      ]
