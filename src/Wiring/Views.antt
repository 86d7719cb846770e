-- ===== src/Wiring/Views.antt =====
-- A strong projection over the in-memory view store: its operations against the handler that the
-- bus runs for a projection of eventual consistency.
use noddde.Base.{String, ◌≡◌, refl, [], Option, some, arith, Option-cases, inl, inr}
use noddde.Result.{Result-cases, ok}
use noddde.Event.{Event}
use noddde.Projection.{
  ViewStore, Projection, ProjectionHandler, Reduced, view, deletion, load_view, save_view,
  delete_view, write_view, reduce_at, handle_live,
}
use noddde.Wiring.{ScopedViews, ViewHandler, update_view, write_scoped, or_initial}

abbrev pub memory_views : {V : Type 0} → ScopedViews (ViewStore V) V
memory_views = record {
  load = λ id store. (ok (load_view store id), store);
  save = λ id v store. (ok tt, save_view store id v);
  delete = λ id store. (ok tt, delete_view store id);
}

write_scoped-eq :
    {V : Type 0} (reduced : Reduced V) (id : String) (store : ViewStore V)
    → write_scoped memory_views id reduced store ≡ (ok tt, write_view reduced id store)
unfolding write_scoped write_view
write_scoped-eq (view v) id store = refl
write_scoped-eq deletion id store = refl

module _ {V P : Type 0} where
  -- the handler of the bus for a handler that has an id, and the id that it finds
  abbrev pub live_handler : ViewHandler V P → Option String → ProjectionHandler V P
  live_handler h id = record { id = λ event. id; reduce = h.reduce }

  abbrev pub live_projection : Option V → Projection V P
  live_projection initial = record { on = []; initial_view = initial }

  -- What is enlisted for an event does to the in-memory view store what the handler on the bus does
  -- for a projection of eventual consistency with the same reducer and id.
  pub update_view-live :
      (initial : Option V) (h : ViewHandler V P) (event : Event P) (id : String)
      (store : ViewStore V)
      → update_view memory_views initial h event id store
        ≡ handle_live (live_projection initial) (live_handler h (some id)) event store
  unfolding update_view or_initial handle_live reduce_at
  update_view-live initial h event id store = elim (Option-cases (load_view store id)) [
    | inl missing ↦ elim (Result-cases (h.reduce event initial)) [
      | inl (e, failed) ↦ ground (arith, missing, failed)
      | inr (r, reduced) ↦ ground (arith, missing, reduced, write_scoped-eq r id store)
    ]
    | inr (v, there) ↦ elim (Result-cases (h.reduce event (some v))) [
      | inl (e, failed) ↦ ground (arith, there, failed)
      | inr (r, reduced) ↦ ground (arith, there, reduced, write_scoped-eq r id store)
    ]
  ]
