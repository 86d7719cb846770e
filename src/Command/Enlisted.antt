-- ===== src/Command/Enlisted.antt =====
-- What one lifecycle leaves on its unit of work, as lists.
use noddde.Base.{
  String, ◌≡◌, refl, ◌∙◌, List, [], ◌∷◌, ◌++◌, append-nil, append_assoc, map, Option, none, some,
  Bool, true, false, ◌⊎◌, inl, inr,
}
use noddde.Result.{Error, Result, ok, err, ◌>>◌}
use noddde.Event.{Event}
use noddde.Persistence.{Snapshot}
use noddde.UnitOfWork.{Op, after, new_unit_of_work, enlist, defer_publish}
use noddde.Command.Model.{Command, Aggregate, World, Config, Persistence, Loaded}
use noddde.Command.Load.{load_aggregate}
use noddde.Command.Lifecycle.{
  Uow, decide_events, enriched, persistence_op, idempotency_op, enlist_idempotency, run_produced,
  on_other, enlist_all, pending_snapshot, record_events, execute_lifecycle,
}
use noddde.Base.{is_some}
use noddde.Command.Load.{evolve_all}

pub Result-cases {ℓ} :
    {A : Type ℓ} (r : Result A) → ((a : A) × (r ≡ ok a)) ⊎ ((e : Error) × (r ≡ err e))
Result-cases (ok a) = inl (a, refl)
Result-cases (err e) = inr (e, refl)

module _ {S P D X : Type 0} (cfg : Config S P X) (agg : Aggregate S P D) (cmd : Command D) where
  abbrev pub idempotency_ops : Bool → Option String → List (Op (World S P X))
  idempotency_ops true (some command_id) = idempotency_op cfg agg cmd command_id ∷ []
  idempotency_ops true none = []
  idempotency_ops false command_id = []

  abbrev pub produced :
      Option (List (Event P) → List (Op X) × Result (Unit {0}))
      → List (Event P)
      → List (Op X) × Result (Unit {0})
  produced none events = ([], ok tt)
  produced (some f) events = f events

  -- everything that is enlisted behind the save of the aggregate
  abbrev pub side_ops : List (Event P) → List (Op (World S P X))
  side_ops events =
      idempotency_ops cfg.has_idempotency_store cmd.command_id
      ++ map (on_other cfg agg cmd) (produced cfg.on_events_produced events).0

  abbrev pub open_uow : List (Op (World S P X)) → List (Event P) → Uow cfg agg cmd
  open_uow ops events = record { operations = ops; pending_events = events; completed = false }

  enlist_all-eq :
      (ops : List (Op X)) (before : List (Op (World S P X))) (events : List (Event P))
      → enlist_all cfg agg cmd ops (open_uow before events)
        ≡ (ok tt, open_uow (before ++ map (on_other cfg agg cmd) ops) events)
  unfolding enlist_all enlist
  enlist_all-eq [] before events = rw (append-nil before)
  enlist_all-eq (op ∷ ops) before events =
      enlist_all-eq ops (before ++ on_other cfg agg cmd op ∷ []) events
      ∙ rw (append_assoc before (on_other cfg agg cmd op ∷ []) (map (on_other cfg agg cmd) ops))

  enlist_idempotency-eq :
      (has : Bool) (command_id : Option String) (before : List (Op (World S P X)))
      (events : List (Event P))
      → enlist_idempotency cfg agg cmd has command_id (open_uow before events)
        ≡ (ok tt, open_uow (before ++ idempotency_ops has command_id) events)
  unfolding enlist_idempotency enlist
  enlist_idempotency-eq true (some command_id) before events = refl
  enlist_idempotency-eq true none before events = rw (append-nil before)
  enlist_idempotency-eq false command_id before events = rw (append-nil before)

  run_produced-eq :
      (f : Option (List (Event P) → List (Op X) × Result (Unit {0}))) (new_events : List (Event P))
      (before : List (Op (World S P X))) (events : List (Event P))
      → run_produced cfg agg cmd f new_events (open_uow before events) ≡ (
        (produced f new_events).1,
        open_uow (before ++ map (on_other cfg agg cmd) (produced f new_events).0) events,
      )
  unfolding run_produced
  run_produced-eq none new_events before events = rw (append-nil before)
  run_produced-eq (some f) new_events before events =
      rw (enlist_all-eq (f new_events).0 before events)

  settle :
      (r : Result (Unit {0})) (snap : Option (Snapshot S)) (u : Uow cfg agg cmd)
      → after (r, u) (λ _ u. (ok snap, u)) ≡ (r >> ok snap, u)
  settle (ok _) snap u = refl
  settle (err e) snap u = refl

  pub record_events-eq :
      (w : World S P X) (loaded : Loaded S) (events : List (Event P))
      → let new_events = enriched cfg agg cmd w loaded events in
        let state = evolve_all agg loaded.state events in
        record_events cfg agg cmd w loaded events new_unit_of_work ≡ (
          (produced cfg.on_events_produced new_events).1
              >> ok (pending_snapshot cfg agg cmd loaded events),
          open_uow
              (persistence_op cfg agg cmd loaded state new_events ∷ side_ops new_events)
              new_events,
        )
  unfolding record_events new_unit_of_work enlist defer_publish
  record_events-eq w loaded events =
      let new_events = enriched cfg agg cmd w loaded events in
      let op = persistence_op cfg agg cmd loaded (evolve_all agg loaded.state events) new_events in
      rw
        (
          enlist_idempotency-eq cfg.has_idempotency_store cmd.command_id (op ∷ []) [],
          run_produced-eq cfg.on_events_produced new_events
              (op ∷ idempotency_ops cfg.has_idempotency_store cmd.command_id) new_events,
        )
        (settle _ _ _)

  -- The lifecycle loads, decides and records, and stops at the first of these that throws.
  pub execute_lifecycle-eq :
      (p : Persistence) (w : World S P X) (u : Uow cfg agg cmd)
      → let start =
          load_aggregate agg p
            (is_some cfg.snapshot_strategy)
            cfg.aggregate_name
            cmd.target_aggregate_id
            w in
        ((e : Error) × (start ≡ err e) × (execute_lifecycle cfg agg cmd p w u ≡ (err e, u)))
        ⊎ ((loaded : Loaded S) × (start ≡ ok loaded)
            × (((e : Error) × (decide_events cfg agg cmd loaded.state ≡ err e)
                  × (execute_lifecycle cfg agg cmd p w u ≡ (err e, u)))
                ⊎ ((events : List (Event P)) × (decide_events cfg agg cmd loaded.state ≡ ok events)
                    × (execute_lifecycle cfg agg cmd p w u
                        ≡ record_events cfg agg cmd w loaded events u))))
  unfolding execute_lifecycle
  execute_lifecycle-eq p w u =
      elim (Result-cases (
        load_aggregate agg p (is_some cfg.snapshot_strategy) cfg.aggregate_name
          cmd.target_aggregate_id w)) [
            | inr (e, h) ↦ inl (e, h, rw h)
            | inl (loaded, h) ↦ elim (Result-cases (decide_events cfg agg cmd loaded.state)) [
              | inr (e, d) ↦ inr (loaded, h, inl (e, d, rw (h, d)))
              | inl (events, d) ↦ inr (loaded, h, inr (events, d, rw (h, d)))
            ]
          ]
