-- ===== src/Command/Lifecycle.antt =====
-- `executeLifecycle`: load, decide, evolve, enrich, enlist and defer, on one unit of work. The
-- world is only read: the writes are the operations enlisted on the unit of work.
use noddde.Base.{
  ℕ, ◌+◌, ◌-◌, String, List, [], ◌∷◌, Option, none, some, Bool, true, false, length, is_some,
  if◌then◌else◌,
}
use noddde.Result.{Result, ok, err, no_handler, ◌>>=◌}
use noddde.Event.{Event}
use noddde.Map.{get}
use noddde.Upcaster.{UpcasterMap, current_event_version}
use noddde.Persistence.{Snapshot, save_events, save_state}
use noddde.UnitOfWork.{Action, Op, after, UnitOfWork, enlist, defer_publish}
use noddde.Idempotency.{save as save_record}
use noddde.Enricher.{enrich}
use noddde.Command.Model.{
  Command, Decision, one, many, Aggregate, World, Persistence, Loaded, SnapshotStrategy, Config,
}
use noddde.Command.Load.{evolve_all, load_aggregate}

-- `await m; n`
infixl 5 ◌then_do◌
abbrev pub ◌then_do◌ : {U B : Type 0} → Op U → Action U B → Action U B
◌then_do◌ m n u = after (m u) (λ _. n)

-- a call on the unit of work that may throw
abbrev pub updating : {U : Type 0} → (U → Result U) → Op U
updating f u = elim (f u) [ ok u' ↦ (ok tt, u') | err e ↦ (err e, u) ]

-- a save of one store, as an operation on a world
abbrev pub saving : {W T : Type 0} → (W → Result T) → (W → T → W) → Op W
saving f put w = elim (f w) [ ok t ↦ (ok tt, put w t) | err e ↦ (err e, w) ]

module _ {P : Type 0} where
  unfoldable pub version_resolver : Option (UpcasterMap P) → Option (String → ℕ)
  version_resolver none = none
  version_resolver (some u) = some (λ name. current_event_version name u)

  -- step 3
  unfoldable pub normalize : Decision P → List (Event P)
  normalize (one e) = e ∷ []
  normalize (many es) = es

module _ {S P D X : Type 0} (cfg : Config S P X) (agg : Aggregate S P D) (cmd : Command D) where
  abbrev pub Uow : Type 0
  Uow = UnitOfWork (World S P X) (Event P)

  -- step 2
  unfoldable pub decide_events : S → Result (List (Event P))
  unfolding normalize
  decide_events state = elim (get agg.decide cmd.name) [
    | none ↦ err (no_handler cmd.name)
    | some handler ↦ handler cmd state >>= λ d. ok (normalize d)
  ]

  -- step 4.5
  unfoldable pub enriched : World S P X → Loaded S → List (Event P) → List (Event P)
  enriched w loaded events =
      enrich (cfg.source w) cfg.aggregate_name cmd.target_aggregate_id loaded.version cmd.name
        (version_resolver agg.upcasters) events

  -- step 5
  unfoldable pub persistence_op : Loaded S → S → List (Event P) → Op (World S P X)
  persistence_op loaded state events =
      if loaded.is_event_sourced
      then saving
          (λ w.
            save_events w.streams cfg.aggregate_name cmd.target_aggregate_id events loaded.version)
          (λ w s. record w { streams = s })
      else saving
          (λ w.
            save_state w.states cfg.aggregate_name cmd.target_aggregate_id state loaded.version
              none)
          (λ w s. record w { states = s })

  -- step 5.5: the record is stamped when the operation runs
  unfoldable pub idempotency_op : String → Op (World S P X)
  idempotency_op command_id w =
      let (r, s) =
        save_record w.idempotency
          (record {
            command_id = command_id;
            aggregate_name = cfg.aggregate_name;
            aggregate_id = cmd.target_aggregate_id;
            processed_at = cfg.now w;
          })
          (cfg.now w) in
      (r, record w { idempotency = s })

  unfoldable pub enlist_idempotency : Bool → Option String → Op Uow
  enlist_idempotency true (some command_id) = updating (λ u. enlist u (idempotency_op command_id))
  enlist_idempotency true none = λ u. (ok tt, u)
  enlist_idempotency false command_id = λ u. (ok tt, u)

  -- an operation on the rest of the world
  abbrev pub on_other : Op X → Op (World S P X)
  on_other op w = let (r, x) = op w.other in (r, record w { other = x })

  unfoldable pub enlist_all : List (Op X) → Op Uow
  enlist_all [] = λ u. (ok tt, u)
  enlist_all (op ∷ ops) = updating (λ u. enlist u (on_other op)) then_do enlist_all ops

  -- step 6.5
  unfoldable pub run_produced :
      Option (List (Event P) → List (Op X) × Result (Unit {0})) → List (Event P) → Op Uow
  run_produced none events = λ u. (ok tt, u)
  run_produced (some f) events = let (ops, r) = f events in enlist_all ops then_do (λ u. (r, u))

  -- step 7
  unfoldable pub scheduled : Option SnapshotStrategy → Loaded S → S → ℕ → Option (Snapshot S)
  scheduled none loaded state count = none
  scheduled (some strategy) loaded state count =
      let version = loaded.version + count in
      let last : ℕ = elim loaded.snapshot [ none ↦ 0 | some s ↦ s.version ] in
      if loaded.is_event_sourced
      then if strategy version last (version - last)
        then some (record { state = state; version = version })
        else none
      else none

  unfoldable pub pending_snapshot : Loaded S → List (Event P) → Option (Snapshot S)
  unfolding scheduled
  pending_snapshot loaded events =
      scheduled cfg.snapshot_strategy loaded (evolve_all agg loaded.state events) (length events)

  -- steps 4 to 7
  unfoldable pub record_events :
      World S P X → Loaded S → List (Event P) → Action Uow (Option (Snapshot S))
  record_events w loaded events =
      let new_events = enriched w loaded events in
      let state = evolve_all agg loaded.state events in
      updating (λ u. enlist u (persistence_op loaded state new_events))
      then_do enlist_idempotency cfg.has_idempotency_store cmd.command_id
      then_do updating (λ u. defer_publish u new_events)
      then_do run_produced cfg.on_events_produced new_events
      then_do (λ u. (ok (pending_snapshot loaded events), u))

  unfoldable pub execute_lifecycle : Persistence → World S P X → Action Uow (Option (Snapshot S))
  execute_lifecycle p w u =
      after
        (
          load_aggregate agg p (is_some cfg.snapshot_strategy) cfg.aggregate_name
              cmd.target_aggregate_id w,
          u,
        )
        (λ loaded u.
          after (decide_events loaded.state, u) (λ events. record_events w loaded events))
