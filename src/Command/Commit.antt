-- ===== src/Command/Commit.antt =====
-- What a committed attempt leaves in the stores, and what a stale one is refused.
use noddde.Base.{
  ℕ, String, ◌≡◌, ◌≢◌, refl, sym, ap, ◌∙◌, subst, List, [], ◌∷◌, ◌++◌, map, Option, none, some,
  Bool, true, false, length, arith, ◌==◌, eq_refl, All,
}
use noddde.Result.{Result, ok, err, concurrency_conflict, ◌>>◌}
use noddde.Event.{Event}
use noddde.Persistence.{EventStore, composite_key, load_events, save_events}
use noddde.Persistence.Streams.{load_events-save_events, save_events-fails_iff}
use noddde.UnitOfWork.{Op, after, run_operations, new_unit_of_work, commit}
use noddde.Enricher.{enrich}
use noddde.Command.Model.{Command, Aggregate, World, Config, Loaded}
use noddde.Command.Load.{evolve_all}
use noddde.Command.Lifecycle.{enriched, persistence_op, idempotency_op, on_other, record_events}
use noddde.Command.Enlisted.{idempotency_ops, produced, side_ops, record_events-eq}

module _ {S P X : Type 0} where
  -- The operation touches neither a stream nor a snapshot.
  abbrev pub Keeps : Op (World S P X) → Type 0
  Keeps op = (w : World S P X) → ((op w).1.streams ≡ w.streams) × ((op w).1.snapshots ≡ w.snapshots)

  then-Keeps :
      (next : Op (World S P X)) (w w' : World S P X) (r : Result (Unit {0}))
      → Keeps next
      → (w'.streams ≡ w.streams) × (w'.snapshots ≡ w.snapshots)
      → ((after (r, w') (λ _. next)).1.streams ≡ w.streams)
        × ((after (r, w') (λ _. next)).1.snapshots ≡ w.snapshots)
  then-Keeps next w w' (ok _) h k = ((h w').0 ∙ k.0, (h w').1 ∙ k.1)
  then-Keeps next w w' (err e) h k = k

  run_operations-Keeps :
      (ops : List (Op (World S P X))) → All Keeps ops → Keeps (run_operations ops)
  unfolding run_operations
  run_operations-Keeps [] h w = (refl, refl)
  run_operations-Keeps (op ∷ ops) h w =
      then-Keeps (run_operations ops) w (op w).1 (op w).0 (run_operations-Keeps ops h.1) (h.0 w)

module _ {S P D X : Type 0} (cfg : Config S P X) (agg : Aggregate S P D) (cmd : Command D) where
  others-Keep : (ops : List (Op X)) → All Keeps (map (on_other cfg agg cmd) ops)
  others-Keep [] = tt
  others-Keep (op ∷ ops) = ((λ w. (refl, refl)), others-Keep ops)

  side_ops-Keep : (events : List (Event P)) → All Keeps (side_ops cfg agg cmd events)
  unfolding idempotency_op
  side_ops-Keep events = go cfg.has_idempotency_store cmd.command_id
    where
      go :
          (has : Bool) (command_id : Option String)
          → All Keeps (
              idempotency_ops cfg agg cmd has command_id
              ++ map (on_other cfg agg cmd) (produced cfg agg cmd cfg.on_events_produced events).0)
      go true (some command_id) =
          ((λ w. (refl, refl)), others-Keep (produced cfg agg cmd cfg.on_events_produced events).0)
      go true none = others-Keep (produced cfg agg cmd cfg.on_events_produced events).0
      go false command_id = others-Keep (produced cfg agg cmd cfg.on_events_produced events).0

  abbrev appended : Result (EventStore P) → Op (World S P X)
  appended (ok store) w = (ok tt, record w { streams = store })
  appended (err e) w = (err e, w)

  -- A save of events, then the operations behind it: if they settle, the events are saved.
  save_ran :
      (w : World S P X) (saved : Result (EventStore P)) (ops : List (Op (World S P X)))
      (events done : List (Event P))
      → All Keeps ops
      → ((after (appended saved w) (λ _. run_operations ops)).0 >> ok events) ≡ ok done
      → let w' = (after (appended saved w) (λ _. run_operations ops)).1 in
        (store : EventStore P) × (saved ≡ ok store)
        × (w'.streams ≡ store)
        × (w'.snapshots ≡ w.snapshots)
        × (events ≡ done)
  save_ran w (err e) ops events done h r = absurd (ground arith)
  save_ran w (ok store) ops events done h r =
      let keeps = run_operations-Keeps ops h (record w { streams = store }) in
      (store, refl, keeps.0, keeps.1, ran (run_operations ops (record w { streams = store })).0 r)
    where
      ran : (settled : Result (Unit {0})) → (settled >> ok events) ≡ ok done → events ≡ done
      ran (ok _) r = ground arith
      ran (err e) r = absurd (ground arith)

  abbrev pub stream_in : World S P X → List (Event P)
  stream_in w = load_events w.streams cfg.aggregate_name cmd.target_aggregate_id

  persistence_op-eq :
      (loaded : Loaded S) (state : S) (events : List (Event P)) (w : World S P X)
      → loaded.is_event_sourced ≡ true
      → persistence_op cfg agg cmd loaded state events w
        ≡ appended
            (save_events w.streams cfg.aggregate_name cmd.target_aggregate_id events loaded.version)
            w
  unfolding persistence_op
  persistence_op-eq loaded state events w h = ground arith

  -- The save of the aggregate, then everything that is enlisted behind it.
  abbrev saved_run : World S P X → Loaded S → List (Event P) → Result (Unit {0}) × World S P X
  saved_run w loaded new_events =
      after
        (appended
          (save_events w.streams cfg.aggregate_name cmd.target_aggregate_id new_events
            loaded.version)
          w)
        (λ _. run_operations (side_ops cfg agg cmd new_events))

  commit-record_events :
      (w w' : World S P X) (loaded : Loaded S) (events : List (Event P))
      → loaded.is_event_sourced ≡ true
      → let new_events = enriched cfg agg cmd w loaded events in
        let ended = commit (record_events cfg agg cmd w loaded events new_unit_of_work).1 w' in
        (ended.0 ≡ ((saved_run w' loaded new_events).0 >> ok new_events))
        × (ended.2 ≡ (saved_run w' loaded new_events).1)
  unfolding commit run_operations
  commit-record_events w w' loaded events h =
      let new_events = enriched cfg agg cmd w loaded events in
      let op = persistence_op-eq loaded (evolve_all agg loaded.state events) new_events w' h in
      rw (record_events-eq cfg agg cmd w loaded events, op) (refl, refl)

  -- A world whose stream is that of another one with events behind it, all else being kept.
  pub record HasAppended (w w' : World S P X) (events : List (Event P)) : Type 0 where
    pub stream : stream_in w' ≡ stream_in w ++ events
    pub other_streams :
        (name id : String)
        → (composite_key cfg.aggregate_name cmd.target_aggregate_id == composite_key name id)
          ≡ false
        → load_events w'.streams name id ≡ load_events w.streams name id
    pub snapshots : w'.snapshots ≡ w.snapshots

  saved-HasAppended :
      (w w' : World S P X) (events : List (Event P)) (version : ℕ) (store : EventStore P)
      → save_events w.streams cfg.aggregate_name cmd.target_aggregate_id events version ≡ ok store
      → w'.streams ≡ store
      → w'.snapshots ≡ w.snapshots
      → HasAppended w w' events
  saved-HasAppended w w' events version store saved at kept =
      let appends =
        load_events-save_events w.streams store cfg.aggregate_name cmd.target_aggregate_id events
          version in
      record {
        stream = rw at (
            appends cfg.aggregate_name cmd.target_aggregate_id saved
            ∙ rw (eq_refl (composite_key cfg.aggregate_name cmd.target_aggregate_id)) refl);
        other_streams = λ name id differ. rw at (appends name id saved ∙ rw differ refl);
        snapshots = kept;
      }

  -- If the commit of recorded events settles, at whatever world, then their stream has the enriched
  -- events behind it, every other stream and every snapshot are as they were, and the events that
  -- are handed out are those.
  pub commit_settled :
      (w w' : World S P X) (loaded : Loaded S) (events done : List (Event P))
      → loaded.is_event_sourced ≡ true
      → let ended = commit (record_events cfg agg cmd w loaded events new_unit_of_work).1 w' in
        ended.0 ≡ ok done
        → (enriched cfg agg cmd w loaded events ≡ done) × HasAppended w' ended.2 done
  commit_settled w w' loaded events done h r =
      let new_events = enriched cfg agg cmd w loaded events in
      let eqs = commit-record_events w w' loaded events h in
      let (store, saved, at, kept, same) =
        save_ran w'
          (save_events w'.streams cfg.aggregate_name cmd.target_aggregate_id new_events
            loaded.version)
          (side_ops cfg agg cmd new_events) new_events done (side_ops-Keep new_events)
          (sym eqs.0 ∙ r) in
      (
        same,
        saved-HasAppended w' _ done loaded.version store
            (subst
              (λ es.
                save_events w'.streams cfg.aggregate_name cmd.target_aggregate_id es loaded.version
                ≡ ok store)
              same saved)
            (ap (λ (v : World S P X). v.streams) eqs.1 ∙ at)
            (ap (λ (v : World S P X). v.snapshots) eqs.1 ∙ kept),
      )

  saved_run-stale :
      (w : World S P X) (loaded : Loaded S) (e : Event P) (es : List (Event P))
      → length (stream_in w) ≢ loaded.version
      → saved_run w loaded (e ∷ es) ≡ (
        err (
            concurrency_conflict cfg.aggregate_name cmd.target_aggregate_id loaded.version
              (length (stream_in w))),
        w,
      )
  saved_run-stale w loaded e es stale =
      rw
        ((save_events-fails_iff w.streams cfg.aggregate_name cmd.target_aggregate_id e es
            loaded.version).1
          stale)
        refl

  -- At least one event recorded on an event-sourced aggregate at the version that was loaded is
  -- refused at a world whose stream has another length: the commit reports both lengths and leaves
  -- that world as it is.
  pub stale_commit_fails :
      (w w' : World S P X) (loaded : Loaded S) (e : Event P) (es : List (Event P))
      → loaded.is_event_sourced ≡ true
      → length (stream_in w') ≢ loaded.version
      → let ended = commit (record_events cfg agg cmd w loaded (e ∷ es) new_unit_of_work).1 w' in
        (ended.0
          ≡ err (
              concurrency_conflict cfg.aggregate_name cmd.target_aggregate_id loaded.version
                (length (stream_in w'))))
        × (ended.2 ≡ w')
  unfolding enriched enrich
  stale_commit_fails w w' loaded e es h stale =
      let eqs = commit-record_events w w' loaded (e ∷ es) h in
      let refused = saved_run-stale w' loaded _ _ stale in
      (
        eqs.0
            ∙ ap
                (λ (r : Result (Unit {0}) × World S P X).
                  r.0 >> ok (enriched cfg agg cmd w loaded (e ∷ es)))
                refused,
        eqs.1 ∙ ap (λ (r : Result (Unit {0}) × World S P X). r.1) refused,
      )
