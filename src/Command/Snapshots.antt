-- ===== src/Command/Snapshots.antt =====
-- The whole attempt: what it returns and writes, and that the snapshots it makes can be trusted.
use noddde.Base.{
  ℕ, ◌+◌, String, ◌≡◌, refl, sym, ap, ◌∙◌, subst, List, ◌++◌, Option, none, some, Bool, true, false,
  length, length-append, take, take-append_le, take-length, arith, Option-cases, inl, inr,
}
use noddde.Result.{Result, ok, err, ◌>>=◌}
use noddde.Event.{Event}
use noddde.Persistence.{Snapshot, load_events, load_snapshot}
use noddde.Enricher.Laws.{length-enrich}
use noddde.Command.Model.{
  Command, Aggregate, World, Config, event_sourced, Loaded, SnapshotStrategy,
}
use noddde.Command.Load.{evolve_all, upcasted, load_whole, load_from_snapshot, load_aggregate}
use noddde.Command.Lifecycle.{enriched, scheduled, pending_snapshot}
use noddde.Command.Replay.{
  replay, replay_from, replay_from-append, IsPrefixState, load_from_snapshot-eq,
  replay_from-enriched,
}
use noddde.Command.Enlisted.{Result-cases}

ok_injective : {A : Type 0} {a b : A} → ok a ≡ ok b → a ≡ b
ok_injective {a = a} h = ap (λ r. elim r [ ok x ↦ x | err e ↦ a ]) h

module _ {S P D : Type 0} (agg : Aggregate S P D) where
  -- A snapshot of a stream stays one when events are appended.
  pub append-IsPrefixState :
      (xs ys : List (Event P)) (snap : Snapshot S)
      → IsPrefixState agg xs snap
      → IsPrefixState agg (xs ++ ys) snap
  append-IsPrefixState xs ys snap h = record {
    within = omega (arith, length-append xs ys, h.within);
    replays = rw (take-append_le snap.version xs ys h.within) h.replays;
  }

  -- What loading gives is the state and the length of the stream.
  pub record IsLoaded (stream : List (Event P)) (loaded : Loaded S) : Type 0 where
    pub sourced : loaded.is_event_sourced ≡ true
    pub replays : replay agg stream ≡ ok loaded.state
    pub current : loaded.version ≡ length stream

  IsLoaded-of_eq :
      (stream : List (Event P)) (state : S) (version : ℕ) (snap : Option (Snapshot S))
      (loaded : Loaded S)
      → replay agg stream ≡ ok state
      → version ≡ length stream
      → record { state = state; version = version; is_event_sourced = true; snapshot = snap }
        ≡ loaded
      → IsLoaded stream loaded
  IsLoaded-of_eq stream state version snap loaded r v h = record {
    sourced = sym (ap (λ (l : Loaded S). l.is_event_sourced) h);
    replays = r ∙ ap (λ (l : Loaded S). ok l.state) h;
    current = sym (ap (λ (l : Loaded S). l.version) h) ∙ v;
  }

  load_whole-IsLoaded :
      {X : Type 0} (partial_load : Bool) (name id : String) (w : World S P X) (loaded : Loaded S)
      → load_whole agg (event_sourced partial_load) name id w ≡ ok loaded
      → IsLoaded (load_events w.streams name id) loaded
  unfolding load_whole
  load_whole-IsLoaded partial_load name id w loaded h =
      elim (Result-cases (upcasted agg (load_events w.streams name id))) [
        | inr (e, f) ↦ absurd (ground (arith, f, h))
        | inl (es, f) ↦
            let made : load_whole agg (event_sourced partial_load) name id w
                ≡ ok (record {
                  state = evolve_all agg agg.initial_state es;
                  version = length (load_events w.streams name id);
                  is_event_sourced = true;
                  snapshot = none;
                }) =
              rw f refl in
            IsLoaded-of_eq (load_events w.streams name id) _ _ none loaded (rw f refl) refl
              (ok_injective (sym made ∙ h))
      ]

  load_from_snapshot-IsLoaded :
      {X : Type 0} (partial_load : Bool) (name id : String) (snap : Snapshot S) (w : World S P X)
      (loaded : Loaded S)
      → IsPrefixState agg (load_events w.streams name id) snap
      → load_from_snapshot agg (event_sourced partial_load) name id snap w ≡ ok loaded
      → IsLoaded (load_events w.streams name id) loaded
  load_from_snapshot-IsLoaded partial_load name id snap w loaded trusted h =
      let through = sym (load_from_snapshot-eq agg partial_load name id snap w trusted) ∙ h in
      elim (Result-cases (load_whole agg (event_sourced partial_load) name id w)) [
        | inr (e, f) ↦ absurd (ground (arith, f, through))
        | inl (l, f) ↦
            let made =
              ap (λ (r : Result (Loaded S)). r >>= λ l. ok (record l { snapshot = some snap })) f in
            let whole = load_whole-IsLoaded partial_load name id w l f in
            IsLoaded-of_eq (load_events w.streams name id) l.state l.version (some snap) loaded
              whole.replays whole.current
              (ap
                  (λ b. record {
                    state = l.state;
                    version = l.version;
                    is_event_sourced = b;
                    snapshot = some snap;
                  })
                  (sym whole.sourced)
                ∙ ok_injective (sym made ∙ through))
      ]

  -- The snapshot of the aggregate, if there is one, is the state after a prefix of its stream.
  unfoldable pub IsTrusted : {X : Type 0} → String → String → World S P X → Type 0
  IsTrusted name id w =
      (snap : Snapshot S)
      → load_snapshot w.snapshots name id ≡ some snap
      → IsPrefixState agg (load_events w.streams name id) snap

  -- From a trusted snapshot or without one, with or without `loadAfterVersion`, loading an
  -- event-sourced aggregate gives the replay of its whole stream, and the stream's length as version.
  pub load_aggregate-IsLoaded :
      {X : Type 0} (partial_load has : Bool) (name id : String) (w : World S P X)
      (loaded : Loaded S)
      → IsTrusted name id w
      → load_aggregate agg (event_sourced partial_load) has name id w ≡ ok loaded
      → IsLoaded (load_events w.streams name id) loaded
  unfolding load_aggregate IsTrusted
  load_aggregate-IsLoaded partial_load false name id w loaded trusted h =
      load_whole-IsLoaded partial_load name id w loaded h
  load_aggregate-IsLoaded partial_load true name id w loaded trusted h =
      elim (Option-cases (load_snapshot w.snapshots name id)) [
        | inl e ↦
            load_whole-IsLoaded partial_load name id w loaded
              (sym (rw (e, load_aggregate) refl) ∙ h)
        | inr (snap, e) ↦
            load_from_snapshot-IsLoaded partial_load name id snap w loaded (trusted snap e)
              (sym (rw (e, load_aggregate) refl) ∙ h)
      ]

module _ {S P D X : Type 0} (cfg : Config S P X) (agg : Aggregate S P D) (cmd : Command D) where
  length-enriched :
      (w : World S P X) (loaded : Loaded S) (events : List (Event P))
      → length (enriched cfg agg cmd w loaded events) ≡ length events
  unfolding enriched
  length-enriched w loaded events = length-enrich _ _ _ _ _ _ events

  snapshot_made :
      (loaded : Loaded S) (events : List (Event P)) (snap : Snapshot S)
      → pending_snapshot cfg agg cmd loaded events ≡ some snap
      → record {
        state = evolve_all agg loaded.state events;
        version = loaded.version + length events;
      }
        ≡ snap
  unfolding pending_snapshot scheduled
  snapshot_made loaded events snap h = go cfg.snapshot_strategy h
    where
      go :
          (strategy : Option SnapshotStrategy)
          → scheduled cfg agg cmd strategy loaded
              (evolve_all agg loaded.state events)
              (length events)
            ≡ some snap
          → record {
            state = evolve_all agg loaded.state events;
            version = loaded.version + length events;
          }
            ≡ snap
      go none h = absurd (ground arith)
      go (some f) h = ground arith

  pub stream-enriched :
      (stream : List (Event P)) (w : World S P X) (loaded : Loaded S) (events : List (Event P))
      → replay agg stream ≡ ok loaded.state
      → replay agg (stream ++ enriched cfg agg cmd w loaded events)
        ≡ ok (evolve_all agg loaded.state events)
  stream-enriched stream w loaded events h =
      replay_from-append agg agg.initial_state stream (enriched cfg agg cmd w loaded events)
      ∙ ap (λ (r : Result S). r >>= λ s. replay_from agg s (enriched cfg agg cmd w loaded events)) h
      ∙ replay_from-enriched cfg agg cmd w loaded events loaded.state

  -- A snapshot that the strategy asks for is the state after the stream with the recorded events.
  pub pending_snapshot-IsPrefixState :
      (stream : List (Event P)) (w : World S P X) (loaded : Loaded S) (events : List (Event P))
      (snap : Snapshot S)
      → IsLoaded agg stream loaded
      → pending_snapshot cfg agg cmd loaded events ≡ some snap
      → IsPrefixState agg (stream ++ enriched cfg agg cmd w loaded events) snap
  pending_snapshot-IsPrefixState stream w loaded events snap h made =
      let whole = stream ++ enriched cfg agg cmd w loaded events in
      let count : length whole ≡ loaded.version + length events = omega (
        arith,
        length-append stream (enriched cfg agg cmd w loaded events),
        length-enriched w loaded events,
        h.current,
      ) in
      let replays : replay agg (take (loaded.version + length events) whole)
          ≡ ok (evolve_all agg loaded.state events) =
        ap (λ n. replay agg (take n whole)) (sym count)
        ∙ ap (replay agg) (take-length whole)
        ∙ stream-enriched stream w loaded events h.replays in
      subst (IsPrefixState agg whole) (snapshot_made loaded events snap made)
        (record { within = omega (arith, count); replays = replays })
