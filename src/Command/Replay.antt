-- ===== src/Command/Replay.antt =====
-- Rebuilding a state from its events: replay splits, a snapshot of a prefix is as good as the
-- prefix, and the events that a command records replay as they were decided.
use noddde.Base.{
  ℕ, suc, ◌+◌, ◌≤◌, String, ◌≡◌, refl, sym, ap, ◌∙◌, List, [], ◌∷◌, ◌++◌, Option, none, some, Bool,
  true, false, length, take, drop, take-append-drop, length-drop, arith,
}
use noddde.Result.{Result, ok, err, ◌>>=◌}
use noddde.Event.{Event}
use noddde.Map.{get}
use noddde.Upcaster.{UpcasterMap, version_of, upcast_events, current_event_version}
use noddde.Upcaster.Laws.{upcast_event-current}
use noddde.Persistence.{Snapshot, load_events}
use noddde.Persistence.Streams.{load_after_version-eq}
use noddde.Enricher.{Source}
use noddde.Enricher.Laws.{IsStamped, enrich-IsStamped}
use noddde.Command.Model.{Aggregate, Command, World, Config, event_sourced, Loaded}
use noddde.Command.Load.{
  evolve_by, evolve_all, upcast_all, upcasted, load_from_snapshot, load_whole,
}
use noddde.Command.Lifecycle.{version_resolver, enriched}

module _ {P : Type 0} where
  upcast_events-append :
      (xs ys : List (Event P)) (u : UpcasterMap P)
      → upcast_events (xs ++ ys) u
        ≡ (upcast_events xs u >>= λ a. upcast_events ys u >>= λ b. ok (a ++ b))
  unfolding upcast_events
  upcast_events-append [] ys u = ground arith
  upcast_events-append (e ∷ xs) ys u = ground (arith, upcast_events-append xs ys u)

  upcast_all-append :
      (o : Option (UpcasterMap P)) (xs ys : List (Event P))
      → upcast_all o (xs ++ ys) ≡ (upcast_all o xs >>= λ a. upcast_all o ys >>= λ b. ok (a ++ b))
  unfolding upcast_all
  upcast_all-append none xs ys = refl
  upcast_all-append (some u) xs ys = upcast_events-append xs ys u

module _ {S P D : Type 0} (agg : Aggregate S P D) where
  -- The state that a list of stored events leads to from a given one.
  abbrev pub replay_from : S → List (Event P) → Result S
  replay_from state events = upcasted agg events >>= λ es. ok (evolve_all agg state es)

  -- The state of an aggregate whose stream is this list.
  abbrev pub replay : List (Event P) → Result S
  replay = replay_from agg.initial_state

  evolve_all-append :
      (state : S) (xs ys : List (Event P))
      → evolve_all agg state (xs ++ ys) ≡ evolve_all agg (evolve_all agg state xs) ys
  unfolding evolve_all
  evolve_all-append state [] ys = refl
  evolve_all-append state (e ∷ xs) ys =
      evolve_all-append (evolve_by agg (get agg.evolve e.name) e.payload state) xs ys

  fold_both :
      (state : S) (a b : Result (List (Event P)))
      → ((a >>= λ x. b >>= λ y. ok (x ++ y)) >>= λ es. ok (evolve_all agg state es)) ≡ (
          (a >>= λ x. ok (evolve_all agg state x)) >>= λ state'.
          b >>= λ y. ok (evolve_all agg state' y))
  fold_both state (ok x) (ok y) = ap ok (evolve_all-append state x y)
  fold_both state (ok x) (err e) = refl
  fold_both state (err e) b = refl

  pub replay_from-append :
      (state : S) (xs ys : List (Event P))
      → replay_from state (xs ++ ys) ≡ (replay_from state xs >>= λ state'. replay_from state' ys)
  replay_from-append state xs ys =
      rw (upcast_all-append agg.upcasters xs ys)
        (fold_both state (upcasted agg xs) (upcasted agg ys))

  -- The snapshot is the state after a prefix of the stream.
  pub record IsPrefixState (stream : List (Event P)) (snap : Snapshot S) : Type 0 where
    pub within : snap.version ≤ length stream
    pub replays : replay (take snap.version stream) ≡ ok snap.state

  -- The rest of the stream leads from the snapshot to where the whole stream leads.
  pub replay-IsPrefixState :
      (stream : List (Event P)) (snap : Snapshot S)
      → IsPrefixState stream snap
      → replay_from snap.state (drop snap.version stream) ≡ replay stream
  replay-IsPrefixState stream snap h =
      let split =
        replay_from-append agg.initial_state (take snap.version stream)
          (drop snap.version stream) in
      sym (
        ap replay (sym (take-append-drop snap.version stream))
        ∙ split
        ∙ ap (λ (r : Result S). r >>= λ state. replay_from state (drop snap.version stream))
            h.replays)

  wrapped :
      (state : S) (events : List (Event P)) (put : S → Loaded S)
      → (upcasted agg events >>= λ es. ok (put (evolve_all agg state es)))
        ≡ (replay_from state events >>= λ s. ok (put s))
  wrapped state events put = go (upcasted agg events)
    where
      go :
          (r : Result (List (Event P)))
          → (r >>= λ es. ok (put (evolve_all agg state es)))
            ≡ ((r >>= λ es. ok (evolve_all agg state es)) >>= λ s. ok (put s))
      go (ok es) = refl
      go (err e) = refl

  abbrev loaded_with : ℕ → Option (Snapshot S) → S → Loaded S
  loaded_with version snap state = record {
    state = state;
    version = version;
    is_event_sourced = true;
    snapshot = snap;
  }

  bind_again :
      (r : Result S) (version : ℕ) (snap : Snapshot S)
      → (r >>= λ s. ok (loaded_with version (some snap) s)) ≡ (
          (r >>= λ s. ok (loaded_with version none s)) >>= λ l.
          ok (record l { snapshot = some snap }))
  bind_again (ok s) version snap = refl
  bind_again (err e) version snap = refl

  from_rest :
      (stream : List (Event P)) (snap : Snapshot S)
      → IsPrefixState stream snap
      → (upcasted agg (drop snap.version stream) >>= λ es. ok (
          loaded_with
            (snap.version + length (drop snap.version stream))
            (some snap)
            (evolve_all agg snap.state es)))
        ≡ ((upcasted agg stream >>= λ es.
              ok (loaded_with (length stream) none (evolve_all agg agg.initial_state es)))
            >>= λ l. ok (record l { snapshot = some snap }))
  from_rest stream snap h =
      let count : snap.version + length (drop snap.version stream) ≡ length stream =
        omega (arith, length-drop snap.version stream, h.within) in
      wrapped snap.state (drop snap.version stream) (loaded_with _ (some snap))
      ∙ ap
          (λ (n : ℕ). replay_from snap.state (drop snap.version stream) >>= λ s.
            ok (loaded_with n (some snap) s))
          count
      ∙ ap (λ (r : Result S). r >>= λ s. ok (loaded_with (length stream) (some snap) s))
          (replay-IsPrefixState stream snap h)
      ∙ bind_again (replay stream) (length stream) snap
      ∙ ap (λ (r : Result (Loaded S)). r >>= λ l. ok (record l { snapshot = some snap }))
          (sym (wrapped agg.initial_state stream (loaded_with (length stream) none)))

  -- Loading from a snapshot that is the state of a prefix, with the partial load or with the slice
  -- of a full one, gives the state and the version that a full replay gives, or its error.
  pub load_from_snapshot-eq :
      {X : Type 0} (partial_load : Bool) (name id : String) (snap : Snapshot S) (w : World S P X)
      → IsPrefixState (load_events w.streams name id) snap
      → load_from_snapshot agg (event_sourced partial_load) name id snap w ≡ (
          load_whole agg (event_sourced partial_load) name id w >>= λ l.
          ok (record l { snapshot = some snap }))
  unfolding load_from_snapshot load_whole
  load_from_snapshot-eq true name id snap w h =
      rw (load_after_version-eq w.streams name id snap.version)
        (from_rest (load_events w.streams name id) snap h)
  load_from_snapshot-eq false name id snap w h = from_rest (load_events w.streams name id) snap h

module _ {P : Type 0} where
  stamped-upcast :
      (s : Source) (name id c d : String) (version index : ℕ) (u : UpcasterMap P)
      (xs ys : List (Event P))
      → IsStamped s name id (some (λ n. current_event_version n u)) c d version index xs ys
      → upcast_events ys u ≡ ok ys
  unfolding upcast_events
  stamped-upcast s name id c d version index u [] [] h = refl
  stamped-upcast s name id c d version index u [] (y ∷ ys) h = absurd h
  stamped-upcast s name id c d version index u (x ∷ xs) [] h = absurd h
  stamped-upcast s name id c d version index u (x ∷ xs) (y ∷ ys) h =
      let (m, tagged, _, _, _, v, _, _, _) = h.2 in
      let current : version_of y.metadata ≡ some (current_event_version y.name u) =
        rw (tagged, h.0) v in
      rw (
        upcast_event-current u y current,
        stamped-upcast s name id c d version (suc index) u xs ys h.3,
      )

  stamped-upcast_all :
      (s : Source) (name id c d : String) (version index : ℕ) (o : Option (UpcasterMap P))
      (xs ys : List (Event P))
      → IsStamped s name id (version_resolver o) c d version index xs ys
      → upcast_all o ys ≡ ok ys
  unfolding upcast_all version_resolver
  stamped-upcast_all s name id c d version index none xs ys h = refl
  stamped-upcast_all s name id c d version index (some u) xs ys h =
      stamped-upcast s name id c d version index u xs ys h

module _ {S P D : Type 0} (agg : Aggregate S P D) where
  stamped-evolve :
      (s : Source) (name id c d : String) (resolver : Option (String → ℕ)) (version index : ℕ)
      (xs ys : List (Event P)) (state : S)
      → IsStamped s name id resolver c d version index xs ys
      → evolve_all agg state ys ≡ evolve_all agg state xs
  unfolding evolve_all
  stamped-evolve s name id c d r version index [] [] state h = refl
  stamped-evolve s name id c d r version index [] (y ∷ ys) state h = absurd h
  stamped-evolve s name id c d r version index (x ∷ xs) [] state h = absurd h
  stamped-evolve s name id c d r version index (x ∷ xs) (y ∷ ys) state h =
      rw (h.0, h.1) (stamped-evolve s name id c d r version (suc index) xs ys _ h.3)

module _ {S P D X : Type 0} (cfg : Config S P X) (agg : Aggregate S P D) (cmd : Command D) where
  -- The recorded events are tagged with the current schema versions, so that replaying them
  -- upcasts nothing and leads to the state that the decided events lead to.
  pub replay_from-enriched :
      (w : World S P X) (loaded : Loaded S) (events : List (Event P)) (state : S)
      → replay_from agg state (enriched cfg agg cmd w loaded events)
        ≡ ok (evolve_all agg state events)
  unfolding enriched
  replay_from-enriched w loaded events state =
      let stamped =
        enrich-IsStamped (cfg.source w) cfg.aggregate_name cmd.target_aggregate_id loaded.version
          cmd.name (version_resolver agg.upcasters) events in
      rw (stamped-upcast_all (cfg.source w) _ _ _ _ loaded.version 0 agg.upcasters events _ stamped)
        (ap ok
          (stamped-evolve agg (cfg.source w) _ _ _ _ _ loaded.version 0 events _ state stamped))
