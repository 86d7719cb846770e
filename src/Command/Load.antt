-- ===== src/Command/Load.antt =====
-- Step 1 of `executeLifecycle`: the aggregate's state from its stream, from a snapshot and the rest
-- of the stream, or from a stored state.
use noddde.Base.{
  ◌+◌, String, List, [], ◌∷◌, Option, none, some, Bool, true, false, length, drop, if◌then◌else◌,
}
use noddde.Result.{Result, ok, err, type_error, ◌>>=◌}
use noddde.Event.{Event}
use noddde.Map.{get}
use noddde.Upcaster.{UpcasterMap, upcast_events}
use noddde.Persistence.{
  Stored, Snapshot, load_events, load_after_version, load_state, load_snapshot,
}
use noddde.Command.Model.{Aggregate, World, Persistence, event_sourced, state_stored, Loaded}

module _ {P : Type 0} where
  -- `aggregate.upcasters ? upcastEvents(events, aggregate.upcasters) : events`
  unfoldable pub upcast_all : Option (UpcasterMap P) → List (Event P) → Result (List (Event P))
  upcast_all none events = ok events
  upcast_all (some u) events = upcast_events events u

module _ {S P D : Type 0} (agg : Aggregate S P D) where
  abbrev pub evolve_by : Option (P → S → S) → P → S → S
  evolve_by none payload state = state
  evolve_by (some h) payload state = h payload state

  unfoldable pub evolve_all : S → List (Event P) → S
  evolve_all state [] = state
  evolve_all state (e ∷ es) = evolve_all (evolve_by (get agg.evolve e.name) e.payload state) es

  abbrev pub upcasted : List (Event P) → Result (List (Event P))
  upcasted = upcast_all agg.upcasters

  stored_as : Option (Stored S) → Loaded S
  stored_as none = record {
    state = agg.initial_state;
    version = 0;
    is_event_sourced = false;
    snapshot = none;
  }
  stored_as (some r) = record {
    state = r.state;
    version = r.version;
    is_event_sourced = false;
    snapshot = none;
  }

  module _ {X : Type 0} where
    -- step 1 with a snapshot
    unfoldable pub load_from_snapshot :
        Persistence → String → String → Snapshot S → World S P X → Result (Loaded S)
    load_from_snapshot state_stored name id snap w = err type_error
    load_from_snapshot (event_sourced partial_load) name id snap w =
        let events =
          if partial_load
          then load_after_version w.streams name id snap.version
          else drop snap.version (load_events w.streams name id) in
        upcasted events >>= λ es. ok (record {
          state = evolve_all snap.state es;
          version = snap.version + length events;
          is_event_sourced = true;
          snapshot = some snap;
        })

    -- step 1 without one
    unfoldable pub load_whole : Persistence → String → String → World S P X → Result (Loaded S)
    unfolding stored_as
    load_whole state_stored name id w = ok (stored_as (load_state w.states name id))
    load_whole (event_sourced partial_load) name id w =
        let events = load_events w.streams name id in
        upcasted events >>= λ es. ok (record {
          state = evolve_all agg.initial_state es;
          version = length events;
          is_event_sourced = true;
          snapshot = none;
        })

    -- the flag says whether a snapshot store is configured
    unfoldable pub load_aggregate :
        Persistence → Bool → String → String → World S P X → Result (Loaded S)
    load_aggregate p false name id w = load_whole p name id w
    load_aggregate p true name id w = elim (load_snapshot w.snapshots name id) [
      | none ↦ load_whole p name id w
      | some snap ↦ load_from_snapshot p name id snap w
    ]
