-- ===== src/Command/Attempt.antt =====
-- One attempt of a command on an event-sourced aggregate, from the load to the commit.
use noddde.Base.{◌≡◌, refl, sym, ap, subst, ◌∙◌, List, Option, some, Bool, inl, inr, is_some, arith}
use noddde.Result.{Result, ok, err, ◌>>=◌, ◌>>◌}
use noddde.Event.{Event}
use noddde.Persistence.{Snapshot, load_snapshot}
use noddde.UnitOfWork.{new_unit_of_work, commit}
use noddde.Command.Model.{Command, Aggregate, World, Config, Persistence, event_sourced, Loaded}
use noddde.Command.Load.{evolve_all}
use noddde.Command.Lifecycle.{
  Uow, decide_events, enriched, pending_snapshot, record_events, execute_lifecycle,
}
use noddde.Command.Execute.{attempt}
use noddde.Command.Commit.{HasAppended, commit_settled, stream_in}
use noddde.Command.Replay.{replay, IsPrefixState}
use noddde.Command.Snapshots.{
  IsLoaded, IsTrusted, load_aggregate-IsLoaded, append-IsPrefixState,
  pending_snapshot-IsPrefixState, stream-enriched,
}
use noddde.Command.Enlisted.{record_events-eq, execute_lifecycle-eq}

module _ {S P D X : Type 0} (cfg : Config S P X) (agg : Aggregate S P D) (cmd : Command D) where
  abbrev Trusted : World S P X → Type 0
  Trusted = IsTrusted agg cfg.aggregate_name cmd.target_aggregate_id

  -- An attempt at `w` that settled at `w'` with these events and this snapshot to save.
  pub record HasCommitted (w w' : World S P X) (done : List (Event P)) (snap : Option (Snapshot S))
      : Type 0 where
    -- the stream's state before, and what the command decided on it
    pub state : S
    pub decided : List (Event P)
    pub before : replay agg (stream_in cfg agg cmd w) ≡ ok state
    pub decides : decide_events cfg agg cmd state ≡ ok decided
    -- the events that are handed out are behind the stream, and all else is kept
    pub appended : HasAppended cfg agg cmd w w' done
    -- they replay to the state that the decided ones lead to
    pub after : replay agg (stream_in cfg agg cmd w') ≡ ok (evolve_all agg state decided)
    -- the snapshot to save, and any that was there, is the state after a prefix
    pub saves : (s : Snapshot S) → snap ≡ some s → IsPrefixState agg (stream_in cfg agg cmd w') s
    pub trusted : Trusted w'

  committed :
      (w w' : World S P X) (loaded : Loaded S) (events : List (Event P))
      (snap : Option (Snapshot S))
      → Trusted w
      → IsLoaded agg (stream_in cfg agg cmd w) loaded
      → decide_events cfg agg cmd loaded.state ≡ ok events
      → pending_snapshot cfg agg cmd loaded events ≡ snap
      → HasAppended cfg agg cmd w w' (enriched cfg agg cmd w loaded events)
      → HasCommitted w w' (enriched cfg agg cmd w loaded events) snap
  unfolding IsTrusted
  committed w w' loaded events snap trusted l decides made appended =
      let stream = stream_in cfg agg cmd w in
      let new_events = enriched cfg agg cmd w loaded events in
      let back = sym appended.stream in
      record {
        state = loaded.state;
        decided = events;
        before = l.replays;
        decides = decides;
        appended = appended;
        after =
            ap (replay agg) appended.stream
            ∙ stream-enriched cfg agg cmd stream w loaded events l.replays;
        saves = λ s is.
            subst (λ (es : List (Event P)). IsPrefixState agg es s) back
              (pending_snapshot-IsPrefixState cfg agg cmd stream w loaded events s l (made ∙ is));
        trusted = λ s is.
            subst (λ (es : List (Event P)). IsPrefixState agg es s) back
              (append-IsPrefixState agg stream new_events s (
                trusted s (
                  ap (λ m. load_snapshot m cfg.aggregate_name cmd.target_aggregate_id)
                    (sym appended.snapshots)
                  ∙ is)));
      }

  -- what an attempt makes of its lifecycle
  abbrev pub ended_with :
      Result (Option (Snapshot S))
      → Uow cfg agg cmd
      → World S P X
      → Result (List (Event P) × Option (Snapshot S)) × World S P X
  ended_with (err e) u w = (err e, w)
  ended_with (ok snap) u w = ((commit u w).0 >>= λ events. ok (events, snap), (commit u w).2)

  pub ended_with-ok :
      (r : Result (Option (Snapshot S))) (u : Uow cfg agg cmd) (w : World S P X)
      (done : List (Event P)) (snap : Option (Snapshot S))
      → (ended_with r u w).0 ≡ ok (done, snap)
      → (r ≡ ok snap) × ((commit u w).0 ≡ ok done) × ((ended_with r u w).1 ≡ (commit u w).2)
  ended_with-ok (err e) u w done snap h = absurd (ground arith)
  ended_with-ok (ok s) u w done snap h =
      let (same, at) = settled (commit u w).0 h in (ap ok same, at, refl)
    where
      settled :
          (r : Result (List (Event P)))
          → ◌>>=◌ {B = List (Event P) × Option (Snapshot S)} r (λ events. ok (events, s))
            ≡ ok (done, snap)
          → (s ≡ snap) × (r ≡ ok done)
      settled (ok events) h = ground arith
      settled (err e) h = absurd (ground arith)

  then_made :
      (r : Result (Unit {0})) (made snap : Option (Snapshot S))
      → (r >> ok made) ≡ ok snap
      → made ≡ snap
  then_made (ok _) made snap h = ground arith
  then_made (err e) made snap h = absurd (ground arith)

  recorded :
      (w : World S P X) (loaded : Loaded S) (events done : List (Event P))
      (snap : Option (Snapshot S))
      → Trusted w
      → IsLoaded agg (stream_in cfg agg cmd w) loaded
      → decide_events cfg agg cmd loaded.state ≡ ok events
      → let x = record_events cfg agg cmd w loaded events new_unit_of_work in
        (ended_with x.0 x.1 w).0 ≡ ok (done, snap)
        → HasCommitted w (ended_with x.0 x.1 w).1 done snap
  recorded w loaded events done snap trusted l decides r =
      let x = record_events cfg agg cmd w loaded events new_unit_of_work in
      let (made, settled, at) = ended_with-ok x.0 x.1 w done snap r in
      let (same, appended) = commit_settled cfg agg cmd w w loaded events done l.sourced settled in
      let pending = then_made _ _ snap (
        sym (
          ap (λ (y : Result (Option (Snapshot S)) × Uow cfg agg cmd). y.0)
            (record_events-eq cfg agg cmd w loaded events))
        ∙ made) in
      subst (λ (v : World S P X). HasCommitted w v done snap) (sym at)
        (subst (λ (es : List (Event P)). HasCommitted w (commit x.1 w).2 es snap) same
          (committed w (commit x.1 w).2 loaded events snap trusted l decides pending
            (subst (HasAppended cfg agg cmd w (commit x.1 w).2) (sym same) appended)))

  pub attempt-eq :
      (p : Persistence) (w : World S P X)
      → let x = execute_lifecycle cfg agg cmd p w new_unit_of_work in
        attempt cfg agg cmd p w ≡ ended_with x.0 x.1 w
  unfolding attempt
  attempt-eq p w =
      go (execute_lifecycle cfg agg cmd p w new_unit_of_work).0
        (execute_lifecycle cfg agg cmd p w new_unit_of_work).1
    where
      go :
          (r : Result (Option (Snapshot S))) (u : Uow cfg agg cmd)
          → (elim r [
            | err e ↦ (err e, w)
            | ok snap ↦
                let (committed, _, w') = commit u w in
                (committed >>= λ events. ok (events, snap), w')
          ])
            ≡ ended_with r u w
      go (ok s) u = refl
      go (err e) u = refl

  -- An attempt on an event-sourced aggregate, whose stored snapshot, if there is one, is the state
  -- after a prefix of its stream: if it settles, it has decided on the replay of the whole stream
  -- and has put exactly the enriched events behind the stream; every other stream and every
  -- snapshot is as it was; the new stream replays to the state that the decided events lead to; and
  -- the snapshot to save, like the stored one, is the state after a prefix of the new stream.
  pub attempt-HasCommitted :
      (partial_load : Bool) (w : World S P X) (done : List (Event P)) (snap : Option (Snapshot S))
      → Trusted w
      → (attempt cfg agg cmd (event_sourced partial_load) w).0 ≡ ok (done, snap)
      → HasCommitted w (attempt cfg agg cmd (event_sourced partial_load) w).1 done snap
  attempt-HasCommitted partial_load w done snap trusted r =
      let Settles : Result (Option (Snapshot S)) × Uow cfg agg cmd → Type 0 = λ x.
        (ended_with x.0 x.1 w).0 ≡ ok (done, snap)
        → HasCommitted w (ended_with x.0 x.1 w).1 done snap in
      let settles : Settles
          (execute_lifecycle cfg agg cmd (event_sourced partial_load) w new_unit_of_work) =
        elim (execute_lifecycle-eq cfg agg cmd (event_sourced partial_load) w new_unit_of_work) [
          | inl (e, _, h) ↦ subst Settles (sym h) (λ r. absurd (ground arith))
          | inr (loaded, l, inl (e, _, h)) ↦ subst Settles (sym h) (λ r. absurd (ground arith))
          | inr (loaded, l, inr (events, d, h)) ↦ subst Settles (sym h) (
              recorded w loaded events done snap trusted
                (load_aggregate-IsLoaded agg partial_load (is_some cfg.snapshot_strategy)
                  cfg.aggregate_name cmd.target_aggregate_id w loaded trusted l)
                d)
        ] in
      let eq = attempt-eq (event_sourced partial_load) w in
      subst
        (λ (y : Result (List (Event P) × Option (Snapshot S)) × World S P X).
          HasCommitted w y.1 done snap)
        (sym eq)
        (settles (
          sym (ap (λ (y : Result (List (Event P) × Option (Snapshot S)) × World S P X). y.0) eq)
          ∙ r))
