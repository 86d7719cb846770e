-- ===== src/Command/Strategy.antt =====
-- How far the latest snapshot lies behind, with a snapshot every so many events.
use noddde.Base.{
  List, length, subst, sym, ℕ, ◌+◌, ◌<◌, ◌≡◌, Option, none, some, true, arith, Option-cases, inl,
  inr,
}
use noddde.Event.{Event}
use noddde.Persistence.{Snapshot}
use noddde.Command.Model.{Aggregate, Command, Config, Loaded, every_n_events}
use noddde.Command.Lifecycle.{scheduled, pending_snapshot}
use noddde.Command.Load.{evolve_all}

module _ {S : Type 0} where
  -- the version of a snapshot, 0 without one
  abbrev pub snapshot_version : Option (Snapshot S) → ℕ
  snapshot_version none = 0
  snapshot_version (some snap) = snap.version

  -- what is stored behind the attempt
  abbrev pub latest : Option (Snapshot S) → Option (Snapshot S) → Option (Snapshot S)
  latest none old = old
  latest (some snap) old = some snap

module _ {S P D X : Type 0} (cfg : Config S P X) (agg : Aggregate S P D) (cmd : Command D) where
  scheduled-every_n_events :
      (n count : ℕ) (loaded : Loaded S) (state : S)
      → 0 < n
      → loaded.is_event_sourced ≡ true
      → loaded.version + count
        < n
          + snapshot_version (
              latest
                (scheduled cfg agg cmd (some (every_n_events n)) loaded state count)
                loaded.snapshot)
  unfolding scheduled every_n_events
  scheduled-every_n_events n count loaded state pos sourced = elim (Option-cases loaded.snapshot) [
    | inl missing ↦ ground (arith, pos, sourced, missing)
    | inr (snap, there) ↦ ground (arith, pos, sourced, there)
  ]

  -- With a snapshot every n events, n not zero, fewer than n events of an event-sourced aggregate
  -- lie behind its latest snapshot, or behind its beginning, once an attempt has recorded its events.
  pub pending_snapshot-every_n_events :
      (n : ℕ) (loaded : Loaded S) (events : List (Event P))
      → cfg.snapshot_strategy ≡ some (every_n_events n)
      → 0 < n
      → loaded.is_event_sourced ≡ true
      → loaded.version + length events
        < n + snapshot_version (latest (pending_snapshot cfg agg cmd loaded events) loaded.snapshot)
  unfolding pending_snapshot
  pending_snapshot-every_n_events n loaded events every pos sourced =
      let state = evolve_all agg loaded.state events in
      subst
        (λ s.
          loaded.version + length events
          < n
            + snapshot_version
                (latest (scheduled cfg agg cmd s loaded state (length events)) loaded.snapshot))
        (sym every) (scheduled-every_n_events n (length events) loaded state pos sourced)
