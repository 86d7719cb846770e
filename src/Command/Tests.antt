-- ===== src/Command/Tests.antt =====
-- An account, and the properties of the executor at concrete commands.
use noddde.Base.{
  false, ◌<◌, ℕ, ◌+◌, ◌≡◌, refl, ap, subst, or_default, Option, none, some, List, [], ◌∷◌, true,
  leb, length, arith,
}
use noddde.Result.{ok, err, concurrency_conflict, ◌>>=◌}
use noddde.Event.{Event}
use noddde.Map.{get, set}
use noddde.Persistence.{
  Snapshot, composite_key, load_events, load_snapshot, load_after_version, save_events,
}
use noddde.UnitOfWork.{new_unit_of_work, commit, enlist, defer_publish, run_operations}
use noddde.Idempotency.{save, get_live_record}
use noddde.Concurrency.{optimistic}
use noddde.Enricher.{Source, enrich}
use noddde.Command.Model.{
  Command, one, Aggregate, World, Config, global, event_sourced, Loaded, every_n_events,
}
use noddde.Command.Load.{evolve_all, load_whole, load_from_snapshot, load_aggregate, upcast_all}
use noddde.Command.Lifecycle.{
  record_events, enriched, execute_lifecycle, decide_events, version_resolver, persistence_op,
  enlist_idempotency, idempotency_op, run_produced, pending_snapshot, scheduled,
}
use noddde.Command.Execute.{attempt, execute_owned}
use noddde.Command.Duplicates.{committed_command-skipped}
use noddde.Command.Replay.{replay_from, IsPrefixState, load_from_snapshot-eq, replay_from-enriched}
use noddde.Command.Commit.{stream_in, stale_commit_fails}
use noddde.Command.Snapshots.{IsTrusted}
use noddde.Command.Strategy.{snapshot_version, latest, pending_snapshot-every_n_events}
use noddde.Command.Attempt.{HasCommitted, attempt-HasCommitted}

abbrev deposited : ℕ → Event ℕ
deposited n = record { name = "Deposited"; payload = n; metadata = none }

abbrev account : Aggregate ℕ ℕ ℕ
account = record {
  initial_state = 0;
  decide = ("Deposit", (λ cmd state. ok (one (deposited cmd.payload)))) ∷ [];
  evolve = ("Deposited", (λ n state. state + n)) ∷ [];
  upcasters = none;
}

abbrev World1 : Type 0
World1 = World ℕ ℕ (Unit {0})

abbrev bank : World1
bank = record {
  streams = ("Account:1", deposited 5 ∷ deposited 7 ∷ []) ∷ [];
  states = [];
  snapshots = ("Account:1", record { state = 5; version = 1 }) ∷ [];
  idempotency = record { ttl_ms = none; store = [] };
  other = tt;
}

abbrev source : Source
source = record {
  provider = none;
  override = none;
  trace = none;
  fresh_correlation = "c";
  event_uuid = λ i. "id";
  timestamp = λ i. "now";
}

abbrev config : Config ℕ ℕ (Unit {0})
config = record {
  aggregate_name = "Account";
  persistence = global (event_sourced true);
  snapshot_strategy = some (λ version last since. leb 2 since);
  has_idempotency_store = true;
  concurrency = optimistic 3;
  per_aggregate = false;
  source = λ w. source;
  now = λ w. 1000;
  on_events_produced = none;
  dispatch = λ e w. (ok tt, w);
  on_events_dispatched = none;
}

abbrev deposit : Command ℕ
deposit = record {
  name = "Deposit";
  target_aggregate_id = "1";
  command_id = some "c1";
  payload = 8;
}

abbrev old_snapshot : Snapshot ℕ
old_snapshot = record { state = 5; version = 1 }

abbrev loaded : Loaded ℕ
loaded = record { state = 12; version = 2; is_event_sourced = true; snapshot = some old_snapshot }

abbrev recorded : List (Event ℕ)
recorded = enrich source "Account" "1" 2 "Deposit" none (deposited 8 ∷ [])

abbrev new_snapshot : Option (Snapshot ℕ)
new_snapshot = some (record { state = 20; version = 3 })

old_snapshot-IsPrefixState :
    IsPrefixState account (load_events bank.streams "Account" "1") old_snapshot
unfolding load_events composite_key get evolve_all upcast_all
old_snapshot-IsPrefixState = record { within = omega arith; replays = refl }

bank-IsTrusted : IsTrusted account "Account" "1" bank
unfolding IsTrusted load_snapshot composite_key get
bank-IsTrusted snap e =
    subst (IsPrefixState account (load_events bank.streams "Account" "1"))
      (ap (λ o. or_default o old_snapshot) e) old_snapshot-IsPrefixState

attempt_test :
    (attempt config account deposit (event_sourced true) bank).0 ≡ ok (recorded, new_snapshot)
unfolding attempt execute_lifecycle load_aggregate load_snapshot load_from_snapshot
    load_after_version composite_key get set evolve_all upcast_all decide_events record_events
    enriched version_resolver persistence_op save_events enlist_idempotency idempotency_op save
    get_live_record run_produced pending_snapshot scheduled enlist defer_publish new_unit_of_work
    commit run_operations enrich
attempt_test = refl

attempt-HasCommitted_example :
    HasCommitted config account deposit bank
      (attempt config account deposit (event_sourced true) bank).1
      recorded
      new_snapshot
attempt-HasCommitted_example =
    attempt-HasCommitted config account deposit true bank recorded new_snapshot bank-IsTrusted
      attempt_test

abbrev later : World1
later = record bank { streams = ("Account:1", deposited 5 ∷ deposited 7 ∷ deposited 1 ∷ []) ∷ [] }

stale_commit_fails_example :
    let ended =
      commit
        (record_events config account deposit bank loaded (deposited 8 ∷ []) new_unit_of_work).1
        later in
    (ended.0
      ≡ err
          (concurrency_conflict "Account" "1" 2 (length (stream_in config account deposit later))))
    × (ended.2 ≡ later)
unfolding load_events composite_key get
stale_commit_fails_example =
    stale_commit_fails config account deposit bank later loaded (deposited 8) [] refl (ground arith)

load_from_snapshot-eq_example :
    load_from_snapshot account (event_sourced true) "Account" "1" old_snapshot bank ≡ (
      load_whole account (event_sourced true) "Account" "1" bank >>= λ l.
      ok (record l { snapshot = some old_snapshot }))
load_from_snapshot-eq_example =
    load_from_snapshot-eq account true "Account" "1" old_snapshot bank old_snapshot-IsPrefixState

replay_from-enriched_example :
    replay_from account 12 (enriched config account deposit bank loaded (deposited 8 ∷ []))
    ≡ ok (evolve_all account 12 (deposited 8 ∷ []))
replay_from-enriched_example =
    replay_from-enriched config account deposit bank loaded (deposited 8 ∷ []) 12

committed_command-skipped_example :
    execute_owned config account deposit
      (attempt config account deposit (event_sourced true) bank).1
    ≡ (ok tt, (attempt config account deposit (event_sourced true) bank).1)
committed_command-skipped_example =
    committed_command-skipped config account deposit (event_sourced true) bank recorded new_snapshot
      "c1" 1000 (λ v. refl) refl refl attempt_test

abbrev every_two : Config ℕ ℕ (Unit {0})
every_two = record config { snapshot_strategy = some (every_n_events 2) }

pending_snapshot-every_n_events_example :
    loaded.version + length recorded
    < 2
      + snapshot_version
          (latest (pending_snapshot every_two account deposit loaded recorded) (some old_snapshot))
pending_snapshot-every_n_events_example =
    pending_snapshot-every_n_events every_two account deposit 2 loaded recorded refl (ground arith)
      refl
