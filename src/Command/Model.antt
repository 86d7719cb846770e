-- ===== src/Command/Model.antt =====
-- The data of the command executor. `S` is the state of aggregates, `P` that of payloads, `D` that
-- of command payloads, and `X` all of the world that is in no store of the executor: views, the
-- outbox, what the bus's handlers keep.
use noddde.Base.{ℕ, String, List, Option, none, some, Bool, leb}
use noddde.Result.{Result, ok, err, no_persistence}
use noddde.Event.{Event}
use noddde.Map.{Map, get}
use noddde.Upcaster.{UpcasterMap}
use noddde.Persistence.{EventStore, Stored, Snapshot}
use noddde.UnitOfWork.{Op}
use noddde.Concurrency.{Strategy}
use noddde.Idempotency.{IdempotencyStore}
use noddde.Enricher.{Source}

pub record Command (D : Type 0) : Type 0 where
  pub name : String
  pub target_aggregate_id : String
  pub command_id : Option String
  pub payload : D

-- What a decider returns: one event, or an array of them.
pub data Decision (P : Type 0) : Type 0 where
  one : Event P → Decision P
  many : List (Event P) → Decision P

pub record Aggregate (S P D : Type 0) : Type 0 where
  pub initial_state : S
  pub decide : Map (Command D → S → Result (Decision P))
  pub evolve : Map (P → S → S)
  pub upcasters : Option (UpcasterMap P)

pub record World (S P X : Type 0) : Type 0 where
  pub streams : EventStore P
  pub states : Map (Stored S)
  pub snapshots : Map (Snapshot S)
  pub idempotency : IdempotencyStore
  pub other : X

-- A persistence is event-sourced, with or without `loadAfterVersion`, or state-stored.
pub data Persistence : Type 0 where
  event_sourced : (partial_load : Bool) → Persistence
  state_stored : Persistence

pub data Resolver : Type 0 where
  global : Persistence → Resolver
  per_aggregate : Map Persistence → Resolver

unfoldable pub resolve : Resolver → String → Result Persistence
resolve (global p) name = ok p
resolve (per_aggregate ps) name = elim (get ps name) [
  | none ↦ err (no_persistence name)
  | some p ↦ ok p
]

-- version, version of the last snapshot, events since then
abbrev pub SnapshotStrategy : Type 0
SnapshotStrategy = ℕ → ℕ → ℕ → Bool

-- `everyNEvents` of packages/core/src/persistence/snapshot.ts
unfoldable pub every_n_events : ℕ → SnapshotStrategy
every_n_events n version last since = leb n since

pub record Loaded (S : Type 0) : Type 0 where
  pub state : S
  pub version : ℕ
  pub is_event_sourced : Bool
  pub snapshot : Option (Snapshot S)

-- What the domain hands to the executor for one aggregate. A callback that enlists operations
-- gives those that it enlisted, and whether it then threw. `concurrency` is the strategy for this
-- aggregate, and `per_aggregate` says that a per-aggregate strategy resolved to it.
pub record Config (S P X : Type 0) : Type 0 where
  pub aggregate_name : String
  pub persistence : Resolver
  pub snapshot_strategy : Option SnapshotStrategy
  pub has_idempotency_store : Bool
  pub concurrency : Strategy (World S P X)
  pub per_aggregate : Bool
  pub source : World S P X → Source
  pub now : World S P X → ℕ
  pub on_events_produced : Option (List (Event P) → List (Op X) × Result (Unit {0}))
  pub dispatch : Event P → Op (World S P X)
  pub on_events_dispatched : Option (List (Event P) → Op (World S P X))
