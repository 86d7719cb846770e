-- ===== src/Persistence.antt =====
-- packages/engine/src/implementations/in-memory-aggregate-persistence.ts,
-- in-memory-saga-persistence.ts and in-memory-snapshot-store.ts: the stores behind a composite
-- `name:id` key. A method that throws leaves its store as it was.
pub mod Keys
pub mod Streams
pub mod Versions
mod Tests
use noddde.Base.{
  ℕ, ◌+◌, String, Option, none, some, List, [], ◌∷◌, ◌++◌, Bool, true, false, length, drop, eqb,
  or_default, if◌then◌else◌,
}
use Prim.Native.String.{◌++◌ as join}
use text.Mathlib.Text.{starts_with}
use noddde.Result.{Result, ok, err, concurrency_conflict, cursor_unsupported}
use noddde.Event.{Event}
use noddde.Map.{Map, get, set}

-- `${aggregateName}:${aggregateId}`
unfoldable pub composite_key : String → String → String
composite_key name id = join name (join ":" id)

abbrev pub EventStore : Type 0 → Type 0
EventStore P = Map (List (Event P))

module _ {P : Type 0} where
  unfoldable pub load_events : EventStore P → String → String → List (Event P)
  load_events store name id = or_default (get store (composite_key name id)) []

  unfoldable pub load_after_version : EventStore P → String → String → ℕ → List (Event P)
  load_after_version store name id after =
      drop after (or_default (get store (composite_key name id)) [])

  unfoldable pub save_events :
      EventStore P → String → String → List (Event P) → ℕ → Result (EventStore P)
  save_events store name id [] expected = ok store
  save_events store name id (e ∷ events) expected =
      let key = composite_key name id in
      let existing = or_default (get store key) [] in
      if eqb (length existing) expected
      then ok (set store key (existing ++ e ∷ events))
      else err (concurrency_conflict name id expected (length existing))

  -- the generator of `read`, run to its end
  matching : Option String → EventStore P → List (Event P)
  matching prefix [] = []
  matching none ((key, events) ∷ store) = events ++ matching none store
  matching (some p) ((key, events) ∷ store) =
      let rest = matching (some p) store in if starts_with key p then events ++ rest else rest

  -- `options?.after` and `options?.aggregateName`
  unfoldable pub read : EventStore P → Bool → Option String → Result (List (Event P))
  unfolding matching
  read store true name = err cursor_unsupported
  read store false none = ok (matching none store)
  read store false (some name) = ok (matching (some (join name ":")) store)

pub record Stored (S : Type 0) : Type 0 where
  pub state : S
  pub version : ℕ
  pub state_version : Option ℕ

abbrev pub version_in : {S : Type 0} → Option (Stored S) → ℕ
version_in none = 0
version_in (some r) = r.version

module _ {S : Type 0} where
  unfoldable pub load_state : Map (Stored S) → String → String → Option (Stored S)
  load_state store name id = get store (composite_key name id)

  unfoldable pub save_state :
      Map (Stored S) → String → String → S → ℕ → Option ℕ → Result (Map (Stored S))
  save_state store name id state expected state_version =
      let key = composite_key name id in
      let actual = version_in (get store key) in
      if eqb actual expected
      then ok (
          set store key
            (record { state = state; version = expected + 1; state_version = state_version }))
      else err (concurrency_conflict name id expected actual)

pub record SagaState (S : Type 0) : Type 0 where
  pub state : S
  pub version : ℕ

abbrev pub saga_version : {S : Type 0} → Option (SagaState S) → ℕ
saga_version none = 0
saga_version (some r) = r.version

module _ {S : Type 0} where
  unfoldable pub load_saga : Map (SagaState S) → String → String → Option (SagaState S)
  load_saga store name id = get store (composite_key name id)

  unfoldable pub save_saga :
      Map (SagaState S) → String → String → S → ℕ → Result (Map (SagaState S))
  save_saga store name id state expected =
      let key = composite_key name id in
      let actual = saga_version (get store key) in
      if eqb actual expected
      then ok (set store key (record { state = state; version = expected + 1 }))
      else err (concurrency_conflict name id expected actual)

pub record Snapshot (S : Type 0) : Type 0 where
  pub state : S
  pub version : ℕ

module _ {S : Type 0} where
  unfoldable pub load_snapshot : Map (Snapshot S) → String → String → Option (Snapshot S)
  load_snapshot store name id = get store (composite_key name id)

  unfoldable pub save_snapshot : Map (Snapshot S) → String → String → Snapshot S → Map (Snapshot S)
  save_snapshot store name id snapshot = set store (composite_key name id) snapshot
