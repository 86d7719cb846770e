-- ===== src/Saga.antt =====
-- packages/engine/src/executors/saga-executor.ts. The saga persistence is the interface of core;
-- a command is dispatched into the active scope, or, outside it, with a unit of work of its own.
-- Spans, trace contexts and log lines are left out.
pub mod Laws
mod Tests
use noddde.Base.{
  ℕ, String, List, [], ◌∷◌, Option, none, some, Bool, true, false, or_default, if◌then◌else◌,
}
use noddde.Result.{Result, ok, err, ◌>>=◌}
use noddde.Event.{Event, Metadata}
use noddde.Map.{Map, get}
use noddde.Persistence.{SagaState}
use noddde.Outbox.{contains, event_id_of}
use noddde.Enricher.{MetadataContext, Slot, value, undef}
use noddde.UnitOfWork.{Action, Op, after, UnitOfWork, enlist}
use noddde.Command.Lifecycle.{updating}
use noddde.Command.Execute.{Scope, publish_all, notify}
use noddde.Scoped.{fresh_scope, settle_scope}

-- SagaPersistence
pub record SagaPersistence (W S : Type 0) : Type 0 where
  pub load : String → String → Action W (Option (SagaState S))
  pub save : String → String → S → ℕ → Op W

-- `reaction.commands`: nothing, one command, or an array
pub data Commands (C : Type 0) : Type 0 where
  no_command : Commands C
  one_command : C → Commands C
  many_commands : List C → Commands C

pub record Reaction (S C : Type 0) : Type 0 where
  pub state : S
  pub commands : Commands C

pub record SagaHandler (W S C P : Type 0) : Type 0 where
  pub id : Event P → String
  pub handle : Event P → S → Action W (Reaction S C)

pub data Atomicity : Type 0 where
  atomic best_effort : Atomicity

pub record Saga (W S C P : Type 0) : Type 0 where
  pub on : Map (SagaHandler W S C P)
  pub started_by : List String
  pub initial_state : S
  pub atomicity : Option Atomicity

-- What the domain hands to the executor.
pub record Wiring (W S C P : Type 0) : Type 0 where
  pub persistence : SagaPersistence W S
  pub dispatch_scoped : MetadataContext → C → Op (Scope W (Event P) × W)
  pub dispatch_owned : MetadataContext → C → Op W
  pub publish : Event P → Op W
  pub on_events_dispatched : Option (List (Event P) → Op W)
  pub fresh_correlation : String

abbrev pub command_list : {C : Type 0} → Commands C → List C
command_list no_command = []
command_list (one_command c) = c ∷ []
command_list (many_commands cs) = cs

user_slot : Option String → Slot
user_slot none = undef
user_slot (some u) = value u

-- step 6, with the metadata of the event, its name and a fresh id
unfoldable pub saga_context : Option Metadata → String → String → MetadataContext
unfolding user_slot
saga_context none name fresh = record {
  correlation_id = value fresh;
  causation_id = value name;
  user_id = undef;
}
saga_context (some m) name fresh = record {
  correlation_id = value m.correlation_id;
  causation_id = value m.event_id;
  user_id = user_slot m.user_id;
}

module _ {W S C P : Type 0} (wiring : Wiring W S C P) (name : String) (saga : Saga W S C P) where
  abbrev pub InScope : Type 0
  InScope = Scope W (Event P) × W

  -- step 4: the state and the version to go on from, if the event is not to be ignored
  unfoldable pub bootstrap : String → Option (SagaState S) → Option (S × ℕ)
  bootstrap event_name none =
      if contains saga.started_by event_name then some (saga.initial_state, 0) else none
  bootstrap event_name (some loaded) = some (loaded.state, loaded.version)

  -- the save is enlisted, and runs at the commit
  enlist_save : String → S → ℕ → Op InScope
  enlist_save id state version (scope, w) =
      let (r, u) =
        updating (λ u. enlist u (wiring.persistence.save name id state version)) scope.uow in
      (r, (record scope { uow = u }, w))

  unfoldable pub published : List (Event P) → Op W
  published events w =
      after (publish_all wiring.publish events w) (λ _. notify wiring.on_events_dispatched events)

  -- the reaction's commands join the unit of work that saves the state
  unfoldable pub run_atomic : MetadataContext → String → ℕ → Reaction S C → Op W
  unfolding enlist_save
  run_atomic ctx id version reaction w =
      after
        (settle_scope (
          after (enlist_save id reaction.state version (fresh_scope, w))
            (λ _. publish_all (wiring.dispatch_scoped ctx) (command_list reaction.commands))))
        (λ done. published done.1)

  -- the state is committed first, and each command has a unit of work of its own
  unfoldable pub run_best_effort : MetadataContext → String → ℕ → Reaction S C → Op W
  unfolding enlist_save
  run_best_effort ctx id version reaction w =
      after (settle_scope (enlist_save id reaction.state version (fresh_scope, w))) (λ done w.
        after (published done.1 w)
          (λ _. publish_all (wiring.dispatch_owned ctx) (command_list reaction.commands)))

  run_mode : Atomicity → MetadataContext → String → ℕ → Reaction S C → Op W
  run_mode atomic = run_atomic
  run_mode best_effort = run_best_effort

  react : SagaHandler W S C P → Event P → Option (S × ℕ) → Op W
  react handler event none w = (ok tt, w)
  react handler event (some (state, version)) w = after (handler.handle event state w) (λ reaction.
      run_mode (or_default saga.atomicity atomic)
        (saga_context event.metadata event.name wiring.fresh_correlation) (handler.id event) version
        reaction)

  on_entry : Option (SagaHandler W S C P) → Event P → Op W
  on_entry none event w = (ok tt, w)
  on_entry (some handler) event w =
      after (wiring.persistence.load name (handler.id event) w)
        (λ loaded. react handler event (bootstrap event.name loaded))

  unfoldable pub execute_saga : Event P → Op W
  unfolding on_entry react run_mode
  execute_saga event = on_entry (get saga.on event.name) event
