-- ===== src/Persistence/Tests.antt =====
-- Runs of the stores, and the properties at concrete inputs.
use Prim.Native.String.{◌++◌ as join}
use noddde.Base.{
  ℕ, suc, ◌+◌, String, ◌≡◌, ◌≢◌, ◌↔◌, refl, none, some, [], ◌∷◌, ◌++◌, ◌==◌, length, arith,
  if◌then◌else◌,
}
use noddde.Result.{ok, err, concurrency_conflict}
use noddde.Event.{Event}
use noddde.Map.{Map, get, set}
use noddde.Persistence.{
  EventStore, Stored, SagaState, composite_key, load_events, save_events, version_in, saga_version,
  load_state, save_state, load_saga, save_saga,
}
use noddde.Persistence.Keys.{composite_key-injective, composite_key-collides}
use noddde.Persistence.Streams.{load_events-save_events, save_events-fails_iff, second_writer_fails}
use noddde.Persistence.Versions.{save_state-outcome, load_state-save_state, load_saga-save_saga}

abbrev opened : Event ℕ
opened = record { name = "Opened"; payload = 0; metadata = none }

abbrev deposited : Event ℕ
deposited = record { name = "Deposited"; payload = 5; metadata = none }

abbrev one_event : EventStore ℕ
one_event = ("Account:1", opened ∷ []) ∷ []

abbrev two_events : EventStore ℕ
two_events = ("Account:1", opened ∷ deposited ∷ []) ∷ []

-- A stale save, at version 0 of a stream of one event.
stale_test :
    save_events one_event "Account" "1" (deposited ∷ []) 0
    ≡ err (concurrency_conflict "Account" "1" 0 1)
unfolding save_events get composite_key
stale_test = refl

load_events-save_events_example : load_events two_events "Account" "2" ≡ (
    if composite_key "Account" "1" == composite_key "Account" "2"
    then load_events one_event "Account" "2" ++ deposited ∷ []
    else load_events one_event "Account" "2")
unfolding save_events get set composite_key
load_events-save_events_example =
    load_events-save_events one_event two_events "Account" "1" (deposited ∷ []) 1 "Account" "2" refl

save_events-fails_iff_test :
    (save_events one_event "Account" "1" (deposited ∷ []) 3
      ≡ err (concurrency_conflict "Account" "1" 3 (length (load_events one_event "Account" "1"))))
    ↔ (length (load_events one_event "Account" "1") ≢ 3)
save_events-fails_iff_test = save_events-fails_iff one_event "Account" "1" deposited [] 3

second_writer_fails_test :
    save_events two_events "Account" "1" (opened ∷ []) 1
    ≡ err (concurrency_conflict "Account" "1" 1 (1 + suc (length {A = Event ℕ} [])))
unfolding save_events get set composite_key
second_writer_fails_test =
    second_writer_fails one_event two_events "Account" "1" deposited opened [] [] 1 refl

abbrev account : String
account = "Account"

abbrev first_id : String
first_id = "1"

composite_key-injective_test : (account ≡ account) × (first_id ≡ first_id)
composite_key-injective_test =
    composite_key-injective account account first_id first_id (ground arith) (ground arith) refl

composite_key-collides_test :
    composite_key (join "Account" (join ":" "Old")) "1"
    ≡ composite_key "Account" (join "Old" (join ":" "1"))
composite_key-collides_test = composite_key-collides "Account" "Old" "1"

abbrev no_state : Map (Stored ℕ)
no_state = []

abbrev stored_state : Map (Stored ℕ)
stored_state = ("Account:1", record { state = 7; version = 1; state_version = none }) ∷ []

save_state-outcome_test :
    (((store' : Map (Stored ℕ)) × (save_state stored_state "Account" "1" 9 1 none ≡ ok store'))
      ↔ (version_in (load_state stored_state "Account" "1") ≡ 1))
    × ((save_state stored_state "Account" "1" 9 1 none
          ≡ err (
              concurrency_conflict "Account" "1" 1
                (version_in (load_state stored_state "Account" "1"))))
        ↔ (version_in (load_state stored_state "Account" "1") ≢ 1))
save_state-outcome_test = save_state-outcome stored_state "Account" "1" 9 1 none

load_state-save_state_run : load_state stored_state "Account" "1" ≡ (
    if composite_key "Account" "1" == composite_key "Account" "1"
    then some (record { state = 7; version = 0 + 1; state_version = none })
    else load_state no_state "Account" "1")
unfolding save_state get set composite_key
load_state-save_state_run =
    load_state-save_state no_state stored_state "Account" "1" 7 0 none "Account" "1" refl

abbrev no_saga : Map (SagaState ℕ)
no_saga = []

abbrev one_saga : Map (SagaState ℕ)
one_saga = ("Order:1", record { state = 7; version = 1 }) ∷ []

load_saga-save_saga_test :
    (saga_version (load_saga no_saga "Order" "1") ≡ 0)
    × (load_saga one_saga "Order" "1" ≡ (
        if composite_key "Order" "1" == composite_key "Order" "1"
        then some (record { state = 7; version = 0 + 1 })
        else load_saga no_saga "Order" "1"))
unfolding save_saga get set composite_key
load_saga-save_saga_test = load_saga-save_saga no_saga one_saga "Order" "1" 7 0 "Order" "1" refl
