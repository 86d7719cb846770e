-- ===== src/Dispatching/Tests.antt =====
-- Runs of the domain's entry points, and the properties at concrete inputs. The world is the list of
-- what was done.
use noddde.Base.{String, ◌≡◌, refl, List, [], ◌∷◌, ◌++◌, Option, none, some, true, false}
use noddde.Result.{Result, ok, err, thrown, domain_shutdown}
use noddde.Map.{get, set}
use noddde.UnitOfWork.{Op, after}
use noddde.Bus.{register, dispatch_request}
use noddde.Scoped.{Operations, with_operation, acquire_operation}
use noddde.Dispatching.{
  AggregateEntry, Request, find_aggregate, register_decisions, register_aggregates,
  register_standalone, register_commands, route_command, dispatch_command, perform_shutdown,
}
use noddde.Dispatching.Routes.{route_command-eq}
use noddde.Dispatching.Closing.{perform_shutdown-eq, close_from_last}

abbrev account : AggregateEntry
account = record { name = "Account"; decide = "Open" ∷ "Close" ∷ [] }

abbrev order : AggregateEntry
order = record { name = "Order"; decide = "Place" ∷ [] }

abbrev entries : List AggregateEntry
entries = account ∷ order ∷ []

abbrev execute : AggregateEntry → Request String → Op (List String)
execute a command w = (ok tt, w ++ a.name ∷ [])

abbrev handlers : List (String × (Request String → Op (List String)))
handlers = ("Notify", λ command w. (ok tt, w ++ "notified" ∷ [])) ∷ []

abbrev bus : List (String × (Request String → Op (List String)))
bus =
    ("Open", execute account)
    ∷ ("Close", execute account)
    ∷ ("Place", execute order)
    ∷ ("Notify", λ command w. (ok tt, w ++ "notified" ∷ []))
    ∷ []

abbrev place : Request String
place = record { name = "Place"; target_aggregate_id = some "o1"; payload = ""; command_id = none }

registered : register_commands execute entries handlers [] ≡ ok bus
unfolding register_commands register_aggregates register_decisions register_standalone register get
    set
registered = refl

route_command-eq_example :
    route_command execute entries bus place []
    ≡ after (dispatch_request bus "Place" place []) (λ _ w. (ok (some "o1"), w))
route_command-eq_example = route_command-eq execute entries handlers bus place [] registered

placed : route_command execute entries bus place [] ≡ (ok (some "o1"), "Order" ∷ [])
unfolding route_command find_aggregate
placed = refl

abbrev closing : Operations
closing = record { shutting_down = true; active = 0; draining = false; drained = false }

abbrev execute_counted : AggregateEntry → Request String → Op (List String × Operations)
execute_counted a command (w, o) = (ok tt, (w ++ a.name ∷ [], o))

refused :
    dispatch_command execute_counted entries [] place ([], closing)
    ≡ (err domain_shutdown, ([], closing))
unfolding dispatch_command with_operation acquire_operation
refused = refl

abbrev component : String → Result (Unit {0}) → Op (List String)
component name outcome w = (outcome, w ++ name ∷ [])

abbrev components : List (Option (Op (List String)))
components =
    some (component "adapter" (ok tt))
    ∷ none
    ∷ some (component "store" (err (thrown "closed twice")))
    ∷ []

perform_shutdown-eq_test :
    perform_shutdown (λ w. w) none (component "bus" (ok tt)) components []
    ≡ (ok tt, close_from_last components ("bus" ∷ []))
perform_shutdown-eq_test = perform_shutdown-eq (λ w. w) none (component "bus" (ok tt)) components []
